-- ===== src/Dict/Nested.antt =====
-- Go's `map[string]map[string]V`. A missing outer key reads as the nil map, which is empty.
use open_rtc.Base.{
  suc, ◌<◌, ◌≤◌, String, ◌≡◌, Bool, ◌&&◌, Option, none, some, arith, ◌==◌, eq_iff, if◌then◌else◌,
  nat_eq, inl, inr, Option-cases,
}
use open_rtc.Dict.{
  Dict, empty, get, is_some, put, remove, size, IsMap, get-put, get-remove, get-empty, get_of_size,
  size-remove-le, size-empty, put-IsMap, remove-IsMap, size-put, empty-IsMap,
}

module _ {ℓ} {V : Type ℓ} where
  abbrev or_empty : Option (Dict V) → Dict V
  or_empty none = empty
  or_empty (some m) = m

  -- d[r], the nil map where `r` is missing
  unfoldable pub at : Dict (Dict V) → String → Dict V
  at d r = or_empty (get d r)

  -- v, ok := d[r][k]
  abbrev pub get_in : Dict (Dict V) → String → String → Option V
  get_in d r k = get (at d r) k

  abbrev pub has_in : Dict (Dict V) → String → String → Bool
  has_in d r k = is_some (get_in d r k)

  -- if d[r] == nil { d[r] = make(...) }; d[r][k] = v
  unfoldable pub put_in : Dict (Dict V) → String → String → V → Dict (Dict V)
  unfolding at
  put_in d r k v = put d r (put (at d r) k v)

  -- The inner map without a key, dropped from the outer map when that was its last entry.
  store_rest : Dict (Dict V) → String → Dict V → Dict (Dict V)
  store_rest d r rest = if nat_eq (size rest) 0 then remove d r else put d r rest

  -- if d[r] != nil { delete(d[r], k); if len(d[r]) == 0 { delete(d, r) } }
  unfoldable pub remove_in : Dict (Dict V) → String → String → Dict (Dict V)
  unfolding store_rest
  remove_in d r k = elim (get d r) [ none ↦ d | some m ↦ store_rest d r (remove m k) ]

  at-put :
      (d : Dict (Dict V)) (r j : String) (m : Dict V)
      → at (put d r m) j ≡ (if r == j then m else at d j)
  unfolding at
  at-put d r j m = ground (arith, get-put d r j m)

  pub get_in-put_in :
      (d : Dict (Dict V)) (r k : String) (v : V) (r' k' : String)
      → get_in (put_in d r k v) r' k' ≡ (if r == r' && k == k' then some v else get_in d r' k')
  unfolding put_in
  get_in-put_in d r k v r' k' =
      ground (arith, at-put d r r' (put (at d r) k v), get-put (at d r) k k' v, eq_iff r r')

  pub get_in-remove_in :
      (d : Dict (Dict V)) (r k r' k' : String)
      → get_in (remove_in d r k) r' k' ≡ (if r == r' && k == k' then none else get_in d r' k')
  unfolding remove_in at
  get_in-remove_in d r k r' k' = elim (Option-cases (get d r)) [
    | inl e ↦ rw (e, remove_in) (ground (arith, eq_iff r r', e, get-empty {V = V} k'))
    | inr (m, e) ↦
        rw (e, remove_in)
          (ground (
            arith,
            e,
            get-remove d r r',
            get-put d r r' (remove m k),
            get-remove m k k',
            get_of_size (remove m k) k',
            get-empty {V = V} k',
            eq_iff r r',
          ))
  ]

  -- if d[r] == nil { d[r] = make(...) }
  unfoldable pub ensure : Dict (Dict V) → String → Dict (Dict V)
  unfolding at
  ensure d r = put d r (at d r)

  pub get_in-ensure :
      (d : Dict (Dict V)) (r r' k' : String) → get_in (ensure d r) r' k' ≡ get_in d r' k'
  unfolding ensure
  get_in-ensure d r r' k' = ground (arith, at-put d r r' (at d r), eq_iff r r')

  -- The outer keys and those of each inner map stand once.
  pub record IsNested (d : Dict (Dict V)) : Type ℓ where
    pub outer : IsMap d
    pub inner : (r : String) (m : Dict V) → get d r ≡ some m → IsMap m

  -- No inner map is empty.
  abbrev pub IsTidy : Dict (Dict V) → Type ℓ
  IsTidy d = (r : String) (m : Dict V) → get d r ≡ some m → 0 < size m

  pub at-IsMap : (d : Dict (Dict V)) (r : String) → IsNested d → IsMap (at d r)
  unfolding at
  at-IsMap d r h = elim (Option-cases (get d r)) [
    | inl e ↦ rw e (empty-IsMap V)
    | inr (m, e) ↦ rw e (h.inner r m e)
  ]

  put-IsNested :
      (d : Dict (Dict V)) (r : String) (m : Dict V) → IsNested d → IsMap m → IsNested (put d r m)
  put-IsNested d r m h k = record {
    outer = put-IsMap d r m h.outer;
    inner = λ j n e. ground (arith, get-put d r j m, h.inner j n);
  }

  pub ensure-IsNested : (d : Dict (Dict V)) (r : String) → IsNested d → IsNested (ensure d r)
  unfolding ensure
  ensure-IsNested d r h = put-IsNested d r (at d r) h (at-IsMap d r h)

  pub put_in-IsNested :
      (d : Dict (Dict V)) (r k : String) (v : V) → IsNested d → IsNested (put_in d r k v)
  unfolding put_in
  put_in-IsNested d r k v h =
      put-IsNested d r (put (at d r) k v) h (put-IsMap (at d r) k v (at-IsMap d r h))

  pub put_in-IsTidy :
      (d : Dict (Dict V)) (r k : String) (v : V) → IsTidy d → IsTidy (put_in d r k v)
  unfolding put_in
  put_in-IsTidy d r k v h = λ j m e. ground (
    arith,
    get-put d r j (put (at d r) k v),
    h j m,
    size-put (at d r) k v,
    get_of_size (at d r) k,
  )

  pub remove_in-IsNested :
      (d : Dict (Dict V)) (r k : String) → IsNested d → IsNested (remove_in d r k)
  unfolding remove_in
  remove_in-IsNested d r k h = elim (Option-cases (get d r)) [
    | inl e ↦ rw (e, remove_in) h
    | inr (m, e) ↦
        rw (e, remove_in)
          (record {
            outer = ground (arith, put-IsMap d r (remove m k) h.outer, remove-IsMap d r h.outer);
            inner = λ j n f. ground (
              arith,
              get-put d r j (remove m k),
              get-remove d r j,
              h.inner j n,
              remove-IsMap m k (h.inner r m e),
            );
          })
  ]

  pub remove_in-IsTidy : (d : Dict (Dict V)) (r k : String) → IsTidy d → IsTidy (remove_in d r k)
  unfolding remove_in
  remove_in-IsTidy d r k h = elim (Option-cases (get d r)) [
    | inl e ↦ rw (e, remove_in) h
    | inr (m, e) ↦
        rw (e, remove_in)
          λ j n f. ground (arith, get-put d r j (remove m k), get-remove d r j, h j n)
  ]

module _ {ℓ} {V : Type ℓ} where
  -- delete(d, r)
  pub get_in-remove :
      (d : Dict (Dict V)) (r r' k' : String)
      → get_in (remove d r) r' k' ≡ (if r == r' then none else get_in d r' k')
  unfolding at
  get_in-remove d r r' k' = ground (arith, get-remove d r r', get-empty {V = V} k')

  pub remove-IsNested : (d : Dict (Dict V)) (r : String) → IsNested d → IsNested (remove d r)
  remove-IsNested d r h = record {
    outer = remove-IsMap d r h.outer;
    inner = λ j m e. ground (arith, get-remove d r j, h.inner j m);
  }

  pub remove-IsTidy : (d : Dict (Dict V)) (r : String) → IsTidy d → IsTidy (remove d r)
  remove-IsTidy d r h = λ j m e. ground (arith, get-remove d r j, h j m)

-- The sizes of the inner maps.
module _ {ℓ} {V : Type ℓ} where
  pub size-at-put_in :
      (d : Dict (Dict V)) (r k : String) (v : V) (r' : String)
      → size (at (put_in d r k v) r') ≡ (
          if r == r'
          then (if has_in d r k then size (at d r) else suc (size (at d r)))
          else size (at d r'))
  unfolding put_in
  size-at-put_in d r k v r' =
      ground (arith, at-put d r r' (put (at d r) k v), size-put (at d r) k v)

  pub size-at-ensure :
      (d : Dict (Dict V)) (r r' : String) → size (at (ensure d r) r') ≡ size (at d r')
  unfolding ensure
  size-at-ensure d r r' = ground (arith, at-put d r r' (at d r), eq_iff r r')

  pub size-at-remove-le :
      (d : Dict (Dict V)) (r r' : String) → size (at (remove d r) r') ≤ size (at d r')
  unfolding at
  size-at-remove-le d r r' = ground (arith, get-remove d r r', size-empty V)

  pub size-at-remove_in-le :
      (d : Dict (Dict V)) (r k r' : String) → size (at (remove_in d r k) r') ≤ size (at d r')
  unfolding remove_in at
  size-at-remove_in-le d r k r' = elim (Option-cases (get d r)) [
    | inl e ↦ rw (e, remove_in) (omega arith)
    | inr (m, e) ↦
        rw (e, remove_in)
          (ground (
            arith,
            e,
            get-remove d r r',
            get-put d r r' (remove m k),
            size-remove-le m k,
            size-empty V,
            eq_iff r r',
          ))
  ]

pub empty-IsNested {ℓ} : (V : Type ℓ) → IsNested (empty {V = Dict V})
empty-IsNested V = record {
  outer = empty-IsMap (Dict V);
  inner = λ r m e. cc (get-empty {V = Dict V} r);
}

pub empty-IsTidy {ℓ} : (V : Type ℓ) → IsTidy (empty {V = Dict V})
empty-IsTidy V = λ r m e. cc (get-empty {V = Dict V} r)

pub get_in-empty {ℓ} : {V : Type ℓ} (r k : String) → get_in (empty {V = Dict V}) r k ≡ none
unfolding at
get_in-empty {V = V} r k = simp get-empty

pub ruleset nested_laws = (get_in-put_in, get_in-remove_in, get_in-ensure, get_in-empty)
