-- ===== src/Dict.antt =====
-- Go's `map[string]V`, as an association list; the order of the entries stands for the order in
-- which `range` hands them out. A `map[string]struct{}` is a `Names`.
pub mod Nested
use open_rtc.Base.{
  ℕ, suc, ◌≤◌, String, ◌≡◌, refl, Bool, true, false, Option, none, some, List, [], ◌∷◌, map, arith,
  ◌==◌, eq_iff, if◌then◌else◌, length, contains, Distinct,
}

insert {ℓ} : {V : Type ℓ} → String → V → List (String × V) → List (String × V)
insert k v [] = (k, v) ∷ []
insert k v ((j, w) ∷ m) = if j == k then (k, v) ∷ m else (j, w) ∷ insert k v m

find {ℓ} : {V : Type ℓ} → String → List (String × V) → Option V
find k [] = none
find k ((j, v) ∷ m) = if j == k then some v else find k m

erase {ℓ} : {V : Type ℓ} → String → List (String × V) → List (String × V)
erase k [] = []
erase k ((j, v) ∷ m) = let rest = erase k m in if j == k then rest else (j, v) ∷ rest

keys_of {ℓ} : {V : Type ℓ} → List (String × V) → List String
keys_of [] = []
keys_of ((j, v) ∷ m) = j ∷ keys_of m

pub record Dict {ℓ} (V : Type ℓ) : Type ℓ where
  pub entries : List (String × V)

abbrev pub is_some {ℓ} : {V : Type ℓ} → Option V → Bool
is_some none = false
is_some (some v) = true

module _ {ℓ} {V : Type ℓ} where
  -- make(map[string]V)
  unfoldable pub empty : Dict V
  empty = record { entries = [] }

  -- v, ok := d[k]
  unfoldable pub get : Dict V → String → Option V
  unfolding find
  get d k = find k d.entries

  -- _, ok := d[k]
  abbrev pub has : Dict V → String → Bool
  has d k = is_some (get d k)

  -- d[k] = v
  unfoldable pub put : Dict V → String → V → Dict V
  unfolding insert
  put d k v = record { entries = insert k v d.entries }

  -- delete(d, k)
  unfoldable pub remove : Dict V → String → Dict V
  unfolding erase
  remove d k = record { entries = erase k d.entries }

  -- len(d)
  unfoldable pub size : Dict V → ℕ
  size d = length d.entries

  -- for k := range d
  unfoldable pub keys : Dict V → List String
  unfolding keys_of
  keys d = keys_of d.entries

  find-insert :
      (k j : String) (v : V) (m : List (String × V))
      → find j (insert k v m) ≡ (if k == j then some v else find j m)
  unfolding find insert
  find-insert k j v [] = refl
  find-insert k j v ((i, w) ∷ m) =
      ground (arith, find-insert k j v m, eq_iff k j, eq_iff i k, eq_iff i j)

  find-erase :
      (k j : String) (m : List (String × V))
      → find j (erase k m) ≡ (if k == j then none else find j m)
  unfolding find erase
  find-erase k j [] = ground arith
  find-erase k j ((i, w) ∷ m) = ground (arith, find-erase k j m, eq_iff k j, eq_iff i k, eq_iff i j)

  pub get-put :
      (d : Dict V) (k j : String) (v : V) → get (put d k v) j ≡ (if k == j then some v else get d j)
  unfolding get put
  get-put d k j v = find-insert k j v d.entries

  pub get-remove :
      (d : Dict V) (k j : String) → get (remove d k) j ≡ (if k == j then none else get d j)
  unfolding get remove
  get-remove d k j = find-erase k j d.entries

pub get-empty {ℓ} : {V : Type ℓ} (k : String) → get (empty {V = V}) k ≡ none
unfolding get empty
get-empty k = refl

pub ruleset dict_laws = (get-empty, get-put, get-remove)

module _ {ℓ} {V : Type ℓ} where
  contains-keys_of :
      (m : List (String × V)) (k : String) → contains (keys_of m) k ≡ is_some (find k m)
  unfolding keys_of find contains
  contains-keys_of [] k = refl
  contains-keys_of ((j, v) ∷ m) k = ground (arith, contains-keys_of m k)

  -- `range` visits exactly the keys.
  pub contains-keys : (d : Dict V) (k : String) → contains (keys d) k ≡ has d k
  unfolding keys get
  contains-keys d k = contains-keys_of d.entries k

  length-keys_of : (m : List (String × V)) → length (keys_of m) ≡ length m
  unfolding keys_of
  length-keys_of [] = refl
  length-keys_of ((j, v) ∷ m) = omega (arith, length-keys_of m)

  pub length-keys : (d : Dict V) → length (keys d) ≡ size d
  unfolding keys size
  length-keys d = length-keys_of d.entries

  -- Each key stands once. Every map that the operations build has this.
  abbrev pub IsMap : Dict V → Type 0
  IsMap d = Distinct (keys d)

  insert-Distinct :
      (k : String) (v : V) (m : List (String × V))
      → Distinct (keys_of m)
      → Distinct (keys_of (insert k v m))
  unfolding keys_of insert contains
  insert-Distinct k v [] h = (refl, tt)
  insert-Distinct k v ((j, w) ∷ m) h = ground (
    arith,
    insert-Distinct k v m,
    contains-keys_of (insert k v m) j,
    contains-keys_of m j,
    find-insert k j v m,
    eq_iff j k,
    eq_iff k j,
  )

  pub put-IsMap : (d : Dict V) (k : String) (v : V) → IsMap d → IsMap (put d k v)
  unfolding keys put
  put-IsMap d k v h = insert-Distinct k v d.entries h

  erase-Distinct :
      (k : String) (m : List (String × V)) → Distinct (keys_of m) → Distinct (keys_of (erase k m))
  unfolding keys_of erase contains
  erase-Distinct k [] h = tt
  erase-Distinct k ((j, w) ∷ m) h = ground (
    arith,
    erase-Distinct k m,
    contains-keys_of (erase k m) j,
    contains-keys_of m j,
    find-erase k j m,
    eq_iff j k,
    eq_iff k j,
  )

  pub remove-IsMap : (d : Dict V) (k : String) → IsMap d → IsMap (remove d k)
  unfolding keys remove
  remove-IsMap d k h = erase-Distinct k d.entries h

  length-insert :
      (k : String) (v : V) (m : List (String × V))
      → length (insert k v m) ≡ (if is_some (find k m) then length m else suc (length m))
  unfolding insert find
  length-insert k v [] = refl
  length-insert k v ((j, w) ∷ m) = ground (arith, length-insert k v m)

  pub size-put :
      (d : Dict V) (k : String) (v : V)
      → size (put d k v) ≡ (if has d k then size d else suc (size d))
  unfolding size put get
  size-put d k v = length-insert k v d.entries

  length-erase-le : (k : String) (m : List (String × V)) → length (erase k m) ≤ length m
  unfolding erase
  length-erase-le k [] = omega arith
  length-erase-le k ((j, w) ∷ m) = ground (arith, length-erase-le k m)

  pub size-remove-le : (d : Dict V) (k : String) → size (remove d k) ≤ size d
  unfolding size remove
  size-remove-le d k = length-erase-le k d.entries

  -- An empty map has no key.
  pub get_of_size : (d : Dict V) (k : String) → size d ≡ 0 → get d k ≡ none
  unfolding size get find
  get_of_size d k h = go d.entries h
    where
      go : (m : List (String × V)) → length m ≡ 0 → find k m ≡ none
      go [] e = refl
      go ((j, v) ∷ m) e = absurd (omega arith)

pub empty-IsMap {ℓ} : (V : Type ℓ) → IsMap (empty {V = V})
unfolding empty keys
empty-IsMap V = tt

pub size-empty {ℓ} : (V : Type ℓ) → size (empty {V = V}) ≡ 0
unfolding empty size
size-empty V = refl
