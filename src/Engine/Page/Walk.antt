-- ===== src/Engine/Page/Walk.antt =====
-- Reading a room's members page by page: server/internal/roomengine/engine.go, PageSnapshot.
use open_rtc.Base.{
  ℕ, zero, suc, ◌+◌, ◌-◌, ◌≤◌, ◌<◌, String, ◌≡◌, refl, ap, sym, subst, ◌∙◌, true, false, List, [],
  ◌∷◌, ◌++◌, arith, ◌==◌, eq_iff, eq_refl, if◌then◌else◌, Bool-cases, inl, inr, ltb, length, take,
  drop, pos, contains, contains-sort_strings, Distinct, length-sort_strings, sort_strings,
  sort_strings-Distinct,
}
use open_rtc.Engine.{Snapshot}
use open_rtc.Engine.Page.{
  page_snapshot, page_start, page_limit, page_end, after_cursor, last_before, slice,
}

contains-last_before :
    (xs : List String) (k : ℕ) → k < length xs → contains xs (last_before xs (suc k)) ≡ true
unfolding contains last_before
contains-last_before [] k h = ground arith
contains-last_before (x ∷ xs) zero h = ground (arith, eq_refl x)
contains-last_before (x ∷ xs) (suc k) h = ground (arith, contains-last_before xs k)

-- The cursor of a page leads to where the page ends.
after_cursor-last_before :
    (xs : List String) (k index : ℕ)
    → k < length xs
    → Distinct xs
    → after_cursor xs (last_before xs (suc k)) index ≡ index + suc k
unfolding after_cursor last_before
after_cursor-last_before [] k index h d = omega arith
after_cursor-last_before (x ∷ xs) zero index h d = ground (arith, eq_refl x)
after_cursor-last_before (x ∷ xs) (suc k) index h d = ground (
  arith,
  after_cursor-last_before xs k (index + 1),
  contains-last_before xs k,
  eq_iff x (last_before xs (suc k)),
  d.0,
)

take-drop : (n : ℕ) (xs : List String) → take n xs ++ drop n xs ≡ xs
take-drop zero xs = refl
take-drop (suc n) [] = refl
take-drop (suc n) (x ∷ xs) = ap (◌∷◌ x) (take-drop n xs)

take-nil : (n : ℕ) → take {A = String} n [] ≡ []
take-nil zero = refl
take-nil (suc n) = refl

slice-drop :
    (xs : List String) (start end : ℕ)
    → start ≤ end
    → slice xs start end ++ drop end xs ≡ drop start xs
unfolding slice
slice-drop xs zero end h =
    subst (λ n. take n xs ++ drop end xs ≡ xs) (omega arith) (take-drop end xs)
slice-drop xs (suc start) zero h = ground arith
slice-drop [] (suc start) (suc end) h = ground (arith, take-nil (suc end - suc start))
slice-drop (x ∷ xs) (suc start) (suc end) h = ground (arith, slice-drop xs start end)

drop-all : (n : ℕ) (xs : List String) → length xs ≤ n → drop n xs ≡ []
drop-all zero [] h = refl
drop-all zero (x ∷ xs) h = ground arith
drop-all (suc n) [] h = refl
drop-all (suc n) (x ∷ xs) h = drop-all n xs (omega arith)

-- The members that a client reads that asks for pages until there is no next cursor, at most
-- `pages` of them.
unfoldable pub walk : ℕ → Snapshot → ℕ → String → List String
walk zero snapshot limit cursor = []
walk (suc pages) snapshot limit cursor =
    let page = page_snapshot snapshot (record { limit = pos limit; cursor = cursor }) in
    let rest = walk pages snapshot limit page.next_cursor in
    page.members ++ (if page.next_cursor == "" then [] else rest)

append-nil : (xs : List String) → xs ++ [] ≡ xs
append-nil [] = refl
append-nil (x ∷ xs) = ap (◌∷◌ x) (append-nil xs)

module _ (s : Snapshot) (l : ℕ) where
  abbrev sorted : List String
  sorted = sort_strings s.members

  -- A page that has members after it, and the page that its cursor leads to.
  next_page :
      (k : ℕ)
      → Distinct s.members
      → contains s.members "" ≡ false
      → k < length sorted
      → ((last_before sorted (suc k) == "") ≡ false)
        × (page_start sorted (last_before sorted (suc k)) ≡ suc k)
  unfolding page_start
  next_page k d h inside =
      let there = contains-last_before sorted k inside in
      let unnamed : (last_before sorted (suc k) == "") ≡ false = ground (
        arith,
        there,
        contains-sort_strings s.members "",
        h,
        eq_iff (last_before sorted (suc k)) "",
      ) in
      (
        unnamed,
        ground (
          arith,
          unnamed,
          after_cursor-last_before sorted k 0 inside (sort_strings-Distinct s.members d),
        ),
      )

  abbrev end_of : ℕ → ℕ
  end_of start = page_end (start + page_limit (pos (suc l)) (length sorted)) (length sorted)

  page_members :
      (start : ℕ) (cursor : String)
      → page_start sorted cursor ≡ start
      → (page_snapshot s (record { limit = pos (suc l); cursor = cursor })).members
        ≡ slice sorted start (end_of start)
  unfolding page_snapshot
  page_members start cursor at = ap (λ n. slice sorted n (end_of n)) at

  page_next_cursor :
      (start : ℕ) (cursor : String)
      → page_start sorted cursor ≡ start
      → (page_snapshot s (record { limit = pos (suc l); cursor = cursor })).next_cursor
        ≡ (if ltb (end_of start) (length sorted) then last_before sorted (end_of start) else "")
  unfolding page_snapshot
  page_next_cursor start cursor at =
      ap (λ n. if ltb (end_of n) (length sorted) then last_before sorted (end_of n) else "") at

  end_inside :
      (start : ℕ) → start ≤ length sorted → (start ≤ end_of start) × (end_of start ≤ length sorted)
  unfolding page_end page_limit
  end_inside start inside = ground arith

  end_before :
      (start : ℕ) → ltb (end_of start) (length sorted) ≡ true → end_of start ≡ suc (start + l)
  unfolding page_end page_limit
  end_before start more = ground arith

  end_last :
      (start : ℕ)
      → start ≤ length sorted
      → ltb (end_of start) (length sorted) ≡ false
      → end_of start ≡ length sorted
  unfolding page_end page_limit
  end_last start inside done = ground arith

  -- The pages from a cursor on, where enough of them are asked for.
  walk_from :
      (pages start : ℕ) (cursor : String)
      → Distinct s.members
      → contains s.members "" ≡ false
      → page_start sorted cursor ≡ start
      → start ≤ length sorted
      → length sorted ≤ start + pages
      → walk pages s (suc l) cursor ≡ drop start sorted
  unfolding walk
  walk_from zero start cursor d h at inside enough = sym (drop-all start sorted (omega arith))
  walk_from (suc pages) start cursor d h at inside enough =
      elim (Bool-cases (ltb (end_of start) (length sorted))) [
        | inl more ↦ before (λ start' cursor'. walk_from pages start' cursor' d h) more
        | inr done ↦ last done
      ]
    where
      before :
          ((start' : ℕ) (cursor' : String)
            → page_start sorted cursor' ≡ start'
            → start' ≤ length sorted
            → length sorted ≤ start' + pages
            → walk pages s (suc l) cursor' ≡ drop start' sorted)
          → ltb (end_of start) (length sorted) ≡ true
          → walk (suc pages) s (suc l) cursor ≡ drop start sorted
      before again more =
          let bound : suc (start + l) ≤ length sorted =
            ground (arith, end_before start more, end_inside start inside) in
          let next = next_page (start + l) d h (omega arith) in
          rw
            (
              page_members start cursor at,
              page_next_cursor start cursor at,
              more,
              end_before start more,
              next.0,
            )
            (ap (λ rest. slice sorted start (suc (start + l)) ++ rest)
                (again (suc (start + l)) (last_before sorted (suc (start + l))) next.1 bound
                  (omega arith))
              ∙ slice-drop sorted start (suc (start + l)) (omega arith))

      last :
          ltb (end_of start) (length sorted) ≡ false
          → walk (suc pages) s (suc l) cursor ≡ drop start sorted
      last done =
          rw
            (
              page_members start cursor at,
              page_next_cursor start cursor at,
              done,
              end_last start inside done,
            )
            (ap (λ rest. slice sorted start (length sorted) ++ rest)
                (sym (drop-all (length sorted) sorted (omega arith)))
              ∙ slice-drop sorted start (length sorted) inside)

-- A client that follows the cursors, with any positive limit, from the empty cursor on, reads
-- each member exactly once, in order, in at most as many pages as there are members: for a
-- snapshot whose members are different and none of them is the empty name.
pub pages_complete :
    (s : Snapshot) (l pages : ℕ)
    → Distinct s.members
    → contains s.members "" ≡ false
    → length s.members ≤ pages
    → walk pages s (suc l) "" ≡ sort_strings s.members
unfolding page_start
pages_complete s l pages d h enough =
    walk_from s l pages 0 "" d h refl (omega arith)
      (omega (arith, length-sort_strings s.members, enough))
