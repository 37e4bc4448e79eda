-- ===== src/Base/Sort.antt =====
-- `sort.Strings`: the standard library's sort, written as insertion into a sorted list.
use Prim.Native.Nat.{suc}
use Prim.Native.String.{String}
use mathlib.Core.Path.{◌≡◌, refl, sym, ap₂, ◌∙◌}
use mathlib.Core.Bool.{true, false, ◌||◌}
use mathlib.Core.List.{List, [], ◌∷◌}
use native.Mathlib.Omega.{arith}
use text.Mathlib.Text.{◌==◌}
use text.Mathlib.TextEquality.{eq_iff}
use text.Mathlib.TextPositions.{eq_refl}
use open_rtc.Base.Tests.{if◌then◌else◌}
use open_rtc.Base.Lists.{length, contains, Distinct}
use open_rtc.Base.Order.{str_le, str_le_total, str_le_trans, str_le_antisymm, str_le_refl}

insert : String → List String → List String
insert x [] = x ∷ []
insert x (y ∷ ys) = let rest = insert x ys in if str_le x y then x ∷ y ∷ ys else y ∷ rest

unfoldable pub sort_strings : List String → List String
unfolding insert str_le
sort_strings [] = []
sort_strings (x ∷ xs) = insert x (sort_strings xs)

contains-insert :
    (x : String) (ys : List String) (k : String)
    → contains (insert x ys) k ≡ (x == k || contains ys k)
unfolding insert contains
contains-insert x [] k = refl
contains-insert x (y ∷ ys) k = ground (arith, contains-insert x ys k)

pub contains-sort_strings :
    (xs : List String) (k : String) → contains (sort_strings xs) k ≡ contains xs k
unfolding sort_strings contains
contains-sort_strings [] k = refl
contains-sort_strings (x ∷ xs) k =
    ground (arith, contains-insert x (sort_strings xs) k, contains-sort_strings xs k)

length-insert : (x : String) (ys : List String) → length (insert x ys) ≡ suc (length ys)
unfolding insert
length-insert x [] = refl
length-insert x (y ∷ ys) = ground (arith, length-insert x ys)

pub length-sort_strings : (xs : List String) → length (sort_strings xs) ≡ length xs
unfolding sort_strings
length-sort_strings [] = refl
length-sort_strings (x ∷ xs) =
    omega (arith, length-insert x (sort_strings xs), length-sort_strings xs)

insert-Distinct :
    (x : String) (ys : List String) → contains ys x ≡ false → Distinct ys → Distinct (insert x ys)
unfolding insert contains
insert-Distinct x [] h d = (refl, tt)
insert-Distinct x (y ∷ ys) h d =
    ground (arith, insert-Distinct x ys, contains-insert x ys y, eq_iff x y, eq_iff y x)

pub sort_strings-Distinct : (xs : List String) → Distinct xs → Distinct (sort_strings xs)
unfolding sort_strings
sort_strings-Distinct [] d = tt
sort_strings-Distinct (x ∷ xs) d =
    insert-Distinct x (sort_strings xs) (contains-sort_strings xs x ∙ d.0)
      (sort_strings-Distinct xs d.1)

-- `x` is at most every name of a list.
abbrev pub Under : String → List String → Type 0
Under x [] = Unit {0}
Under x (y ∷ ys) = (str_le x y ≡ true) × Under x ys

abbrev pub IsSorted : List String → Type 0
IsSorted [] = Unit {0}
IsSorted (x ∷ xs) = Under x xs × IsSorted xs

Under-trans : (x y : String) (ys : List String) → str_le x y ≡ true → Under y ys → Under x ys
Under-trans x y [] h u = tt
Under-trans x y (z ∷ ys) h u = (str_le_trans x y z h u.0, Under-trans x y ys h u.1)

Under-insert :
    (x y : String) (ys : List String) → str_le x y ≡ true → Under x ys → Under x (insert y ys)
unfolding insert
Under-insert x y [] h u = (h, tt)
Under-insert x y (z ∷ ys) h u = ground (arith, Under-insert x y ys)

insert-IsSorted : (x : String) (ys : List String) → IsSorted ys → IsSorted (insert x ys)
unfolding insert
insert-IsSorted x [] s = (tt, tt)
insert-IsSorted x (y ∷ ys) s =
    ground (arith, insert-IsSorted x ys, Under-insert y x ys, Under-trans x y ys, str_le_total x y)

pub sort_strings-IsSorted : (xs : List String) → IsSorted (sort_strings xs)
unfolding sort_strings
sort_strings-IsSorted [] = tt
sort_strings-IsSorted (x ∷ xs) = insert-IsSorted x (sort_strings xs) (sort_strings-IsSorted xs)

pub Under-contains :
    (x : String) (ys : List String) (k : String)
    → Under x ys
    → contains ys k ≡ true
    → str_le x k ≡ true
unfolding contains
Under-contains x [] k u h = cc
Under-contains x (y ∷ ys) k u h = ground (arith, Under-contains x ys k, eq_iff y k)

abbrev pub SameNames : List String → List String → Type 0
SameNames xs ys = (k : String) → contains xs k ≡ contains ys k

Under-head :
    (x y : String) (xs ys : List String)
    → Under x xs
    → contains (x ∷ xs) y ≡ true
    → str_le x y ≡ true
unfolding contains
Under-head x y xs ys u h = ground (arith, Under-contains x xs y u, eq_iff x y, str_le_refl x)

-- A sorted list without repetition is determined by its names.
pub eq_of_IsSorted :
    (xs ys : List String)
    → IsSorted xs
    → IsSorted ys
    → Distinct xs
    → Distinct ys
    → SameNames xs ys
    → xs ≡ ys
unfolding contains
eq_of_IsSorted [] [] s t d e h = refl
eq_of_IsSorted [] (y ∷ ys) s t d e h = ground (arith, h y, eq_refl y)
eq_of_IsSorted (x ∷ xs) [] s t d e h = ground (arith, h x, eq_refl x)
eq_of_IsSorted (x ∷ xs) (y ∷ ys) s t d e h =
    let heads : x ≡ y =
      str_le_antisymm x y (Under-head x y xs ys s.0 (h y ∙ ground (arith, eq_refl y)))
        (Under-head y x ys xs t.0 (sym (h x) ∙ ground (arith, eq_refl x))) in
    ap₂ ◌∷◌ heads (
      eq_of_IsSorted xs ys s.1 t.1 d.1 e.1
        λ k. ground (arith, h k, heads, eq_iff x k, eq_iff y k, d.0, e.0))

-- The order in which a map hands out its keys does not show after the sort.
pub sort_strings_unique :
    (xs ys : List String)
    → Distinct xs
    → Distinct ys
    → SameNames xs ys
    → sort_strings xs ≡ sort_strings ys
sort_strings_unique xs ys d e h =
    eq_of_IsSorted (sort_strings xs) (sort_strings ys) (sort_strings-IsSorted xs)
      (sort_strings-IsSorted ys) (sort_strings-Distinct xs d) (sort_strings-Distinct ys e)
      λ k. contains-sort_strings xs k ∙ h k ∙ sym (contains-sort_strings ys k)
