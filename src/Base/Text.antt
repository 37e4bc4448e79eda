-- ===== src/Base/Text.antt =====
-- Go's strings package, as far as the server uses it: HasPrefix, TrimPrefix, Fields and TrimSpace.
use Prim.Native.Char.{code}
use Prim.Native.Nat.{ℕ}
use Prim.Native.String.{String}
use mathlib.Core.Path.{◌≡◌, refl, ap, ap₂}
use mathlib.Core.Bool.{Bool, true, false, ◌&&◌, ◌||◌}
use mathlib.Core.Option.{Option, none, some}
use mathlib.Core.List.{List, [], ◌∷◌}
use native.Mathlib.Omega.{arith}
use text.Mathlib.TextEquality.{Char-path}
use open_rtc.Base.Tests.{leb, nat_eq, if◌then◌else◌}

-- s + t
unfoldable pub append : String → String → String
append String.[] t = t
append (String.◌∷◌ c s) t = String.◌∷◌ c (append s t)

-- What follows a prefix: the prefix comes first.
unfoldable pub strip_prefix : String → String → Option String
strip_prefix String.[] s = some s
strip_prefix (String.◌∷◌ c p) String.[] = none
strip_prefix (String.◌∷◌ c p) (String.◌∷◌ d s) =
    let rest = strip_prefix p s in if nat_eq (code c) (code d) then rest else none

-- strings.HasPrefix(s, prefix)
unfoldable pub has_prefix : String → String → Bool
unfolding strip_prefix
has_prefix s p = elim (strip_prefix p s) [ none ↦ false | some rest ↦ true ]

-- unicode.IsSpace
unfoldable pub is_space : ℕ → Bool
is_space c =
    (leb 9 c && leb c 13)
    || (nat_eq c 32
        || (nat_eq c 133
            || (nat_eq c 160
                || (nat_eq c 5760
                    || ((leb 8192 c && leb c 8202)
                        || (nat_eq c 8232
                            || (nat_eq c 8233
                                || (nat_eq c 8239 || (nat_eq c 8287 || nat_eq c 12288)))))))))

unfoldable pub add_word : String → List String → List String
add_word String.[] words = words
add_word (String.◌∷◌ c w) words = String.◌∷◌ c w ∷ words

unfoldable pub first_word : String → String × List String
unfolding is_space add_word
first_word String.[] = ("", [])
first_word (String.◌∷◌ c s) =
    let (word, words) = first_word s in
    if is_space (code c) then ("", add_word word words) else (String.◌∷◌ c word, words)

-- strings.Fields
unfoldable pub fields : String → List String
unfolding first_word add_word
fields s = let (word, words) = first_word s in add_word word words

unfoldable pub trim_left : String → String
unfolding is_space
trim_left String.[] = ""
trim_left (String.◌∷◌ c s) =
    let rest = trim_left s in if is_space (code c) then rest else String.◌∷◌ c s

-- The character stays where something else than space follows it, or it is none itself.
unfoldable pub trim_right : String → String
unfolding is_space
trim_right String.[] = ""
trim_right (String.◌∷◌ c s) = elim (trim_right s) [
  | String.[] ↦ if is_space (code c) then "" else String.◌∷◌ c ""
  | String.◌∷◌ d rest ↦ String.◌∷◌ c (String.◌∷◌ d rest)
]

-- strings.TrimSpace
unfoldable pub trim_space : String → String
unfolding trim_left trim_right
trim_space s = trim_right (trim_left s)

pub strip_prefix-append : (p s : String) → strip_prefix p (append p s) ≡ some s
unfolding strip_prefix append
strip_prefix-append String.[] s = refl
strip_prefix-append (String.◌∷◌ c p) s = ground (arith, strip_prefix-append p s)

pub strip_prefix-eq_some :
    (p s : String) {rest : String} → strip_prefix p s ≡ some rest → s ≡ append p rest
unfolding strip_prefix append
strip_prefix-eq_some String.[] s h = ground arith
strip_prefix-eq_some (String.◌∷◌ c p) String.[] h = ground arith
strip_prefix-eq_some (String.◌∷◌ c p) (String.◌∷◌ d s) h =
    ap₂ String.◌∷◌ (Char-path d c (ground arith)) (strip_prefix-eq_some p s (ground arith))

-- A text has a prefix exactly if it is the prefix and something after it.
pub has_prefix_iff : (s p : String) → has_prefix s p ≡ true → (rest : String) × (s ≡ append p rest)
unfolding has_prefix
has_prefix_iff s p h = go (strip_prefix p s) refl h
  where
    go :
        (o : Option String)
        → strip_prefix p s ≡ o
        → elim o [ none ↦ false | some rest ↦ true ] ≡ true
        → (rest : String) × (s ≡ append p rest)
    go none e k = ground arith
    go (some rest) e k = (rest, strip_prefix-eq_some p s e)

pub has_prefix-append : (p s : String) → has_prefix (append p s) p ≡ true
unfolding has_prefix
has_prefix-append p s = rw (strip_prefix-append p s, has_prefix) refl

pub append_assoc_text : (s t u : String) → append (append s t) u ≡ append s (append t u)
unfolding append
append_assoc_text String.[] t u = refl
append_assoc_text (String.◌∷◌ c s) t u = ap (String.◌∷◌ c) (append_assoc_text s t u)
