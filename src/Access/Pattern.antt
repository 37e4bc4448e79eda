-- ===== src/Access/Pattern.antt =====
-- `path.Match`, by which the claims of a token name rooms, over characters. The pattern is read into
-- parts first; a malformed pattern, for which the library returns an error, matches nothing.
use Prim.Native.Char.{code}
use open_rtc.Base.{
  ℕ, String, Bool, true, false, not, ◌&&◌, ◌||◌, Option, none, some, List, [], ◌∷◌, ◌++◌, ◌==◌,
  if◌then◌else◌, nat_eq, leb,
}

-- The ranges of a class are pairs of bounds.
abbrev pub Ranges : Type 0
Ranges = List (ℕ × ℕ)

pub data Part : Type 0 where
  star any : Part
  plain : ℕ → Part
  one_of : Bool → Ranges → Part

-- What the reader has seen of the pattern: `opened` follows a bracket, `items` stands where an entry
-- of a class or its end may come, `low` follows the lower bound of an entry.
pub data Reading : Type 0 where
  outside escaped opened : Reading
  items item_escaped : Bool → Ranges → Reading
  low high high_escaped : Bool → Ranges → ℕ → Reading

-- An entry of a class starts with any character but `-` and `]`; a backslash quotes the next one.
unfoldable pub read_item : Bool → Ranges → ℕ → Option (List Part × Reading)
read_item negated ranges c =
    if nat_eq c 93
    then (elim ranges [ [] ↦ none | r ∷ rs ↦ some (one_of negated (r ∷ rs) ∷ [], outside) ])
    else if nat_eq c 45
    then none
    else if nat_eq c 92
    then some ([], item_escaped negated ranges)
    else some ([], low negated ranges c)

unfoldable pub read_outside : ℕ → List Part × Reading
read_outside c =
    if nat_eq c 42
    then (star ∷ [], outside)
    else if nat_eq c 63
    then (any ∷ [], outside)
    else if nat_eq c 91
    then ([], opened)
    else if nat_eq c 92
    then ([], escaped)
    else (plain c ∷ [], outside)

-- One character: the parts that it completes, and what is read next.
unfoldable pub read : Reading → ℕ → Option (List Part × Reading)
unfolding read_item read_outside
read outside c = some (read_outside c)
read escaped c = some (plain c ∷ [], outside)
read opened c = if nat_eq c 94 then some ([], items true []) else read_item false [] c
read (items negated ranges) c = read_item negated ranges c
read (item_escaped negated ranges) c = some ([], low negated ranges c)
read (low negated ranges lo) c =
    if nat_eq c 45
    then some ([], high negated ranges lo)
    else read_item negated ((lo, lo) ∷ ranges) c
read (high negated ranges lo) c =
    if nat_eq c 45 || nat_eq c 93
    then none
    else if nat_eq c 92
    then some ([], high_escaped negated ranges lo)
    else some ([], items negated ((lo, c) ∷ ranges))
read (high_escaped negated ranges lo) c = some ([], items negated ((lo, c) ∷ ranges))

unfoldable pub parts_of : Reading → String → Option (List Part)
unfolding read
parts_of outside String.[] = some []
parts_of state String.[] = none
parts_of state (String.◌∷◌ c s) = elim (read state (code c)) [
  | none ↦ none
  | some (ps, next) ↦ elim (parts_of next s) [ none ↦ none | some rest ↦ some (ps ++ rest) ]
]

-- The parts before the first star, and those after each star. Stars in a row are one star.
unfoldable pub join_stars : List Part × List (List Part) → List Part × List (List Part)
join_stars ([], chunk ∷ chunks) = ([], chunk ∷ chunks)
join_stars (chunk, chunks) = ([], chunk ∷ chunks)

unfoldable pub chunks_of : List Part → List Part × List (List Part)
unfolding join_stars
chunks_of [] = ([], [])
chunks_of (star ∷ ps) = join_stars (chunks_of ps)
chunks_of (p ∷ ps) = let (chunk, chunks) = chunks_of ps in (p ∷ chunk, chunks)

unfoldable pub in_ranges : Ranges → ℕ → Bool
in_ranges [] c = false
in_ranges ((lo, hi) ∷ rs) c = (leb lo c && leb c hi) || in_ranges rs c

unfoldable pub part_matches : Part → ℕ → Bool
unfolding in_ranges
part_matches star c = false
part_matches any c = not (nat_eq c 47)
part_matches (plain d) c = nat_eq d c
part_matches (one_of negated ranges) c =
    if negated then not (in_ranges ranges c) else in_ranges ranges c

-- matchChunk: what the chunk leaves of the name.
unfoldable pub match_chunk : List Part → String → Option String
unfolding part_matches
match_chunk [] name = some name
match_chunk (p ∷ ps) String.[] = none
match_chunk (p ∷ ps) (String.◌∷◌ c s) =
    let rest = match_chunk ps s in if part_matches p (code c) then rest else none

-- The last chunk has to use the name up.
unfoldable pub match_end : List Part → Bool → String → Option String
unfolding match_chunk
match_end chunk last name = elim (match_chunk chunk name) [
  | none ↦ none
  | some rest ↦ if last && not (rest == "") then none else some rest
]

-- The first place at which the chunk matches; a star passes over no slash.
unfoldable pub match_after_star : List Part → Bool → String → Option String
unfolding match_end
match_after_star chunk last String.[] = match_end chunk last ""
match_after_star chunk last (String.◌∷◌ c s) =
    let later = match_after_star chunk last s in
    elim (match_end chunk last (String.◌∷◌ c s)) [
      | some rest ↦ some rest
      | none ↦ if nat_eq (code c) 47 then none else later
    ]

unfoldable pub has_no_slash : String → Bool
has_no_slash String.[] = true
has_no_slash (String.◌∷◌ c s) = not (nat_eq (code c) 47) && has_no_slash s

unfoldable pub is_last : List (List Part) → Bool
is_last [] = true
is_last (chunk ∷ chunks) = false

unfoldable pub match_chunks : List (List Part) → String → Bool
unfolding match_after_star has_no_slash is_last
match_chunks [] name = name == ""
match_chunks ([] ∷ []) name = has_no_slash name
match_chunks (chunk ∷ chunks) name = elim (match_after_star chunk (is_last chunks) name) [
  | none ↦ false
  | some rest ↦ match_chunks chunks rest
]

unfoldable pub match_parts : List Part × List (List Part) → String → Bool
unfolding match_end match_chunks is_last
match_parts (chunk, chunks) name = elim (match_end chunk (is_last chunks) name) [
  | none ↦ false
  | some rest ↦ match_chunks chunks rest
]

-- matched, err := path.Match(pattern, name); err == nil && matched
unfoldable pub path_match : String → String → Bool
unfolding parts_of chunks_of match_parts
path_match pattern name = elim (parts_of outside pattern) [
  | none ↦ false
  | some ps ↦ match_parts (chunks_of ps) name
]
