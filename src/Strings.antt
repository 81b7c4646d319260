-- ===== src/Strings.antt =====
-- The functions of Go's `strings` that the source calls, on texts as lists of code points.
pub mod Trim
pub mod Replace
pub mod Occurrences
use provider_k3s.Base.{
  ltb, ℕ, zero, suc, Bool, true, false, ◌&&◌, ◌||◌, Option, none, some, List, [], ◌∷◌, ◌++◌, Text,
  ◌==◌, nat_eq, leb, if◌then◌else◌, length,
}

-- The white space of unicode.IsSpace.
unfoldable pub is_space : ℕ → Bool
is_space c =
    (leb 0x9 c && leb c 0xd)
    || c == 0x20
    || c == 0x85
    || c == 0xa0
    || c == 0x1680
    || (leb 0x2000 c && leb c 0x200a)
    || c == 0x2028
    || c == 0x2029
    || c == 0x202f
    || c == 0x205f
    || c == 0x3000

unfoldable pub trim_left : Text → Text
unfolding is_space
trim_left [] = []
trim_left (c ∷ s) = let rest = trim_left s in if is_space c then rest else c ∷ s

unfoldable pub trim_right : Text → Text
unfolding is_space
trim_right [] = []
trim_right (c ∷ s) = elim (trim_right s) [
  | [] ↦ if is_space c then [] else c ∷ []
  | d ∷ t ↦ c ∷ d ∷ t
]

-- strings.TrimSpace
unfoldable pub trim_space : Text → Text
unfolding trim_left trim_right
trim_space s = trim_right (trim_left s)

-- The rest of `s` behind `prefix`, if `s` begins so.
unfoldable pub cut_prefix : Text → Text → Option Text
cut_prefix s [] = some s
cut_prefix [] (p ∷ prefix) = none
cut_prefix (c ∷ s) (p ∷ prefix) = if c == p then cut_prefix s prefix else none

-- strings.HasPrefix
unfoldable pub has_prefix : Text → Text → Bool
unfolding cut_prefix
has_prefix s prefix = elim (cut_prefix s prefix) [ none ↦ false | some _ ↦ true ]

-- strings.TrimPrefix
unfoldable pub trim_prefix : Text → Text → Text
unfolding cut_prefix
trim_prefix s prefix = elim (cut_prefix s prefix) [ none ↦ s | some rest ↦ rest ]

unfoldable pub add_to_first : ℕ → List Text → List Text
add_to_first c [] = (c ∷ []) ∷ []
add_to_first c (p ∷ ps) = (c ∷ p) ∷ ps

-- strings.Split at one character
unfoldable pub split : Text → ℕ → List Text
unfolding add_to_first
split [] sep = [] ∷ []
split (c ∷ s) sep = let parts = split s sep in if c == sep then [] ∷ parts else add_to_first c parts

-- strings.SplitN with two parts: what stands before the first separator, and what stands behind it.
unfoldable pub split_once : Text → ℕ → Text × Option Text
split_once [] sep = ([], none)
split_once (c ∷ s) sep =
    let (before, behind) = split_once s sep in
    if c == sep then ([], some s) else (c ∷ before, behind)

-- strings.Join
unfoldable pub join : List Text → Text → Text
join [] sep = []
join (p ∷ []) sep = p
join (p ∷ q ∷ ps) sep = p ++ (sep ++ join (q ∷ ps) sep)

-- strings.ContainsRune
unfoldable pub contains : Text → ℕ → Bool
contains [] c = false
contains (d ∷ s) c = d == c || contains s c

-- strings.ContainsAny
unfoldable pub contains_any : Text → Text → Bool
unfolding contains
contains_any [] chars = false
contains_any (c ∷ s) chars = contains chars c || contains_any s chars

-- strings.ReplaceAll, for a text to replace that is not empty. Each round consumes a character, so
-- the length of the text is fuel enough.
unfoldable pub replace_fuel : ℕ → Text → Text → Text → Text
unfolding cut_prefix
replace_fuel zero s old new = s
replace_fuel (suc f) [] old new = []
replace_fuel (suc f) (c ∷ s) old new = elim (cut_prefix (c ∷ s) old) [
  | none ↦ c ∷ replace_fuel f s old new
  | some rest ↦ new ++ replace_fuel f rest old new
]

-- strings.ReplaceAll, for a text to replace that is not empty
unfoldable pub replace_all : Text → Text → Text → Text
unfolding replace_fuel
replace_all s old new = replace_fuel (length s) s old new

-- `<` on strings
unfoldable pub text_ltb : Text → Text → Bool
text_ltb s [] = false
text_ltb [] (d ∷ t) = true
text_ltb (c ∷ s) (d ∷ t) = ltb c d || (c == d && text_ltb s t)
