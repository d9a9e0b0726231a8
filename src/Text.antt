-- ===== src/Text.antt =====
-- The functions of Go's `strings` package that the program calls, over texts as lists of characters
-- (a Go string that is valid UTF-8). Separators are single characters, as everywhere in the program.
pub mod Split
pub mod Trim
use Prim.Native.String.{[], ◌∷◌}
use goexpose.Common.{
  Bool, Char, List, [], String, code, false, true, ◌∷◌, ◌<>◌, ◌||◌, ◌&&◌, leb, ◌=ℕ◌, if◌then◌else◌,
  ◌==◌,
}

-- Puts a character in front of the first part.
abbrev pub onto_first : Char → List String → List String
onto_first c [] = (c ∷ []) ∷ []
onto_first c (p ∷ ps) = (c ∷ p) ∷ ps

-- `strings.Split(s, sep)`
unfoldable pub split : Char → String → List String
split sep [] = "" ∷ []
split sep (c ∷ s) =
    let rest = split sep s in if code c =ℕ code sep then "" ∷ rest else onto_first c rest

-- `strings.SplitN(s, sep, 2)`: one part where the separator is missing, else two
unfoldable pub split_two : Char → String → List String
split_two sep [] = "" ∷ []
split_two sep (c ∷ s) = if code c =ℕ code sep then "" ∷ s ∷ [] else onto_first c (split_two sep s)

-- `strings.Join(parts, sep)`
unfoldable pub join : Char → List String → String
join sep [] = ""
join sep (p ∷ []) = p
join sep (p ∷ q ∷ ps) = p <> (sep ∷ join sep (q ∷ ps))

-- `unicode.IsSpace`
unfoldable pub is_space : Char → Bool
is_space ch =
    let c = code ch in
    (leb 9 c && leb c 13)
    || c =ℕ 32
    || c =ℕ 0x85
    || c =ℕ 0xa0
    || c =ℕ 0x1680
    || (leb 0x2000 c && leb c 0x200a)
    || c =ℕ 0x2028
    || c =ℕ 0x2029
    || c =ℕ 0x202f
    || c =ℕ 0x205f
    || c =ℕ 0x3000

pub trim_left : String → String
trim_left [] = []
trim_left (c ∷ s) = let rest = trim_left s in if is_space c then rest else c ∷ s

-- A character stays in front of a trimmed rest unless it is a space and nothing follows.
abbrev pub onto_trimmed : Char → String → String
onto_trimmed c [] = if is_space c then [] else c ∷ []
onto_trimmed c (d ∷ s) = c ∷ d ∷ s

pub trim_right : String → String
trim_right [] = []
trim_right (c ∷ s) = onto_trimmed c (trim_right s)

-- `strings.TrimSpace(s)`
unfoldable pub trim_space : String → String
unfolding trim_left trim_right is_space
trim_space s = trim_right (trim_left s)

abbrev pub has_prefix : String → String → Bool
has_prefix [] s = true
has_prefix (c ∷ prefix) [] = false
has_prefix (c ∷ prefix) (d ∷ s) = code c =ℕ code d && has_prefix prefix s

-- `strings.Contains(s, part)`
unfoldable pub has_part : String → String → Bool
has_part part [] = has_prefix part []
has_part part (c ∷ s) = has_prefix part (c ∷ s) || has_part part s
