-- ===== src/Text.antt =====
-- The functions of Go's packages `strings` and `unicode/utf8` that the program calls, on texts as
-- lists of bytes. Letter case and white space are those of ASCII.
pub mod Split
pub mod SplitN
pub mod Trim
pub mod Runes
pub mod Number
use logspout.Prelude.{
  ℕ, zero, suc, ◌+◌, ◌-◌, ◌*◌, ◌%◌, Bool, true, false, ◌&&◌, ◌||◌, List, [], ◌∷◌, ◌++◌, map, Text,
  codes, leb, ◌==◌, if◌then◌else◌, any, drop, nat_key, text_key,
}

cons_first : ℕ → List Text → List Text
cons_first c [] = (c ∷ []) ∷ []
cons_first c (p ∷ ps) = (c ∷ p) ∷ ps

-- strings.Split(s, sep), for a separator of one byte
unfoldable pub split : Text → ℕ → List Text
unfolding cons_first
split [] sep = [] ∷ []
split (c ∷ s) sep = let rest = split s sep in if c == sep then [] ∷ rest else cons_first c rest

-- strings.SplitN(s, sep, 2)
unfoldable pub split_two : Text → ℕ → List Text
unfolding cons_first
split_two [] sep = [] ∷ []
split_two (c ∷ s) sep =
    let rest = split_two s sep in if c == sep then [] ∷ s ∷ [] else cons_first c rest

-- strings.Join(parts, sep)
unfoldable pub join : List Text → Text → Text
join [] sep = []
join (p ∷ []) sep = p
join (p ∷ q ∷ ps) sep = p ++ (sep ++ join (q ∷ ps) sep)

-- strings.HasPrefix(s, prefix)
unfoldable pub has_prefix : Text → Text → Bool
has_prefix s [] = true
has_prefix [] (c ∷ p) = false
has_prefix (d ∷ s) (c ∷ p) = d == c && has_prefix s p

-- strings.Contains(s, c), for one byte
abbrev pub contains_byte : Text → ℕ → Bool
contains_byte s c = any (λ d. d == c) s

-- strings.TrimSuffix(s, c), for one byte
unfoldable pub trim_suffix : Text → ℕ → Text
trim_suffix [] c = []
trim_suffix (d ∷ []) c = if d == c then [] else d ∷ []
trim_suffix (d ∷ e ∷ s) c = d ∷ trim_suffix (e ∷ s) c

-- strings.TrimRight(s, cutset), the cutset as a test
unfoldable pub trim_right : (ℕ → Bool) → Text → Text
trim_right cut [] = []
trim_right cut (d ∷ s) = elim (trim_right cut s) [
  | [] ↦ if cut d then [] else d ∷ []
  | e ∷ t ↦ d ∷ e ∷ t
]

unfoldable pub trim_left : (ℕ → Bool) → Text → Text
trim_left cut [] = []
trim_left cut (d ∷ s) = let rest = trim_left cut s in if cut d then rest else d ∷ s

-- The white space of ASCII.
abbrev pub is_space : ℕ → Bool
is_space c = (c == 32) || (leb 9 c && leb c 13)

-- strings.TrimSpace(s)
unfoldable pub trim_space : Text → Text
unfolding trim_left trim_right
trim_space s = trim_right is_space (trim_left is_space s)

abbrev pub lower : ℕ → ℕ
lower c = if leb b'A' c && leb c b'Z' then c + 32 else c

-- strings.ToLower(s)
abbrev pub to_lower : Text → Text
to_lower = map lower

-- strings.EqualFold(s, t)
unfoldable pub equal_fold : Text → Text → Bool
equal_fold s t = to_lower s == to_lower t
