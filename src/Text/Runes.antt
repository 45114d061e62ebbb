-- ===== src/Text/Runes.antt =====
-- `unicode/utf8`: the runes of a text, one replacement rune of width 1 for each byte that begins
-- no well-formed sequence.
use mathlib.Core.Path.{subst}
use logspout.Prelude.{
  sym, true, false, append_assoc, ◌∙◌, ap, length, length-append, length-take, take-append-drop,
  arith, ◌≤◌, ℕ, zero, suc, ◌+◌, ◌-◌, ◌*◌, ◌≡◌, refl, Bool, ◌&&◌, [], ◌∷◌, ◌++◌, Text, leb,
  if◌then◌else◌, drop, take,
}

abbrev between : ℕ → ℕ → ℕ → Bool
between lo hi c = leb lo c && leb c hi

-- utf8.RuneError
abbrev pub rune_error : ℕ
rune_error = 0xfffd

abbrev bad : ℕ × ℕ
bad = (rune_error, 1)

abbrev cont : ℕ → Bool
cont = between 0x80 0xbf

two_bytes : ℕ → Text → ℕ × ℕ
two_bytes a (b ∷ _) = if cont b then ((a - 0xc0) * 64 + (b - 0x80), 2) else bad
two_bytes a [] = bad

three_bytes : ℕ → ℕ → ℕ → Text → ℕ × ℕ
three_bytes lo hi a (b ∷ c ∷ _) =
    if between lo hi b && cont c then (((a - 0xe0) * 64 + (b - 0x80)) * 64 + (c - 0x80), 3) else bad
three_bytes lo hi a _ = bad

four_bytes : ℕ → ℕ → ℕ → Text → ℕ × ℕ
four_bytes lo hi a (b ∷ c ∷ d ∷ _) =
    if between lo hi b && cont c && cont d
    then ((((a - 0xf0) * 64 + (b - 0x80)) * 64 + (c - 0x80)) * 64 + (d - 0x80), 4)
    else bad
four_bytes lo hi a _ = bad

-- utf8.DecodeRuneInString: the rune and its width
unfoldable pub decode_rune : Text → ℕ × ℕ
unfolding two_bytes three_bytes four_bytes
decode_rune [] = (rune_error, 0)
decode_rune (a ∷ s) =
    if leb a 0x7f
    then (a, 1)
    else if between 0xc2 0xdf a
    then two_bytes a s
    else if between 0xe0 0xe0 a
    then three_bytes 0xa0 0xbf a s
    else if between 0xed 0xed a
    then three_bytes 0x80 0x9f a s
    else if between 0xe1 0xef a
    then three_bytes 0x80 0xbf a s
    else if between 0xf0 0xf0 a
    then four_bytes 0x90 0xbf a s
    else if between 0xf1 0xf3 a
    then four_bytes 0x80 0xbf a s
    else if between 0xf4 0xf4 a
    then four_bytes 0x80 0x8f a s
    else bad

-- The bytes behind the first rune.
unfoldable pub after_rune : Text → Text
after_rune s = drop (decode_rune s).1 s

-- fmt's `%.ns`: the first n runes of a text
unfoldable pub truncate : ℕ → Text → Text
unfolding after_rune
truncate zero s = []
truncate (suc n) s = take (decode_rune s).1 s ++ truncate n (drop (decode_rune s).1 s)

euro : decode_rune (0xe2 ∷ 0x82 ∷ 0xac ∷ 65 ∷ []) ≡ (0x20ac, 3)
unfolding decode_rune
euro = refl

truncate_two : truncate 2 (0xe2 ∷ 0x82 ∷ 0xac ∷ 0xff ∷ 65 ∷ []) ≡ 0xe2 ∷ 0x82 ∷ 0xac ∷ 0xff ∷ []
unfolding truncate decode_rune
truncate_two = refl

either_le : (b : Bool) (x y : ℕ × ℕ) → x.1 ≤ 4 → y.1 ≤ 4 → (if b then x else y).1 ≤ 4
either_le true x y hx hy = hx
either_le false x y hx hy = hy

two_le : (a : ℕ) (s : Text) → (two_bytes a s).1 ≤ 4
unfolding two_bytes
two_le a [] = omega arith
two_le a (b ∷ s) = either_le (cont b) _ _ (omega arith) (omega arith)

three_le : (lo hi a : ℕ) (s : Text) → (three_bytes lo hi a s).1 ≤ 4
unfolding three_bytes
three_le lo hi a [] = omega arith
three_le lo hi a (b ∷ []) = omega arith
three_le lo hi a (b ∷ c ∷ s) = either_le (between lo hi b && cont c) _ _ (omega arith) (omega arith)

four_le : (lo hi a : ℕ) (s : Text) → (four_bytes lo hi a s).1 ≤ 4
unfolding four_bytes
four_le lo hi a [] = omega arith
four_le lo hi a (b ∷ []) = omega arith
four_le lo hi a (b ∷ c ∷ []) = omega arith
four_le lo hi a (b ∷ c ∷ d ∷ s) =
    either_le (between lo hi b && cont c && cont d) _ _ (omega arith) (omega arith)

-- The width of a rune is 4 at most.
width_le : (s : Text) → (decode_rune s).1 ≤ 4
unfolding decode_rune
width_le [] = omega arith
width_le (a ∷ s) = either_le (leb a 0x7f) _ _ (omega arith) (
    either_le (between 0xc2 0xdf a) _ _ (two_le a s) (
      either_le (between 0xe0 0xe0 a) _ _ (three_le 0xa0 0xbf a s) (
        either_le (between 0xed 0xed a) _ _ (three_le 0x80 0x9f a s) (
          either_le (between 0xe1 0xef a) _ _ (three_le 0x80 0xbf a s) (
            either_le (between 0xf0 0xf0 a) _ _ (four_le 0x90 0xbf a s) (
              either_le (between 0xf1 0xf3 a) _ _ (four_le 0x80 0xbf a s)
                (either_le (between 0xf4 0xf4 a) _ _ (four_le 0x80 0x8f a s) (omega arith))))))))

-- The first text begins the second.
abbrev pub Begins : Text → Text → Type 0
Begins p s = (rest : Text) × (p ++ rest ≡ s)

pub truncate-Begins : (n : ℕ) (s : Text) → Begins (truncate n s) s
unfolding truncate
truncate-Begins zero s = (s, refl)
truncate-Begins (suc n) s =
    let (rest, e) = truncate-Begins n (drop (decode_rune s).1 s) in
    (
      rest,
      append_assoc (take (decode_rune s).1 s) (truncate n (drop (decode_rune s).1 s)) rest
          ∙ ap (λ t. take (decode_rune s).1 s ++ t) e
          ∙ take-append-drop (decode_rune s).1 s,
    )

-- `Cut n s t`: `t` is the first `n` runes of `s`, or all of them if there are fewer.
pub data Cut : ℕ → Text → Text → Type 0 where
  over : (n : ℕ) → Cut n [] []
  full : (s : Text) → Cut 0 s []
  rune :
      {n : ℕ} {t : Text} (c : ℕ) (s : Text)
      → Cut n (drop (decode_rune (c ∷ s)).1 (c ∷ s)) t
      → Cut (suc n) (c ∷ s) (take (decode_rune (c ∷ s)).1 (c ∷ s) ++ t)

truncate-nil : (n : ℕ) → truncate n [] ≡ []
unfolding truncate decode_rune
truncate-nil zero = refl
truncate-nil (suc n) = truncate-nil n

pub truncate-Cut : (n : ℕ) (s : Text) → Cut n s (truncate n s)
unfolding truncate
truncate-Cut zero s = full s
truncate-Cut (suc n) [] = subst (Cut (suc n) []) (sym (truncate-nil (suc n))) (over (suc n))
truncate-Cut (suc n) (c ∷ s) = rune c s (truncate-Cut n (drop (decode_rune (c ∷ s)).1 (c ∷ s)))

pub length-truncate : (n : ℕ) (s : Text) → length (truncate n s) ≤ 4 * n
unfolding truncate
length-truncate zero s = omega arith
length-truncate (suc n) s = omega (
  arith,
  length-append (take (decode_rune s).1 s) (truncate n (drop (decode_rune s).1 s)),
  length-take (decode_rune s).1 s,
  width_le s,
  length-truncate n (drop (decode_rune s).1 s),
)

-- utf8.RuneCountInString on as much fuel as the text has bytes: a rune takes one at least
unfoldable pub rune_count_from : ℕ → Text → ℕ
unfolding after_rune
rune_count_from f [] = 0
rune_count_from zero (c ∷ s) = 0
rune_count_from (suc f) (c ∷ s) = suc (rune_count_from f (after_rune (c ∷ s)))

unfoldable pub rune_count : Text → ℕ
unfolding rune_count_from
rune_count s = rune_count_from (length s) s
