-- ===== src/Text/SplitN.antt =====
-- Go's `strings.SplitN` for a separator of any bytes, and that its parts make the text again.
use mathlib.Core.Path.{subst}
use logspout.Prelude.{
  ◌≡◌, ◌≢◌, refl, sym, ap, ◌∙◌, ℕ, zero, suc, ◌≤◌, Bool, true, false, List, [], ◌∷◌, ◌++◌, Option,
  none, some, Text, arith, length, drop, if◌then◌else◌, Option-cases, inl, inr, eq_iff, nat_key,
  take, codes,
}
use logspout.Prelude.Int.{ℤ, pos, negsuc}
use logspout.Text.{has_prefix, join}
use logspout.Text.Runes.{after_rune, decode_rune}

abbrev before_rest : ℕ → Option (Text × Text) → Option (Text × Text)
before_rest c none = none
before_rest c (some (before, after)) = some (c ∷ before, after)

-- strings.Cut(s, sep): what is before the first `sep` and what is after it
unfoldable pub cut : Text → Text → Option (Text × Text)
unfolding has_prefix
cut sep [] = none
cut sep (c ∷ s) =
    let rest = cut sep s in
    if has_prefix (c ∷ s) sep then some ([], drop (length sep) (c ∷ s)) else before_rest c rest

-- The parts of at most so many cuts.
unfoldable pub split_times : ℕ → Text → Text → List Text
unfolding cut
split_times zero sep s = s ∷ []
split_times (suc n) sep s = elim (cut sep s) [
  | none ↦ s ∷ []
  | some (before, after) ↦ before ∷ split_times n sep after
]

-- The runes of a text, at most so many, and the rest.
unfoldable pub explode : ℕ → Text → List Text
unfolding after_rune
explode zero [] = []
explode zero (c ∷ s) = (c ∷ s) ∷ []
explode (suc n) [] = []
explode (suc n) (c ∷ s) = take (decode_rune (c ∷ s)).1 (c ∷ s) ∷ explode n (after_rune (c ∷ s))

-- strings.SplitN(s, sep, n); each part but the last takes a byte of `s` at least, so there are as many
-- cuts as `s` has bytes at most. An empty separator cuts behind every rune.
unfoldable pub split_n : Text → Text → ℤ → List Text
unfolding split_times explode
split_n s sep (pos zero) = []
split_n s [] (pos (suc n)) = explode n s
split_n s (b ∷ sep) (pos (suc n)) = split_times n (b ∷ sep) s
split_n s [] (negsuc n) = explode (length s) s
split_n s (b ∷ sep) (negsuc n) = split_times (length s) (b ∷ sep) s

has_prefix-drop :
    (s prefix : Text) → has_prefix s prefix ≡ true → prefix ++ drop (length prefix) s ≡ s
unfolding has_prefix
has_prefix-drop s [] h = refl
has_prefix-drop [] (c ∷ p) h = absurd (ground (arith, h))
has_prefix-drop (d ∷ s) (c ∷ p) h = ground (arith, eq_iff d c, has_prefix-drop s p, h)

-- How a text is put together again at a cut.
abbrev Joins : Text → Text → Option (Text × Text) → Type 0
Joins sep s none = Unit
Joins sep s (some (before, after)) = before ++ (sep ++ after) ≡ s

Joins-before_rest :
    (sep : Text) (c : ℕ) (s : Text) (o : Option (Text × Text))
    → Joins sep s o
    → Joins sep (c ∷ s) (before_rest c o)
Joins-before_rest sep c s none h = tt
Joins-before_rest sep c s (some (before, after)) h = ap (λ x. c ∷ x) h

Joins-if :
    (sep s : Text) (b : Bool) (o q : Option (Text × Text))
    → (b ≡ true → Joins sep s o)
    → Joins sep s q
    → Joins sep s (if b then o else q)
Joins-if sep s true o q h k = h refl
Joins-if sep s false o q h k = k

Joins-cut : (sep s : Text) → Joins sep s (cut sep s)
unfolding cut
Joins-cut sep [] = tt
Joins-cut sep (c ∷ s) =
    Joins-if sep (c ∷ s) (has_prefix (c ∷ s) sep) (some ([], drop (length sep) (c ∷ s)))
      (before_rest c (cut sep s)) (λ e. has_prefix-drop (c ∷ s) sep e)
      (Joins-before_rest sep c s (cut sep s) (Joins-cut sep s))

join-cons :
    (p sep : Text) (ps : List Text) → ps ≢ [] → join (p ∷ ps) sep ≡ p ++ (sep ++ join ps sep)
unfolding join
join-cons p sep [] h = absurd (h refl)
join-cons p sep (q ∷ ps) h = refl

split_times-cut :
    (n : ℕ) (sep s before after : Text)
    → cut sep s ≡ some (before, after)
    → split_times (suc n) sep s ≡ before ∷ split_times n sep after
unfolding split_times
split_times-cut n sep s before after h = rw (h, split_times) refl

split_times-whole : (n : ℕ) (sep s : Text) → cut sep s ≡ none → split_times (suc n) sep s ≡ s ∷ []
unfolding split_times
split_times-whole n sep s h = rw (h, split_times) refl

-- The parts, joined by the separator, make the text; there is one at least, and one more than there
-- are cuts at most.
record Parts (n : ℕ) (sep s : Text) (ps : List Text) : Type 0 where
  pub whole : join ps sep ≡ s
  pub few : length ps ≤ suc n
  pub there : ps ≢ []

Parts-one : (n : ℕ) (sep s : Text) → Parts n sep s (s ∷ [])
Parts-one n sep s =
    unfold join in record { whole = refl; few = omega arith; there = λ e. ground (arith, e) }

Parts-cons :
    (n : ℕ) (sep s before after : Text) (ps : List Text)
    → before ++ (sep ++ after) ≡ s
    → Parts n sep after ps
    → Parts (suc n) sep s (before ∷ ps)
Parts-cons n sep s before after ps e h = record {
  whole = join-cons before sep ps h.there ∙ (ap (λ x. before ++ (sep ++ x)) h.whole ∙ e);
  few = omega (arith, h.few);
  there = λ q. ground (arith, q);
}

split_times-Parts : (n : ℕ) (sep s : Text) → Parts n sep s (split_times n sep s)
split_times-Parts zero sep s = unfold split_times in Parts-one zero sep s
split_times-Parts (suc n) sep s = elim (Option-cases (cut sep s)) [
  | inl e ↦
      subst (Parts (suc n) sep s) (sym (split_times-whole n sep s e)) (Parts-one (suc n) sep s)
  | inr ((before, after), e) ↦
      subst (Parts (suc n) sep s) (sym (split_times-cut n sep s before after e)) (
        Parts-cons n sep s before after (split_times n sep after)
          (subst (Joins sep s) e (Joins-cut sep s)) (split_times-Parts n sep after))
]

-- `SplitN` with a separator and a limit that is not zero: the parts, joined by the separator, make the
-- text again.
pub join-split_n : (s sep : Text) (n : ℤ) → sep ≢ [] → n ≢ pos 0 → join (split_n s sep n) sep ≡ s
unfolding split_n
join-split_n s sep (pos zero) k h = absurd (h refl)
join-split_n s [] (pos (suc n)) k h = absurd (k refl)
join-split_n s (b ∷ sep) (pos (suc n)) k h = (split_times-Parts n (b ∷ sep) s).whole
join-split_n s [] (negsuc n) k h = absurd (k refl)
join-split_n s (b ∷ sep) (negsuc n) k h = (split_times-Parts (length s) (b ∷ sep) s).whole

-- A limit that is not negative is one on the number of the parts.
pub length-split_n : (s sep : Text) (n : ℕ) → sep ≢ [] → length (split_n s sep (pos n)) ≤ n
unfolding split_n
length-split_n s sep zero k = omega arith
length-split_n s [] (suc n) k = absurd (k refl)
length-split_n s (b ∷ sep) (suc n) k = (split_times-Parts n (b ∷ sep) s).few

two_parts : split_n (codes "a--b--c") (codes "--") (pos 2) ≡ codes "a" ∷ codes "b--c" ∷ []
unfolding split_n split_times cut has_prefix
two_parts = refl

runes : split_n (codes "ab") [] (negsuc 0) ≡ codes "a" ∷ codes "b" ∷ []
unfolding split_n explode after_rune decode_rune
runes = refl
