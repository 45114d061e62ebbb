-- ===== src/Text/Split.antt =====
-- `split`, `split_two` and `join` belong together.
use mathlib.Core.Path.{ap₂}
use logspout.Prelude.{
  ℕ, ◌≡◌, refl, ◌≢◌, ap, List, [], ◌∷◌, ◌++◌, Text, All, arith, eq_iff, ◌==◌, inl, inr, Bool-cases,
  Bool, nat_key, ne→neq, eq_refl, any, false,
}
use logspout.Text.{cons_first, split, join, split_two}

abbrev pub Lacks : ℕ → Text → Type 0
Lacks b = All (λ c. c ≢ b)

cons_first-ne-nil : (c : ℕ) (ps : List Text) → cons_first c ps ≢ []
unfolding cons_first
cons_first-ne-nil c [] h = cc
cons_first-ne-nil c (p ∷ ps) h = cc

split-ne-nil : (s : Text) (sep : ℕ) → split s sep ≢ []
unfolding split
split-ne-nil [] sep h = cc
split-ne-nil (c ∷ s) sep h = ground (arith, cons_first-ne-nil c (split s sep))

join-nil_cons : (ps : List Text) (sep : Text) → ps ≢ [] → join ([] ∷ ps) sep ≡ sep ++ join ps sep
unfolding join
join-nil_cons [] sep h = absurd (h refl)
join-nil_cons (p ∷ ps) sep h = refl

join-cons_first :
    (c : ℕ) (ps : List Text) (sep : Text) → ps ≢ [] → join (cons_first c ps) sep ≡ c ∷ join ps sep
unfolding join cons_first
join-cons_first c [] sep h = absurd (h refl)
join-cons_first c (p ∷ []) sep h = refl
join-cons_first c (p ∷ q ∷ ps) sep h = refl

-- Joining the parts of a split gives the text back.
pub join-split : (s : Text) (sep : ℕ) → join (split s sep) (sep ∷ []) ≡ s
unfolding split
join-split [] sep = unfold join in refl
join-split (c ∷ s) sep = elim (Bool-cases (c == sep)) [
  | inl e ↦
      rw e (rw (join-nil_cons _ _ (split-ne-nil s sep)) (ap₂ ◌∷◌ (sym_eq e) (join-split s sep)))
  | inr e ↦
      rw e (rw (join-cons_first c _ _ (split-ne-nil s sep)) (ap (λ t. c ∷ t) (join-split s sep)))
]
  where
    sym_eq : (c == sep) ≡ Bool.true → sep ≡ c
    sym_eq h = ground (arith, eq_iff c sep)

-- A text cut at its first separator.
pub split_two-append :
    (key value : Text) (sep : ℕ)
    → Lacks sep key
    → split_two (key ++ sep ∷ value) sep ≡ key ∷ value ∷ []
unfolding split_two
split_two-append [] value sep h = ground (arith, eq_refl sep)
split_two-append (c ∷ key) value sep (hc, h) =
    rw (ne→neq c sep hc, split_two-append key value sep h)

-- A text with no separator is not cut.
pub split_two-Lacks : (s : Text) (sep : ℕ) → Lacks sep s → split_two s sep ≡ s ∷ []
unfolding split_two cons_first
split_two-Lacks [] sep h = refl
split_two-Lacks (c ∷ s) sep (hc, h) = rw (ne→neq c sep hc, split_two-Lacks s sep h)

-- What `split_two` can return, and what it says of the text.
pub data Cut (s : Text) (sep : ℕ) : List Text → Type 0 where
  whole : Lacks sep s → Cut s sep (s ∷ [])
  at_first :
      (key value : Text) → Lacks sep key → s ≡ key ++ sep ∷ value → Cut s sep (key ∷ value ∷ [])

Cut-cons :
    (c : ℕ) (s : Text) (sep : ℕ) {ps : List Text}
    → c ≢ sep
    → Cut s sep ps
    → Cut (c ∷ s) sep (cons_first c ps)
unfolding cons_first
Cut-cons c s sep n (whole h) = whole (n, h)
Cut-cons c s sep n (at_first key value h e) = at_first (c ∷ key) value (n, h) (ap (λ t. c ∷ t) e)

pub split_two-Cut : (s : Text) (sep : ℕ) → Cut s sep (split_two s sep)
unfolding split_two
split_two-Cut [] sep = whole tt
split_two-Cut (c ∷ s) sep = elim (Bool-cases (c == sep)) [
  | inl e ↦ rw e (at_first [] s tt (ap (λ x. x ∷ s) ((eq_iff c sep).0 e)))
  | inr e ↦ rw e (Cut-cons c s sep (λ q. cc (e, (eq_iff c sep).1 q)) (split_two-Cut s sep))
]

-- A text that lacks the separator is one part; a text cut at a separator has one more part.
pub split-Lacks : (s : Text) (sep : ℕ) → Lacks sep s → split s sep ≡ s ∷ []
unfolding split cons_first
split-Lacks [] sep h = refl
split-Lacks (c ∷ s) sep (hc, h) = rw (ne→neq c sep hc, split-Lacks s sep h)

pub split-append :
    (p rest : Text) (sep : ℕ) → Lacks sep p → split (p ++ sep ∷ rest) sep ≡ p ∷ split rest sep
unfolding split cons_first
split-append [] rest sep h = ground (arith, eq_refl sep)
split-append (c ∷ p) rest sep (hc, h) = rw (ne→neq c sep hc, split-append p rest sep h)

-- A text lacks a byte that a search does not find.
pub any-Lacks : (s : Text) (sep : ℕ) → any (λ d. d == sep) s ≡ false → Lacks sep s
any-Lacks [] sep h = tt
any-Lacks (c ∷ s) sep h = elim (Bool-cases (c == sep)) [
  | inl q ↦ cc
  | inr q ↦ (λ e. cc (q, (eq_iff c sep).1 e), any-Lacks s sep (ground arith))
]
