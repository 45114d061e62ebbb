-- ===== src/Glob/Greedy.antt =====
-- `path.Match` lets a star end at the first place from which the chunk behind it goes on. What later
-- places would leave for the next star.
use logspout.Prelude.{
  ◌≡◌, ◌≢◌, refl, sym, ap, ◌∙◌, ℕ, ◌≤◌, Bool, true, false, [], ◌∷◌, ◌++◌, Text, Option, none, some,
  ◌==◌, nat_key, arith, All, length, if◌then◌else◌, Option-cases, inl, inr, append_assoc,
  length-append, ◌⊎◌,
}
use mathlib.Core.Path.{subst}
use logspout.Glob.{Chunk, rest, failed, bad_pattern, is_empty, at_start, skip}
use logspout.Glob.Literal.{Plain, strip, match_chunk-Plain}
use logspout.Glob.Reference.{
  star, glob, slashes, slashes-append, star-append, star-star, star-split, glob-Plain,
}

strip-append : (p t : Text) → strip p (p ++ t) ≡ some t
strip-append [] t = refl
strip-append (c ∷ p) t = ground (arith, strip-append p t)

strip-eq : (p s t : Text) → strip p s ≡ some t → s ≡ p ++ t
strip-eq [] s t e = ground (arith, e)
strip-eq (c ∷ p) [] t e = ground (arith, e)
strip-eq (c ∷ p) (d ∷ s) t e = ground (arith, e, strip-eq p s t)

-- Of two beginnings of a text the longer one goes on where the shorter one ends.
longer :
    (a b t s : Text)
    → a ++ t ≡ b ++ s
    → length a ≤ length b
    → (u : Text) × (t ≡ u ++ s) × (b ≡ a ++ u)
longer [] b t s e le = (b, e, refl)
longer (c ∷ a) [] t s e le = absurd (omega (arith, le))
longer (c ∷ a) (d ∷ b) t s e le =
    let (u, et, eb) = longer a b t s (ground (arith, e)) (omega (arith, le)) in
    (u, et, ground (arith, e, eb))

-- What lies between the first match of a chunk and a later one has no slash.
between :
    (chunk w s t : Text)
    → chunk ++ t ≡ w ++ (chunk ++ s)
    → slashes w ≡ 0
    → (u : Text) × (t ≡ u ++ s) × (slashes u ≡ 0)
between chunk w s t e n =
    let (u, et, eb) =
      longer chunk (w ++ chunk) t s (e ∙ sym (append_assoc w chunk s))
        (omega (arith, length-append w chunk)) in
    (u, et, omega (arith, n, slashes-append w chunk, slashes-append chunk u, ap slashes eb))

-- What follows a chunk: nothing, or a star.
abbrev pub Next : Text → Type 0
Next [] = Unit
Next (c ∷ p) = c ≡ b'*'

truths : (a b : Bool) → (a ≡ true → b ≡ true) → (b ≡ true → a ≡ true) → a ≡ b
truths true b f g = sym (f refl)
truths false true f g = g refl
truths false false f g = refl

-- What the chunk leaves at the current position.
abbrev pub left : Bool → Option Text → Chunk
left last none = failed
left last (some []) = rest []
left last (some (d ∷ t)) = if last then failed else rest (d ∷ t)

pub at_start-Plain :
    (chunk : Text) (last : Bool) (name : Text)
    → All Plain chunk
    → at_start chunk last name ≡ left last (strip chunk name)
unfolding at_start
at_start-Plain chunk last name h = ground (arith, match_chunk-Plain chunk name h)

-- A later place for the chunk leaves no more than the first one.
first_enough :
    (chunk p name t : Text)
    → All Plain chunk
    → strip chunk name ≡ some t
    → star (glob (chunk ++ b'*' ∷ p)) name ≡ true
    → star (glob p) t ≡ true
first_enough chunk p name t h e m =
    let (w, s, es, n, m') = star-split (glob (chunk ++ b'*' ∷ p)) name m in
    elim (Option-cases (strip chunk s)) [
      | inl e' ↦ absurd (ground (arith, m', glob-Plain chunk (b'*' ∷ p) s h, e'))
      | inr (s', e') ↦
          let (u, et, nu) =
            between chunk w s' t
              (sym (strip-eq chunk name t e) ∙ (es ∙ ap (λ s. w ++ s) (strip-eq chunk s s' e')))
              n in
          rw et (
            sym (star-star (glob p) (u ++ s'))
            ∙ star-append (star (glob p)) u s' nu
                (unfold glob in sym (glob-Plain chunk (b'*' ∷ p) s h ∙ rw e' refl) ∙ m'))
    ]

-- What is left where the chunk is found.
strip-found :
    (chunk name t : Text) (last : Bool)
    → All Plain chunk
    → at_start chunk last name ≡ rest t
    → (strip chunk name ≡ some t) × (last ≡ true → t ≡ [])
strip-found chunk name t last h e = elim (Option-cases (strip chunk name)) [
  | inl e' ↦ absurd (ground (arith, e, e', at_start-Plain chunk last name h))
  | inr ([], e') ↦ (
    ground (arith, e, e', at_start-Plain chunk last name h),
    λ l. ground (arith, e, e', at_start-Plain chunk last name h),
  )
  | inr (d ∷ s, e') ↦ (
    ground (arith, e, e', at_start-Plain chunk last name h),
    λ l. ground (arith, l, e, e', at_start-Plain chunk last name h),
  )
]

pub glob-found :
    (chunk p name t : Text)
    → All Plain chunk
    → at_start chunk (is_empty p) name ≡ rest t
    → glob (chunk ++ p) name ≡ glob p t
glob-found chunk p name t h e =
    glob-Plain chunk p name h ∙ rw (strip-found chunk name t (is_empty p) h e).0 refl

star-here : (g : Text → Bool) (s : Text) → g s ≡ true → star g s ≡ true
star-here g s e = star-append g [] s refl e

-- Where the chunk is found, the star before it needs no other place.
pub star-found :
    (chunk p name t : Text)
    → All Plain chunk
    → Next p
    → at_start chunk (is_empty p) name ≡ rest t
    → star (glob (chunk ++ p)) name ≡ glob p t
star-found chunk [] name t h np e =
    let found : glob [] t ≡ true =
      rw ((strip-found chunk name t true h e).1 refl) (unfold glob in refl) in
    star-here (glob (chunk ++ [])) name (glob-found chunk [] name t h e ∙ found) ∙ sym found
star-found chunk (c ∷ p) name t h np e =
    truths (star (glob (chunk ++ c ∷ p)) name) (glob (c ∷ p) t)
      (λ m. rw np (
        unfold glob in
        first_enough chunk p name t h (strip-found chunk name t false h e).0
          (subst (λ c. star (glob (chunk ++ c ∷ p)) name ≡ true) np m)))
      (λ m. star-here (glob (chunk ++ c ∷ p)) name (glob-found chunk (c ∷ p) name t h e ∙ m))

-- Where it is not, the pattern does not match here.
pub glob-failed :
    (chunk p name : Text)
    → All Plain chunk
    → at_start chunk (is_empty p) name ≡ failed
    → glob (chunk ++ p) name ≡ false
unfolding glob
glob-failed chunk [] name h e = ground (
  arith,
  glob-Plain chunk [] name h,
  at_start-Plain chunk true name h,
  e,
  Option-cases (strip chunk name),
)
glob-failed chunk (c ∷ p) name h e =
    ground (arith, glob-Plain chunk (c ∷ p) name h, at_start-Plain chunk false name h, e)

skip-cons :
    (chunk : Text) (last : Bool) (c : ℕ) (s : Text)
    → All Plain chunk
    → skip chunk last (c ∷ s) ≡ (
        if c == b'/' then failed else elim (at_start chunk last s) [
          | rest t ↦ rest t
          | failed ↦ skip chunk last s
          | bad_pattern ↦ bad_pattern
        ])
unfolding skip at_start
skip-cons chunk last c s h = ground (arith, match_chunk-Plain chunk s h)

pub Chunk-cases : (x : Chunk) → ((t : Text) × (x ≡ rest t)) ⊎ (x ≡ failed) ⊎ (x ≡ bad_pattern)
Chunk-cases (rest t) = inl (t, refl)
Chunk-cases failed = inr (inl refl)
Chunk-cases bad_pattern = inr (inr refl)

-- How a round ends, by what it has found of the chunk.
abbrev pub verdict : Text → Chunk → Option Bool
verdict p (rest t) = some (glob p t)
verdict p failed = some false
verdict p bad_pattern = none

pub at_start-bad :
    (chunk : Text) (last : Bool) (name : Text)
    → All Plain chunk
    → at_start chunk last name ≢ bad_pattern
at_start-bad chunk last name h e = elim (Option-cases (strip chunk name)) [
  | inl e' ↦ ground (arith, e, e', at_start-Plain chunk last name h)
  | inr ([], e') ↦ ground (arith, e, e', at_start-Plain chunk last name h)
  | inr (d ∷ t, e') ↦ ground (arith, e, e', at_start-Plain chunk last name h)
]

-- Behind a star the chunk is looked for at every further place.
pub skip-star :
    (chunk p name : Text)
    → All Plain chunk
    → Next p
    → at_start chunk (is_empty p) name ≡ failed
    → verdict p (skip chunk (is_empty p) name) ≡ some (star (glob (chunk ++ p)) name)
skip-star chunk p [] h np e = unfold skip in ap some (sym (glob-failed chunk p [] h e))
skip-star chunk p (c ∷ name) h np e = elim (Chunk-cases (at_start chunk (is_empty p) name)) [
  | inl (t, e') ↦ ground (
    arith,
    e',
    skip-cons chunk (is_empty p) c name h,
    glob-failed chunk p (c ∷ name) h e,
    star-found chunk p name t h np e',
  )
  | inr (inl e') ↦ ground (
    arith,
    e',
    skip-cons chunk (is_empty p) c name h,
    glob-failed chunk p (c ∷ name) h e,
    skip-star chunk p name h np e',
  )
  | inr (inr e') ↦ absurd (at_start-bad chunk (is_empty p) name h e')
]
