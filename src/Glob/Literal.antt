-- ===== src/Glob/Literal.antt =====
-- `matchChunk` on chunks of plain bytes.
use logspout.Prelude.{
  ◌≡◌, ◌≢◌, refl, ap, ◌∙◌, ℕ, suc, Bool, true, false, not, ◌||◌, [], ◌∷◌, Text, nat_key, text_key,
  Option, none, some, ◌==◌, ne→neq, if◌then◌else◌, length, drop, All, inl, inr, Bool-cases,
}
use logspout.Glob.{
  Chunk, rest, failed, backslash, skip_stars, scan_chunk, match_chunk, match_here, match_round,
  match_loop, is_empty, head_is, is_empty, head_is,
}

-- A byte that stands for itself in a pattern.
abbrev pub Plain : ℕ → Type 0
Plain c = (c ≢ b'*') × (c ≢ b'?') × (c ≢ b'[') × (c ≢ backslash)

-- What is left of a text behind a beginning.
abbrev pub strip : Text → Text → Option Text
strip [] s = some s
strip (c ∷ p) [] = none
strip (c ∷ p) (d ∷ s) = if c == d then strip p s else none

abbrev pub of_strip : Option Text → Chunk
of_strip none = failed
of_strip (some t) = rest t

-- A plain byte goes onto the chunk.
pub scan_chunk-cons :
    (c d : ℕ) (p : Text)
    → Plain c
    → scan_chunk false (c ∷ d ∷ p)
      ≡ (c ∷ (scan_chunk false (d ∷ p)).0, (scan_chunk false (d ∷ p)).1)
unfolding scan_chunk
scan_chunk-cons c d p (hs, hq, hb, hk) = elim (Bool-cases (c == b']')) [
  | inl e ↦ rw (ne→neq c backslash hk, ne→neq c b'*' hs, ne→neq c b'[' hb, e) refl
  | inr e ↦ rw (ne→neq c backslash hk, ne→neq c b'*' hs, ne→neq c b'[' hb, e) refl
]

-- A plain byte is compared with the next one of the name.
match_chunk-byte :
    (f : ℕ) (out : Bool) (c : ℕ) (p s : Text)
    → Plain c
    → match_chunk (suc f) out (c ∷ p) s
      ≡ match_chunk f ((out || is_empty s) || not (head_is c s)) p (drop 1 s)
unfolding match_chunk
match_chunk-byte f out c p s (hs, hq, hb, hk) =
    rw (ne→neq c b'[' hb, ne→neq c b'?' hq, ne→neq c backslash hk) refl

match_chunk-out : (p s : Text) → All Plain p → match_chunk (length p) true p s ≡ failed
match_chunk-out [] s h = unfold match_chunk in refl
match_chunk-out (c ∷ p) s (hc, h) =
    match_chunk-byte (length p) true c p s hc ∙ match_chunk-out p (drop 1 s) h

pub match_chunk-Plain :
    (p s : Text) → All Plain p → match_chunk (length p) false p s ≡ of_strip (strip p s)
match_chunk-Plain [] s h = unfold match_chunk in refl
match_chunk-Plain (c ∷ p) [] (hc, h) =
    match_chunk-byte (length p) false c p [] hc ∙ match_chunk-out p [] h
match_chunk-Plain (c ∷ p) (d ∷ s) (hc, h) = elim (Bool-cases (c == d)) [
  | inl e ↦ match_chunk-byte (length p) false c p (d ∷ s) hc ∙ rw e (match_chunk-Plain p s h)
  | inr e ↦ match_chunk-byte (length p) false c p (d ∷ s) hc ∙ rw e (match_chunk-out p s h)
]

match_here-Plain : (p s : Text) → All Plain p → match_here p s ≡ of_strip (strip p s)
unfolding match_here
match_here-Plain p s h = match_chunk-Plain p s h

pub match_loop-round :
    (f c : ℕ) (p name : Text) (star : Bool) (p₁ chunk p₂ : Text)
    → skip_stars (c ∷ p) ≡ (star, p₁)
    → scan_chunk false p₁ ≡ (chunk, p₂)
    → match_loop (suc f) (c ∷ p) name ≡ match_round (match_loop f) f star (chunk, p₂) name
match_loop-round f c p name star p₁ chunk p₂ e d =
    unfold match_loop in
    ap (λ r. match_round (match_loop f) f r.0 (scan_chunk false r.1) name) e
    ∙ ap (λ r. match_round (match_loop f) f star r name) d
