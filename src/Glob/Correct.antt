-- ===== src/Glob/Correct.antt =====
-- The rounds of `path.Match` on patterns of stars and plain bytes, beside the matcher that tries every
-- place.
use logspout.Prelude.{
  ◌≡◌, refl, sym, ap, ◌∙◌, ℕ, zero, suc, ◌≤◌, Bool, true, false, not, [], ◌∷◌, ◌++◌, Text, nat_key,
  arith, All, length, length-append, if◌then◌else◌, inl, inr, Option, none, some,
}
use mathlib.Core.Path.{subst}
use logspout.Text.{contains_byte}
use logspout.Glob.{
  Chunk, rest, failed, bad_pattern, is_empty, skip_stars, scan_chunk, match_here, check_rest,
  at_start, skip, match_round, match_loop, path_match, contains_byte, match_chunk,
}
use logspout.Glob.Literal.{Plain, match_chunk-Plain, match_loop-round}
use logspout.Glob.Reference.{star, glob, star-empty}
use logspout.Glob.Greedy.{
  Next, verdict, Chunk-cases, at_start-bad, skip-star, star-found, glob-found, glob-failed,
}
use logspout.Glob.Chunks.{Simple, Bare, Skipped, Cut, skip_stars-Skipped, scan_chunk-Cut}

-- The end of a round: what the rounds after it say to the rest.
round_end :
    (more : Text → Text → Option Bool) (f : ℕ) (p : Text) (x : Chunk)
    → ((t : Text) → more p t ≡ some (glob p t))
    → check_rest f p ≡ some false
    → elim x [ rest t ↦ more p t | bad_pattern ↦ none | failed ↦ check_rest f p ] ≡ verdict p x
round_end more f p (rest t) k e = k t
round_end more f p failed k e = e
round_end more f p bad_pattern k e = refl

-- What a pattern without its leading stars means.
abbrev meant : Bool → Text → Text → Bool
meant st p name = if st then star (glob p) name else glob p name

-- A star with nothing behind it.
lone_star : (p name : Text) → Next p → Bare p → star (glob p) name ≡ not (contains_byte name b'/')
lone_star [] name n b = unfold glob in star-empty name
lone_star (c ∷ p) name n b = absurd (b n)

match_round-glob :
    (more : Text → Text → Option Bool) (f : ℕ) (st : Bool) (chunk p name : Text)
    → All Plain chunk
    → Next p
    → Bare (chunk ++ p)
    → ((t : Text) → more p t ≡ some (glob p t))
    → check_rest f p ≡ some false
    → match_round more f st (chunk, p) name ≡ some (meant st (chunk ++ p) name)
unfolding match_round
match_round-glob more f true [] p name h n b k e = ap some (sym (lone_star p name n b))
match_round-glob more f true (c ∷ chunk) p name h n b k e =
    elim (Chunk-cases (at_start (c ∷ chunk) (is_empty p) name)) [
      | inl (t, e') ↦ rw e' (k t ∙ ap some (sym (star-found (c ∷ chunk) p name t h n e')))
      | inr (inl e') ↦ rw e' (
          round_end more f p (skip (c ∷ chunk) (is_empty p) name) k e
          ∙ skip-star (c ∷ chunk) p name h n e')
      | inr (inr e') ↦ absurd (at_start-bad (c ∷ chunk) (is_empty p) name h e')
    ]
match_round-glob more f false chunk p name h n b k e =
    elim (Chunk-cases (at_start chunk (is_empty p) name)) [
      | inl (t, e') ↦ rw e' (k t ∙ ap some (sym (glob-found chunk p name t h e')))
      | inr (inl e') ↦ rw e' (e ∙ ap some (sym (glob-failed chunk p name h e')))
      | inr (inr e') ↦ absurd (at_start-bad chunk (is_empty p) name h e')
    ]

-- A round takes a byte at least.
shorter :
    (c : ℕ) (p : Text) (r : Bool × Text) (q : Text × Text)
    → Skipped (c ∷ p) r
    → Cut r.1 q
    → length q.1 ≤ length p
shorter c p (true, p₁) (chunk, p₂) s cut =
    omega (arith, s.less refl, ap length cut.joined, length-append chunk p₂)
shorter c p (false, p₁) ([], p₂) s cut =
    absurd (subst Bare (s.same refl) s.bare (subst Next (cut.joined ∙ s.same refl) cut.next))
shorter c p (false, p₁) (d ∷ chunk, p₂) s cut =
    omega (arith, ap length (s.same refl), ap length cut.joined, length-append chunk p₂)

check_round :
    (f : ℕ) (chunk p : Text)
    → All Plain chunk
    → check_rest f p ≡ some false
    → elim (match_here chunk []) [ bad_pattern ↦ none | _ ↦ check_rest f p ] ≡ some false
unfolding match_here
check_round f [] p h e = unfold match_chunk in e
check_round f (c ∷ chunk) p h e = rw (match_chunk-Plain (c ∷ chunk) [] h) e

check_rest-Simple : (f : ℕ) (p : Text) → All Simple p → length p ≤ f → check_rest f p ≡ some false
unfolding check_rest
check_rest-Simple f [] h le = refl
check_rest-Simple zero (c ∷ p) h le = absurd (omega (arith, le))
check_rest-Simple (suc f) (c ∷ p) h le =
    let skipped = skip_stars-Skipped (c ∷ p) h in
    let cut = scan_chunk-Cut (skip_stars (c ∷ p)).1 skipped.simple in
    let (chunk, p') = scan_chunk false (skip_stars (c ∷ p)).1 in
    check_round f chunk p' cut.plain (
      check_rest-Simple f p' cut.simple
        (omega (arith, le, shorter c p (skip_stars (c ∷ p)) (chunk, p') skipped cut)))

match_loop-glob :
    (f : ℕ) (p name : Text) → All Simple p → length p ≤ f → match_loop f p name ≡ some (glob p name)
match_loop-glob f [] name h le = unfold match_loop glob in refl
match_loop-glob zero (c ∷ p) name h le = absurd (omega (arith, le))
match_loop-glob (suc f) (c ∷ p) name h le =
    let skipped = skip_stars-Skipped (c ∷ p) h in
    let cut = scan_chunk-Cut (skip_stars (c ∷ p)).1 skipped.simple in
    let (st, p₁) = skip_stars (c ∷ p) in
    let (chunk, p₂) = scan_chunk false p₁ in
    let enough : length p₂ ≤ f = omega (arith, le, shorter c p (st, p₁) (chunk, p₂) skipped cut) in
    match_loop-round f c p name st p₁ chunk p₂ refl refl
    ∙ (match_round-glob (match_loop f) f st chunk p₂ name cut.plain cut.next
          (subst Bare (sym cut.joined) skipped.bare) (λ t. match_loop-glob f p₂ t cut.simple enough)
          (check_rest-Simple f p₂ cut.simple enough)
        ∙ (ap (λ q. some (meant st q name)) cut.joined ∙ ap some (sym (skipped.meaning name))))

-- The fuel is enough, and the verdict that of the reference.
pub path_match-glob : (p name : Text) → All Simple p → path_match p name ≡ some (glob p name)
path_match-glob p name h = unfold path_match in match_loop-glob (length p) p name h (omega arith)
