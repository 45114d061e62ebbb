-- ===== src/Glob/Chunks.antt =====
-- How `path.Match` cuts a pattern of stars and plain bytes into chunks.
use logspout.Prelude.{
  ◌≡◌, ◌≢◌, refl, ap, ◌∙◌, ℕ, ◌<◌, Bool, true, false, [], ◌∷◌, ◌++◌, Text, ◌==◌, nat_key, arith,
  All, length, if◌then◌else◌, Bool-cases, inl, inr, eq_iff, ne→neq,
}
use logspout.Glob.{backslash, skip_stars, scan_chunk}
use logspout.Glob.Literal.{Plain, scan_chunk-cons}
use logspout.Glob.Reference.{star, glob, star-star}
use logspout.Glob.Greedy.{Next}

-- Neither a class, an escape nor a question mark.
abbrev pub Simple : ℕ → Type 0
Simple c = (c ≢ b'?') × (c ≢ b'[') × (c ≢ backslash)

-- No star is at the front.
abbrev pub Bare : Text → Type 0
Bare [] = Unit
Bare (c ∷ p) = c ≢ b'*'

-- What the leading stars leave, and what they mean.
pub record Skipped (p : Text) (r : Bool × Text) : Type 0 where
  pub meaning : (name : Text) → glob p name ≡ (if r.0 then star (glob r.1) name else glob r.1 name)
  pub simple : All Simple r.1
  pub bare : Bare r.1
  pub same : r.0 ≡ false → r.1 ≡ p
  pub less : r.0 ≡ true → length r.1 < length p

star-cong : (g h : Text → Bool) (s : Text) → ((t : Text) → g t ≡ h t) → star g s ≡ star h s
star-cong g h [] e = e []
star-cong g h (c ∷ s) e = ground (arith, e (c ∷ s), star-cong g h s e)

-- A star before a star, or none, means one star.
star-again :
    (st : Bool) (g h : Text → Bool) (s : Text)
    → ((t : Text) → g t ≡ (if st then star h t else h t))
    → star g s ≡ star h s
star-again true g h s e = star-cong g (star h) s e ∙ star-star h s
star-again false g h s e = star-cong g h s e

pub skip_stars-Skipped : (p : Text) → All Simple p → Skipped p (skip_stars p)
unfolding skip_stars glob
skip_stars-Skipped [] h = record {
  meaning = λ name. refl;
  simple = tt;
  bare = tt;
  same = λ e. refl;
  less = λ e. absurd (ground (arith, e));
}
skip_stars-Skipped (c ∷ p) (hc, h) =
    let more = skip_stars-Skipped p h in
    elim (Bool-cases (c == b'*')) [
      | inl e ↦ rw e (record {
        meaning = λ name.
            rw e (star-again (skip_stars p).0 (glob p) (glob (skip_stars p).1) name more.meaning);
        simple = more.simple;
        bare = more.bare;
        same = λ e. absurd (ground (arith, e));
        less = λ e. elim (Bool-cases (skip_stars p).0) [
          | inl st ↦ omega (arith, more.less st)
          | inr st ↦ omega (arith, ap length (more.same st))
        ];
      })
      | inr e ↦ rw e (record {
        meaning = λ name. refl;
        simple = (hc, h);
        bare = λ e'. ground (arith, e, e', eq_iff c b'*');
        same = λ e. refl;
        less = λ e. absurd (ground (arith, e));
      })
    ]

-- A chunk and what follows it.
pub record Cut (p : Text) (r : Text × Text) : Type 0 where
  pub joined : r.0 ++ r.1 ≡ p
  pub plain : All Plain r.0
  pub next : Next r.1
  pub simple : All Simple r.1

Simple-Plain : (c : ℕ) → Simple c → (c == b'*') ≡ false → Plain c
Simple-Plain c (hq, hb, hk) e = ((λ e'. ground (arith, e, e', eq_iff c b'*')), hq, hb, hk)

pub scan_chunk-Cut : (p : Text) → All Simple p → Cut p (scan_chunk false p)
scan_chunk-Cut [] h =
    unfold scan_chunk in record { joined = refl; plain = tt; next = tt; simple = tt }
scan_chunk-Cut (c ∷ []) (hc, h) =
    unfold scan_chunk in
    elim (Bool-cases (c == b'*')) [
      | inl e ↦
          rw e (record { joined = refl; plain = tt; next = (eq_iff c b'*').0 e; simple = (hc, h) })
      | inr e ↦
          rw e (record { joined = refl; plain = (Simple-Plain c hc e, tt); next = tt; simple = tt })
    ]
scan_chunk-Cut (c ∷ d ∷ p) ((hq, hb, hk), h) = elim (Bool-cases (c == b'*')) [
  | inl e ↦
      unfold scan_chunk in
      rw (ne→neq c backslash hk, e)
        (record {
          joined = refl;
          plain = tt;
          next = (eq_iff c b'*').0 e;
          simple = ((hq, hb, hk), h);
        })
  | inr e ↦
      let cut = scan_chunk-Cut (d ∷ p) h in
      let hc = Simple-Plain c (hq, hb, hk) e in
      rw (scan_chunk-cons c d p hc) (record {
        joined = ap (λ s. c ∷ s) cut.joined;
        plain = (hc, cut.plain);
        next = cut.next;
        simple = cut.simple;
      })
]
