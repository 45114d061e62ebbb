-- ===== src/Glob/Reference.antt =====
-- A matcher of patterns of stars and plain bytes that tries every place a star can end at, for
-- comparison with `path.Match`, which takes the first one. A star takes no slash.
use logspout.Prelude.{
  ◌≡◌, refl, ap, ℕ, suc, ◌+◌, Bool, true, false, not, ◌&&◌, ◌||◌, [], ◌∷◌, ◌++◌, Text, none, some,
  ◌==◌, nat_key, arith, All, if◌then◌else◌, Bool-cases, inl, inr,
}
use logspout.Text.{contains_byte}
use logspout.Glob.{is_empty, head_is, drop}
use logspout.Glob.Literal.{Plain, strip}

-- Does `g` hold of the text behind some beginning without a slash?
abbrev pub star : (Text → Bool) → Text → Bool
star g [] = g []
star g (c ∷ s) = g (c ∷ s) || (not (c == b'/') && star g s)

unfoldable pub glob : Text → Text → Bool
glob [] name = is_empty name
glob (c ∷ p) name = if c == b'*' then star (glob p) name else head_is c name && glob p (drop 1 name)

-- How many slashes a text has.
abbrev pub slashes : Text → ℕ
slashes [] = 0
slashes (c ∷ s) = if c == b'/' then suc (slashes s) else slashes s

pub slashes-append : (s t : Text) → slashes (s ++ t) ≡ slashes s + slashes t
slashes-append [] t = omega arith
slashes-append (c ∷ s) t = grind (arith, slashes-append s t)

pub star-append :
    (g : Text → Bool) (u t : Text) → slashes u ≡ 0 → g t ≡ true → star g (u ++ t) ≡ true
star-append g [] [] h e = e
star-append g [] (c ∷ t) h e = ground (arith, e)
star-append g (c ∷ u) t h e = ground (arith, star-append g u t)

-- What a star of a match has taken.
pub star-split :
    (g : Text → Bool) (s : Text)
    → star g s ≡ true
    → (u : Text) × (t : Text) × (s ≡ u ++ t) × (slashes u ≡ 0) × (g t ≡ true)
star-split g [] e = ([], [], refl, refl, e)
star-split g (c ∷ s) e = elim (Bool-cases (g (c ∷ s))) [
  | inl h ↦ ([], c ∷ s, refl, refl, h)
  | inr h ↦
      let (u, t, es, n, h') = star-split g s (ground (arith, e, h)) in
      (c ∷ u, t, ap (λ s. c ∷ s) es, ground (arith, e, h, n), h')
]

pub star-empty : (s : Text) → star is_empty s ≡ not (contains_byte s b'/')
star-empty [] = refl
star-empty (c ∷ s) = ground (arith, star-empty s)

pub star-star : (g : Text → Bool) (s : Text) → star (star g) s ≡ star g s
star-star g [] = refl
star-star g (c ∷ s) = ground (arith, star-star g s)

pub glob-Plain :
    (chunk p name : Text)
    → All Plain chunk
    → glob (chunk ++ p) name ≡ elim (strip chunk name) [ none ↦ false | some t ↦ glob p t ]
unfolding glob
glob-Plain [] p name h = refl
glob-Plain (c ∷ chunk) p [] (hc, h) = ground (arith, hc)
glob-Plain (c ∷ chunk) p (d ∷ name) (hc, h) = ground (arith, glob-Plain chunk p name h, hc)
