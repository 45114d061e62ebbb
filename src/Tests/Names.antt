-- ===== src/Tests/Names.antt =====
-- Routes that filter by patterns of names and labels.
use logspout.Prelude.{
  arith, Bool, not, eq_iff, ◌∷◌, [], text_key, ◌==◌, ◌≡◌, ◌&&◌, ◌||◌, codes, All, Text, nat_key,
  refl, true, false,
}
use logspout.Text.{has_prefix}
use logspout.Glob.{backslash}
use logspout.Glob.Reference.{glob}
use logspout.Glob.Chunks.{Simple}
use logspout.Router.Route.{Route, match_container, match_all}
use logspout.Router.Route.Globs.{admits, admits_all, match_container-glob}
use logspout.Tests.Data.{web, plain_route}

abbrev starred_route : Route
starred_route = record plain_route {
  filter_id = codes "8df";
  filter_name = codes "*b_*";
  filter_labels = codes "app:s*p" ∷ [];
}

abbrev is_simple : Text → Bool
is_simple [] = true
is_simple (c ∷ p) = not (c == b'?') && (not (c == b'[') && (not (c == backslash) && is_simple p))

simple : (p : Text) → is_simple p ≡ true → All Simple p
simple [] e = tt
simple (c ∷ p) e = (
  (
    λ h. ground (arith, e, h, eq_iff c b'?'),
    λ h. ground (arith, e, h, eq_iff c b'['),
    λ h. ground (arith, e, h, eq_iff c backslash),
  ),
  simple p (ground (arith, e)),
)

match_container-glob_example : match_container starred_route web.id (codes "web_db") web.labels ≡ (
    match_all starred_route
    || (has_prefix web.id (codes "8df")
        && (admits (codes "*b_*") (codes "web_db")
            && admits_all web.labels (codes "app:s*p" ∷ []))))
match_container-glob_example =
    match_container-glob starred_route web.id (codes "web_db") web.labels
      (simple (codes "*b_*") refl) (simple (codes "app:s*p") refl, tt)

-- Every place is tried, but none behind a slash.
tried : (glob (codes "*b_*") (codes "web_bb_") ≡ true) × (glob (codes "*b") (codes "a/b") ≡ false)
unfolding glob
tried = (refl, refl)
