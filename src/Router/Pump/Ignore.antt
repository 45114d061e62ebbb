-- ===== src/Router/Pump/Ignore.antt =====
-- Which containers the pump leaves out because of their labels.
use logspout.Prelude.{
  ◌≡◌, refl, ap, ◌∙◌, Bool, true, false, ◌||◌, List, [], ◌∷◌, ◌++◌, Text, codes, any, map, All,
  if◌then◌else◌,
}
use logspout.Cfg.{Env}
use logspout.Map.{Map}
use logspout.Text.{split, join}
use logspout.Text.Split.{Lacks, split-append, split-Lacks}
use logspout.Router.Message.{Container}
use logspout.Router.Pump.{says_ignore, has_excluded, excluded, exclude_labels, ignore_container}

-- A label and the value that excludes, as the setting writes them.
abbrev pub written : Text × Text → Text
written (k, v) = k ++ b':' ∷ v

abbrev pub WellFormed : Text × Text → Type 0
WellFormed (k, v) = (Lacks b':' k × Lacks b':' v) × Lacks b';' (written (k, v))

if-or : (b c : Bool) → (if b then true else c) ≡ b || c
if-or true c = refl
if-or false c = refl

excluded-written :
    (labels : Map Text Text) (label value : Text) (ps : List (Text × Text))
    → All WellFormed ps
    → excluded labels label value (map written ps) ≡ any (λ p. has_excluded labels p.0 p.1) ps
unfolding excluded
excluded-written labels label value [] h = refl
excluded-written labels label value ((k, v) ∷ ps) (((hk, hv), _), h) =
    rw (split-append k v b':' hk, split-Lacks v b':' hv, excluded-written labels k v ps h)
      (if-or (has_excluded labels k v) _)

split-join-written :
    (p : Text × Text) (ps : List (Text × Text))
    → All WellFormed (p ∷ ps)
    → split (join (map written (p ∷ ps)) (b';' ∷ [])) b';' ≡ map written (p ∷ ps)
unfolding join
split-join-written p [] ((_, h), _) = split-Lacks (written p) b';' h
split-join-written p (q ∷ ps) ((_, h), hs) =
    split-append (written p) _ b';' h ∙ ap (λ s. written p ∷ s) (split-join-written q ps hs)

-- Where EXCLUDE_LABELS, or EXCLUDE_LABEL if that is empty, lists labels with a value each, as `label:value` with
-- semicolons between, a container is left out exactly if its environment says so or one of the labels has its value, in
-- whatever letter case.
pub ignore_container_lem :
    (env : Env) (c : Container) (p : Text × Text) (ps : List (Text × Text))
    → All WellFormed (p ∷ ps)
    → exclude_labels env ≡ join (map written (p ∷ ps)) (b';' ∷ [])
    → ignore_container env c
      ≡ any says_ignore c.env || any (λ q. has_excluded c.labels q.0 q.1) (p ∷ ps)
unfolding ignore_container
ignore_container_lem env c p ps h e =
    rw
      (
        e,
        split-join-written p ps h,
        excluded-written c.labels (join (map written (p ∷ ps)) (b';' ∷ [])) (codes "true") (p ∷ ps)
            h,
      )
      (if-or (any says_ignore c.env) _)
