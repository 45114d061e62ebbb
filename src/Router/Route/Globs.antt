-- ===== src/Router/Route/Globs.antt =====
-- Routes whose filters are made of stars and plain bytes.
use logspout.Prelude.{
  ◌≡◌, refl, Bool, true, false, not, ◌&&◌, ◌||◌, List, [], ◌∷◌, ◌++◌, Text, text_key, any, All,
  arith,
}
use mathlib.Core.Path.{subst}
use logspout.Map.{Map}
use logspout.Text.{split_two, has_prefix}
use logspout.Text.Split.{Cut, whole, at_first, split_two-Cut}
use logspout.Glob.Reference.{glob}
use logspout.Glob.Chunks.{Simple}
use logspout.Glob.Correct.{path_match-glob}
use logspout.Router.Route.{
  Route, is_nil, rejects, label_of, label_rejects, match_all, match_container,
}

-- A filter that is there matches the text.
abbrev pub admits : Text → Text → Bool
admits p s = is_nil p || glob p s

-- Each label filter `key:value` admits the label that the container has there.
abbrev pub admits_all : Map Text Text → List Text → Bool
admits_all labels [] = true
admits_all labels (l ∷ ls) =
    (elim (split_two l b':') [ key ∷ value ∷ _ ↦ admits value (label_of labels key) | _ ↦ true ])
    && admits_all labels ls

All-behind : (s t : Text) → All Simple (s ++ t) → All Simple t
All-behind [] t h = h
All-behind (c ∷ s) t (hc, h) = All-behind s t h

has_prefix-nil : (s : Text) → has_prefix s [] ≡ true
unfolding has_prefix
has_prefix-nil [] = refl
has_prefix-nil (c ∷ s) = refl

rejects-glob : (p s : Text) → All Simple p → rejects p s ≡ not (admits p s)
unfolding rejects
rejects-glob p s h = ground (arith, path_match-glob p s h)

label_rejects-glob :
    (labels : Map Text Text) (l : Text) {ps : List Text}
    → All Simple l
    → Cut l b':' ps
    → elim ps [ key ∷ value ∷ _ ↦ rejects value (label_of labels key) | _ ↦ false ]
      ≡ not (elim ps [ key ∷ value ∷ _ ↦ admits value (label_of labels key) | _ ↦ true ])
label_rejects-glob labels l h (whole k) = refl
label_rejects-glob labels l h (at_first key value k e) =
    rejects-glob value (label_of labels key)
      (All-behind key (b':' ∷ value) (subst (All Simple) e h)).1

any-label_rejects :
    (labels : Map Text Text) (ls : List Text)
    → All (All Simple) ls
    → any (label_rejects labels) ls ≡ not (admits_all labels ls)
unfolding label_rejects
any-label_rejects labels [] h = refl
any-label_rejects labels (l ∷ ls) (hl, h) =
    ground
      (arith, label_rejects-glob labels l hl (split_two-Cut l b':'), any-label_rejects labels ls h)

-- Where no filter of a route has a class, a backslash or a question mark in it, a container is
-- selected exactly if the route has no filter at all, or the filter id begins the container's id and
-- each pattern matches, where a star stands for any text without a slash: the matching of patterns,
-- which takes the first place that a chunk is found at, agrees with trying every place.
pub match_container-glob :
    (r : Route) (id name : Text) (labels : Map Text Text)
    → All Simple r.filter_name
    → All (All Simple) r.filter_labels
    → match_container r id name labels ≡ (
        match_all r
        || (has_prefix id r.filter_id
            && (admits r.filter_name name && admits_all labels r.filter_labels)))
unfolding match_container
match_container-glob r id name labels hn hl = ground (
  arith,
  has_prefix-nil id,
  rejects-glob r.filter_name name hn,
  any-label_rejects labels r.filter_labels hl,
)
