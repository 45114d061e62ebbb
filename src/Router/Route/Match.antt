-- ===== src/Router/Route/Match.antt =====
-- What a route selects.
use logspout.Prelude.{
  eq_iff, ◌==◌, ◌≡◌, refl, ◌↔◌, ◌⊎◌, Bool, true, false, [], ◌∷◌, ◌++◌, some, Text, arith, text_key,
  List, sym, any, All, ◌∙◌, Bool-cases, inl, ap, inr,
}
use logspout.Map.{Map}
use logspout.Text.Split.{
  Lacks, split_two-append, split_two-Lacks, Cut, whole, at_first, split_two-Cut,
}
use logspout.Text.{has_prefix}
use logspout.Glob.{path_match}
use logspout.Router.Route.{
  rejects, label_of, label_rejects, Route, match_container, match_all, match_message, contains,
}

-- A filter pattern admits a text: the pattern is empty, or it is well-formed and matches.
abbrev pub Admits : Text → Text → Type 0
Admits pattern s = (pattern ≡ []) ⊎ (path_match pattern s ≡ some true)

path_match-nil : (s : Text) → (b : Bool) × (path_match [] s ≡ some b)
unfolding path_match
path_match-nil [] = (true, refl)
path_match-nil (c ∷ s) = (false, refl)

rejects_iff : (pattern s : Text) → (rejects pattern s ≡ false) ↔ Admits pattern s
unfolding rejects
rejects_iff [] s = ground (arith, path_match-nil s)
rejects_iff (c ∷ p) s = ground arith

-- A label filter `key:value` holds of a container's labels; any other filter holds.
abbrev pub Requires : Map Text Text → Text → Type 0
Requires labels label =
    (key value : Text)
    → Lacks b':' key
    → label ≡ key ++ b':' ∷ value
    → Admits value (label_of labels key)

label_rejects-append :
    (labels : Map Text Text) (key value : Text)
    → Lacks b':' key
    → label_rejects labels (key ++ b':' ∷ value) ≡ rejects value (label_of labels key)
unfolding label_rejects
label_rejects-append labels key value h = rw (split_two-append key value b':' h, label_rejects)

label_rejects-Lacks :
    (labels : Map Text Text) (s : Text) → Lacks b':' s → label_rejects labels s ≡ false
unfolding label_rejects
label_rejects-Lacks labels s h = rw (split_two-Lacks s b':' h, label_rejects)

label_rejects-Cut :
    (labels : Map Text Text) (label : Text) {ps : List Text}
    → Cut label b':' ps
    → Requires labels label
    → label_rejects labels label ≡ false
label_rejects-Cut labels label (whole h) q = label_rejects-Lacks labels label h
label_rejects-Cut labels label (at_first key value h e) q = rw e (
    rw (label_rejects-append labels key value h)
      ((rejects_iff value (label_of labels key)).1 (q key value h e)))

label_rejects_iff :
    (labels : Map Text Text) (label : Text)
    → (label_rejects labels label ≡ false) ↔ Requires labels label
label_rejects_iff labels label = (
  λ h key value l e.
      (rejects_iff value (label_of labels key)).0
        (sym (label_rejects-append labels key value l) ∙ ap (label_rejects labels) (sym e) ∙ h),
  label_rejects-Cut labels label (split_two-Cut label b':'),
)

any_label :
    (labels : Map Text Text) (filters : List Text)
    → (any (label_rejects labels) filters ≡ false) ↔ All (Requires labels) filters
any_label labels [] = (λ h. tt, λ h. refl)
any_label labels (l ∷ ls) =
    let (to, from) = label_rejects_iff labels l in
    let (to', from') = any_label labels ls in
    (λ h. (to (ground arith), to' (ground arith)), λ (h, hs). ground (arith, from h, from' hs))

has_prefix-nil : (s : Text) → has_prefix s [] ≡ true
unfolding has_prefix
has_prefix-nil [] = refl
has_prefix-nil (c ∷ s) = refl

-- The container passes each filter of the route.
pub record Selects (r : Route) (id name : Text) (labels : Map Text Text) : Type 0 where
  pub by_id : has_prefix id r.filter_id ≡ true
  pub by_name : Admits r.filter_name name
  pub by_labels : All (Requires labels) r.filter_labels

module _ (r : Route) (id name : Text) (labels : Map Text Text) where
  match_container→Selects :
      match_container r id name labels ≡ true → (match_all r ≡ true) ⊎ Selects r id name labels
  unfolding match_container
  match_container→Selects h = elim (Bool-cases (match_all r)) [
    | inl e ↦ inl e
    | inr e ↦ inr (record {
      by_id = ground (arith, has_prefix-nil id);
      by_name = (rejects_iff r.filter_name name).0 (ground arith);
      by_labels = (any_label labels r.filter_labels).0 (ground arith);
    })
  ]

  Selects→match_container : Selects r id name labels → match_container r id name labels ≡ true
  unfolding match_container
  Selects→match_container s = ground (
    arith,
    (rejects_iff r.filter_name name).1 s.by_name,
    (any_label labels r.filter_labels).1 s.by_labels,
    s.by_id,
  )

  -- A container is matched exactly when the route has no filter at all, or the container passes
  -- each of them: its id begins with the id filter, the name filter admits its name, and each
  -- label filter `key:value` admits the value of its label (the empty text where there is none).
  pub match_container_iff :
      (match_container r id name labels ≡ true) ↔ ((match_all r ≡ true) ⊎ Selects r id name labels)
  unfolding match_container
  match_container_iff = (
    match_container→Selects,
    λ h. elim h [ inl e ↦ ground arith | inr s ↦ Selects→match_container s ],
  )

-- The text is one of the list.
abbrev pub Listed : Text → List Text → Type 0
Listed str [] = ⊥
Listed str (s ∷ strs) = (s ≡ str) ⊎ Listed str strs

contains→Listed : (strs : List Text) (str : Text) → contains strs str ≡ true → Listed str strs
unfolding contains
contains→Listed [] str h = cc
contains→Listed (s ∷ strs) str h = elim (Bool-cases (s == str)) [
  | inl e ↦ inl ((eq_iff s str).0 e)
  | inr e ↦ inr (contains→Listed strs str (ground arith))
]

Listed→contains : (strs : List Text) (str : Text) → Listed str strs → contains strs str ≡ true
unfolding contains
Listed→contains [] str h = absurd h
Listed→contains (s ∷ strs) str (inl e) = ground (arith, (eq_iff s str).1 e)
Listed→contains (s ∷ strs) str (inr h) = ground (arith, Listed→contains strs str h)

-- A message is matched exactly when the route has no source filter, or one that lists its source.
pub match_message_iff :
    (r : Route) (source : Text)
    → (match_message r source ≡ true) ↔ ((r.filter_sources ≡ []) ⊎ Listed source r.filter_sources)
unfolding match_message
match_message_iff r source = (
  λ h. elim (Bool-cases (contains r.filter_sources source)) [
    | inl e ↦ inr (contains→Listed r.filter_sources source e)
    | inr e ↦ inl (ground arith)
  ],
  λ h. elim h [
    | inl e ↦ ground arith
    | inr l ↦ ground (arith, Listed→contains r.filter_sources source l)
  ],
)
