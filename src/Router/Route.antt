-- ===== src/Router/Route.antt =====
-- `Route` of router/types.go: what subset of the logs goes where.
pub mod Match
pub mod Adapter
pub mod Globs
use logspout.Prelude.{
  ℕ, Bool, true, false, not, ◌&&◌, ◌||◌, List, [], ◌∷◌, Option, none, some, Text, codes, ◌==◌,
  text_key, nat_key, if◌then◌else◌, any,
}
use logspout.Map.{Map, lookup}
use logspout.Text.{split, split_two, has_prefix, contains_byte}
use logspout.Glob.{path_match}

-- A channel is known by a number; so is an adapter, behind its interface.
pub record Route : Type 0 where
  pub id : Text
  pub filter_id : Text
  pub filter_name : Text
  pub filter_sources : List Text
  pub filter_labels : List Text
  pub adapter : Text
  pub address : Text
  pub path : Text
  pub user : Option Text
  pub options : Map Text Text
  pub log_adapter : Option ℕ
  pub closed : Bool
  pub closer : Option ℕ
  pub closer_rcv : Option ℕ

-- The element at an index below the length, which `strings.Split` never leaves empty.
abbrev first : List Text → Text
first [] = []
first (p ∷ _) = p

abbrev pub second_or : Text → List Text → Text
second_or dfault (_ ∷ p ∷ _) = p
second_or dfault _ = dfault

unfoldable pub adapter_type : Route → Text
adapter_type r = first (split r.adapter b'+')

unfoldable pub adapter_transport : Route → Text → Text
adapter_transport r dfault = second_or dfault (split r.adapter b'+')

-- Closer: the channel that a routing loop watches
unfoldable pub closer_of : Route → Option ℕ
closer_of r = elim r.closer_rcv [ some c ↦ some c | none ↦ r.closer ]

unfoldable pub override_closer : Route → Option ℕ → Route
override_closer r c = record r { closer_rcv = c }

abbrev pub is_nil {ℓ} : {A : Type ℓ} → List A → Bool
is_nil [] = true
is_nil (_ ∷ _) = false

unfoldable pub match_all : Route → Bool
match_all r =
    is_nil r.filter_id && is_nil r.filter_name && is_nil r.filter_sources && is_nil r.filter_labels

unfoldable pub multi_container : Route → Bool
unfolding match_all
multi_container r = match_all r || contains_byte r.filter_name b'*'

-- err != nil || (pattern != "" && !match)
unfoldable pub rejects : Text → Text → Bool
rejects pattern s = elim (path_match pattern s) [
  | none ↦ true
  | some matched ↦ not (is_nil pattern) && not matched
]

-- labels[key], which is "" where there is no such label
unfoldable pub label_of : Map Text Text → Text → Text
label_of labels key = elim (lookup key labels) [ none ↦ [] | some v ↦ v ]

-- The body of the loop over the label filters: does this one turn the container away?
unfoldable pub label_rejects : Map Text Text → Text → Bool
unfolding rejects label_of
label_rejects labels label = elim (split_two label b':') [
  | key ∷ value ∷ _ ↦ rejects value (label_of labels key)
  | _ ↦ false
]

unfoldable pub match_container : Route → Text → Text → Map Text Text → Bool
unfolding match_all rejects label_rejects
match_container r id name labels =
    if match_all r
    then true
    else if not (is_nil r.filter_id) && not (has_prefix id r.filter_id)
    then false
    else if rejects r.filter_name name
    then false
    else not (any (label_rejects labels) r.filter_labels)

unfoldable pub contains : List Text → Text → Bool
contains strs str = any (λ s. s == str) strs

unfoldable pub match_message : Route → Text → Bool
unfolding match_all contains
match_message r source =
    if match_all r
    then true
    else if not (is_nil r.filter_sources) && not (contains r.filter_sources source)
    then false
    else true
