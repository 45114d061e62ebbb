-- ===== src/Router/Manager/Uri/Params.antt =====
-- What the query of a URI makes of a route, whatever the order in which Go ranges over it.
use logspout.Prelude.{
  ◌≡◌, refl, Bool, ◌||◌, List, [], ◌∷◌, Option, none, some, Text, text_key, text_beq, ◌==◌,
  if◌then◌else◌, arith, eq_iff,
}
use logspout.Map.{lookup, lookup-insert}
use logspout.Map.Lookup.{Distinct}
use logspout.Text.{split}
use logspout.Router.Route.{Route}
use logspout.Router.Manager.Uri.{
  Values, first_value, filter_id_key, filter_name_key, filter_labels_key, filter_sources_key,
  apply_param, apply_params,
}

-- The text of a parameter, or what it was if the query has none of that name.
abbrev pub given : Text → Option (List Text) → Text
given old none = old
given old (some vs) = first_value vs

filter_id-apply_params :
    (r : Route) (params : Values)
    → Distinct params
    → (apply_params r params).filter_id ≡ given r.filter_id (lookup filter_id_key params)
unfolding apply_params apply_param lookup
filter_id-apply_params r [] d = refl
filter_id-apply_params r ((k, vs) ∷ params) (h, d) = ground (
  arith,
  filter_id-apply_params (apply_param r k (first_value vs)) params d,
  eq_iff k filter_id_key,
)

filter_name-apply_params :
    (r : Route) (params : Values)
    → Distinct params
    → (apply_params r params).filter_name ≡ given r.filter_name (lookup filter_name_key params)
unfolding apply_params apply_param lookup text_beq
filter_name-apply_params r [] d = refl
filter_name-apply_params r ((k, vs) ∷ params) (h, d) = ground (
  arith,
  filter_name-apply_params (apply_param r k (first_value vs)) params d,
  eq_iff k filter_name_key,
  eq_iff k filter_id_key,
)

-- A list that a parameter spells with commas.
abbrev pub given_list : List Text → Option (List Text) → List Text
given_list old none = old
given_list old (some vs) = split (first_value vs) b','

filter_labels-apply_params :
    (r : Route) (params : Values)
    → Distinct params
    → (apply_params r params).filter_labels
      ≡ given_list r.filter_labels (lookup filter_labels_key params)
unfolding apply_params apply_param lookup text_beq
filter_labels-apply_params r [] d = refl
filter_labels-apply_params r ((k, vs) ∷ params) (h, d) = ground (
  arith,
  filter_labels-apply_params (apply_param r k (first_value vs)) params d,
  eq_iff k filter_labels_key,
  eq_iff k filter_name_key,
  eq_iff k filter_id_key,
)

filter_sources-apply_params :
    (r : Route) (params : Values)
    → Distinct params
    → (apply_params r params).filter_sources
      ≡ given_list r.filter_sources (lookup filter_sources_key params)
unfolding apply_params apply_param lookup text_beq
filter_sources-apply_params r [] d = refl
filter_sources-apply_params r ((k, vs) ∷ params) (h, d) = ground (
  arith,
  filter_sources-apply_params (apply_param r k (first_value vs)) params d,
  eq_iff k filter_sources_key,
  eq_iff k filter_labels_key,
  eq_iff k filter_name_key,
  eq_iff k filter_id_key,
)

-- Is the parameter one of the four filters?
abbrev pub is_filter : Text → Bool
is_filter k =
    k == filter_id_key || k == filter_name_key || k == filter_labels_key || k == filter_sources_key

abbrev pub option_of : Option Text → Option (List Text) → Option Text
option_of old none = old
option_of old (some vs) = some (first_value vs)

options-apply_param :
    (r : Route) (k v j : Text)
    → lookup j (apply_param r k v).options
      ≡ (if is_filter k then lookup j r.options else if k == j then some v else lookup j r.options)
unfolding apply_param
options-apply_param r k v j = ground (arith, lookup-insert k v j r.options)

options-apply_params :
    (r : Route) (params : Values) (j : Text)
    → Distinct params
    → lookup j (apply_params r params).options ≡ (
        if is_filter j
        then lookup j r.options
        else option_of (lookup j r.options) (lookup j params))
unfolding apply_params lookup
options-apply_params r [] j d = ground arith
options-apply_params r ((k, vs) ∷ params) j (h, d) = ground (
  arith,
  options-apply_params (apply_param r k (first_value vs)) params j d,
  options-apply_param r k (first_value vs) j,
  eq_iff k j,
)

-- Each filter of the route is what its parameter says, the lists cut at commas; each parameter that
-- is no filter is an option, and no filter is one. A parameter that the query lacks leaves what
-- was there.
pub apply_params_lem :
    (r : Route) (params : Values)
    → Distinct params
    → ((apply_params r params).filter_id ≡ given r.filter_id (lookup filter_id_key params))
      × ((apply_params r params).filter_name ≡ given r.filter_name (lookup filter_name_key params))
      × ((apply_params r params).filter_labels
          ≡ given_list r.filter_labels (lookup filter_labels_key params))
      × ((apply_params r params).filter_sources
          ≡ given_list r.filter_sources (lookup filter_sources_key params))
      × ((j : Text)
          → lookup j (apply_params r params).options ≡ (
              if is_filter j
              then lookup j r.options
              else option_of (lookup j r.options) (lookup j params)))
apply_params_lem r params d = (
  filter_id-apply_params r params d,
  filter_name-apply_params r params d,
  filter_labels-apply_params r params d,
  filter_sources-apply_params r params d,
  λ j. options-apply_params r params j d,
)
