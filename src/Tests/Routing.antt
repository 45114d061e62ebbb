-- ===== src/Tests/Routing.antt =====
-- Routes and their manager.
use logspout.Prelude.{
  ◌≡◌, refl, ◌↔◌, ◌⊎◌, true, false, [], ◌∷◌, ◌++◌, none, some, Text, codes, text_beq, ok, err,
  if◌then◌else◌, ◌==◌, text_key, Option, List, nat_key, Bool,
}
use logspout.Map.{lookup, insert}
use logspout.Text.{split, split_two, has_prefix}
use logspout.Glob.{path_match}
use logspout.Router.Route.{Route, adapter_type, match_all, match_container}
use logspout.Router.Route.Match.{Selects, match_container_iff}
use logspout.Router.Manager.{
  RouteStore, AdapterFactory, RouteManager, Effect, new_manager, bad_adapter, get, add, remove, run,
  install,
}
use logspout.Router.Manager.Table.{get-add}
use logspout.Router.Manager.Alive.{alive, waiting, Holds}
use logspout.Router.Manager.Blocking.{passes, Free, passes_iff}
use logspout.Router.Manager.Effects.{Reach, created, added, ran, alive_iff_held}
use logspout.Router.Manager.Uri.{
  apply_params, filter_id_key, filter_name_key, filter_labels_key, filter_sources_key, Values,
  apply_param,
}
use logspout.Router.Manager.Uri.Params.{given, given_list, option_of, is_filter, apply_params_lem}
use logspout.Tests.Data.{web, plain_route}

abbrev db_route : Route
db_route = record plain_route {
  filter_name = codes "*_db";
  filter_labels = codes "app:sh*" ∷ [];
  filter_sources = codes "stderr" ∷ [];
}

matched : match_container db_route web.id (codes "web_db") web.labels ≡ true
unfolding match_container path_match split_two has_prefix lookup text_beq
matched = refl

match_container_iff_example :
    (match_container db_route web.id (codes "web_db") web.labels ≡ true)
    ↔ ((match_all db_route ≡ true) ⊎ Selects db_route web.id (codes "web_db") web.labels)
match_container_iff_example = match_container_iff db_route web.id (codes "web_db") web.labels

-- A store that keeps a list of routes, and one adapter.
abbrev pub shelf : RouteStore (List Route)
shelf = record {
  get = λ s id. err (codes "no such file");
  get_all = λ s. ok s;
  add = λ s r. (r ∷ s, none);
  remove = λ s id. (s, false);
}

abbrev pub raw_only : Text → Option AdapterFactory
raw_only name = if name == codes "raw" then some (λ r. (r, ok 7)) else none

abbrev pub fresh : Text
fresh = codes "0123456789ab"

abbrev pub start : RouteManager (List Route)
start = new_manager

bad_route_fails :
    (add shelf raw_only fresh start (record plain_route { adapter = codes "nope" })).error
    ≡ some (bad_adapter ++ codes "nope")
unfolding add adapter_type split text_beq
bad_route_fails = refl

good_route_added : (add shelf raw_only fresh start plain_route).error ≡ none
unfolding add install adapter_type split text_beq
good_route_added = refl

get-add_example : get (add shelf raw_only fresh start plain_route).manager fresh ≡ (
    if (add shelf raw_only fresh start plain_route).route.id == fresh
    then some (add shelf raw_only fresh start plain_route).route
    else get start fresh)
get-add_example = get-add shelf raw_only fresh start plain_route fresh good_route_added

abbrev pub one_route : RouteManager (List Route)
one_route = (add shelf raw_only fresh start plain_route).manager

-- A route is added, the manager runs, the route is replaced, and another is added and removed.
abbrev replaced : RouteManager (List Route)
replaced = (add shelf raw_only fresh (run one_route).0 (record plain_route { id = fresh })).manager

abbrev replaced_log : List Effect
replaced_log =
    (([] ++ (add shelf raw_only fresh start plain_route).effects) ++ (run one_route).1)
    ++ (add shelf raw_only fresh (run one_route).0 (record plain_route { id = fresh })).effects

idle_start : one_route.routing ≡ false
unfolding add install adapter_type split text_beq
idle_start = refl

replaced_reached : Reach shelf raw_only replaced replaced_log
replaced_reached =
    added fresh (record plain_route { id = fresh })
      (ran idle_start (added fresh plain_route created))

replaced_routing : replaced.routing ≡ true
unfolding add install run adapter_type split text_beq
replaced_routing = refl

alive_iff_held_example :
    (waiting (λ c. c == 0) replaced_log 1 ≡ true)
    ↔ (Holds 1 replaced.routes × (◌≡◌ {A = Bool} false false))
alive_iff_held_example =
    alive_iff_held shelf raw_only (λ c. c == 0) replaced_reached replaced_routing 1

plain_added : (add shelf raw_only fresh replaced plain_route).error ≡ none
unfolding add install run adapter_type split text_beq
plain_added = refl

passes_iff_example :
    ((passes (waiting (λ c. c == 1) replaced_log) (remove shelf replaced fresh).2 ≡ true)
      ↔ Free (λ c. c == 1) replaced fresh)
    × ((passes
            (waiting (λ c. c == 1) replaced_log)
            (add shelf raw_only fresh replaced plain_route).effects
          ≡ true)
        ↔ Free (λ c. c == 1) replaced (add shelf raw_only fresh replaced plain_route).route.id)
passes_iff_example =
    passes_iff shelf raw_only (λ c. c == 1) fresh plain_route fresh replaced_reached plain_added

-- A route whose loop has come to an end cannot be removed.
stuck : passes (waiting (λ c. c == 1) replaced_log) (remove shelf replaced fresh).2 ≡ false
unfolding add remove install run adapter_type split text_beq lookup insert
stuck = refl

one_alive : (alive 0 replaced_log ≡ false) × (alive 1 replaced_log ≡ true)
unfolding add install run adapter_type split text_beq lookup insert
one_alive = (refl, refl)

abbrev query : Values
query =
    (codes "filter.name", codes "*_db" ∷ [])
    ∷ (codes "tag", codes "x" ∷ codes "y" ∷ [])
    ∷ (codes "filter.sources", codes "stdout,stderr" ∷ [])
    ∷ []

apply_params_lem_example :
    ((apply_params plain_route query).filter_id ≡ given [] (lookup filter_id_key query))
    × ((apply_params plain_route query).filter_name ≡ given [] (lookup filter_name_key query))
    × ((apply_params plain_route query).filter_labels
        ≡ given_list [] (lookup filter_labels_key query))
    × ((apply_params plain_route query).filter_sources
        ≡ given_list [] (lookup filter_sources_key query))
    × ((j : Text)
        → lookup j (apply_params plain_route query).options
          ≡ (if is_filter j then lookup j [] else option_of (lookup j []) (lookup j query)))
unfolding lookup text_beq
apply_params_lem_example = apply_params_lem plain_route query (refl, (refl, (refl, tt)))

query_read :
    ((apply_params plain_route query).filter_sources ≡ codes "stdout" ∷ codes "stderr" ∷ [])
    × ((apply_params plain_route query).options ≡ (codes "tag", codes "x") ∷ [])
unfolding apply_params apply_param split insert text_beq
query_read = (refl, refl)
