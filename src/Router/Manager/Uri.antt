-- ===== src/Router/Manager/Uri.antt =====
-- `AddFromURI` and `Setup` of router/routes.go: routes that are given as URIs. Go's `os.ExpandEnv`
-- and its parsers of URIs and queries are parameters.
pub mod Params
use logspout.Prelude.{
  ℕ, suc, ◌+◌, ◌≡◌, refl, ◌≢◌, Bool, true, false, ◌||◌, List, [], ◌∷◌, ◌++◌, Option, none, some,
  Text, codes, text_key, text_beq, ◌==◌, if◌then◌else◌, Result, ok, err, ◌>>=◌, arith, eq_iff,
}
use logspout.Map.{Map, lookup, insert, lookup-insert}
use logspout.Map.Lookup.{Distinct}
use logspout.Text.{split}
use logspout.Cfg.{Env, get_env_default}
use logspout.Router.Route.{Route}
use logspout.Router.Manager.{RouteStore, AdapterFactory, RouteManager, Effect, Outcome, add, load}

-- The fields of a `url.URL` that are read.
pub record Uri : Type 0 where
  pub scheme : Text
  pub host : Text
  pub path : Text
  pub user : Option Text
  pub raw_query : Text

-- `url.Values`
abbrev pub Values : Type 0
Values = Map Text (List Text)

-- params.Get(key), for a key of `params`
abbrev pub first_value : List Text → Text
first_value [] = []
first_value (v ∷ _) = v

abbrev pub filter_id_key : Text
filter_id_key = codes "filter.id"

abbrev pub filter_name_key : Text
filter_name_key = codes "filter.name"

abbrev pub filter_labels_key : Text
filter_labels_key = codes "filter.labels"

abbrev pub filter_sources_key : Text
filter_sources_key = codes "filter.sources"

-- the `switch` in the loop over the parameters
unfoldable pub apply_param : Route → Text → Text → Route
apply_param r key value =
    if key == filter_id_key
    then record r { filter_id = value }
    else if key == filter_name_key
    then record r { filter_name = value }
    else if key == filter_labels_key
    then record r { filter_labels = split value b',' }
    else if key == filter_sources_key
    then record r { filter_sources = split value b',' }
    else record r { options = insert key value r.options }

unfoldable pub apply_params : Route → Values → Route
apply_params r [] = r
apply_params r ((key, vs) ∷ params) = apply_params (apply_param r key (first_value vs)) params

-- The route of a URI, before its query is read.
abbrev pub bare_route : Uri → Route
bare_route u = record {
  id = [];
  filter_id = [];
  filter_name = [];
  filter_sources = [];
  filter_labels = [];
  adapter = u.scheme;
  address = u.host;
  path = u.path;
  user = u.user;
  options = [];
  log_adapter = none;
  closed = false;
  closer = none;
  closer_rcv = none;
}

module _ (expand : Text → Text) (parse_uri : Text → Result Uri)
    (parse_query : Text → Result Values) where
  abbrev with_query : Route → Text → Result Route
  with_query r [] = ok r
  with_query r (c ∷ q) = do params ← parse_query (c ∷ q); ok (apply_params r params)

  unfoldable pub route_of_uri : Text → Result Route
  route_of_uri uri = do u ← parse_uri (expand uri); with_query (bare_route u) u.raw_query

  module _ {S : Type 0} (store : RouteStore S) (factories : Text → Option AdapterFactory) where
    abbrev added : Text → RouteManager S → Result Route → RouteManager S × Option Text × List Effect
    added fresh rm (err e) = (rm, some e, [])
    added fresh rm (ok r) =
        let o = add store factories fresh rm r in (o.manager, o.error, o.effects)

    -- AddFromURI
    unfoldable pub add_from_uri :
        Text → RouteManager S → Text → RouteManager S × Option Text × List Effect
    unfolding route_of_uri
    add_from_uri fresh rm uri = added fresh rm (route_of_uri uri)

    -- the loop over the URIs in `Setup`
    unfoldable pub add_uris :
        (ℕ → Text) → RouteManager S → List Text → RouteManager S × Option Text × List Effect
    add_uris fresh rm [] = (rm, none, [])
    add_uris fresh rm (u ∷ us) =
        let (rm', e, es) = add_from_uri (fresh rm.next_chan) rm u in
        let more = add_uris fresh rm' us in
        elim e [ none ↦ (more.0, more.1, es ++ more.2) | some x ↦ (rm', some x, es) ]

    -- The URIs of `Setup`: the first argument, or else the variable ROUTE_URIS.
    abbrev pub setup_uris : Env → List Text → Text
    setup_uris env (_ ∷ arg ∷ _) = arg
    setup_uris env _ = env (codes "ROUTE_URIS")

    abbrev uris_of : Text → List Text
    uris_of [] = []
    uris_of (c ∷ s) = split (c ∷ s) b','

    -- Setup. `stat` opens the store at a path, if there is such a path.
    unfoldable pub setup :
        (ℕ → Text)
        → Env
        → List Text
        → (Text → Option S)
        → RouteManager S
        → RouteManager S × Option Text × List Effect
    setup fresh env args stat rm =
        let (rm', e, es) = add_uris fresh rm (uris_of (setup_uris env args)) in
        elim e [
          | some x ↦ (rm', some x, es)
          | none ↦ elim (stat (get_env_default env (codes "ROUTESPATH") (codes "/mnt/routes"))) [
            | none ↦ (rm', none, es)
            | some s ↦
                let (rm'', e', es') = load store factories fresh rm' s in (rm'', e', es ++ es')
          ]
        ]
