-- ===== src/Router/Manager.antt =====
-- `RouteManager` of router/routes.go. A method returns the new manager, its error, the route that
-- it was given as it left it, and what it did to the rest of the program: the routes it told to
-- stop (a send on their `closer`) and the goroutines `rm.route` that it started. The lock is held
-- throughout each method, so a method is one step.
pub mod Effects
pub mod Alive
pub mod Blocking
pub mod Waiting
mod Inv
mod Put
pub mod Table
pub mod Uri
pub mod Routers
use logspout.Prelude.{
  ℕ, suc, ◌+◌, ◌≡◌, Bool, true, false, List, [], ◌∷◌, ◌++◌, Option, none, some, Text, codes,
  text_key, ◌==◌, if◌then◌else◌, map, Result, ok, err,
}
use logspout.Map.{Map, lookup, insert, delete, values}
use logspout.Text.{split}
use logspout.Router.Route.{Route, adapter_type}

-- `RouteStore` of router/types.go, over the state that the store keeps.
pub record RouteStore (S : Type 0) : Type 0 where
  pub get : S → Text → Result Route
  pub get_all : S → Result (List Route)
  pub add : S → Route → S × Option Text
  pub remove : S → Text → S × Bool

-- An adapter factory may change the route that it is given.
abbrev pub AdapterFactory : Type 0
AdapterFactory = Route → Route × Result ℕ

pub data Effect : Type 0 where
  stop : Option ℕ → Effect
  start : Route → Effect

pub record RouteManager (S : Type 0) : Type 0 where
  pub persistor : Option S
  pub routes : Map Text Route
  pub routing : Bool
  pub next_chan : ℕ

-- `&RouteManager{routes: make(map[string]*Route)}`
abbrev pub new_manager : {S : Type 0} → RouteManager S
new_manager = record { persistor = none; routes = []; routing = false; next_chan = 0 }

-- What a method that takes a route leaves.
pub record Outcome (S : Type 0) : Type 0 where
  pub manager : RouteManager S
  pub error : Option Text
  pub route : Route
  pub effects : List Effect

abbrev pub bad_adapter : Text
bad_adapter = codes "bad adapter: "

abbrev stop_old : Option Route → List Effect
stop_old none = []
stop_old (some old) = stop old.closer ∷ []

-- A removed route's `closer` is sent to if it has one.
abbrev pub stop_removed : Option Route → List Effect
stop_removed none = []
stop_removed (some r) = elim r.closer [ none ↦ [] | some c ↦ stop (some c) ∷ [] ]

abbrev pub found : Option Route → Bool
found none = false
found (some _) = true

module _ {S : Type 0} where
  -- Get
  unfoldable pub get : RouteManager S → Text → Option Route
  get rm id = lookup id rm.routes

  -- GetAll
  unfoldable pub get_all : RouteManager S → List Route
  get_all rm = values rm.routes

module _ {S : Type 0} (store : RouteStore S) where
  abbrev persist_remove : Text → Option S → Option S
  persist_remove id none = none
  persist_remove id (some s) = some (store.remove s id).0

  -- Remove
  unfoldable pub remove : RouteManager S → Text → RouteManager S × Bool × List Effect
  remove rm id = (
    record rm { routes = delete id rm.routes; persistor = persist_remove id rm.persistor },
    found (lookup id rm.routes),
    stop_removed (lookup id rm.routes),
  )

  -- An error of the store is only logged.
  abbrev pub persist_add : Route → Option S → Option S
  persist_add r none = none
  persist_add r (some s) = some (store.add s r).0

  -- The part of `Add` behind the factory; `fresh` is the id made of the time's SHA-1.
  unfoldable pub install : Text → RouteManager S → Route → ℕ → Outcome S
  install fresh rm r₀ adapter =
      let id' : Text = if r₀.id == [] then fresh else r₀.id in
      let r = record r₀ { id = id'; closer = some rm.next_chan; log_adapter = some adapter } in
      record {
        manager = record rm {
          routes = insert id' r rm.routes;
          persistor = persist_add r rm.persistor;
          next_chan = suc rm.next_chan;
        };
        error = none;
        route = r;
        effects = stop_old (lookup id' rm.routes) ++ (if rm.routing then start r ∷ [] else []);
      }

module _ {S : Type 0} (store : RouteStore S) (factories : Text → Option AdapterFactory) where
  abbrev pub build : Text → RouteManager S → Route × Result ℕ → Outcome S
  build fresh rm (r, err e) = record { manager = rm; error = some e; route = r; effects = [] }
  build fresh rm (r, ok adapter) = install store fresh rm r adapter

  -- Add
  unfoldable pub add : Text → RouteManager S → Route → Outcome S
  add fresh rm route = elim (factories (adapter_type route)) [
    | none ↦ record {
      manager = rm;
      error = some (bad_adapter ++ route.adapter);
      route = route;
      effects = [];
    }
    | some factory ↦ build fresh rm (factory route)
  ]

  -- The loop of `Load`; each `Add` that needs an id takes the next one of `fresh`.
  unfoldable pub add_all :
      (ℕ → Text) → RouteManager S → List Route → RouteManager S × Option Text × List Effect
  add_all fresh rm [] = (rm, none, [])
  add_all fresh rm (r ∷ rs) =
      let o = add (fresh rm.next_chan) rm r in
      let more = add_all fresh o.manager rs in
      elim o.error [
        | none ↦ (more.0, more.1, o.effects ++ more.2)
        | some e ↦ (o.manager, some e, o.effects)
      ]

  -- Load
  unfoldable pub load : (ℕ → Text) → RouteManager S → S → RouteManager S × Option Text × List Effect
  unfolding add_all
  load fresh rm s = elim (store.get_all s) [
    | err e ↦ (rm, some e, [])
    | ok rs ↦
        let (rm', e, es) = add_all fresh rm rs in
        elim e [ none ↦ (record rm' { persistor = some s }, none, es) | some x ↦ (rm', some x, es) ]
  ]

module _ {S : Type 0} where
  -- Run, up to its wait: one goroutine for each route
  unfoldable pub run : RouteManager S → RouteManager S × List Effect
  run rm = (record rm { routing = true }, map start (values rm.routes))
