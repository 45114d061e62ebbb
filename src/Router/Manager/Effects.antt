-- ===== src/Router/Manager/Effects.antt =====
-- Which routing goroutines the methods of a manager leave alive: after `Run`, those of the routes
-- in the table and no other.
use logspout.Prelude.{
  ℕ, ◌≡◌, refl, ◌↔◌, inl, inr, true, false, List, [], ◌++◌, Option, Text, text_key, nat_key, Result,
  ok, err, Option-cases, append-nil, Bool, arith,
}
use logspout.Router.Route.{Route, adapter_type}
use logspout.Router.Manager.{
  RouteStore, AdapterFactory, RouteManager, Effect, new_manager, install, build, add, remove, run,
}
use logspout.Router.Manager.Alive.{waiting, alive, Holds}
use logspout.Router.Manager.Inv.{Inv, new_manager-Inv, run-Inv}
use logspout.Router.Manager.Put.{put-Inv, remove-Inv}

module _ {S : Type 0} (store : RouteStore S) (factories : Text → Option AdapterFactory) where
  install-Inv :
      (fresh : Text) (rm : RouteManager S) (log : List Effect) (r : Route) (a : ℕ)
      → Inv rm log
      → Inv (install store fresh rm r a).manager (log ++ (install store fresh rm r a).effects)
  unfolding install
  install-Inv fresh rm log r a v = put-Inv rm log v _ _ _ refl

  build-Inv :
      (fresh : Text) (rm : RouteManager S) (log : List Effect) (p : Route × Result ℕ)
      → Inv rm log
      → Inv
          (build store factories fresh rm p).manager
          (log ++ (build store factories fresh rm p).effects)
  build-Inv fresh rm log (r, err e) v = rw append-nil v
  build-Inv fresh rm log (r, ok a) v = install-Inv fresh rm log r a v

  pub add-Inv :
      (fresh : Text) (rm : RouteManager S) (log : List Effect) (r : Route)
      → Inv rm log
      → Inv
          (add store factories fresh rm r).manager
          (log ++ (add store factories fresh rm r).effects)
  unfolding add
  add-Inv fresh rm log r v = elim (Option-cases (factories (adapter_type r))) [
    | inl e ↦ rw (e, add) (rw append-nil v)
    | inr (f, e) ↦ rw (e, add) (build-Inv fresh rm log (f r) v)
  ]

  -- The managers that the methods lead to, each with the effects so far. `Run` is called once.
  pub data Reach : RouteManager S → List Effect → Type 0 where
    created : Reach new_manager []
    added :
        {rm : RouteManager S} {log : List Effect} (fresh : Text) (r : Route)
        → Reach rm log
        → Reach
            (add store factories fresh rm r).manager
            (log ++ (add store factories fresh rm r).effects)
    removed :
        {rm : RouteManager S} {log : List Effect} (id : Text)
        → Reach rm log
        → Reach (remove store rm id).0 (log ++ (remove store rm id).2)
    ran :
        {rm : RouteManager S} {log : List Effect}
        → rm.routing ≡ false
        → Reach rm log
        → Reach (run rm).0 (log ++ (run rm).1)

  pub Reach-Inv : {rm : RouteManager S} {log : List Effect} → Reach rm log → Inv rm log
  Reach-Inv created = new_manager-Inv
  Reach-Inv (added {rm} {log} fresh r h) = add-Inv fresh rm log r (Reach-Inv h)
  Reach-Inv (removed {rm} {log} id h) = remove-Inv store rm log (Reach-Inv h) id
  Reach-Inv (ran {rm} {log} off h) = run-Inv rm log off (Reach-Inv h)

  -- After any calls of `Add`, `Remove` and `Run` that include `Run`, a goroutine watches a closer exactly
  -- if a route of the table has that closer and the goroutine has not come to an end by itself, as
  -- `ended` says: every route was given one, and that of a route that was removed or replaced was told
  -- to stop.
  pub alive_iff_held :
      {rm : RouteManager S} {log : List Effect} (ended : ℕ → Bool)
      → Reach rm log
      → rm.routing ≡ true
      → (c : ℕ) → (waiting ended log c ≡ true) ↔ (Holds c rm.routes × (ended c ≡ false))
  alive_iff_held {rm} {log} ended h on c = (
    λ q. ((Reach-Inv h).runs on c (ground (arith, q)), ground (arith, q)),
    λ (k, q). ground (arith, (Reach-Inv h).held on c k, q),
  )

  -- Before `Run` no routing goroutine is alive, whatever was added and removed.
  pub none_alive :
      {rm : RouteManager S} {log : List Effect}
      → Reach rm log
      → rm.routing ≡ false
      → (c : ℕ) → alive c log ≡ false
  none_alive h off = (Reach-Inv h).idle off
