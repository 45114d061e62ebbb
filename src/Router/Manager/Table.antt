-- ===== src/Router/Manager/Table.antt =====
-- What each method does to the table of routes.
use logspout.Prelude.{
  ℕ, ◌≡◌, refl, inl, inr, Option-cases, [], Option, none, some, Text, text_key, arith,
  if◌then◌else◌, ◌==◌, Result, ok, err,
}
use logspout.Map.{has, lookup-insert, lookup-delete}
use logspout.Router.Route.{Route, adapter_type}
use logspout.Router.Manager.{
  stop_removed, RouteStore, AdapterFactory, RouteManager, get, install, build, add, remove,
}

module _ {S : Type 0} (store : RouteStore S) (factories : Text → Option AdapterFactory) where
  build_error :
      (fresh : Text) (rm : RouteManager S) (p : Route × Result ℕ) {e : Text}
      → (build store factories fresh rm p).error ≡ some e
      → ((build store factories fresh rm p).manager ≡ rm)
        × ((build store factories fresh rm p).effects ≡ [])
  unfolding install
  build_error fresh rm (r, err e) h = (refl, refl)
  build_error fresh rm (r, ok a) h = cc

  -- When `Add` fails, there is no factory for the route's adapter or the factory failed; the
  -- manager is as it was, and nothing was started or stopped.
  pub add_error :
      (fresh : Text) (rm : RouteManager S) (r : Route) {e : Text}
      → (add store factories fresh rm r).error ≡ some e
      → ((add store factories fresh rm r).manager ≡ rm)
        × ((add store factories fresh rm r).effects ≡ [])
  unfolding add
  add_error fresh rm r h = elim (Option-cases (factories (adapter_type r))) [
    | inl e ↦ rw (e, add) (refl, refl)
    | inr (f, e) ↦ rw (e, add) (build_error fresh rm (f r) (rw (e, add) at h))
  ]

  get-install :
      (fresh : Text) (rm : RouteManager S) (r : Route) (a : ℕ) (j : Text)
      → get (install store fresh rm r a).manager j ≡ (
          if (install store fresh rm r a).route.id == j
          then some (install store fresh rm r a).route
          else get rm j)
  unfolding install get
  get-install fresh rm r a j = lookup-insert _ _ j rm.routes

  get-build :
      (fresh : Text) (rm : RouteManager S) (p : Route × Result ℕ) (j : Text)
      → (build store factories fresh rm p).error ≡ none
      → get (build store factories fresh rm p).manager j ≡ (
          if (build store factories fresh rm p).route.id == j
          then some (build store factories fresh rm p).route
          else get rm j)
  get-build fresh rm (r, err e) j h = cc
  get-build fresh rm (r, ok a) j h = get-install fresh rm r a j

  -- When `Add` succeeds, `Get` finds the route under the id that it now has, and every other id
  -- has the route that it had.
  pub get-add :
      (fresh : Text) (rm : RouteManager S) (r : Route) (j : Text)
      → (add store factories fresh rm r).error ≡ none
      → get (add store factories fresh rm r).manager j ≡ (
          if (add store factories fresh rm r).route.id == j
          then some (add store factories fresh rm r).route
          else get rm j)
  unfolding add
  get-add fresh rm r j h = elim (Option-cases (factories (adapter_type r))) [
    | inl e ↦ absurd (ground arith)
    | inr (f, e) ↦ rw (e, add) (get-build fresh rm (f r) j (ground arith))
  ]

module _ {S : Type 0} (store : RouteStore S) where
  -- After `Remove` the id has no route and every other id has the route that it had; the result
  -- says whether there was one, and the one goroutine told to stop is the removed route's.
  pub get-remove :
      (rm : RouteManager S) (id j : Text)
      → (get (remove store rm id).0 j ≡ (if id == j then none else get rm j))
        × ((remove store rm id).1 ≡ has id rm.routes)
        × ((remove store rm id).2 ≡ stop_removed (get rm id))
  unfolding remove get has
  get-remove rm id j = (lookup-delete id j rm.routes, ground arith, refl)
