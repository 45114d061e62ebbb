-- ===== src/Router/Manager/Inv.antt =====
-- What holds of a manager between two calls, and that a new manager and `Run` keep it.
use logspout.Prelude.{
  ℕ, ◌<◌, ◌≡◌, ◌≢◌, refl, sym, ◌∙◌, inl, inr, Bool, true, false, not, ◌&&◌, List, [], ◌++◌, Option,
  none, some, Text, text_key, nat_key, arith, map, any, Option-cases, Bool-cases,
}
use logspout.Map.{lookup, values}
use logspout.Map.Lookup.{Distinct, any-values_sound, any-values_complete}
use logspout.Router.Route.{Route}
use logspout.Router.Manager.{RouteManager, Effect, start, new_manager, run, stop_removed}
use logspout.Router.Manager.Alive.{
  is_chan, alive_from, alive, alive-append, alive-start, is_chan_iff, old_is, Holds,
}

pub record Inv {S : Type 0} (rm : RouteManager S) (log : List Effect) : Type 0 where
  pub known :
      (id : Text) (r : Route)
      → lookup id rm.routes ≡ some r
      → (c : ℕ) × (r.closer ≡ some c) × (c < rm.next_chan)
  pub once :
      (i j : Text) (r s : Route) (c : ℕ)
      → lookup i rm.routes ≡ some r
      → lookup j rm.routes ≡ some s
      → r.closer ≡ some c
      → s.closer ≡ some c
      → i ≡ j
  pub distinct : Distinct rm.routes
  pub idle : rm.routing ≡ false → (c : ℕ) → alive c log ≡ false
  pub runs : rm.routing ≡ true → (c : ℕ) → alive c log ≡ true → Holds c rm.routes
  pub held : rm.routing ≡ true → (c : ℕ) → Holds c rm.routes → alive c log ≡ true

module _ {S : Type 0} where
  pub new_manager-Inv : Inv (new_manager {S = S}) []
  unfolding lookup
  new_manager-Inv = record {
    known = λ id r h. cc;
    once = λ i j r s c h. cc;
    distinct = tt;
    idle = λ h c. refl;
    runs = λ h. cc;
    held = λ h. cc;
  }

  alive-run :
      (rm : RouteManager S) (log : List Effect) (c : ℕ)
      → rm.routing ≡ false
      → Inv rm log
      → alive c (log ++ map start (values rm.routes))
        ≡ any (λ r. is_chan c r.closer) (values rm.routes)
  alive-run rm log c off v =
      rw (alive-append false c log, v.idle off c) (alive-start false c (values rm.routes))

  pub run-Inv :
      (rm : RouteManager S) (log : List Effect)
      → rm.routing ≡ false
      → Inv rm log
      → Inv (run rm).0 (log ++ (run rm).1)
  unfolding run
  run-Inv rm log off v = record {
    known = v.known;
    once = v.once;
    distinct = v.distinct;
    idle = λ h. cc;
    runs = λ h c a.
        let (k, r, l, q) =
          any-values_sound (λ r. is_chan c r.closer) rm.routes v.distinct
            (sym (alive-run rm log c off v) ∙ a) in
        (k, r, l, (is_chan_iff c r.closer).0 q);
    held = λ h c (k, r, l, q).
        alive-run rm log c off v
        ∙ any-values_complete (λ r. is_chan c r.closer) k r rm.routes l
            ((is_chan_iff c r.closer).1 q);
  }

  -- No other id has a route with the closer of this one.
  pub other_closer :
      (rm : RouteManager S) (log : List Effect)
      → Inv rm log
      → (id j : Text) (s : Route) (c : ℕ) → id ≢ j
      → lookup j rm.routes ≡ some s
      → s.closer ≡ some c
      → old_is c (lookup id rm.routes) ≡ false
  other_closer rm log v id j s c n l e = elim (Option-cases (lookup id rm.routes)) [
    | inl h ↦ rw h
    | inr (t, h) ↦ elim (Bool-cases (is_chan c t.closer)) [
      | inl q ↦ absurd (n (v.once id j t s c h l ((is_chan_iff c t.closer).0 q) e))
      | inr q ↦ rw h q
    ]
  ]

pub alive_stop :
    (b : Bool) (c : ℕ) (o : Option Route)
    → alive_from b c (stop_removed o) ≡ (b && not (old_is c o))
alive_stop b c none = ground arith
alive_stop b c (some r) = ground arith
