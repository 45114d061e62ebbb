-- ===== src/Router/Manager/Put.antt =====
-- Changes of the table: a route put into it and a route taken out of it keep the invariant.
use logspout.Prelude.{
  ℕ, suc, ◌<◌, ◌≡◌, ◌≢◌, sym, ap, ◌∙◌, inl, inr, true, false, not, ◌&&◌, ◌||◌, List, [], ◌∷◌, ◌++◌,
  Option, some, Text, text_key, nat_key, arith, if◌then◌else◌, Bool-cases,
}
use logspout.Map.{lookup, insert}
use logspout.Map.Lookup.{
  lookup-insert_self, lookup-insert_ne, lookup-delete_ne, lookup-insert_inv, lookup-delete_inv,
  Distinct-insert, Distinct-delete,
}
use logspout.Router.Route.{Route}
use logspout.Router.Manager.{
  RouteStore, RouteManager, Effect, start, remove, stop_old, stop_removed,
}
use logspout.Router.Manager.Alive.{
  is_chan, alive, alive-append, is_chan_iff, old_is, alive_replace, Holds,
}
use logspout.Router.Manager.Inv.{Inv, other_closer, alive_stop}

-- A route put into the table under a new closer, in the place of the one with its id.
module _ {S : Type 0} (rm : RouteManager S) (log : List Effect) (v : Inv rm log) where
  abbrev pub put : Option S → Text → Route → RouteManager S
  put p id r = record rm {
    persistor = p;
    routes = insert id r rm.routes;
    next_chan = suc rm.next_chan;
  }

  abbrev pub put_effects : Text → Route → List Effect
  put_effects id r = stop_old (lookup id rm.routes) ++ (if rm.routing then start r ∷ [] else [])

  module _ (p : Option S) (id : Text) (r : Route) (q : r.closer ≡ some rm.next_chan) where
    put_known :
        (j : Text) (s : Route)
        → lookup j (insert id r rm.routes) ≡ some s
        → (c : ℕ) × (s.closer ≡ some c) × (c < suc rm.next_chan)
    put_known j s l = elim (lookup-insert_inv id j r s rm.routes l) [
      | inl (_, e) ↦ (rm.next_chan, rw (← e) q, omega arith)
      | inr (_, l') ↦ let (c, e, lt) = v.known j s l' in (c, e, omega arith)
    ]

    old_closer :
        (j : Text) (s : Route) (c : ℕ)
        → lookup j rm.routes ≡ some s
        → s.closer ≡ some c
        → c ≢ rm.next_chan
    old_closer j s c l e n = let (c', e', lt) = v.known j s l in absurd (ground arith)

    put_once :
        (i j : Text) (s t : Route) (c : ℕ)
        → lookup i (insert id r rm.routes) ≡ some s
        → lookup j (insert id r rm.routes) ≡ some t
        → s.closer ≡ some c
        → t.closer ≡ some c
        → i ≡ j
    put_once i j s t c ls lt es et = elim (lookup-insert_inv id i r s rm.routes ls) [
      | inl (ei, e) ↦ elim (lookup-insert_inv id j r t rm.routes lt) [
        | inl (ej, _) ↦ sym ei ∙ ej
        | inr (_, lt') ↦ absurd (old_closer j t c lt' et (ground arith))
      ]
      | inr (_, ls') ↦ elim (lookup-insert_inv id j r t rm.routes lt) [
        | inl (ej, e) ↦ absurd (old_closer i s c ls' es (ground arith))
        | inr (_, lt') ↦ v.once i j s t c ls' lt' es et
      ]
    ]

    alive_put :
        (c : ℕ)
        → alive c (log ++ put_effects id r) ≡ (
            (alive c log && not (old_is c (lookup id rm.routes)))
            || (rm.routing && is_chan c r.closer))
    alive_put c =
        alive-append false c log (put_effects id r)
        ∙ alive_replace (alive c log) c (lookup id rm.routes) rm.routing r

    put_runs :
        rm.routing ≡ true
        → (c : ℕ) → alive c (log ++ put_effects id r) ≡ true
        → Holds c (insert id r rm.routes)
    put_runs on c a = elim (Bool-cases (is_chan c r.closer)) [
      | inl e ↦ (id, r, lookup-insert_self id r rm.routes, (is_chan_iff c r.closer).0 e)
      | inr e ↦
          let (j, s, l, h) = v.runs on c (ground (arith, alive_put c)) in
          (
            j,
            s,
            lookup-insert_ne id j r rm.routes (λ p.
                  ground
                    (arith, alive_put c, is_chan_iff c s.closer, ap (λ x. lookup x rm.routes) p))
                ∙ l,
            h,
          )
    ]

    put_held :
        rm.routing ≡ true
        → (c : ℕ) → Holds c (insert id r rm.routes)
        → alive c (log ++ put_effects id r) ≡ true
    put_held on c (j, s, l, e) = elim (lookup-insert_inv id j r s rm.routes l) [
      | inl (_, p) ↦
          ground (arith, alive_put c, (is_chan_iff c r.closer).1 (ap (λ x. x.closer) p ∙ e))
      | inr (n, l') ↦
          ground
            (arith, alive_put c, v.held on c (j, s, l', e), other_closer rm log v id j s c n l' e)
    ]

    pub put-Inv : Inv (put p id r) (log ++ put_effects id r)
    put-Inv = record {
      known = put_known;
      once = put_once;
      distinct = Distinct-insert id r rm.routes v.distinct;
      idle = λ off c. ground (arith, alive_put c, v.idle off c);
      runs = put_runs;
      held = put_held;
    }

-- Taking a route out of the table.
module _ {S : Type 0} (store : RouteStore S) (rm : RouteManager S) (log : List Effect)
    (v : Inv rm log) where
  alive_remove :
      (id : Text) (c : ℕ)
      → alive c (log ++ (remove store rm id).2)
        ≡ (alive c log && not (old_is c (lookup id rm.routes)))
  unfolding remove
  alive_remove id c =
      alive-append false c log (stop_removed (lookup id rm.routes))
      ∙ alive_stop (alive c log) c (lookup id rm.routes)

  pub remove-Inv : (id : Text) → Inv (remove store rm id).0 (log ++ (remove store rm id).2)
  unfolding remove
  remove-Inv id = record {
    known = λ j s l. v.known j s (lookup-delete_inv id j s rm.routes l).1;
    once = λ i j s t c ls lt.
        v.once i j s t c (lookup-delete_inv id i s rm.routes ls).1
          (lookup-delete_inv id j t rm.routes lt).1;
    distinct = Distinct-delete id rm.routes v.distinct;
    idle = λ off c. ground (arith, alive_remove id c, v.idle off c);
    runs = λ on c a.
        let (j, s, l, h) = v.runs on c (ground (arith, alive_remove id c)) in
        (
          j,
          s,
          lookup-delete_ne id j rm.routes (λ p.
                ground (
                  arith,
                  alive_remove id c,
                  is_chan_iff c s.closer,
                  ap (λ x. lookup x rm.routes) p,
                ))
              ∙ l,
          h,
        );
    held = λ on c (j, s, l, e).
        let (n, l') = lookup-delete_inv id j s rm.routes l in
        ground (
          arith,
          alive_remove id c,
          v.held on c (j, s, l', e),
          other_closer rm log v id j s c n l' e,
        );
  }
