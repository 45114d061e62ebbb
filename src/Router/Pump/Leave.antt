-- ===== src/Router/Pump/Leave.antt =====
-- A route leaves every pump that it joined.
use logspout.Prelude.{
  ℕ, ◌≡◌, ◌≢◌, refl, Bool, true, false, List, [], ◌∷◌, Option, none, some, nat_key, text_key, ◌==◌,
  eq_iff, eq_refl, Bool-cases, if◌then◌else◌, any, All, arith, inl, inr, ne→neq,
}
use logspout.Cfg.{Env}
use logspout.Map.{lookup, delete, has, values, has-insert, has-delete}
use logspout.Text.{has_prefix}
use logspout.Router.Route.{Route}
use logspout.Router.Pump.{ContainerPump, new_container_pump, add, remove}
use logspout.Router.Pump.Table.{
  LogsPump, put, pump_logs, dead, rename, PumpStep, pumped, died_out, renamed, joined, left,
  pump_step, RouteEvent, others, told_start, told_die, selects, Joined, visited, visit, visit_all,
  watch, unwound, listening, after_visits, leave_all, route, holds,
}

holds-put :
    (ls i : ℕ) (cp : ContainerPump) (p : LogsPump) (j : ℕ)
    → holds ls (put i cp p) j ≡ (if i == j then has ls cp.logstreams else holds ls p j)
unfolding put
holds-put ls i cp p j = ground arith

holds-leave_all :
    (ls : ℕ) (is : List ℕ) (p : LogsPump) (j : ℕ)
    → holds ls (leave_all ls is p) j ≡ (if any (λ d. d == j) is then false else holds ls p j)
unfolding leave_all remove
holds-leave_all ls [] p j = refl
holds-leave_all ls (i ∷ is) p j = ground (
  arith,
  holds-leave_all ls is (put i (remove (p.store i) ls) p) j,
  holds-put ls i (remove (p.store i) ls) p j,
  has-delete ls ls (p.store i).logstreams,
  eq_refl ls,
  eq_iff i j,
)

-- Each pump that has the logstream is one that the route is to leave.
abbrev Deferred : ℕ → Joined → Type 0
Deferred ls (p, ds) = (j : ℕ) → holds ls p j ≡ true → any (λ d. d == j) ds ≡ true

visited-Deferred :
    (r : Route) (ls i : ℕ) (s : Joined) (o : Option Bool)
    → Deferred ls s
    → Deferred ls (visited r ls i s o).1
visited-Deferred r ls i s none h = h
visited-Deferred r ls i s (some false) h = h
visited-Deferred r ls i (p, ds) (some true) h =
    λ j q. ground (arith, h j, holds-put ls i (add (p.store i) ls r) p j)

visit-Deferred :
    (r : Route) (ls i : ℕ) (s : Joined) → Deferred ls s → Deferred ls (visit r ls i s).1
unfolding visit
visit-Deferred r ls i (p, ds) h =
    visited-Deferred r ls i (p, ds) (selects r (p.store i).container) h

visit_all-Deferred :
    (r : Route) (ls : ℕ) (is : List ℕ) (s : Joined)
    → Deferred ls s
    → Deferred ls (visit_all r ls is s).1
unfolding visit_all
visit_all-Deferred r ls [] s h = h
visit_all-Deferred r ls (i ∷ is) s h = elim (Bool-cases (visit r ls i s).0) [
  | inl q ↦ rw q (visit_all-Deferred r ls is (visit r ls i s).1 (visit-Deferred r ls i s h))
  | inr q ↦ rw q (visit-Deferred r ls i s h)
]

-- A step of another route is one with another logstream.
abbrev pub Other : ℕ → RouteEvent → Type 0
Other ls (others (joined i c r)) = c ≢ ls
Other ls _ = Unit

pump_step-holds :
    (env : Env) (ls : ℕ) (e : PumpStep) (p : LogsPump) (j : ℕ)
    → Other ls (others e)
    → holds ls (pump_step env e p) j ≡ true
    → holds ls p j ≡ true
unfolding pump_step pump_logs dead rename put new_container_pump add remove has lookup
pump_step-holds env ls (pumped id c) p j o q = ground arith
pump_step-holds env ls (died_out id) p j o q = q
pump_step-holds env ls (renamed id name) p j o q = ground arith
pump_step-holds env ls (joined i c r) p j o q =
    ground (arith, has-insert c ls r (p.store i).logstreams, ne→neq c ls o, eq_iff i j)
pump_step-holds env ls (left i c) p j o q =
    ground (arith, has-delete c ls (p.store i).logstreams, eq_iff i j)

watch-Deferred :
    (env : Env) (r : Route) (ls : ℕ) (es : List RouteEvent) (s : Joined)
    → All (Other ls) es
    → Deferred ls s
    → Deferred ls (watch env r ls es s)
unfolding watch
watch-Deferred env r ls [] s o h = h
watch-Deferred env r ls (others e ∷ es) (p, ds) (o, os) h =
    watch-Deferred env r ls es (pump_step env e p, ds) os
      (λ j q. h j (pump_step-holds env ls e p j o q))
watch-Deferred env r ls (told_start i ∷ es) s (o, os) h = elim (Bool-cases (visit r ls i s).0) [
  | inl q ↦ rw q (watch-Deferred env r ls es (visit r ls i s).1 os (visit-Deferred r ls i s h))
  | inr q ↦ rw q (visit-Deferred r ls i s h)
]
watch-Deferred env r ls (told_die id ∷ es) s (o, os) h =
    elim (Bool-cases (has_prefix r.filter_id id)) [
      | inl q ↦ rw q h
      | inr q ↦ rw q (watch-Deferred env r ls es s os h)
    ]

left_by :
    (ls : ℕ) (p : LogsPump) (ds : List ℕ) (j : ℕ)
    → Deferred ls (p, ds)
    → holds ls (leave_all ls ds p) j ≡ false
left_by ls p ds j h = elim (Bool-cases (holds ls p j)) [
  | inl q ↦ ground (arith, holds-leave_all ls ds p j, h j q)
  | inr q ↦ ground (arith, holds-leave_all ls ds p j)
]

unwound-leaves :
    (r : Route) (ls u : ℕ) (s : Joined) (j : ℕ)
    → Deferred ls s
    → holds ls (unwound r ls u s).0 j ≡ false
unwound-leaves r ls u (p, ds) j h = left_by ls (record p { routes = delete u p.routes }) ds j h

after_visits-leaves :
    (env : Env) (r : Route) (ls u : ℕ) (es : List RouteEvent) (v : Bool × Joined) (j : ℕ)
    → All (Other ls) es
    → Deferred ls v.1
    → holds ls (after_visits env r ls u es v).0 j ≡ false
after_visits-leaves env r ls u es (true, (p, ds)) j o h =
    unwound-leaves r ls u (watch env r ls es (listening u (p, ds))) j
      (watch-Deferred env r ls es (listening u (p, ds)) o h)
after_visits-leaves env r ls u es (false, (p, ds)) j o h = left_by ls p ds j h

-- When a call of Route ends, by a return or by a panic, no pump sends to its logstream any more:
-- neither one that it joined at its start, nor one that it joined later, nor one that the table has
-- lost since, whatever the pumps and routes with other logstreams did meanwhile.
pub route_leaves :
    (env : Env) (r : Route) (ls u : ℕ) (es : List RouteEvent) (p : LogsPump) (j : ℕ)
    → All (Other ls) es
    → ((i : ℕ) → holds ls p i ≡ false)
    → holds ls (route env r ls u es p).0 j ≡ false
unfolding route
route_leaves env r ls u es p j o h =
    after_visits-leaves env r ls u es (visit_all r ls (values p.pumps) (p, [])) j o
      (visit_all-Deferred r ls (values p.pumps) (p, []) (λ i q. cc (h i, q)))
