-- ===== src/Router/Pump/Table.antt =====
-- `LogsPump` of router/pump.go: the table of pumps, and a call of `Route` with what other
-- goroutines do to the pumps while it runs.
use logspout.Prelude.{
  ℕ, suc, Bool, true, false, List, [], ◌∷◌, Option, none, some, Text, nat_key, text_key, ◌==◌,
  if◌then◌else◌,
}
use logspout.Cfg.{Env}
use logspout.Map.{Map, lookup, insert, delete, has, values}
use logspout.Text.{has_prefix}
use logspout.Router.Message.{Container}
use logspout.Router.Route.{Route, match_container}
use logspout.Router.Pump.{
  normal_name, normal_id, left_out, ContainerPump, new_container_pump, add, remove,
}

-- The pumps stand in a store, since a route may still hold one that the table has lost. `routes`
-- has the channels of the routes that are told of updates.
pub record LogsPump : Type 0 where
  pub pumps : Map Text ℕ
  pub store : ℕ → ContainerPump
  pub next : ℕ
  pub routes : Map {0, 0} ℕ Unit

unfoldable pub put : ℕ → ContainerPump → LogsPump → LogsPump
put i cp p = record p { store = λ j. if i == j then cp else p.store j }

-- pumpLogs up to the start of its goroutine, for the container that the client finds
unfoldable pub pump_logs : Env → Text → Container → LogsPump → LogsPump
pump_logs env id c p =
    if left_out env c
    then p
    else if has (normal_id id) p.pumps
    then p
    else put p.next (new_container_pump c)
        (record p { pumps = insert (normal_id id) p.next p.pumps; next = suc p.next })

-- The end of that goroutine.
unfoldable pub dead : Text → LogsPump → LogsPump
dead id p = record p { pumps = delete (normal_id id) p.pumps }

unfoldable pub rename : Text → Text → LogsPump → LogsPump
rename id name p = elim (lookup (normal_id id) p.pumps) [
  | none ↦ p
  | some i ↦
      put i (record (p.store i) { container = record (p.store i).container { name = name } }) p
]

-- What other goroutines do to the pumps.
pub data PumpStep : Type 0 where
  pumped : Text → Container → PumpStep
  died_out : Text → PumpStep
  renamed : Text → Text → PumpStep
  joined : ℕ → ℕ → Route → PumpStep
  left : ℕ → ℕ → PumpStep

unfoldable pub pump_step : Env → PumpStep → LogsPump → LogsPump
pump_step env (pumped id c) p = pump_logs env id c p
pump_step env (died_out id) p = dead id p
pump_step env (renamed id name) p = rename id name p
pump_step env (joined i c r) p = put i (add (p.store i) c r) p
pump_step env (left i c) p = put i (remove (p.store i) c) p

-- What a running `Route` sees: a step of others, a start or a death that it is told of. The closer
-- comes after the last one.
pub data RouteEvent : Type 0 where
  others : PumpStep → RouteEvent
  told_start : ℕ → RouteEvent
  told_die : Text → RouteEvent

-- Does the route take the container? `none` is a panic.
unfoldable pub selects : Route → Container → Option Bool
selects r c = elim (normal_name c.name) [
  | none ↦ none
  | some name ↦ some (match_container r (normal_id c.id) name c.labels)
]

-- The pumps, and the ones that the route has deferred to leave.
abbrev pub Joined : Type 0
Joined = LogsPump × List ℕ

abbrev pub visited : Route → ℕ → ℕ → Joined → Option Bool → Bool × Joined
visited r ls i s none = (false, s)
visited r ls i s (some false) = (true, s)
visited r ls i (p, ds) (some true) = (true, (put i (add (p.store i) ls r) p, i ∷ ds))

-- The body of the loop over the pumps; the Boolean is false after a panic.
unfoldable pub visit : Route → ℕ → ℕ → Joined → Bool × Joined
visit r ls i (p, ds) = visited r ls i (p, ds) (selects r (p.store i).container)

unfoldable pub visit_all : Route → ℕ → List ℕ → Joined → Bool × Joined
visit_all r ls [] s = (true, s)
visit_all r ls (i ∷ is) s =
    let (fine, s') = visit r ls i s in
    let rest = visit_all r ls is s' in if fine then rest else (false, s')

-- The loop of `Route`, until it returns or panics.
unfoldable pub watch : Env → Route → ℕ → List RouteEvent → Joined → Joined
watch env r ls [] s = s
watch env r ls (others e ∷ es) (p, ds) = watch env r ls es (pump_step env e p, ds)
watch env r ls (told_start i ∷ es) s =
    let (fine, s') = visit r ls i s in let rest = watch env r ls es s' in if fine then rest else s'
watch env r ls (told_die id ∷ es) s =
    let rest = watch env r ls es s in if has_prefix r.filter_id id then s else rest

-- The deferred calls of `pump.remove`.
unfoldable pub leave_all : ℕ → List ℕ → LogsPump → LogsPump
leave_all ls [] p = p
leave_all ls (i ∷ is) p = leave_all ls is (put i (remove (p.store i) ls) p)

-- The deferred calls, made after a return and after a panic: the last function of them is deferred
-- only once the pumps are visited.
abbrev pub unwound : Route → ℕ → ℕ → Joined → LogsPump × Route
unwound r ls u (p, ds) =
    (leave_all ls ds (record p { routes = delete u p.routes }), record r { closed = true })

abbrev pub listening : ℕ → Joined → Joined
listening u (p, ds) = (record p { routes = insert u tt p.routes }, ds)

abbrev pub after_visits : Env → Route → ℕ → ℕ → List RouteEvent → Bool × Joined → LogsPump × Route
after_visits env r ls u es (true, s) = unwound r ls u (watch env r ls es (listening u s))
after_visits env r ls u es (false, (p, ds)) = (leave_all ls ds p, r)

-- The call of `Route` with the logstream `ls` and the channel of updates `u`.
unfoldable pub route : Env → Route → ℕ → ℕ → List RouteEvent → LogsPump → LogsPump × Route
route env r ls u es p = after_visits env r ls u es (visit_all r ls (values p.pumps) (p, []))

abbrev pub holds : ℕ → LogsPump → ℕ → Bool
holds ls p i = has ls (p.store i).logstreams
