-- ===== src/Router/Pump/Events.antt =====
-- What `LogsPump` of router/pump.go does on the events of Docker: the dispatch of `Run`, `update`, and
-- the goroutine that follows the logs of a container.
use logspout.Prelude.{
  ℕ, Bool, List, [], ◌∷◌, none, some, Text, codes, text_key, nat_key, ◌==◌, ◌||◌, ◌&&◌, not, ◌/◌,
  if◌then◌else◌, map,
}
use logspout.Prelude.Int.{ℤ, ◌-ℤ◌, pos, negsuc}
use logspout.Cfg.{Env}
use logspout.Map.{Map, lookup, has, delete, keys}
use logspout.Router.Message.{Container}
use logspout.Router.Pump.{normal_id, left_out}
use logspout.Router.Pump.Table.{LogsPump, pump_logs}

-- What is read of a `docker.APIEvents`.
pub record Event : Type 0 where
  pub id : Text
  pub status : Text

-- The goroutine that `Run` starts for an event.
pub data Task : Type 0 where
  pump_task : Event → Task
  rename_task : Event → Task
  update_task : Event → Task

unfoldable pub task_of : Event → List Task
task_of e =
    if e.status == codes "start" || e.status == codes "restart"
    then pump_task e ∷ []
    else if e.status == codes "rename"
    then rename_task e ∷ []
    else if e.status == codes "die"
    then update_task e ∷ []
    else []

-- Run: a pump for each container that is listed, under its short id, and then a goroutine for each
-- event until the stream of events is closed, with which Run returns an error.
unfoldable pub run_tasks : List Text → List Event → List Task
run_tasks [] [] = []
run_tasks [] (e ∷ es) =
    let rest = run_tasks [] es in elim (task_of e) [ [] ↦ rest | t ∷ _ ↦ t ∷ rest ]
run_tasks (id ∷ ids) es =
    pump_task (record { id = normal_id id; status = codes "start" }) ∷ run_tasks ids es

-- An `update` that a route is sent: the event, and the pump.
pub record Update : Type 0 where
  pub event : Event
  pub pump : ℕ

-- The loop of `update` over the routes' channels: those that took the update within a second, by the
-- test `ready`, and those that did not.
unfoldable pub told : (ℕ → Bool) → List ℕ → List ℕ
told ready [] = []
told ready (u ∷ us) = let rest = told ready us in if ready u then u ∷ rest else rest

unfoldable pub timed_out : (ℕ → Bool) → List ℕ → List ℕ
timed_out ready [] = []
timed_out ready (u ∷ us) = let rest = timed_out ready us in if ready u then rest else u ∷ rest

-- The deferred deletions.
unfoldable pub drop_all : List ℕ → Map {0, 0} ℕ Unit → Map {0, 0} ℕ Unit
drop_all [] routes = routes
drop_all (u ∷ us) routes = drop_all us (delete u routes)

-- update: the pump that it leaves, and the updates sent, each to the channel before it
unfoldable pub update : (ℕ → Bool) → Event → LogsPump → LogsPump × List (ℕ × Update)
unfolding told timed_out drop_all
update ready e p = elim (lookup (normal_id e.id) p.pumps) [
  | none ↦ (p, [])
  | some i ↦ (
    record p { routes = drop_all (timed_out ready (keys p.routes)) p.routes },
    map (λ u. (u, record { event = e; pump = i })) (told ready (keys p.routes)),
  )
]

-- The task of an event that starts the container `c`: `pumpLogs`, which tells the routes of a pump
-- that it has made.
unfoldable pub starts : Env → Text → Container → LogsPump → Bool
starts env id c p = not (left_out env c) && not (has (normal_id id) p.pumps)

unfoldable pub pump_and_tell :
    Env → (ℕ → Bool) → Event → Container → LogsPump → LogsPump × List (ℕ × Update)
unfolding starts
pump_and_tell env ready e c p =
    if starts env e.id c p then update ready e (pump_logs env e.id c p) else (p, [])

-- What the client says of a container when a request for its logs has ended.
pub data Inspected : Type 0 where
  found : Container → Inspected
  no_such_container : Inspected
  failed : Inspected

-- The end of a request: the time, whether it was for want of output, and what the client then says.
pub record Round : Type 0 where
  pub now : ℤ
  pub inactive : Bool
  pub inspected : Inspected

-- Where the goroutine is: in a request that has not ended, done with the container, or fatally failed.
pub data Following : Type 0 where
  requesting : Following
  dead : Following
  fatal : Following

-- The time from which the first request asks for logs; the others begin with what a round leaves.
unfoldable pub first_since : Bool → ℤ → ℤ
first_since backlog now = if backlog then pos 0 else now

abbrev pub next_since : ℤ → Round → ℤ
next_since timeout r = if r.inactive then r.now -ℤ timeout else r.now

-- Unix(): whole seconds of a time in nanoseconds, downwards
abbrev pub unix : ℤ → ℤ
unix (pos n) = pos (n / 1_000_000_000)
unix (negsuc n) = negsuc (n / 1_000_000_000)

-- The loop of the goroutine: the times that its requests ask from, and where it is.
unfoldable pub follow : ℤ → ℤ → List Round → List ℤ × Following
follow timeout since [] = (unix since ∷ [], requesting)
follow timeout since (r ∷ rs) =
    let (asked, at) = follow timeout (next_since timeout r) rs in
    elim r.inspected [
      | found c ↦ if c.running then (unix since ∷ asked, at) else (unix since ∷ [], dead)
      | no_such_container ↦ (unix since ∷ [], dead)
      | failed ↦ (unix since ∷ [], fatal)
    ]
