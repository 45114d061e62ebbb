-- ===== src/Router/Manager/Routers.antt =====
-- The parts of router/routes.go that pass a route on to the log routers, such as the pump.
use logspout.Prelude.{
  ℕ, ◌≡◌, Bool, true, false, List, [], ◌∷◌, Text, if◌then◌else◌, arith, text_key,
}
use logspout.Map.{has}
use logspout.Router.Route.{Route}
use logspout.Router.Pump.{normal_id, routing_from}
use logspout.Router.Pump.Table.{LogsPump}

-- `LogRouter` of router/types.go, over the state of the program. A call of `Route` runs in a goroutine
-- of its own: `begins` is what its start does to the state.
pub record LogRouter (W : Type 0) : Type 0 where
  pub begins : Route → ℕ → W → W
  pub routing_from : W → Text → Bool

module _ {W : Type 0} where
  -- Route
  unfoldable pub begin_all : List (LogRouter W) → Route → ℕ → W → W
  begin_all [] r ls w = w
  begin_all (router ∷ routers) r ls w = begin_all routers r ls (router.begins r ls w)

  -- RoutingFrom
  unfoldable pub routing_from_any : List (LogRouter W) → W → Text → Bool
  routing_from_any [] w id = false
  routing_from_any (router ∷ routers) w id =
      let rest = routing_from_any routers w id in if router.routing_from w id then true else rest

-- The pump is a router: it routes from the containers that its table has.
abbrev pub pump_router : (Route → ℕ → LogsPump → LogsPump) → LogRouter LogsPump
pump_router begins = record { begins = begins; routing_from = λ p id. routing_from p.pumps id }

-- With the pump alone, a container is routed from exactly if its pump is in the table.
pub routing_from_any-pump :
    (begins : Route → ℕ → LogsPump → LogsPump) (p : LogsPump) (id : Text)
    → routing_from_any (pump_router begins ∷ []) p id ≡ has (normal_id id) p.pumps
unfolding routing_from_any routing_from
routing_from_any-pump begins p id = ground arith
