-- ===== src/Tests/Waits.antt =====
-- The end of `Run`: a manager without routes, to which another goroutine adds one before the look.
use logspout.Prelude.{
  ◌≡◌, refl, ℕ, ◌+◌, ◌<◌, List, [], ◌∷◌, none, some, codes, text_beq, length, text_key,
}
use logspout.Map.{insert}
use logspout.Text.{split}
use logspout.Router.Route.{Route, adapter_type}
use logspout.Router.Manager.{RouteManager, new_manager, add, run, install}
use logspout.Router.Manager.Waiting.{
  Since, begun, waited, add_succeeds, waits, returned, looks, run_returns,
}
use logspout.Tests.Data.{plain_route}
use logspout.Tests.Routing.{shelf, raw_only, fresh}
use logspout.Main.{jobs_end}

abbrev empty : RouteManager (List Route)
empty = new_manager

abbrev one_added : RouteManager (List Route)
one_added = (add shelf raw_only fresh (run empty).0 plain_route).manager

raced : Since shelf raw_only empty 0 1 one_added returned
unfolding add install run insert adapter_type split text_beq
raced = waited (add_succeeds fresh plain_route refl begun)

run_returns_example :
    (returned ≡ returned → (0 ≡ length empty.routes) × (0 < length empty.routes + 1))
    × ((n : ℕ)
        → returned ≡ waits n
        → (0 + n ≡ length empty.routes)
          × Since shelf raw_only empty (length empty.routes) 1 one_added (looks one_added.routes))
run_returns_example = run_returns shelf raw_only raced

-- The program ends with it.
program_ends :
    jobs_end ((codes "routes", none) ∷ (codes "http", some (codes "in use")) ∷ [])
    ≡ some (codes "routes ended: %!s(<nil>)")
program_ends = refl
