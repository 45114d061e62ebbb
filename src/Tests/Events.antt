-- ===== src/Tests/Events.antt =====
-- Runs and witnesses for the events of the pump.
use logspout.Map.{lookup, has}
use logspout.Text.{split}
use logspout.Router.Pump.{
  normal_id, left_out, ignore_container_tty, ignore_container, excluded, exclude_labels,
  has_excluded, log_driver_supported, normal_name,
}
use logspout.Prelude.{◌≡◌, refl, true, false, [], ◌∷◌, codes, text_key, nat_key, text_beq}
use logspout.Prelude.Int.{pos, ◌-ℤ◌}
use logspout.Cfg.{Env, get_env_default}
use logspout.Router.Route.{match_message, match_container}
use logspout.Router.Pump.Table.{LogsPump, pump_step, pumped, renamed, visit, selects}
use logspout.Router.Pump.Events.{
  Event, pump_and_tell, run_tasks, pump_task, update_task, follow, dead, found, no_such_container,
  task_of,
}
use logspout.Router.Pump.Send.{receives}
use logspout.Router.Pump.Started.{is_told, start-receives}
use logspout.Router.Pump.Sound.{Sound, Reach, none_yet, stepped, empty_pump, Reach-Sound}
use logspout.Tests.Data.{web, line, plain_route}

abbrev no_env : Env
no_env name = []

abbrev start_web : Event
start_web = record { id = codes "8dfafdbc3a40ff"; status = codes "start" }

-- One route listens on channel 9.
abbrev listening : LogsPump
listening = record empty_pump { routes = (9, tt) ∷ [] }

tasks :
    run_tasks (codes "8dfafdbc3a40ff" ∷ []) (
      record { id = codes "1"; status = codes "die" }
      ∷ record { id = codes "2"; status = codes "pause" }
      ∷ [])
    ≡ pump_task (record { id = codes "8dfafdbc3a40"; status = codes "start" })
      ∷ update_task (record { id = codes "1"; status = codes "die" })
      ∷ []
unfolding run_tasks normal_id task_of text_beq
tasks = refl

-- Want of output restarts the request where it may have missed something.
restarts :
    follow (pos 5_000_000_000) (pos 0) (
      record { now = pos 20_000_000_000; inactive = true; inspected = found web }
      ∷ record { now = pos 30_000_000_000; inactive = false; inspected = no_such_container }
      ∷ [])
    ≡ (pos 0 ∷ pos 15 ∷ [], dead)
unfolding follow ◌-ℤ◌
restarts = refl

start-receives_example :
    (is_told 9 0 (pump_and_tell no_env (λ u. true) start_web web listening).1 ≡ true)
    × (receives 5
          ((visit plain_route 5 0
              ((pump_and_tell no_env (λ u. true) start_web web listening).0, [])).1.0.store
            0)
          (line (codes "up") 1)
        ≡ match_message plain_route (codes "stdout"))
unfolding pump_and_tell left_out ignore_container_tty ignore_container excluded split exclude_labels
    get_env_default has_excluded lookup text_beq log_driver_supported has selects normal_name
    match_container
start-receives_example =
    start-receives no_env (λ u. true) start_web web listening plain_route 5 9 []
      (line (codes "up") 1) refl refl refl refl

two_steps : Reach no_env (
    pump_step no_env
      (renamed (codes "8df") (codes "/x"))
      (pump_step no_env (pumped (codes "8df") web) empty_pump))
two_steps =
    stepped (renamed (codes "8df") (codes "/x")) (stepped (pumped (codes "8df") web) none_yet)

Reach-Sound_example : Sound no_env (
    pump_step no_env
      (renamed (codes "8df") (codes "/x"))
      (pump_step no_env (pumped (codes "8df") web) empty_pump))
Reach-Sound_example = Reach-Sound no_env two_steps
