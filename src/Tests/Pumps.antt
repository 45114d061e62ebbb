-- ===== src/Tests/Pumps.antt =====
-- Runs and witnesses for the pump.
use logspout.Prelude.{
  ℕ, ◌≡◌, refl, true, false, ◌||◌, List, [], ◌∷◌, Text, codes, any, if◌then◌else◌, ◌==◌, nat_key,
  text_key, arith,
}
use logspout.Prelude.Int.{pos}
use logspout.Cfg.{Env, get_env_default}
use logspout.Map.{insert, lookup, has}
use logspout.Prelude.{text_beq}
use logspout.Text.{join, split, equal_fold}
use logspout.Text.Split.{any-Lacks}
use logspout.Router.Route.{match_container, match_message}
use logspout.Router.Pump.{
  normal_name, ContainerPump, add, remove, pump_input, ignore_container, has_excluded, says_ignore,
  excluded, exclude_labels, new_container_pump,
}
use logspout.Router.Pump.Send.{receives, receives-add-remove}
use logspout.Router.Pump.Lines.{terminated, messages, pump_input-terminated}
use logspout.Router.Pump.Ignore.{ignore_container_lem}
use logspout.Router.Pump.Table.{
  LogsPump, RouteEvent, others, told_start, died_out, pumped, joined, holds, visit, selects, put,
  visit_all, route,
}
use logspout.Router.Pump.Leave.{route_leaves}
use logspout.Tests.Data.{web, line, plain_route}

abbrev fifth : ℕ
fifth = 5

abbrev web_pump : ContainerPump
web_pump = record { container = web; logstreams = (4, plain_route) ∷ [] }

receives-add-remove_example :
    (receives 5 (add web_pump 5 plain_route) (line (codes "up") 1) ≡ (
      if fifth == fifth
      then match_message plain_route (codes "stdout")
      else receives 5 web_pump (line (codes "up") 1)))
    × (receives 5 (remove web_pump 5) (line (codes "up") 1)
        ≡ (if fifth == fifth then false else receives 5 web_pump (line (codes "up") 1)))
receives-add-remove_example =
    receives-add-remove web_pump 5 plain_route 5 (line (codes "up") 1) (unfold lookup in (refl, tt))

abbrev two_lines : List Text
two_lines = codes "a" ∷ codes "" ∷ []

pump_input-terminated_example :
    pump_input web (codes "stdout") pos (terminated two_lines (codes "b"))
    ≡ messages web (codes "stdout") pos 0 two_lines
pump_input-terminated_example =
    pump_input-terminated web (codes "stdout") pos two_lines (codes "b")
      (any-Lacks (codes "a") 10 refl, (any-Lacks [] 10 refl, tt)) (any-Lacks (codes "b") 10 refl)

-- EXCLUDE_LABEL is `app:shop`.
abbrev shop_env : Env
shop_env name = if name == codes "EXCLUDE_LABEL" then codes "app:shop" else []

shop_ignored : ignore_container shop_env web ≡ true
unfolding ignore_container excluded split exclude_labels get_env_default text_beq has_excluded
    lookup equal_fold
shop_ignored = refl

ignore_container_lem_example :
    ignore_container shop_env web
    ≡ any says_ignore web.env
      || any {A = Text × Text}
          (λ q. has_excluded web.labels q.0 q.1)
          ((codes "app", codes "shop") ∷ [])
unfolding exclude_labels get_env_default text_beq join
ignore_container_lem_example =
    ignore_container_lem shop_env web (codes "app", codes "shop") []
      (
        (
          (any-Lacks (codes "app") b':' refl, any-Lacks (codes "shop") b':' refl),
          any-Lacks (codes "app:shop") b';' refl,
        ),
        tt,
      )
      refl

abbrev one_pump : LogsPump
one_pump = record {
  pumps = (codes "8dfafdbc3a40", 0) ∷ [];
  store = λ i. new_container_pump web;
  next = 1;
  routes = [];
}

-- The route joins the pump, which goes, and another, which it is told of; a third route joins both.
abbrev busy : List RouteEvent
busy =
    others (died_out (codes "8dfafdbc3a40"))
    ∷ others (pumped (codes "5a1") web)
    ∷ told_start 1
    ∷ others (joined 0 6 plain_route)
    ∷ others (joined 1 6 plain_route)
    ∷ []

joins : holds 5 (visit_all plain_route 5 (0 ∷ []) (one_pump, [])).1.0 0 ≡ true
unfolding visit_all has lookup visit selects normal_name new_container_pump match_container put add
    insert
joins = refl

route_leaves_example : holds 5 (route shop_env plain_route 5 9 busy one_pump).0 0 ≡ false
route_leaves_example =
    route_leaves shop_env plain_route 5 9 busy one_pump 0
      (tt, (tt, (tt, ((λ e. omega (arith, e)), ((λ e. omega (arith, e)), tt)))))
      (λ i. unfold new_container_pump has lookup in refl)
