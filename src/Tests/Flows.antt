-- ===== src/Tests/Flows.antt =====
-- A run from a container to the network.
use logspout.Glob.{path_match}
use logspout.Text.{has_prefix}
use logspout.Prelude.{
  arith, ◌≡◌, refl, map, true, [], ◌∷◌, ◌++◌, List, Text, codes, none, some, ok, if◌then◌else◌,
  ◌&&◌, text_beq,
}
use logspout.Prelude.Int.{pos}
use logspout.Map.{lookup, has}
use logspout.Text.Split.{any-Lacks}
use logspout.Transport.{Net, Delivers, connected}
use logspout.Router.Route.{Route, match_container, match_message}
use logspout.Router.Pump.{pump_input, new_container_pump, normal_name, normal_id}
use logspout.Router.Pump.Lines.{terminated, messages}
use logspout.Router.Pump.Table.{LogsPump, visit, selects}
use logspout.Router.Message.{Message}
use logspout.Adapters.Raw.{Adapter, stream}
use logspout.Adapters.Syslog.{rfc5424}
use logspout.Adapters.Syslog.Render.{render, execute, layout}
use logspout.Adapters.Syslog.Framing.{read_frames}
use logspout.Adapters.Syslog.Retry as Syslog
use logspout.Flow.Frames.{bytes, read-lines}
use logspout.Tests.Syslogs.{over_tcp, text_template}
use logspout.Flow.{arriving, ended, lines-arrive}
use logspout.Tests.Data.{web, plain_route}

-- A network that takes all writes; its state is what it has been given.
abbrev pub sure : Net (List Text)
sure = record {
  dial = λ addr options w. (connected 2, w);
  write = λ c buf w. (none, w ++ buf ∷ []);
  sleep = λ d w. w;
  is_tcp = λ c. true;
  is_udp = λ c. true;
}

pub sure-Delivers : Delivers sure (λ w. w)
sure-Delivers = record {
  write_ok = λ c buf w q. refl;
  write_failed = λ c buf w e q. absurd (ground (arith, q));
  dial_sent = λ a o w. refl;
  sleep_sent = λ d w. refl;
}

abbrev pub by_line : Adapter
by_line = record { conn = 2; route = plain_route; tmpl = λ m. ok (m.text ++ codes "\n") }

abbrev pub stdout_route : Route
stdout_route = record plain_route { filter_id = codes "8df"; filter_sources = codes "stdout" ∷ [] }

abbrev pub web_only : LogsPump
web_only = record {
  pumps = (codes "8dfafdbc3a40", 0) ∷ [];
  store = λ j. new_container_pump web;
  next = 1;
  routes = [];
}

abbrev two_lines : List Text
two_lines = codes "up" ∷ codes "" ∷ []

pub web_selected : selects stdout_route web ≡ some true
unfolding selects match_container normal_name has_prefix normal_id path_match
web_selected = refl

lines-arrive_example :
    (stream sure by_line
      (arriving 5
        ((visit stdout_route 5 0 (web_only, [])).1.0.store 0)
        (pump_input web (codes "stdout") pos (terminated two_lines (codes "do"))))
      []).1
    ≡ [] ++ (if true && match_message stdout_route (codes "stdout") then ended two_lines else [])
unfolding new_container_pump has lookup
lines-arrive_example =
    lines-arrive sure (λ w. w) sure-Delivers (λ c buf w. refl) by_line (λ m. refl) stdout_route 5 0
      web_only true (codes "stdout") pos two_lines (codes "do") [] tt refl web_selected
      (any-Lacks (codes "up") 10 refl, (any-Lacks [] 10 refl, tt)) (any-Lacks (codes "do") 10 refl)

-- What the templates and the format make of a message.
abbrev rendered : Message → Text
rendered m = layout rfc5424 (record {
  priority = codes "14";
  timestamp = codes "now";
  hostname = codes "web";
  tag = m.container.name;
  pid = codes "7";
  structured_data = codes "-";
  content = m.text;
})

over_tcp_renders : (m : Message) → render rfc5424 text_template m ≡ ok (rendered m)
unfolding render execute
over_tcp_renders m = refl

read-lines_example :
    ((Syslog.stream sure
        (arriving 5
          ((visit stdout_route 5 0 (web_only, [])).1.0.store 0)
          (pump_input web (codes "stdout") pos (terminated two_lines (codes "do"))))
        (over_tcp true, [])).0
      ≡ Syslog.closed)
    × ((done : List Text) × (((Syslog.stream sure
              (arriving 5
                ((visit stdout_route 5 0 (web_only, [])).1.0.store 0)
                (pump_input web (codes "stdout") pos (terminated two_lines (codes "do"))))
              (over_tcp true, [])).1.1
            ≡ [] ++ done)
          × (read_frames 2 (bytes done)
              ≡ some (map rendered (messages web (codes "stdout") pos 0 two_lines)))))
unfolding new_container_pump has lookup text_beq match_message
read-lines_example =
    read-lines sure (λ w. w) sure-Delivers (λ c buf w. refl) (over_tcp true) rendered stdout_route 5
      0 web_only (codes "stdout") pos two_lines (codes "do") [] refl refl over_tcp_renders tt refl
      web_selected refl (any-Lacks (codes "up") 10 refl, (any-Lacks [] 10 refl, tt))
      (any-Lacks (codes "do") 10 refl)
