-- ===== src/Tests/Entries.antt =====
-- A stack trace on its way from a container to the network.
use logspout.Prelude.{
  text_beq, ◌≡◌, refl, true, ◌&&◌, List, [], ◌∷◌, ◌++◌, Text, codes, map, if◌then◌else◌, nat_key,
  text_beq,
}
use logspout.Prelude.Int.{pos}
use logspout.Map.{has, lookup, insert, delete}
use logspout.Text.Split.{any-Lacks}
use logspout.Router.Route.{match_message}
use logspout.Router.Pump.{pump_input, new_container_pump}
use logspout.Router.Pump.Lines.{terminated, messages}
use logspout.Router.Pump.Table.{visit}
use logspout.Adapters.Raw
use logspout.Adapters.Multiline
use logspout.Adapters.Multiline.{
  run, step, on_message, first_line, next_line, is_last_line, message, multiline_container,
  multiline_env, is_first_line, stream, run, step, on_message, first_line, next_line,
}
use logspout.Adapters.Multiline.Groups.{groups_by_first, without_last}
use logspout.Flow.{arriving}
use logspout.Flow.Entries.{entries-arrive}
use logspout.Tests.Data.{web}
use logspout.Tests.Multilines.{non_first}
use logspout.Tests.Flows.{sure, sure-Delivers, by_line, stdout_route, web_only, web_selected}

abbrev stack_trace : List Text
stack_trace = codes "a" ∷ codes " b" ∷ codes "c" ∷ []

-- The second entry is still in the buffer.
one_entry :
    (Raw.stream sure by_line
      (Multiline.run non_first (map message (messages web (codes "stdout") pos 0 stack_trace))).1
      []).1
    ≡ codes "a| b\n" ∷ []
unfolding Raw.stream Multiline.run step on_message multiline_container is_first_line first_line
    next_line is_last_line lookup insert delete text_beq
one_entry = refl

entries-arrive_example :
    (Raw.stream sure by_line
      (Multiline.run non_first (
        map message (
          arriving 5
            ((visit stdout_route 5 0 (web_only, [])).1.0.store 0)
            (pump_input web (codes "stdout") pos (terminated stack_trace (codes "do")))))).1
      []).1
    ≡ []
      ++ map
          (λ m. m.text ++ codes "\n")
          (without_last (
            groups_by_first (codes "|") (is_first_line non_first) (
              if true && match_message stdout_route (codes "stdout")
              then messages web (codes "stdout") pos 0 stack_trace
              else [])))
unfolding new_container_pump has lookup multiline_container
entries-arrive_example =
    entries-arrive sure (λ w. w) sure-Delivers (λ c buf w. refl) by_line (λ m. refl) non_first
      stdout_route 5 0 web_only true (codes "stdout") pos stack_trace (codes "do") [] refl refl refl
      refl web_selected
      (
        any-Lacks (codes "a") 10 refl,
        (any-Lacks (codes " b") 10 refl, (any-Lacks (codes "c") 10 refl, tt)),
      )
      (any-Lacks (codes "do") 10 refl)
