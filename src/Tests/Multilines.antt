-- ===== src/Tests/Multilines.antt =====
-- The multiline adapter.
use logspout.Router.Route.{Route}
use logspout.Router.Manager.{AdapterFactory}
use logspout.Cfg.{Env, get_env_default}
use logspout.Adapters.Multiline.Config.{
  match_type, Configured, Set, settings, new_multiline_adapter, new_multiline_adapter_lem,
}
use logspout.Text.{split_two}
use logspout.Prelude.{
  Option, ok, Bool, text_beq, ◌≡◌, refl, ◌↔◌, Bool, true, false, [], ◌∷◌, some, Text, codes,
  text_beq, List, map, ◌==◌, text_key, nat_key,
}
use logspout.Prelude.Int.{pos, ◌+ℤ◌, ◌≤ℤ◌}
use logspout.Map.{lookup, insert, delete}
use logspout.Router.Message.{Message}
use logspout.Adapters.Multiline.{
  Adapter, multiline_container, is_first_line, is_last_line, first_line, next_line, on_message,
  flush, flushes, on_timer, message, step, run, stream,
}
use logspout.Adapters.Multiline.Buffered.{lines_of, spell}
use logspout.Adapters.Multiline.Lines.{inputs, stream_lines}
use logspout.Adapters.Multiline.Flush.{on_timer_iff, Parted, IsOld}
use logspout.Adapters.Multiline.Groups.{
  groups_by_first, groups_by_last, stream-groups_by_first, stream-groups_by_last,
}
use logspout.Tests.Data.{web, line, plain_route}

-- The pattern `^\s`, of a blank.
abbrev indented : Text → Bool
indented [] = false
indented (c ∷ _) = c == 32

-- MULTILINE_MATCH=nonfirst, the default.
abbrev pub non_first : Adapter
non_first = record {
  enable_by_default = true;
  pattern = indented;
  separator = codes "|";
  match_first_line = true;
  negate_match = true;
  flush_after = pos 500;
  buffers = [];
}

-- MULTILINE_MATCH=last, with the same pattern.
abbrev last : Adapter
last = record non_first { match_first_line = false; negate_match = false }

abbrev trace : List Message
trace = line (codes "a") 1 ∷ line (codes " b") 2 ∷ line (codes "c") 3 ∷ []

trace_sent : stream non_first (map message trace) ≡ line (codes "a| b") 1 ∷ line (codes "c") 3 ∷ []
unfolding stream run step on_message multiline_container is_first_line is_last_line first_line
    next_line lookup insert delete text_beq
trace_sent = refl

stream_lines_example :
    spell (codes "|") (lines_of web.id (stream non_first (map message trace)))
    ≡ spell (codes "|") (lines_of web.id (inputs (map message trace)))
unfolding multiline_container
stream_lines_example =
    stream_lines (λ id. true) web.id non_first (map message trace) (refl, (refl, (refl, tt))) refl

stream-groups_by_first_example :
    stream non_first (map message trace)
    ≡ groups_by_first (codes "|") (is_first_line non_first) trace
unfolding multiline_container
stream-groups_by_first_example =
    stream-groups_by_first non_first web.id trace refl refl
      ((refl, refl), ((refl, refl), ((refl, refl), tt)))

stream-groups_by_last_example :
    stream last (map message trace) ≡ groups_by_last (codes "|") (is_last_line last) trace
unfolding multiline_container
stream-groups_by_last_example =
    stream-groups_by_last last web.id trace refl refl
      ((refl, refl), ((refl, refl), ((refl, refl), tt)))

-- One entry is buffered since the time 100.
abbrev waiting : Adapter
waiting = record non_first { buffers = (web.id, line (codes "a") 100) ∷ [] }

on_timer_iff_example :
    ((lookup web.id (on_timer waiting (pos 150)).0.buffers ≡ some (line (codes "a") 100)) ↔ (
      (lookup web.id waiting.buffers ≡ some (line (codes "a") 100))
      × (pos 100 +ℤ pos 500 ≤ℤ pos 150)))
    × Parted
        (IsOld waiting (pos 150))
        waiting.buffers
        (on_timer waiting (pos 150)).0.buffers
        (on_timer waiting (pos 150)).1
unfolding lookup
on_timer_iff_example = on_timer_iff waiting (pos 150) web.id (line (codes "a") 100) (refl, tt)

-- The young entry is sent at once.
young_sent : (on_timer waiting (pos 150)).1 ≡ line (codes "a") 100 ∷ []
unfolding on_timer flush flushes ◌+ℤ◌
young_sent = refl

abbrev raw_route : Route
raw_route = record plain_route { adapter = codes "multiline+raw" }

abbrev any_pattern : Text → Option (Text → Bool)
any_pattern p = some (λ t. false)

-- The sub-adapter is 7, and its factory renames the route.
abbrev seventh : Text → Option AdapterFactory
seventh name = some (λ r. (record r { adapter = codes "x" }, ok 7))

abbrev no_env : Env
no_env name = []

abbrev raw_adapter : Configured
raw_adapter = record {
  adapter = record {
    enable_by_default = true;
    pattern = λ t. false;
    separator = codes "\n";
    match_first_line = true;
    negate_match = true;
    flush_after = pos 500_000_000;
    buffers = [];
  };
  sub_adapter = 7;
  check_interval = pos 250_000_000;
}

new_multiline_adapter_lem_example :
    ((new_multiline_adapter any_pattern seventh no_env raw_route).0.adapter ≡ codes "multiline+raw")
    × Set any_pattern seventh no_env raw_adapter.adapter
unfolding new_multiline_adapter settings match_type text_beq get_env_default split_two
new_multiline_adapter_lem_example =
    new_multiline_adapter_lem any_pattern seventh no_env raw_route raw_adapter refl
