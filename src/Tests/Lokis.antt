-- ===== src/Tests/Lokis.antt =====
-- Lines for Loki, and a client that keeps them.
use logspout.Prelude.{◌≡◌, ◌↔◌, refl, Bool, true, false, List, [], ◌∷◌, ◌++◌, codes, ok, All}
use logspout.Router.Message.{Message}
use logspout.Adapters.Loki.{Client, Adapter, stream}
use logspout.Adapters.Loki.Handled.{Line, Keeps, Named, entries, stream-entries}
use logspout.Tests.Data.{web, line, plain_route}

-- The lines, and if the client is stopped.
abbrev Kept : Type 0
Kept = List Line × Bool

abbrev keeper : Client Kept
keeper = record {
  new_client = λ u w. (ok 1, w);
  handle = λ c labels line w. (w.0 ++ (labels, line) ∷ [], w.1);
  stop = λ c w. (w.0, true);
}

keeper-Keeps : Keeps keeper (λ w. w.0) (λ w. w.1)
keeper-Keeps = record {
  handle_kept = λ c labels line w. refl;
  stop_kept = λ c w. refl;
  stop_stops = λ c w. refl;
}

abbrev to_loki : Adapter
to_loki = record { route = plain_route; client = 1 }

abbrev nameless : Message
nameless = record (line (codes "c") 3) { container = record web { name = [] } }

abbrev some_lines : List Message
some_lines = line (codes " a ") 1 ∷ line (codes "  ") 2 ∷ nameless ∷ line (codes "d") 4 ∷ []

stream-entries_example :
    ((stream keeper (codes "host") to_loki some_lines ([], false)).1.0
      ≡ [] ++ entries keeper (codes "host") some_lines)
    × (((stream keeper (codes "host") to_loki some_lines ([], false)).0 ≡ true)
        ↔ All Named some_lines)
    × ((stream keeper (codes "host") to_loki some_lines ([], false)).1.1 ≡ true)
stream-entries_example =
    stream-entries keeper (codes "host") (λ w. w.0) (λ w. w.1) keeper-Keeps to_loki some_lines
      ([], false)
