-- ===== src/Flow/Entries.antt =====
-- The way of an entry of several lines: from what a container writes (router/pump.go), over the logstream
-- of a route and the multiline adapter (adapters/multiline/multiline.go), to what the raw adapter behind
-- that one sends (adapters/raw/raw.go).
use mathlib.Core.Path.{subst}
use logspout.Prelude.{
  sym, ℕ, suc, ◌≡◌, refl, ap, ◌∙◌, Bool, true, false, ◌&&◌, List, [], ◌∷◌, ◌++◌, none, some, Text,
  codes, ok, All, nat_key, if◌then◌else◌, map,
}
use logspout.Prelude.Int.{ℤ}
use logspout.Map.{has, lookup}
use logspout.Map.Lookup.{Distinct}
use logspout.Text.Split.{Lacks}
use logspout.Router.Message.{Container, Message}
use logspout.Router.Route.{Route, match_message}
use logspout.Router.Pump.{pump_input}
use logspout.Router.Pump.Lines.{terminated, messages, pump_input-terminated}
use logspout.Router.Pump.Table.{LogsPump, selects, visit}
use logspout.Transport.{Net, Delivers}
use logspout.Adapters.Raw
use logspout.Adapters.Multiline
use logspout.Adapters.Multiline.{multiline_container, is_first_line, message}
use logspout.Adapters.Multiline.Groups.{
  groups_by_first, Collected, without_last, run-groups_by_first,
}
use logspout.Flow.{arriving, arriving-messages, receives-visit, sent-stream}

messages-Collected :
    (a : Multiline.Adapter) (c : Container) (source : Text) (clock : ℕ → ℤ) (i : ℕ)
    (lines : List Text)
    → multiline_container c a.enable_by_default ≡ true
    → All (Collected a c.id) (messages c source clock i lines)
messages-Collected a c source clock i [] on = tt
messages-Collected a c source clock i (l ∷ lines) on =
    ((refl, on), messages-Collected a c source clock (suc i) lines on)

chosen-Collected :
    (a : Multiline.Adapter) (c : Container) (source : Text) (clock : ℕ → ℤ) (lines : List Text)
    (b : Bool)
    → multiline_container c a.enable_by_default ≡ true
    → All (Collected a c.id) (if b then messages c source clock 0 lines else [])
chosen-Collected a c source clock lines true on = messages-Collected a c source clock 0 lines on
chosen-Collected a c source clock lines false on = tt

-- The lines that a container writes reach the network as entries, each once and in order: an entry
-- begins at each line that the settings take as a first one, its lines are joined by the separator, and
-- the end of a line follows it. The last entry may still grow and stays in the buffer: the channel is
-- still open, as a pump leaves it, and the timer has not fired yet. This holds of a route that is
-- offered the container's pump and selects the container and the source, and nothing is sent for one
-- that does not. The pump has no other logstream, since the messages of all of them are the same
-- objects, which the adapter changes. The adapter is the multiline one with a pattern of first lines
-- and empty buffers, over the raw one with a template that is the data and a line feed; the container's
-- lines are to be collected, and the writes do not fail.
pub entries-arrive :
    {W : Type 0} (net : Net W) (sent : W → List Text) (law : Delivers net sent)
    (fine : (c : ℕ) (buf : Text) (w : W) → (net.write c buf w).0 ≡ none) (sub : Raw.Adapter)
    (plain : (m : Message) → sub.tmpl m ≡ ok (m.text ++ codes "\n")) (a : Multiline.Adapter)
    (r : Route) (ls i : ℕ) (p : LogsPump) (b : Bool) (source : Text) (clock : ℕ → ℤ)
    (lines : List Text) (rest : Text) (w : W)
    → a.match_first_line ≡ true
    → a.buffers ≡ []
    → multiline_container (p.store i).container a.enable_by_default ≡ true
    → (p.store i).logstreams ≡ []
    → selects r (p.store i).container ≡ some b
    → All (Lacks 10) lines
    → Lacks 10 rest
    → sent
        (Raw.stream net sub
          (Multiline.run a (
            map message (
              arriving ls
                ((visit r ls i (p, [])).1.0.store i)
                (pump_input (p.store i).container source clock (terminated lines rest))))).1
          w).1
      ≡ sent w
        ++ map
            (λ m. m.text ++ codes "\n")
            (without_last (
              groups_by_first a.separator (is_first_line a) (
                if b && match_message r source
                then messages (p.store i).container source clock 0 lines
                else [])))
entries-arrive net sent law fine sub plain a r ls i p b source clock lines rest w h e on alone s hl
      hr =
    let c = (p.store i).container in
    let cp = (visit r ls i (p, [])).1.0.store i in
    let taken = b && match_message r source in
    let chosen : List Message = if taken then messages c source clock 0 lines else [] in
    let d : Distinct (p.store i).logstreams = subst Distinct (sym alone) tt in
    let n : has ls (p.store i).logstreams ≡ false = rw alone (unfold has lookup in refl) in
    let out : List Message → List Text =
      λ ms. sent (Raw.stream net sub (Multiline.run a (map message ms)).1 w).1 in
    ap (λ ms. out (arriving ls cp ms)) (pump_input-terminated c source clock lines rest hl hr)
    ∙ (ap out (
          arriving-messages ls cp taken c source clock 0 lines
            (λ m q. receives-visit r ls i p b m d n s ∙ ap (λ x. b && match_message r x) q))
        ∙ (ap (λ ms. sent (Raw.stream net sub ms w).1)
              (run-groups_by_first a c.id chosen h e
                (chosen-Collected a c source clock lines taken on))
            ∙ sent-stream net sent law fine sub plain
                (without_last (groups_by_first a.separator (is_first_line a) chosen)) w))
