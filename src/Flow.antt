-- ===== src/Flow.antt =====
-- The way of a line through the program: from what a container writes (router/pump.go), over the
-- logstream of a route, to what the raw adapter of that route sends (adapters/raw/raw.go).
pub mod Frames
pub mod Entries
use logspout.Prelude.{
  ℕ, suc, ◌≡◌, refl, sym, ap, ◌∙◌, Bool, true, false, ◌&&◌, List, [], ◌∷◌, ◌++◌, append_assoc,
  append-nil, Option, none, some, Text, codes, ok, All, arith, nat_key, eq_iff, if◌then◌else◌, map,
}
use logspout.Prelude.Int.{ℤ}
use logspout.Map.{has}
use logspout.Map.Lookup.{Distinct}
use logspout.Text.Split.{Lacks}
use logspout.Router.Message.{Container, Message}
use logspout.Router.Route.{Route, match_message}
use logspout.Router.Pump.{ContainerPump, pump_input, send}
use logspout.Router.Pump.Send.{receives, send_to-lookup, receives-add-remove}
use logspout.Router.Pump.Lines.{terminated, messages, pump_input-terminated}
use logspout.Router.Pump.Table.{LogsPump, selects, visit, put}
use logspout.Transport.{Net, NetError, Delivers, taken}
use logspout.Adapters.Raw.{Adapter, End, stream, after_write}

-- The messages that come through a logstream when these are sent.
abbrev pub arriving : ℕ → ContainerPump → List Message → List Message
arriving ls cp [] = []
arriving ls cp (m ∷ ms) = if receives ls cp m then m ∷ arriving ls cp ms else arriving ls cp ms

pub arriving-messages :
    (ls : ℕ) (cp : ContainerPump) (b : Bool) (c : Container) (source : Text) (clock : ℕ → ℤ) (i : ℕ)
    (lines : List Text)
    → ((m : Message) → m.source ≡ source → receives ls cp m ≡ b)
    → arriving ls cp (messages c source clock i lines)
      ≡ (if b then messages c source clock i lines else [])
arriving-messages ls cp b c source clock i [] h = ground arith
arriving-messages ls cp b c source clock i (l ∷ lines) h = ground (
  arith,
  h (record { container = c; source = source; text = l; time = clock i }) refl,
  arriving-messages ls cp b c source clock (suc i) lines h,
)

-- What the pump of a container sends to a route that it has been offered to.
pub receives-visit :
    (r : Route) (ls i : ℕ) (p : LogsPump) (b : Bool) (m : Message)
    → Distinct (p.store i).logstreams
    → has ls (p.store i).logstreams ≡ false
    → selects r (p.store i).container ≡ some b
    → receives ls ((visit r ls i (p, [])).1.0.store i) m ≡ (b && match_message r m.source)
unfolding visit put has send
receives-visit r ls i p true m d n e =
    ground (arith, e, eq_iff i i, eq_iff ls ls, (receives-add-remove (p.store i) ls r ls m d).0)
receives-visit r ls i p false m d n e =
    ground (arith, e, n, send_to-lookup ls m (p.store i).logstreams d)

-- The lines that the adapter sends for messages.
abbrev pub ended : List Text → List Text
ended [] = []
ended (l ∷ lines) = (l ++ codes "\n") ∷ ended lines

ended-messages :
    (c : Container) (source : Text) (clock : ℕ → ℤ) (i : ℕ) (lines : List Text)
    → map (λ m. m.text ++ codes "\n") (messages c source clock i lines) ≡ ended lines
ended-messages c source clock i [] = refl
ended-messages c source clock i (l ∷ lines) =
    ap (λ x. (l ++ codes "\n") ∷ x) (ended-messages c source clock (suc i) lines)

module _ {W : Type 0} (net : Net W) (sent : W → List Text) (law : Delivers net sent)
    (fine : (c : ℕ) (buf : Text) (w : W) → (net.write c buf w).0 ≡ none) (a : Adapter)
    (plain : (m : Message) → a.tmpl m ≡ ok (m.text ++ codes "\n")) where
  sent-write : (buf : Text) (w : W) → sent (net.write a.conn buf w).1 ≡ sent w ++ buf ∷ []
  sent-write buf w = law.write_ok a.conn buf w (fine a.conn buf w)

  after_write_fine :
      (more : W → End × W) (x : Option NetError × W)
      → x.0 ≡ none
      → after_write net a more x ≡ more x.1
  after_write_fine more (none, w) e = refl
  after_write_fine more (some x, w) e = absurd (ground (arith, e))

  -- Every message reaches the wire, with the end of a line.
  pub sent-stream :
      (ms : List Message) (w : W)
      → sent (stream net a ms w).1 ≡ sent w ++ map (λ m. m.text ++ codes "\n") ms
  unfolding stream
  sent-stream [] w = sym (append-nil (sent w))
  sent-stream (m ∷ ms) w =
      let buf : Text = m.text ++ codes "\n" in
      rw (plain m) (
        ap (λ x. sent x.1)
          (after_write_fine (stream net a ms) (net.write a.conn buf w) (fine a.conn buf w))
        ∙ (sent-stream ms (net.write a.conn buf w).1
            ∙ (ap (λ x. x ++ map (λ m. m.text ++ codes "\n") ms) (sent-write buf w)
                ∙ append_assoc (sent w) (buf ∷ []) (map (λ m. m.text ++ codes "\n") ms))))

  sent-taken :
      (b : Bool) (c : Container) (source : Text) (clock : ℕ → ℤ) (lines : List Text) (w : W)
      → sent (stream net a (if b then messages c source clock 0 lines else []) w).1
        ≡ sent w ++ (if b then ended lines else [])
  sent-taken true c source clock lines w =
      sent-stream (messages c source clock 0 lines) w
      ∙ ap (λ x. sent w ++ x) (ended-messages c source clock 0 lines)
  sent-taken false c source clock lines w = unfold stream in sym (append-nil (sent w))

-- Each line that a container writes reaches the network once and in order, with its end, if the route
-- is offered the container's pump and selects the container and the source, and nothing reaches it if
-- the route does not: the adapter is the raw one with a template that is the data and a line feed, the
-- writes do not fail, and the route has had no logstream of the pump before. What follows the last end
-- of a line is not sent.
pub lines-arrive :
    {W : Type 0} (net : Net W) (sent : W → List Text) (law : Delivers net sent)
    (fine : (c : ℕ) (buf : Text) (w : W) → (net.write c buf w).0 ≡ none) (a : Adapter)
    (plain : (m : Message) → a.tmpl m ≡ ok (m.text ++ codes "\n")) (r : Route) (ls i : ℕ)
    (p : LogsPump) (b : Bool) (source : Text) (clock : ℕ → ℤ) (lines : List Text) (rest : Text)
    (w : W)
    → Distinct (p.store i).logstreams
    → has ls (p.store i).logstreams ≡ false
    → selects r (p.store i).container ≡ some b
    → All (Lacks 10) lines
    → Lacks 10 rest
    → sent
        (stream net a
          (arriving ls
            ((visit r ls i (p, [])).1.0.store i)
            (pump_input (p.store i).container source clock (terminated lines rest)))
          w).1
      ≡ sent w ++ (if b && match_message r source then ended lines else [])
lines-arrive net sent law fine a plain r ls i p b source clock lines rest w d n e hl hr =
    let c = (p.store i).container in
    let cp = (visit r ls i (p, [])).1.0.store i in
    ap (λ ms. sent (stream net a (arriving ls cp ms) w).1)
      (pump_input-terminated c source clock lines rest hl hr)
    ∙ (ap (λ ms. sent (stream net a ms w).1)
          (arriving-messages ls cp (b && match_message r source) c source clock 0 lines
            (λ m q. receives-visit r ls i p b m d n e ∙ ap (λ s. b && match_message r s) q))
        ∙ sent-taken net sent law fine a plain (b && match_message r source) c source clock lines w)
