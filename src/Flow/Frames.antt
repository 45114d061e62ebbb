-- ===== src/Flow/Frames.antt =====
-- The way of a line from a container to the reader at the other end of a syslog connection that counts
-- octets (router/pump.go, adapters/syslog/syslog.go).
use logspout.Prelude.{
  append_assoc, none, ◌≡◌, refl, sym, ap, ◌∙◌, ℕ, suc, true, false, List, [], ◌∷◌, ◌++◌, append-nil,
  some, Text, ok, map, All, arith, length, nat_key,
}
use logspout.Prelude.Int.{ℤ}
use logspout.Map.{has}
use logspout.Map.Lookup.{Distinct}
use logspout.Text.Split.{Lacks}
use logspout.Router.Message.{Container, Message}
use logspout.Router.Route.{Route, match_message}
use logspout.Router.Pump.{pump_input}
use logspout.Router.Pump.Lines.{terminated, messages, pump_input-terminated}
use logspout.Router.Pump.Table.{LogsPump, selects, visit}
use logspout.Transport.{Net, Delivers}
use logspout.Adapters.Syslog.{Adapter, octet_counted}
use logspout.Adapters.Syslog.Render.{render}
use logspout.Adapters.Syslog.Framing.{octets, framed, read_frames, stream_of, read_frames-stream_of}
use logspout.Adapters.Syslog.Retry.{closed, stream, send, write_once, after_write}
use logspout.Adapters.Syslog.Delivery.{frames, frames-ok, after_send, stream-send}
use logspout.Flow.{arriving, arriving-messages, receives-visit}

-- The bytes of what was put on the wire.
abbrev pub bytes : List Text → Text
bytes [] = []
bytes (t ∷ ts) = t ++ bytes ts

bytes-octets : (bufs : List Text) → bytes (map octets bufs) ≡ stream_of bufs
bytes-octets [] = refl
bytes-octets (b ∷ bufs) = ap (λ s. octets b ++ s) (bytes-octets bufs)

length-texts :
    (text : Message → Text) (c : Container) (source : Text) (clock : ℕ → ℤ) (i : ℕ)
    (lines : List Text)
    → length (map text (messages c source clock i lines)) ≡ length lines
length-texts text c source clock i [] = refl
length-texts text c source clock i (l ∷ lines) =
    omega (arith, length-texts text c source clock (suc i) lines)

-- A route that selects a container and a source is sent a message for each line.
arriving-selected :
    (r : Route) (ls i : ℕ) (p : LogsPump) (source : Text) (clock : ℕ → ℤ) (lines : List Text)
    (rest : Text)
    → Distinct (p.store i).logstreams
    → has ls (p.store i).logstreams ≡ false
    → selects r (p.store i).container ≡ some true
    → match_message r source ≡ true
    → All (Lacks 10) lines
    → Lacks 10 rest
    → arriving ls
        ((visit r ls i (p, [])).1.0.store i)
        (pump_input (p.store i).container source clock (terminated lines rest))
      ≡ messages (p.store i).container source clock 0 lines
arriving-selected r ls i p source clock lines rest d n s k hl hr =
    let c = (p.store i).container in
    let cp = (visit r ls i (p, [])).1.0.store i in
    ap (arriving ls cp) (pump_input-terminated c source clock lines rest hl hr)
    ∙ arriving-messages ls cp true c source clock 0 lines
        (λ m q. receives-visit r ls i p true m d n s ∙ (ap (match_message r) q ∙ k))

module _ (a : Adapter) (text : Message → Text) (tcp : a.conn_is_tcp ≡ true)
    (counted : a.tcp_framing ≡ octet_counted)
    (renders : (m : Message) → render a.format a.tmpl m ≡ ok (text m)) where
  framed-octets : (buf : Text) → framed a.conn_is_tcp a.tcp_framing buf ≡ octets buf
  unfolding framed
  framed-octets buf = rw (tcp, counted) refl

  frames-octets : (ms : List Message) → frames a ms ≡ map octets (map text ms)
  frames-octets [] = refl
  frames-octets (m ∷ ms) =
      frames-ok a m ms (text m) (renders m)
      ∙ (ap (λ t. t ∷ frames a ms) (framed-octets (text m))
          ∙ ap (λ ts. octets (text m) ∷ ts) (frames-octets ms))

  read-whole :
      (c : Container) (source : Text) (clock : ℕ → ℤ) (lines done : List Text)
      → done ≡ frames a (messages c source clock 0 lines)
      → read_frames (length lines) (bytes done) ≡ some (map text (messages c source clock 0 lines))
  read-whole c source clock lines done e =
      let bufs = map text (messages c source clock 0 lines) in
      ap (λ ts. read_frames (length lines) (bytes ts))
        (e ∙ frames-octets (messages c source clock 0 lines))
      ∙ (ap (λ s. read_frames (length lines) s) (bytes-octets bufs)
          ∙ (ap (λ n. read_frames n (stream_of bufs))
                (sym (length-texts text c source clock 0 lines))
              ∙ read_frames-stream_of bufs))

  module _ {W : Type 0} (net : Net W) (sent : W → List Text) (law : Delivers net sent)
      (fine : (c : ℕ) (buf : Text) (w : W) → (net.write c buf w).0 ≡ none) where
    send_fine : (buf : Text) (w : W) → send net buf (a, w) ≡ (none, (a, (net.write a.conn buf w).1))
    unfolding send write_once
    send_fine buf w =
        ap (λ e. after_write net buf (e, (a, (net.write a.conn buf w).1))) (fine a.conn buf w)

    stream_fine :
        (ms : List Message) (w : W)
        → ((stream net ms (a, w)).0 ≡ closed)
          × (sent (stream net ms (a, w)).1.1 ≡ sent w ++ frames a ms)
    stream_fine [] w = unfold stream in (refl, sym (append-nil (sent w)))
    stream_fine (m ∷ ms) w =
        let f = framed a.conn_is_tcp a.tcp_framing (text m) in
        let w' = (net.write a.conn f w).1 in
        let step : stream net (m ∷ ms) (a, w) ≡ stream net ms (a, w') =
          stream-send net m ms a w (text m) (renders m) ∙ ap (after_send net ms) (send_fine f w) in
        let (end, wire) = stream_fine ms w' in
        (
          ap (λ r. r.0) step ∙ end,
          ap (λ r. sent r.1.1) step
              ∙ (wire
                  ∙ (ap (λ x. x ++ frames a ms) (law.write_ok a.conn f w (fine a.conn f w))
                      ∙ (append_assoc (sent w) (f ∷ []) (frames a ms)
                          ∙ ap (λ x. sent w ++ x) (sym (frames-ok a m ms (text m) (renders m)))))),
        )

-- The lines of a container reach the reader at the other end of a syslog connection over TCP, each
-- rendered, in order and cut apart as they were, and the stream ends with the channel: a reader of
-- octet-counted frames gets, of what is put on the wire, exactly the messages of the lines. The writes
-- do not fail, the route has been offered the container's pump and selects the container and the
-- source, it has had no logstream of the pump before, and every message can be rendered.
pub read-lines :
    {W : Type 0} (net : Net W) (sent : W → List Text) (law : Delivers net sent)
    (fine : (c : ℕ) (buf : Text) (w : W) → (net.write c buf w).0 ≡ none) (a : Adapter)
    (text : Message → Text) (r : Route) (ls i : ℕ) (p : LogsPump) (source : Text) (clock : ℕ → ℤ)
    (lines : List Text) (rest : Text) (w : W)
    → a.conn_is_tcp ≡ true
    → a.tcp_framing ≡ octet_counted
    → ((m : Message) → render a.format a.tmpl m ≡ ok (text m))
    → Distinct (p.store i).logstreams
    → has ls (p.store i).logstreams ≡ false
    → selects r (p.store i).container ≡ some true
    → match_message r source ≡ true
    → All (Lacks 10) lines
    → Lacks 10 rest
    → ((stream net
          (arriving ls
            ((visit r ls i (p, [])).1.0.store i)
            (pump_input (p.store i).container source clock (terminated lines rest)))
          (a, w)).0
        ≡ closed)
      × ((done : List Text) × ((sent
                (stream net
                  (arriving ls
                    ((visit r ls i (p, [])).1.0.store i)
                    (pump_input (p.store i).container source clock (terminated lines rest)))
                  (a, w)).1.1
              ≡ sent w ++ done)
            × (read_frames (length lines) (bytes done)
                ≡ some (map text (messages (p.store i).container source clock 0 lines)))))
read-lines net sent law fine a text r ls i p source clock lines rest w tcp counted renders d n s k
      hl hr =
    let ms = messages (p.store i).container source clock 0 lines in
    let (end, wire) = stream_fine a text tcp counted renders net sent law fine ms w in
    rw (arriving-selected r ls i p source clock lines rest d n s k hl hr) (
      end,
      (
        frames a ms,
        (
          wire,
          read-whole a text tcp counted renders (p.store i).container source clock lines
              (frames a ms) refl,
        ),
      ),
    )
