-- ===== src/Adapters/Syslog/Delivery.antt =====
-- What `Stream` of adapters/syslog/syslog.go puts on the wire, over all messages.
use logspout.Prelude.{
  All, Result, ℕ, ◌≡◌, refl, sym, ap, ◌∙◌, false, List, [], ◌∷◌, ◌++◌, Option, none, some, Text,
  arith, ok, err, inl, inr, Result-cases,
}
use logspout.Router.Message.{Message}
use logspout.Text.Runes.{Begins}
use logspout.Transport.{Net, NetError, Delivers}
use logspout.Adapters.Syslog.{Adapter, Format, FieldTemplates}
use logspout.Adapters.Syslog.Render.{render}
use logspout.Adapters.Syslog.Framing.{framed}
use logspout.Adapters.Syslog.Retry.{
  State, write_once, send, End, closed, unrendered, panicked, stream, after_write,
}
use logspout.Adapters.Syslog.Fails.{CanFail}

-- The frames of the messages before the first one that cannot be rendered, with which a stream ends.
abbrev pub frames : Adapter → List Message → List Text
frames a [] = []
frames a (m ∷ ms) = elim (render a.format a.tmpl m) [
  | err e ↦ []
  | ok buf ↦ framed a.conn_is_tcp a.tcp_framing buf ∷ frames a ms
]

pub frames-ok :
    (a : Adapter) (m : Message) (ms : List Message) (buf : Text)
    → render a.format a.tmpl m ≡ ok buf
    → frames a (m ∷ ms) ≡ framed a.conn_is_tcp a.tcp_framing buf ∷ frames a ms
frames-ok a m ms buf q = ground arith

frames-err :
    (a : Adapter) (m : Message) (ms : List Message) (e : Text)
    → render a.format a.tmpl m ≡ err e
    → frames a (m ∷ ms) ≡ []
frames-err a m ms e q = ground arith

module _ {W : Type 0} (net : Net W) where
  abbrev pub after_send : List Message → Option NetError × State net → End × State net
  after_send ms (none, s) = stream net ms s
  after_send ms (some x, s) = (panicked x, s)

  pub stream-send :
      (m : Message) (ms : List Message) (a : Adapter) (w : W) (buf : Text)
      → render a.format a.tmpl m ≡ ok buf
      → stream net (m ∷ ms) (a, w)
        ≡ after_send ms (send net (framed a.conn_is_tcp a.tcp_framing buf) (a, w))
  unfolding stream
  stream-send m ms a w buf q = ground arith

  pub stream-unrendered :
      (m : Message) (ms : List Message) (a : Adapter) (w : W) (e : Text)
      → render a.format a.tmpl m ≡ err e
      → stream net (m ∷ ms) (a, w) ≡ (unrendered e, (a, w))
  unfolding stream
  stream-unrendered m ms a w e q = ground arith

-- `Sends format tmpl framed_as Failing ms end ps`: `ps` is what is put on the wire for the messages by
-- a stream that ends so. A message has its frame there whole, behind beginnings of it that failed
-- writes have left, up to the first message that cannot be rendered, or whose frame cannot be sent
-- because the network fails.
pub data Sends (format : Format) (tmpl : FieldTemplates) (framed_as : Text → Text)
    (Failing : Text → NetError → Type 0) : List Message → End → List Text → Type 0 where
  all_sent : Sends format tmpl framed_as Failing [] closed []
  sent_whole :
      {ms : List Message} {end : End} {ps : List Text} (m : Message) (buf : Text)
      (parts : List Text)
      → render format tmpl m ≡ ok buf
      → All (λ p. Begins p (framed_as buf)) parts
      → Sends format tmpl framed_as Failing ms end ps
      → Sends format tmpl framed_as Failing (m ∷ ms) end (parts ++ framed_as buf ∷ ps)
  not_sent :
      (m : Message) (ms : List Message) (buf : Text) (parts : List Text) (x : NetError)
      → render format tmpl m ≡ ok buf
      → Failing (framed_as buf) x
      → All (λ p. Begins p (framed_as buf)) parts
      → Sends format tmpl framed_as Failing (m ∷ ms) (panicked x) parts
  not_rendered :
      (m : Message) (ms : List Message) (e : Text)
      → render format tmpl m ≡ err e
      → Sends format tmpl framed_as Failing (m ∷ ms) (unrendered e) []

-- `Sends` with the settings of an adapter, over a network.
abbrev pub SendsBy : {W : Type 0} → Net W → Adapter → List Message → End → List Text → Type 0
SendsBy net a = Sends a.format a.tmpl (framed a.conn_is_tcp a.tcp_framing) (CanFail net)

module _ {W : Type 0} (net : Net W) (sent : W → List Text) (law : Delivers net sent) where
  -- What the stream put on the wire.
  record Delivery (a : Adapter) (w : W) (ms : List Message) (r : End × State net) : Type 0 where
    pub done : List Text
    pub wire : sent r.1.1 ≡ sent w ++ done
    pub sends : SendsBy net a ms r.0 done

udp_write :
    {W : Type 0} (net : Net W) (a : Adapter) (buf : Text) (r : Option NetError × W)
    → a.conn_is_tcp ≡ false
    → after_write net buf (r.0, (a, r.1)) ≡ (none, (a, r.1))
udp_write net a buf (none, w) udp = refl
udp_write net a buf (some e, w) udp = rw udp refl

udp_send :
    {W : Type 0} (net : Net W) (a : Adapter) (w : W) (buf : Text)
    → a.conn_is_tcp ≡ false
    → send net buf (a, w) ≡ (none, (a, (net.write a.conn buf w).1))
unfolding send write_once
udp_send net a w buf udp = udp_write net a buf (net.write a.conn buf w) udp

abbrev pub after_ending : End → Result Text → End
after_ending end (err e) = unrendered e
after_ending end (ok buf) = end

-- How a stream ends that no failed write can end, and what it writes, each on its own connection `c`.
abbrev pub ending : Adapter → List Message → End
ending a [] = closed
ending a (m ∷ ms) = after_ending (ending a ms) (render a.format a.tmpl m)

abbrev pub written : {W : Type 0} → Net W → ℕ → List Text → W → W
written net c [] w = w
written net c (t ∷ ts) w = written net c ts (net.write c t w).1

-- Without TCP a failed write is passed over: the frame of each message is written once, in order and on
-- the one connection, whatever the writes before it have come to, and the stream ends with the channel
-- or with the first message that cannot be rendered.
pub udp_goes_on :
    {W : Type 0} (net : Net W) (ms : List Message) (a : Adapter) (w : W)
    → a.conn_is_tcp ≡ false
    → stream net ms (a, w) ≡ (ending a ms, (a, written net a.conn (frames a ms) w))
udp_goes_on net [] a w udp = unfold stream in refl
udp_goes_on net (m ∷ ms) a w udp = elim (Result-cases (render a.format a.tmpl m)) [
  | inl (e, q) ↦
      stream-unrendered net m ms a w e q
      ∙ sym (
          ap (λ r. (after_ending (ending a ms) r, (a, written net a.conn (frames a (m ∷ ms)) w))) q
          ∙ ap (λ ts. (unrendered e, (a, written net a.conn ts w))) (frames-err a m ms e q))
  | inr (buf, q) ↦
      let f = framed a.conn_is_tcp a.tcp_framing buf in
      let w' = (net.write a.conn f w).1 in
      stream-send net m ms a w buf q
      ∙ (ap (after_send net ms) (udp_send net a w f udp)
          ∙ (udp_goes_on net ms a w' udp
              ∙ sym (
                  ap
                    (λ r.
                      (after_ending (ending a ms) r, (a, written net a.conn (frames a (m ∷ ms)) w)))
                    q
                  ∙ ap (λ ts. (ending a ms, (a, written net a.conn ts w)))
                      (frames-ok a m ms buf q))))
]
