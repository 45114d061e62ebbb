-- ===== src/Adapters/Raw/Delivery.antt =====
-- What `Stream` of adapters/raw/raw.go puts on the wire.
use logspout.Prelude.{
  ◌≡◌, refl, sym, ap, ◌∙◌, Bool, true, false, List, [], ◌∷◌, ◌++◌, All, append_assoc, append-nil,
  Option, none, some, Text, Result, ok, err, if◌then◌else◌,
}
use logspout.Router.Message.{Message, Template}
use logspout.Text.Runes.{Begins}
use logspout.Transport.{Net, NetError, Delivers}
use logspout.Adapters.Raw.{
  Adapter, End, closed, unrendered, unwritten, after_write, after_render, stream, ℕ,
}

-- `Reaches tmpl lossy Fails ms end ps`: `ps` is what is put on the wire for the messages by a stream that
-- ends so. The text of a message is there once, or beginnings of it if its write fails; the first
-- failed write ends the stream unless the connection is `lossy`, and so does the first message that
-- cannot be rendered. `Fails t e` says that a write of `t` can fail with `e`.
pub data Reaches (tmpl : Template) (lossy : Bool) (Fails : Text → NetError → Type 0)
    : List Message → End → List Text → Type 0 where
  none_left : Reaches tmpl lossy Fails [] closed []
  arrives :
      {ms : List Message} {end : End} {ps : List Text} (m : Message) (t : Text)
      → tmpl m ≡ ok t
      → Reaches tmpl lossy Fails ms end ps
      → Reaches tmpl lossy Fails (m ∷ ms) end (t ∷ ps)
  lost :
      {ms : List Message} {end : End} {ps : List Text} (m : Message) (t : Text) (parts : List Text)
      (e : NetError)
      → tmpl m ≡ ok t
      → Fails t e
      → lossy ≡ true
      → All (λ p. Begins p t) parts
      → Reaches tmpl lossy Fails ms end ps
      → Reaches tmpl lossy Fails (m ∷ ms) end (parts ++ ps)
  broken :
      (m : Message) (ms : List Message) (t : Text) (parts : List Text) (e : NetError)
      → tmpl m ≡ ok t
      → Fails t e
      → lossy ≡ false
      → All (λ p. Begins p t) parts
      → Reaches tmpl lossy Fails (m ∷ ms) (unwritten e) parts
  no_text :
      (m : Message) (ms : List Message) (e : Text)
      → tmpl m ≡ err e
      → Reaches tmpl lossy Fails (m ∷ ms) (unrendered e) []

-- A write of the text to the connection fails with the error, in some state of the network.
abbrev pub WriteFails : {W : Type 0} → Net W → ℕ → Text → NetError → Type 0
WriteFails {W} net conn t e = (w : W) × ((net.write conn t w).0 ≡ some e)

module _ {W : Type 0} (net : Net W) (sent : W → List Text) (law : Delivers net sent)
    (a : Adapter) where
  -- The wire behind a run from `w` over these messages.
  record Delivery (w : W) (ms : List Message) (r : End × W) : Type 0 where
    pub done : List Text
    pub wire : sent r.1 ≡ sent w ++ done
    pub reaches : Reaches a.tmpl (net.is_udp a.conn) (WriteFails net a.conn) ms r.0 done

  module _ (m : Message) (ms : List Message)
      (later : (v : W) → Delivery v ms (stream net a ms v)) where
    Delivery-arrives :
        (w w' : W) (t : Text)
        → a.tmpl m ≡ ok t
        → sent w' ≡ sent w ++ t ∷ []
        → Delivery w (m ∷ ms) (stream net a ms w')
    Delivery-arrives w w' t e q =
        let d : Delivery w' ms (stream net a ms w') = later w' in
        record {
          done = t ∷ d.done;
          wire = d.wire ∙ ap (λ x. x ++ d.done) q ∙ append_assoc (sent w) (t ∷ []) d.done;
          reaches = arrives m t e d.reaches;
        }

    Delivery-failed :
        (b : Bool) (w w' : W) (t : Text) (parts : List Text) (x : NetError)
        → a.tmpl m ≡ ok t
        → WriteFails net a.conn t x
        → b ≡ net.is_udp a.conn
        → All (λ p. Begins p t) parts
        → sent w' ≡ sent w ++ parts
        → Delivery w (m ∷ ms) (if b then stream net a ms w' else (unwritten x, w'))
    Delivery-failed true w w' t parts x e f b h q =
        let d : Delivery w' ms (stream net a ms w') = later w' in
        record {
          done = parts ++ d.done;
          wire = d.wire ∙ ap (λ y. y ++ d.done) q ∙ append_assoc (sent w) parts d.done;
          reaches = lost m t parts x e f (sym b) h d.reaches;
        }
    Delivery-failed false w w' t parts x e f b h q = record {
      done = parts;
      wire = q;
      reaches = broken m ms t parts x e f (sym b) h;
    }

    Delivery-written :
        (w : W) (t : Text) (r : Option NetError × W)
        → a.tmpl m ≡ ok t
        → net.write a.conn t w ≡ r
        → Delivery w (m ∷ ms) (after_write net a (stream net a ms) r)
    Delivery-written w t (none, w') e q =
        Delivery-arrives w w' t e
          (ap (λ r. sent r.1) (sym q) ∙ law.write_ok a.conn t w (ap (λ r. r.0) q))
    Delivery-written w t (some x, w') e q =
        let (parts, (begin, wire)) = law.write_failed a.conn t w x (ap (λ r. r.0) q) in
        Delivery-failed (net.is_udp a.conn) w w' t parts x e (w, ap (λ r. r.0) q) refl begin
          (ap (λ r. sent r.1) (sym q) ∙ wire)

    Delivery-rendered :
        (w : W) (r : Result Text)
        → a.tmpl m ≡ r
        → Delivery w (m ∷ ms) (after_render net a (stream net a ms) w r)
    Delivery-rendered w (err x) e = record {
      done = [];
      wire = sym (append-nil (sent w));
      reaches = no_text m ms x e;
    }
    Delivery-rendered w (ok buf) e = Delivery-written w buf (net.write a.conn buf w) e refl

  stream-Delivery : (ms : List Message) (w : W) → Delivery w ms (stream net a ms w)
  unfolding stream
  stream-Delivery [] w = record { done = []; wire = sym (append-nil (sent w)); reaches = none_left }
  stream-Delivery (m ∷ ms) w = Delivery-rendered m ms (stream-Delivery ms) w (a.tmpl m) refl

-- The text of each message is given to the network once and in order. Over UDP a failed write, which
-- may leave beginnings of its text, is passed over; over another connection it ends the stream. So does
-- a message that cannot be rendered; of what follows nothing is sent, and without either the stream
-- ends with the channel.
pub stream-Reaches :
    {W : Type 0} (net : Net W) (sent : W → List Text) (law : Delivers net sent) (a : Adapter)
    (ms : List Message) (w : W)
    → (done : List Text) × ((sent (stream net a ms w).1 ≡ sent w ++ done)
        × Reaches a.tmpl (net.is_udp a.conn) (WriteFails net a.conn) ms (stream net a ms w).0 done)
stream-Reaches net sent law a ms w =
    let d = stream-Delivery net sent law a ms w in (d.done, (d.wire, d.reaches))
