-- ===== src/Adapters/Multiline/Beside.antt =====
-- adapters/multiline/multiline.go: `Stream` with the `Stream` of the sub-adapter beside it, and with
-- adapters/raw/raw.go in that place. The channel between them has no buffer, so once the sub-adapter has
-- returned, the next send waits for ever.
use logspout.Prelude.{
  ◌≢◌, arith, ◌≡◌, refl, Bool, true, false, List, [], ◌∷◌, Option, none, some, Text, Result, ok,
  err, if◌then◌else◌,
}
use logspout.Router.Message.{Message}
use logspout.Transport.{Net, NetError}
use logspout.Adapters.Raw
use logspout.Adapters.Raw.{End, closed, unrendered, unwritten, after_write, after_render}
use logspout.Adapters.Multiline
use logspout.Adapters.Multiline.{Event}

-- A sub-adapter by what it does with one message: does it receive a further one?
abbrev pub SubAdapter : Type 0 → Type 0
SubAdapter W = Message → W → Bool × W

-- Nothing is sent after the last message, so the adapter returns if the sub-adapter has had it.
abbrev pub after_last : {W : Type 0} → List Message → W → Bool × W
after_last [] w = (true, w)
after_last (m ∷ ms) w = (false, w)

-- The sends on the channel: is each received, so that `Stream` returns?
unfoldable pub hand_over : {W : Type 0} → SubAdapter W → List Message → W → Bool × W
hand_over sub [] w = (true, w)
hand_over sub (m ∷ ms) w =
    let (on, w') = sub m w in
    let further = hand_over sub ms w' in if on then further else after_last ms w'

-- Stream, with the sub-adapter
abbrev pub stream_over : {W : Type 0} → SubAdapter W → Multiline.Adapter → List Event → W → Bool × W
stream_over sub a es w = hand_over sub (Multiline.stream a es) w

module _ {W : Type 0} (net : Net W) (raw : Raw.Adapter) where
  abbrev written : Option NetError × W → Bool × W
  written (none, w) = (true, w)
  written (some e, w) = (net.is_udp raw.conn, w)

  abbrev rendered : Result Text → W → Bool × W
  rendered (err e) w = (false, w)
  rendered (ok buf) w = written (net.write raw.conn buf w)

  -- The body of the loop of the raw adapter.
  abbrev pub raw_sub : SubAdapter W
  raw_sub m w = rendered (raw.tmpl m) w

  -- The raw adapter has sent the same, and the multiline adapter returns if the raw one ends with the
  -- channel.
  abbrev Agree : Bool × W → End × W → Type 0
  Agree r s = (r.1 ≡ s.1) × (s.0 ≡ closed → r.0 ≡ true)

  Agree-last : (ms : List Message) (w : W) (e : End) → e ≢ closed → Agree (after_last ms w) (e, w)
  Agree-last [] w e h = (refl, λ q. refl)
  Agree-last (m ∷ ms) w e h = (refl, λ q. absurd (h q))

  module _ (ms : List Message)
      (later : (w : W) → Agree (hand_over raw_sub ms w) (Raw.stream net raw ms w)) where
    -- What follows a message that the sub-adapter has had.
    abbrev onward : Bool × W → Bool × W
    onward (on, w) = if on then hand_over raw_sub ms w else after_last ms w

    failed-Agree :
        (b : Bool) (e : NetError) (w : W)
        → Agree (onward (b, w)) (if b then Raw.stream net raw ms w else (unwritten e, w))
    failed-Agree true e w = later w
    failed-Agree false e w = Agree-last ms w (unwritten e) (λ q. ground (arith, q))

    written-Agree :
        (r : Option NetError × W)
        → Agree (onward (written r)) (after_write net raw (Raw.stream net raw ms) r)
    written-Agree (none, w) = later w
    written-Agree (some e, w) = failed-Agree (net.is_udp raw.conn) e w

    rendered-Agree :
        (r : Result Text) (w : W)
        → Agree (onward (rendered r w)) (after_render net raw (Raw.stream net raw ms) w r)
    rendered-Agree (err e) w = Agree-last ms w (unrendered e) (λ q. ground (arith, q))
    rendered-Agree (ok buf) w = written-Agree (net.write raw.conn buf w)

  hand_over-Agree :
      (ms : List Message) (w : W) → Agree (hand_over raw_sub ms w) (Raw.stream net raw ms w)
  unfolding hand_over Raw.stream
  hand_over-Agree [] w = (refl, λ q. refl)
  hand_over-Agree (m ∷ ms) w = rendered-Agree ms (hand_over-Agree ms) (raw.tmpl m) w

-- Over the raw adapter, what the multiline adapter sends reaches the network as the raw adapter's
-- `Stream` sends it, and if that one comes to the end of its channel the multiline adapter returns.
pub stream_over-raw :
    {W : Type 0} (net : Net W) (raw : Raw.Adapter) (a : Multiline.Adapter) (es : List Event) (w : W)
    → ((stream_over (raw_sub net raw) a es w).1 ≡ (Raw.stream net raw (Multiline.stream a es) w).1)
      × ((Raw.stream net raw (Multiline.stream a es) w).0 ≡ closed
          → (stream_over (raw_sub net raw) a es w).0 ≡ true)
stream_over-raw net raw a es w = hand_over-Agree net raw (Multiline.stream a es) w
