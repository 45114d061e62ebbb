-- ===== src/Adapters/Loki.antt =====
-- adapters/loki/loki.go: lines sent to Loki, over a client of it that is a parameter. The host name is
-- that of the syslog adapter, as for Graylog.
pub mod Handled
use logspout.Prelude.{
  ℕ, Bool, true, false, List, [], ◌∷◌, Option, none, some, Text, codes, Result, ok, err, ◌≡◌, refl,
}
use logspout.Map.{Map}
use logspout.Text.{split, join, trim_space}
use logspout.Router.Message.{Container, Message}
use logspout.Router.Route.{Route, adapter_transport, second_or}

-- The parts of a `url.URL` that are set.
pub record Url : Type 0 where
  pub scheme : Text
  pub user : Option Text
  pub host : Text
  pub path : Text

unfoldable pub scheme : Text → Text
scheme adapter = second_or (codes "http") (split adapter b'+')

abbrev or_push : Text → Text
or_push [] = codes "/api/prom/push"
or_push (c ∷ path) = c ∷ path

unfoldable pub url_of : Route → Url
unfolding scheme
url_of r = record {
  scheme = scheme r.adapter;
  user = r.user;
  host = r.address;
  path = or_push r.path;
}

-- The client: one for a URL, what it does with a line under its labels, and its end. Its state holds
-- the time.
pub record Client (W : Type 0) : Type 0 where
  pub new_client : Url → W → Result ℕ × W
  pub handle : ℕ → Map Text Text → Text → W → W
  pub stop : ℕ → W → W

pub record Adapter : Type 0 where
  pub route : Route
  pub client : ℕ

module _ {W : Type 0} (client : Client W) (hostname : Text) where
  abbrev after_client : Route → Result ℕ × W → Result Adapter × W
  after_client r (err e, w) = (err e, w)
  after_client r (ok c, w) = (ok (record { route = r; client = c }), w)

  -- NewLokiAdapter; the goroutine that waits for a signal only stops the client
  unfoldable pub new_loki_adapter : Route → W → Result Adapter × W
  unfolding url_of
  new_loki_adapter r w = after_client r (client.new_client (url_of r) w)

  -- The labels of a line; `none` is the panic of a slice out of range.
  unfoldable pub labels_of : Container → Option (Map Text Text)
  labels_of c = elim c.name [
    | [] ↦ none
    | _ ∷ name ↦ some (
        (codes "nodename", hostname)
        ∷ (codes "container_id", c.id)
        ∷ (codes "container_name", name)
        ∷ (codes "image_id", c.image)
        ∷ (codes "image_name", c.config_image)
        ∷ (codes "command", join c.cmd (codes " "))
        ∷ (codes "created", c.created)
        ∷ [])
  ]

  -- A line of white space is passed over.
  abbrev handled : ℕ → Map Text Text → Text → W → W
  handled c labels [] w = w
  handled c labels (b ∷ line) w = client.handle c labels (b ∷ line) w

  -- Stream: the deferred stop follows the last message, and a panic.
  unfoldable pub stream : Adapter → List Message → W → Bool × W
  unfolding labels_of trim_space
  stream a [] w = (true, client.stop a.client w)
  stream a (m ∷ ms) w = elim (labels_of m.container) [
    | none ↦ (false, client.stop a.client w)
    | some labels ↦ stream a ms (handled a.client labels (trim_space m.text) w)
  ]

-- The scheme is the transport of the adapter, HTTP where it has none.
scheme-adapter_transport : (r : Route) → scheme r.adapter ≡ adapter_transport r (codes "http")
unfolding scheme adapter_transport
scheme-adapter_transport r = refl
