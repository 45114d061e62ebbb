-- ===== src/Adapters/Gelf.antt =====
-- adapters/gelf/gelf.go: messages in the format of Graylog, over a client of it that is a parameter.
-- The host name is what `getHostname` of the syslog adapter makes of the environment, which is
-- written out again in the source.
pub mod Fields
use logspout.Prelude.{
  ℕ, ◌+◌, ◌/◌, Bool, true, false, ◌&&◌, List, [], ◌∷◌, ◌++◌, ◌≡◌, refl, text_beq, Option, none,
  some, Text, codes, text_key, ◌==◌, length, take, drop, ltb, if◌then◌else◌, Result, ok, err, ◌≡◌,
}
use logspout.Prelude.Int.{ℤ, pos, negsuc, ◌-ℤ◌}
use logspout.Map.{Map, insert}
use logspout.Text.{join, to_lower}
use logspout.Router.Message.{Container, Message}
use logspout.Router.Route.{Route, adapter_transport}

-- The client: a writer for an address, what it does with a message, and its levels.
pub record Client (W : Type 0) (Message' : Type 0) : Type 0 where
  pub new_writer : Text → W → Result ℕ × W
  pub write_message : ℕ → Message' → W → Option Text × W
  pub log_info : ℕ
  pub log_err : ℕ

-- The fields of a `gelf.Message` that are set; the time is in milliseconds.
pub record GelfMessage : Type 0 where
  pub version : Text
  pub host : Text
  pub short : Text
  pub time_ms : ℤ
  pub level : ℕ
  pub raw_extra : Text

pub record Adapter : Type 0 where
  pub writer : ℕ
  pub route : Route

module _ {W : Type 0} (client : Client W GelfMessage) (transports : Text → Bool) where
  abbrev after_writer : Route → Result ℕ × W → Result Adapter × W
  after_writer r (err e, w) = (err e, w)
  after_writer r (ok c, w) = (ok (record { writer = c; route = r }), w)

  -- NewGelfAdapter
  unfoldable pub new_gelf_adapter : Route → W → Result Adapter × W
  new_gelf_adapter r w =
      if transports (adapter_transport r (codes "udp"))
      then after_writer r (client.new_writer r.address w)
      else (err (codes "unable to find adapter: " ++ r.adapter), w)

-- The fields of every message, for a container's name without its first byte.
unfoldable pub container_fields : Container → Text → Map Text Text
container_fields c name =
    (codes "_container_id", c.id)
    ∷ (codes "_container_name", name)
    ∷ (codes "_image_id", c.image)
    ∷ (codes "_image_name", c.config_image)
    ∷ (codes "_command", join c.cmd (codes " "))
    ∷ (codes "_created", c.created)
    ∷ []

-- Is a label one for Graylog?
unfoldable pub is_gelf_label : Text → Bool
is_gelf_label name = ltb 5 (length name) && to_lower (take 5 name) == codes "gelf_"

-- The loop over the labels.
unfoldable pub add_labels : Map Text Text → Map Text Text → Map Text Text
unfolding is_gelf_label
add_labels [] extra = extra
add_labels ((name, label) ∷ labels) extra =
    add_labels labels (if is_gelf_label name then insert (drop 4 name) label extra else extra)

abbrev pub with_node : Option Text → Map Text Text → Map Text Text
with_node none extra = extra
with_node (some node) extra = insert (codes "_swarm_node") node extra

-- The fields behind a name; `none` is the panic of a slice out of range.
abbrev pub named_fields : Container → Text → Option (Map Text Text)
named_fields c [] = none
named_fields c (_ ∷ name) = some (with_node c.node (add_labels c.labels (container_fields c name)))

unfoldable pub extra_fields : Container → Option (Map Text Text)
unfolding container_fields add_labels
extra_fields c = named_fields c c.name

-- n / int64(time.Millisecond), towards zero
abbrev milliseconds : ℤ → ℤ
milliseconds (pos n) = pos (n / 1_000_000)
milliseconds (negsuc n) = pos 0 -ℤ pos ((n + 1) / 1_000_000)

module _ {W : Type 0} (client : Client W GelfMessage) (marshal : Map Text Text → Result Text)
    (hostname : Text) where
  abbrev level_of : Message → ℕ
  level_of m = if m.source == codes "stderr" then client.log_err else client.log_info

  unfoldable pub gelf_message : Message → Text → GelfMessage
  gelf_message m extra = record {
    version = codes "1.1";
    host = hostname;
    short = m.text;
    time_ms = milliseconds m.time;
    level = level_of m;
    raw_extra = extra;
  }

  abbrev send : Adapter → Message → Result Text → W → W
  send a m (err e) w = w
  send a m (ok extra) w = (client.write_message a.writer (gelf_message m extra) w).1

  -- Stream: an error is only logged. The Boolean is false after a panic.
  unfoldable pub stream : Adapter → List Message → W → Bool × W
  unfolding gelf_message
  stream a [] w = (true, w)
  stream a (m ∷ ms) w = elim (extra_fields m.container) [
    | none ↦ (false, w)
    | some extra ↦ stream a ms (send a m (marshal extra) w)
  ]

labelled :
    add_labels ((codes "GELF_app", codes "shop") ∷ (codes "gelf_", codes "x") ∷ []) []
    ≡ (codes "_app", codes "shop") ∷ []
unfolding add_labels text_beq insert
labelled = refl
