-- ===== src/HttpStream.antt =====
-- httpstream/httpstream.go: the logs streamed over HTTP. A request is what the handler reads of it;
-- `marshal` encodes a message as JSON. A write's error is not looked at, except by the websocket.
pub mod Colors
pub mod Requests
pub mod Shown
use logspout.Prelude.{
  ℕ, ◌+◌, ◌-◌, ◌%◌, Bool, true, false, not, ◌&&◌, ◌||◌, List, [], ◌∷◌, ◌++◌, Option, none, some,
  Text, codes, text_key, ◌==◌, length, take, replicate, ltb, if◌then◌else◌,
}
use logspout.Map.{Map, lookup, insert}
use logspout.Text.Number.{itoa}
use logspout.Text.Runes.{rune_count}
use logspout.Router.Message.{Message}
use logspout.Router.Route.{Route, is_nil, multi_container, override_closer}

-- `mux.Vars`, the headers and the query.
pub record Request : Type 0 where
  pub predicate : Text
  pub value : Text
  pub upgrade : Text
  pub accept : Text
  pub query : Text → Text

abbrev pub max_route_id_len : ℕ
max_route_id_len = 12

-- new(router.Route)
abbrev pub new_route : Route
new_route = record {
  id = [];
  filter_id = [];
  filter_name = [];
  filter_sources = [];
  filter_labels = [];
  adapter = [];
  address = [];
  path = [];
  user = none;
  options = [];
  log_adapter = none;
  closed = false;
  closer = none;
  closer_rcv = none;
}

-- The cut tests the length of the route's id.
abbrev pub cut_filter : Route → Route
cut_filter r =
    if ltb max_route_id_len (length r.id)
    then record r { filter_id = take max_route_id_len r.filter_id }
    else r

-- The route that a request asks for.
unfoldable pub requested : Request → Route
requested req =
    if is_nil req.value
    then new_route
    else if req.predicate == codes "id"
    then cut_filter (record new_route { filter_id = req.value })
    else if req.predicate == codes "name"
    then record new_route { filter_name = req.value }
    else new_route

-- What the handler does: it answers 404, or it routes and streams. The routes have the channel that
-- closes them, the websocket's own or the one of the request's context.
pub data Reply : Type 0 where
  not_found : Reply
  web_socket : Route → Reply
  http : Route → Bool → Reply

module _ (routing_from : Text → Bool) (closer_bi done : ℕ) where
  unfoldable pub logs_handler : Request → Reply
  unfolding requested
  logs_handler req =
      let r = requested req in
      if not (is_nil r.filter_id) && not (routing_from r.filter_id)
      then not_found
      else if req.upgrade == codes "websocket"
      then web_socket (override_closer r (some closer_bi))
      else http (override_closer r (some done)) (multi_container r)

-- A `Colorizer` numbers its keys.
abbrev pub Colorizer : Type 0
Colorizer = Map Text ℕ

-- The escape code of a number.
unfoldable pub color_of : ℕ → Text
color_of i =
    27 ∷ b'[' ∷ (if ltb 6 (i % 14) then [] else codes "1;")
    ++ (codes "3" ++ (itoa (7 - i % 7) ++ codes "m"))

-- Get, with the colorizer that it leaves
unfoldable pub get : Colorizer → Text → Text × Colorizer
get c key = elim (lookup key c) [
  | some i ↦ (color_of i, c)
  | none ↦ (color_of (length c), insert key (length c) c)
]

-- The settings of `httpStreamer`.
pub record Settings : Type 0 where
  pub usecolor : Bool
  pub usejson : Bool
  pub multi : Bool
  pub sources : Text

unfoldable pub settings : Request → Bool → Settings
settings req multi = record {
  usecolor = not (req.query (codes "colors") == codes "off");
  usejson = req.accept == codes "application/json";
  multi = multi;
  sources = req.query (codes "sources");
}

-- The content type that it announces.
unfoldable pub content_type : Settings → Text
content_type set = if set.usejson then codes "application/json" else codes "text/plain"

-- The variables of its loop.
pub record Columns : Type 0 where
  pub name_width : ℕ
  pub colors : Colorizer

unfoldable pub start : Columns
start = record { name_width = 16; colors = [] }

-- fmt's `%ns`
unfoldable pub pad : ℕ → Text → Text
pad n s = replicate (n - rune_count s) 32 ++ s

abbrev pub reset_color : Text
reset_color = 27 ∷ codes "[0m\n"

-- A line with its container's name.
abbrev pub named_line : Settings → Columns → Text → Text → Text × Columns
named_line set s name text =
    let width = if ltb s.name_width (length name) then length name else s.name_width in
    if set.usecolor
    then (
      (get s.colors name).0 ++ (pad width name ++ (codes "|" ++ (text ++ reset_color))),
      record { name_width = width; colors = (get s.colors name).1 },
    )
    else (pad width name ++ (codes "|" ++ (text ++ codes "\n")), record s { name_width = width })

-- Is the message of a source that the request does not ask for? `wanted` is empty for any source.
abbrev pub passed_over : Text → Message → Bool
passed_over wanted m = not (is_nil wanted) && not (m.source == wanted)

module _ (marshal : Message → Text) where
  -- What is written for a message; `none` is the panic of a slice out of range.
  abbrev pub of_name : Settings → Columns → Text → Text → Option (Text × Columns)
  of_name set s text [] = none
  of_name set s text (c ∷ name) = some (named_line set s name text)

  unfoldable pub written : Settings → Columns → Message → Option (Text × Columns)
  written set s m =
      if set.usejson
      then some (marshal m ++ codes "\n", s)
      else if set.multi
      then of_name set s m.text m.container.name
      else some (m.text ++ codes "\n", s)

  -- The loop of `httpStreamer`: the writes, and whether it reached the end of the logstream.
  unfoldable pub stream_all : Settings → Columns → List Message → List Text × Bool
  stream_all set s [] = ([], true)
  stream_all set s (m ∷ ms) =
      let skipped = stream_all set s ms in
      if passed_over set.sources m then skipped else elim (written set s m) [
        | none ↦ ([], false)
        | some (t, s') ↦ let (ts, fine) = stream_all set s' ms in (t ∷ ts, fine)
      ]

  -- httpStreamer
  unfoldable pub http_streamer : Request → Bool → List Message → List Text × Bool
  unfolding settings start stream_all
  http_streamer req multi ms = stream_all (settings req multi) start ms

  -- websocketStreamer over a connection's state: the Boolean says that a write failed, and that the
  -- closer was told.
  module _ {C : Type 0} (write : Text → C → Bool × C) where
    unfoldable pub websocket_streamer : Request → List Message → C → Bool × C
    websocket_streamer req [] conn = (false, conn)
    websocket_streamer req (m ∷ ms) conn =
        let skipped = websocket_streamer req ms conn in
        if passed_over (req.query (codes "source")) m
        then skipped
        else (let (fine, conn') = write (marshal m ++ codes "\n") conn in
            elim fine [ true ↦ websocket_streamer req ms conn' | false ↦ (true, conn') ])
