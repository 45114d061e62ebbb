-- ===== src/Tests/Data.antt =====
-- Containers, messages and routes that the tests share.
use logspout.Prelude.{ℕ, false, true, [], ◌∷◌, none, Text, codes}
use logspout.Prelude.Int.{pos}
use logspout.Router.Message.{Container, Message}
use logspout.Router.Route.{Route}

abbrev pub web : Container
web = record {
  id = codes "8dfafdbc3a40";
  name = codes "/web_db";
  image = codes "sha256:1";
  created = codes "2020-01-01";
  node = none;
  running = true;
  log_driver = codes "json-file";
  tty = false;
  env = [];
  labels = (codes "app", codes "shop") ∷ [];
  config_image = codes "web:1";
  cmd = codes "run" ∷ [];
}

abbrev pub line : Text → ℕ → Message
line text time = record { container = web; source = codes "stdout"; text = text; time = pos time }

abbrev pub plain_route : Route
plain_route = record {
  id = [];
  filter_id = [];
  filter_name = [];
  filter_sources = [];
  filter_labels = [];
  adapter = codes "raw+tcp";
  address = codes "host:1";
  path = [];
  user = none;
  options = [];
  log_adapter = none;
  closed = false;
  closer = none;
  closer_rcv = none;
}
