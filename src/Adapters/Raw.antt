-- ===== src/Adapters/Raw.antt =====
-- adapters/raw/raw.go: messages rendered by one template and written to a connection; and the
-- adapters that transports/ makes of it for a transport of their own. `parse` makes a template of
-- its text, with the function `toJSON`.
pub mod Delivery
use logspout.Prelude.{
  ℕ, Bool, true, false, List, [], ◌∷◌, ◌++◌, Option, none, some, Text, codes, Result, ok, err,
  ◌>>=◌, if◌then◌else◌,
}
use logspout.Cfg.{Env, get_env_default}
use logspout.Router.Message.{Message, Template}
use logspout.Router.Route.{Route, adapter_transport}
use logspout.Transport.{Net, NetError, Dialed, connected, refused}

pub record Adapter : Type 0 where
  pub conn : ℕ
  pub route : Route
  pub tmpl : Template

module _ {W : Type 0} (parse : Text → Result Template) (env : Env)
    (transports : Text → Option (Net W)) where
  -- The template: RAW_FORMAT, or the data with a line feed.
  abbrev raw_template : Result Template
  raw_template = parse (get_env_default env (codes "RAW_FORMAT") (codes "{{.Data}}\n"))

  abbrev with_template : Route → ℕ → Result Template → Result Adapter
  with_template r c (err e) = err e
  with_template r c (ok tmpl) = ok (record { conn = c; route = r; tmpl = tmpl })

  abbrev after_dial : Route → Dialed × W → Result Adapter × W
  after_dial r (refused e, w) = (err e.text, w)
  after_dial r (connected c, w) = (with_template r c raw_template, w)

  -- NewRawAdapter
  unfoldable pub new_raw_adapter : Route → W → Result Adapter × W
  new_raw_adapter r w = elim (transports (adapter_transport r (codes "udp"))) [
    | none ↦ (err (codes "bad transport: " ++ r.adapter), w)
    | some net ↦ after_dial r (net.dial r.address r.options w)
  ]

  abbrev renamed : Route → Text → Route
  renamed r name = record r { adapter = name }

  -- rawTCPAdapter, rawUDPAdapter and rawTLSAdapter leave the route with the name of the raw adapter.
  unfoldable pub raw_tcp_adapter : Route → W → Route × Result Adapter × W
  unfolding new_raw_adapter
  raw_tcp_adapter r w =
      let (a, w') = new_raw_adapter (renamed r (codes "raw+tcp")) w in
      (renamed r (codes "raw+tcp"), a, w')

  unfoldable pub raw_udp_adapter : Route → W → Route × Result Adapter × W
  unfolding new_raw_adapter
  raw_udp_adapter r w =
      let (a, w') = new_raw_adapter (renamed r (codes "raw+udp")) w in
      (renamed r (codes "raw+udp"), a, w')

  unfoldable pub raw_tls_adapter : Route → W → Route × Result Adapter × W
  unfolding new_raw_adapter
  raw_tls_adapter r w =
      let (a, w') = new_raw_adapter (renamed r (codes "raw+tls")) w in
      (renamed r (codes "raw+tls"), a, w')

-- How `Stream` ends: the channel is closed, a template fails, or a write fails.
pub data End : Type 0 where
  closed : End
  unrendered : Text → End
  unwritten : NetError → End

module _ {W : Type 0} (net : Net W) (a : Adapter) where
  -- What follows a write, given the rest of the stream.
  abbrev pub after_write : (W → End × W) → Option NetError × W → End × W
  after_write more (none, w) = more w
  after_write more (some e, w) = if net.is_udp a.conn then more w else (unwritten e, w)

  abbrev pub after_render : (W → End × W) → W → Result Text → End × W
  after_render more w (err e) = (unrendered e, w)
  after_render more w (ok buf) = after_write more (net.write a.conn buf w)

  -- Stream, over the messages that come before the channel is closed
  unfoldable pub stream : List Message → W → End × W
  stream [] w = (closed, w)
  stream (m ∷ ms) w = after_render (stream ms) w (a.tmpl m)
