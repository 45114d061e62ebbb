-- ===== src/Adapters/Syslog.antt =====
-- adapters/syslog/syslog.go: renders messages in the formats of RFC 5424 and RFC 3164 and writes
-- them to a connection, with retries over TCP. A template of `text/template` is a function of the
-- message; `parse` makes one of its text. The network is `Net`, over a state of its own.
pub mod Render
pub mod Names
pub mod Framing
pub mod Retry
pub mod Attempts
pub mod Wire
pub mod Delivery
pub mod Fails
pub mod Bounded
use logspout.Prelude.{
  ℕ, suc, ◌+◌, ◌-◌, ◌^◌, Bool, true, false, List, [], ◌∷◌, ◌++◌, Option, none, some, Text, codes,
  text_key, nat_key, ◌==◌, ◌||◌, if◌then◌else◌, Result, ok, err, ◌>>=◌,
}
use logspout.Prelude.Int.{to_uint, signed64, ℤ, pos, negsuc}
use logspout.Cfg.{Env, get_env_default}
use logspout.Map.{Map, lookup}
use logspout.Text.{trim_right}
use logspout.Text.Number.{Read, atoi}
use logspout.Router.Message.{Message, Template}
use logspout.Transport.{Net, NetError, Dialed, connected, refused}
use logspout.Router.Route.{Route, adapter_transport}

pub data Format : Type 0 where
  rfc5424 rfc3164 : Format

pub data TcpFraming : Type 0 where
  traditional octet_counted : TcpFraming

abbrev pub unknown_format : Text
unknown_format = codes "unknown SYSLOG_FORMAT value: "

unfoldable pub get_format : Env → Result Format
get_format env =
    let s = get_env_default env (codes "SYSLOG_FORMAT") (codes "rfc5424") in
    if s == codes "rfc5424"
    then ok rfc5424
    else if s == codes "rfc3164"
    then ok rfc3164
    else err (unknown_format ++ s)

abbrev pub unknown_framing : Text
unknown_framing = codes "unknown SYSLOG_TCP_FRAMING value: "

unfoldable pub get_tcp_framing : Env → Result TcpFraming
get_tcp_framing env =
    let s = get_env_default env (codes "SYSLOG_TCP_FRAMING") (codes "traditional") in
    if s == codes "traditional"
    then ok traditional
    else if s == codes "octet-counted"
    then ok octet_counted
    else err (unknown_framing ++ s)

abbrev pub default_retry_count : ℕ
default_retry_count = 10

abbrev count_of : Text → ℕ
count_of [] = default_retry_count
count_of (c ∷ s) = to_uint (atoi (c ∷ s)).value

-- The error of `strconv.Atoi` is dropped.
unfoldable pub get_retry_count : Env → ℕ
get_retry_count env = count_of (get_env_default env (codes "RETRY_COUNT") [])

-- getHostname; `content` is what /etc/host_hostname holds, if it can be read
unfoldable pub get_hostname : Env → Option Text → Text
get_hostname env (some (c ∷ s)) = trim_right (λ d. d == 13 || d == 10) (c ∷ s)
get_hostname env _ =
    get_env_default env (codes "SYSLOG_HOSTNAME") (codes "{{.Container.Config.Hostname}}")

pub record FieldTemplates : Type 0 where
  pub priority : Template
  pub timestamp : Template
  pub hostname : Template
  pub tag : Template
  pub pid : Template
  pub structured_data : Template
  pub content : Template

-- route.Options[key]
unfoldable pub option : Route → Text → Text
option r key = elim (lookup key r.options) [ none ↦ [] | some v ↦ v ]

-- The structured data in brackets, or a dash where there is none.
abbrev pub bracketed : Text → Text
bracketed [] = codes "-"
bracketed (c ∷ s) = codes "[" ++ ((c ∷ s) ++ codes "]")

abbrev over : Text → Text → Text
over [] s = s
over (c ∷ o) s = c ∷ o

unfoldable pub structured_data_text : Env → Route → Text
structured_data_text env r = bracketed (
    over (option r (codes "structured_data"))
      (get_env_default env (codes "SYSLOG_STRUCTURED_DATA") []))

module _ (parse : Text → Result Template) (env : Env) (host_hostname : Option Text) where
  unfoldable pub get_field_templates : Route → Result FieldTemplates
  get_field_templates r = do
    priority ← parse (get_env_default env (codes "SYSLOG_PRIORITY") (codes "{{.Priority}}"))
    timestamp ← parse (get_env_default env (codes "SYSLOG_TIMESTAMP") (codes "{{.Timestamp}}"))
    hostname ← parse (get_hostname env host_hostname)
    tag ← parse (
        get_env_default env (codes "SYSLOG_TAG")
          (codes "{{.ContainerName}}" ++ option r (codes "append_tag")))
    pid ← parse (get_env_default env (codes "SYSLOG_PID") (codes "{{.Container.State.Pid}}"))
    structured ← parse (structured_data_text env r)
    content ← parse (get_env_default env (codes "SYSLOG_DATA") (codes "{{.Data}}"))
    ok (record {
      priority = priority;
      timestamp = timestamp;
      hostname = hostname;
      tag = tag;
      pid = pid;
      structured_data = structured;
      content = content;
    })

-- The fields but `tmpl`, `format` and `transport` are those that change or steer a write.
pub record Adapter : Type 0 where
  pub route : Route
  pub conn : ℕ
  pub conn_is_tcp : Bool
  pub format : Format
  pub tmpl : FieldTemplates
  pub tcp_framing : TcpFraming
  pub retry_count : ℕ

module _ {W : Type 0} (parse : Text → Result Template) (env : Env) (host_hostname : Option Text)
    (transports : Text → Option (Net W)) where
  abbrev framing_of : Bool → Result TcpFraming
  framing_of true = get_tcp_framing env
  framing_of false = ok traditional

  abbrev configured : Net W → Route → ℕ → Result Adapter
  configured net r conn = do
    format ← get_format env
    tmpl ← get_field_templates parse env host_hostname r
    framing ← framing_of (net.is_tcp conn)
    ok (record {
      route = r;
      conn = conn;
      conn_is_tcp = net.is_tcp conn;
      format = format;
      tmpl = tmpl;
      tcp_framing = framing;
      retry_count = get_retry_count env;
    })

  abbrev after_dial : Net W → Route → Dialed × W → Result Adapter × W
  after_dial net r (refused e, w) = (err e.text, w)
  after_dial net r (connected c, w) = (configured net r c, w)

  -- NewSyslogAdapter
  unfoldable pub new_syslog_adapter : Route → W → Result Adapter × W
  new_syslog_adapter r w = elim (transports (adapter_transport r (codes "udp"))) [
    | none ↦ (err (codes "bad transport: " ++ r.adapter), w)
    | some net ↦ after_dial net r (net.dial r.address r.options w)
  ]
