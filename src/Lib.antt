-- ===== src/Lib.antt =====
-- logspout: a router of the logs of Docker containers, written in Go.
--
-- The program attaches to every container of a host and sends their log lines to the destinations
-- that its routes name. Its parts, and the files that model them:
--
-- * Routes (router/types.go): Router/Message.antt has `Message` and the fields that are read of a
--   `docker.Container`; Router/Route.antt has `Route` with its filters and every method of it.
-- * The route manager (router/routes.go): Router/Manager.antt has `RouteManager`, and `Get`,
--   `GetAll`, `Remove`, `Add`, `Load` and `Run` as functions to the new manager, the error and the
--   effects on the routing goroutines, Router/Manager/Blocking.antt what they wait for, and
--   Router/Manager/Waiting.antt the end of `Run`; Router/Manager/Uri.antt has `AddFromURI` and
--   `Setup`, and Router/Manager/Routers.antt what is passed on to the log routers.
-- * The route store (router/persist.go): Router/Persist.antt has `RouteFileStore` over a file
--   system, and fills the interface `RouteStore` that the manager uses.
-- * The pump (router/pump.go): Router/Pump.antt has the filters on containers, the reader that cuts
--   their output into messages, and `containerPump` with the logstreams it sends to;
--   Router/Pump/Table.antt has `LogsPump`, with `pumpLogs`, `rename` and a call of `Route` over a
--   list of what other goroutines do and of what the route is told; Router/Pump/Events.antt has
--   `Run`, `update` and the goroutine that follows a container's logs.
-- * The multiline adapter (adapters/multiline/multiline.go): Adapters/Multiline.antt has its
--   `Stream` as a function of the messages and timers that arrive,
--   Adapters/Multiline/Config.antt its constructor, and Adapters/Multiline/Beside.antt the
--   sub-adapter that runs beside it.
-- * The syslog adapter (adapters/syslog/syslog.go): Adapters/Syslog.antt has `NewSyslogAdapter`
--   and what it reads of the environment, Adapters/Syslog/Render.antt the formats,
--   Adapters/Syslog/Names.antt what a template may ask of a message,
--   Adapters/Syslog/Framing.antt the octet counts, and Adapters/Syslog/Retry.antt `Stream` with
--   its retries, over the state of a network.
-- * The raw adapter (adapters/raw/raw.go): Adapters/Raw.antt, with the adapters that
--   transports/tcp/tcp.go, transports/udp/udp.go and transports/tls/tls.go make of it.
-- * The GELF and Loki adapters (adapters/gelf/gelf.go, adapters/loki/loki.go): Adapters/Gelf.antt and
--   Adapters/Loki.antt, over their clients.
-- * The transports (transports/): Transport.antt has the interface of a network that the adapters
--   write to, Transport/Sockets.antt the dials of transports/tcp/tcp.go and transports/udp/udp.go, and
--   Transport/Tls.antt the configuration of transports/tls/tls.go.
-- * The logs over HTTP (httpstream/httpstream.go): HttpStream.antt has the handler, the colors and
--   the streams.
-- * The routes over HTTP (routesapi/routesapi.go): RoutesApi.antt has the handlers, over the manager.
-- * The registries (router/extpoints.go): Router/Extensions.antt has one registry and what is done
--   over all of them, Router/Extensions/Typed.antt the wrappers at the type of each interface.
-- * The server (router/http.go, healthcheck/healthcheck.go): Router/Http.antt has what is served.
-- * The start (logspout.go): Main.antt has what is printed and the setup of the jobs, and
--   Main/Failure.antt a start with a job that cannot be set up.
-- * The packages (modules.go and the `init` functions): Modules.antt has what each registers. The
--   logstash adapter that modules.go links in is of another repository, and is left out.
-- * Configuration (cfg/cfg.go): Cfg.antt.
--
-- Flow.antt follows a line from a container over the pump and a route to the raw adapter's network,
-- Flow/Frames.antt to the reader behind the syslog adapter's, and Flow/Entries.antt over the multiline
-- adapter. Router/Persist/Restart.antt joins the manager and the store over a restart of the
-- program.
--
-- Go's own library is in Text.antt and Text/SplitN.antt (`strings`), Text/Number.antt (`strconv`),
-- Text/Runes.antt (`unicode/utf8` and the precision of `fmt`), Glob.antt (`path.Match`) and Map.antt (maps). Texts
-- are lists of bytes. Letter case and white space are those of ASCII. The order in which Go ranges
-- over a map is left open by the language; here it is the order of an association list.
-- `path.Match` runs on as much fuel as the pattern has bytes, since each round takes one byte at
-- least; the reader of lines has as much as its input has bytes, for the same reason.
-- Glob/Reference.antt has a matcher to compare `path.Match` with, for patterns of stars and plain
-- bytes.
--
-- Parameters: regular expressions (a test of texts), the parsers of `net/url`, `os.ExpandEnv`, the
-- adapter factories, the network, the clients of Graylog and Loki, reflection, the file
-- system's errors and listings, JSON, `text/template`, and the ids made of the time.
-- A write to the network that fails may leave beginnings of its text there, and one that succeeds may
-- still be lost behind the network.
-- The retries of the syslog adapter run to the limit on them; `retry_loop` in
-- Adapters/Syslog/Retry.antt has them with the wrapping counter of the source.
-- Not modelled: that the logstreams of a pump share one message object, which the multiline adapter
-- changes, the waits of a pump's sends for their receivers, the Docker client, the serving of HTTP,
-- the handshake of TLS, sockets, and the alignment of the table that `main` prints.
pub mod Prelude
pub mod Map
pub mod Text
pub mod Glob
pub mod Cfg
pub mod Router
pub mod Transport
pub mod Adapters
pub mod HttpStream
pub mod RoutesApi
pub mod Flow
pub mod Main
pub mod Modules
pub mod Tests
