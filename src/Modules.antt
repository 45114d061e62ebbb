-- ===== src/Modules.antt =====
-- modules.go and the `init` functions of the packages that it links in: what each registers, by the
-- name that it is looked up by. Of an `init` only what it registers is here; its settings are where
-- they are used. The logstash adapter, which modules.go links in too, is of another repository and is
-- left out.
pub mod Order
use logspout.Prelude.{List, [], ◌∷◌, Text, codes}
use logspout.Router.Extensions.{ExtensionPoint, register}

-- What is registered, by the function or type of the source.
pub data Factory : Type 0 where
  new_raw : Factory
  new_syslog : Factory
  new_gelf : Factory
  new_loki : Factory
  new_multiline : Factory
  raw_tcp : Factory
  raw_udp : Factory
  raw_tls : Factory

pub data Transport : Type 0 where
  tcp_transport : Transport
  udp_transport : Transport
  tls_transport : Transport

pub data Handler : Type 0 where
  log_streamer : Handler
  routes_api : Handler
  health_check : Handler

pub data JobName : Type 0 where
  http_service : JobName
  pump_job : JobName
  route_manager : JobName

pub data Router : Type 0 where
  logs_pump : Router

-- The extension points of the router package.
pub record Registries : Type 0 where
  pub factories : ExtensionPoint Factory
  pub transports : ExtensionPoint Transport
  pub handlers : ExtensionPoint Handler
  pub jobs : ExtensionPoint JobName
  pub routers : ExtensionPoint Router

abbrev pub no_registries : Registries
no_registries = record { factories = []; transports = []; handlers = []; jobs = []; routers = [] }

-- A component has no need of a name of its own: each is registered under one.
abbrev pub unnamed : {C : Type 0} → C → Text
unnamed c = []

abbrev pub init_raw : Registries → Registries
init_raw reg = record reg { factories = (register unnamed new_raw (codes "raw") reg.factories).0 }

abbrev pub init_syslog : Registries → Registries
init_syslog reg = record reg {
  factories = (register unnamed new_syslog (codes "syslog") reg.factories).0;
}

abbrev pub init_gelf : Registries → Registries
init_gelf reg = record reg {
  factories = (register unnamed new_gelf (codes "gelf") reg.factories).0;
}

abbrev pub init_loki : Registries → Registries
init_loki reg = record reg {
  factories = (register unnamed new_loki (codes "loki") reg.factories).0;
}

abbrev pub init_multiline : Registries → Registries
init_multiline reg = record reg {
  factories = (register unnamed new_multiline (codes "multiline") reg.factories).0;
}

abbrev pub init_tcp : Registries → Registries
init_tcp reg = record reg {
  transports = (register unnamed tcp_transport (codes "tcp") reg.transports).0;
  factories = (register unnamed raw_tcp (codes "tcp") reg.factories).0;
}

abbrev pub init_udp : Registries → Registries
init_udp reg = record reg {
  transports = (register unnamed udp_transport (codes "udp") reg.transports).0;
  factories = (register unnamed raw_udp (codes "udp") reg.factories).0;
}

abbrev pub init_tls : Registries → Registries
init_tls reg = record reg {
  transports = (register unnamed tls_transport (codes "tls") reg.transports).0;
  factories = (register unnamed raw_tls (codes "tls") reg.factories).0;
}

abbrev pub init_httpstream : Registries → Registries
init_httpstream reg = record reg {
  handlers = (register unnamed log_streamer (codes "logs") reg.handlers).0;
}

abbrev pub init_routesapi : Registries → Registries
init_routesapi reg = record reg {
  handlers = (register unnamed routes_api (codes "routes") reg.handlers).0;
}

abbrev pub init_healthcheck : Registries → Registries
init_healthcheck reg = record reg {
  handlers = (register unnamed health_check (codes "health") reg.handlers).0;
}

abbrev pub init_router_http : Registries → Registries
init_router_http reg = record reg {
  jobs = (register unnamed http_service (codes "http") reg.jobs).0;
}

abbrev pub init_router_pump : Registries → Registries
init_router_pump reg = record reg {
  routers = (register unnamed logs_pump (codes "pump") reg.routers).0;
  jobs = (register unnamed pump_job (codes "pump") reg.jobs).0;
}

abbrev pub init_router_routes : Registries → Registries
init_router_routes reg = record reg {
  jobs = (register unnamed route_manager (codes "routes") reg.jobs).0;
}

-- The packages with an `init`, the files of the router package apart.
pub data Package : Type 0 where
  raw : Package
  syslog : Package
  gelf : Package
  loki : Package
  multiline : Package
  tcp : Package
  udp : Package
  tls : Package
  httpstream : Package
  routesapi : Package
  healthcheck : Package
  router_http : Package
  router_pump : Package
  router_routes : Package

unfoldable pub init : Package → Registries → Registries
init raw reg = init_raw reg
init syslog reg = init_syslog reg
init gelf reg = init_gelf reg
init loki reg = init_loki reg
init multiline reg = init_multiline reg
init tcp reg = init_tcp reg
init udp reg = init_udp reg
init tls reg = init_tls reg
init httpstream reg = init_httpstream reg
init routesapi reg = init_routesapi reg
init healthcheck reg = init_healthcheck reg
init router_http reg = init_router_http reg
init router_pump reg = init_router_pump reg
init router_routes reg = init_router_routes reg

-- The packages are initialised one after the other.
unfoldable pub init_all : List Package → Registries → Registries
unfolding init
init_all [] reg = reg
init_all (p ∷ ps) reg = init_all ps (init p reg)

-- The packages of modules.go, with the router package that they import, in the order of their paths;
-- the raw adapter is first where a transport imports it.
abbrev pub linked : List Package
linked =
    router_http ∷ router_pump ∷ router_routes ∷ gelf ∷ loki ∷ multiline ∷ raw ∷ syslog ∷ healthcheck
    ∷ httpstream ∷ routesapi ∷ tcp ∷ tls ∷ udp ∷ []
