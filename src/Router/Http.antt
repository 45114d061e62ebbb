-- ===== src/Router/Http.antt =====
-- router/http.go and healthcheck/healthcheck.go: where the handlers of the registry are served.
use logspout.Prelude.{List, [], ◌∷◌, ◌++◌, Text, codes, ◌≡◌, refl}
use logspout.Cfg.{Env, get_env_default}
use logspout.Text.{join}
use logspout.Router.Extensions.{ExtensionPoint, all, names}

pub record HttpService : Type 0 where
  pub bind_address : Text
  pub port : Text

-- What `init` registers.
unfoldable pub http_service : Env → HttpService
http_service env = record {
  bind_address = get_env_default env (codes "HTTP_BIND_ADDRESS") (codes "0.0.0.0");
  port = get_env_default env (codes "PORT") (get_env_default env (codes "HTTP_PORT") (codes "80"));
}

module _ {H : Type 0} (handlers : ExtensionPoint H) where
  -- Name
  unfoldable pub name : HttpService → Text
  name s = codes "http[" ++ (join (names handlers) (codes ",") ++ (codes "]:" ++ s.port))

  -- The loop of `Setup`: each handler with and without a path below it
  unfoldable pub handled : ExtensionPoint H → List (Text × H)
  handled [] = []
  handled ((n, h) ∷ rest) = (codes "/" ++ n, h) ∷ (codes "/" ++ (n ++ codes "/"), h) ∷ handled rest

  unfoldable pub setup : List (Text × H)
  unfolding handled
  setup = handled (all handlers)

-- The address that `Run` listens at.
unfoldable pub listen_address : HttpService → Text
listen_address s = s.bind_address ++ (codes ":" ++ s.port)

-- HealthCheck answers GET /health.
abbrev pub healthy : Text
healthy = codes "Healthy!\n"

default_address : listen_address (http_service (λ n. [])) ≡ codes "0.0.0.0:80"
unfolding listen_address http_service get_env_default
default_address = refl
