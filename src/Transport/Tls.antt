-- ===== src/Transport/Tls.antt =====
-- transports/tls/tls.go: the settings of TLS that the environment asks for, and the guard of `Dial`.
-- Files, the parser of PEM and the system's store of certificates are parameters; a pool is a list
-- of certificates, in which one may stand twice.
pub mod Trust
use logspout.Prelude.{
  ℕ, Bool, true, false, not, ◌&&◌, List, [], ◌∷◌, ◌++◌, Option, none, some, Text, codes, text_key,
  ◌==◌, Result, ok, err, ◌>>=◌, if◌then◌else◌,
}
use logspout.Cfg.{Env}
use logspout.Map.{Map}
use logspout.Text.{split}
use logspout.Router.Route.{is_nil}
use logspout.Transport.{Net, Dialed, refused, NetError}

-- The parts of `tls.Config` that are set. Versions, cipher suites and curves have the numbers of
-- crypto/tls; 0 and the empty lists stand for its defaults.
pub record Config : Type 0 where
  pub insecure_skip_verify : Bool
  pub min_version : ℕ
  pub cipher_suites : List ℕ
  pub curve_preferences : List ℕ
  pub root_cas : List Text
  pub certificates : List Text

-- &tls.Config{}
abbrev pub empty_config : Config
empty_config = record {
  insecure_skip_verify = false;
  min_version = 0;
  cipher_suites = [];
  curve_preferences = [];
  root_cas = [];
  certificates = [];
}

-- tls.VersionTLS12
abbrev pub hardened_min_version : ℕ
hardened_min_version = 0x0303

-- ECDHE with AES-256-GCM, AES-128-GCM and ChaCha20-Poly1305, for ECDSA and for RSA each
abbrev pub hardened_ciphers : List ℕ
hardened_ciphers = 0xc02c ∷ 0xc030 ∷ 0xc02b ∷ 0xc02f ∷ 0xcca9 ∷ 0xcca8 ∷ []

-- X25519, P-521, P-384, P-256
abbrev pub hardened_curve_preferences : List ℕ
hardened_curve_preferences = 29 ∷ 25 ∷ 24 ∷ 23 ∷ []

-- What the system provides: a file's contents, the certificates of a PEM text (none if there is no
-- certificate in it), its own pool, and a certificate with its key.
pub record System : Type 0 where
  pub read_file : Text → Result Text
  pub certs_of : Text → List Text
  pub system_cert_pool : Result (List Text)
  pub load_key_pair : Text → Text → Result Text

abbrev pub env_disable_system_roots : Text
env_disable_system_roots = codes "LOGSPOUT_TLS_DISABLE_SYSTEM_ROOTS"

abbrev pub env_ca_certs : Text
env_ca_certs = codes "LOGSPOUT_TLS_CA_CERTS"

abbrev pub env_client_cert : Text
env_client_cert = codes "LOGSPOUT_TLS_CLIENT_CERT"

abbrev pub env_client_key : Text
env_client_key = codes "LOGSPOUT_TLS_CLIENT_KEY"

abbrev pub env_tls_hardening : Text
env_tls_hardening = codes "LOGSPOUT_TLS_HARDENING"

module _ (sys : System) (env : Env) where
  unfoldable pub hardening : Config → Config
  hardening c =
      if env env_tls_hardening == codes "true"
      then record c {
        insecure_skip_verify = false;
        min_version = hardened_min_version;
        cipher_suites = hardened_ciphers;
        curve_preferences = hardened_curve_preferences;
      }
      else c

  unfoldable pub system_roots : Result (List Text)
  system_roots =
      if env env_disable_system_roots == codes "true" then ok [] else sys.system_cert_pool

  -- AppendCertsFromPEM, whose Boolean says that it found a certificate
  abbrev pub append_certs : Text → List Text → List Text → Result (List Text)
  append_certs path pool [] = err (codes "failed to load CA certificate(s): " ++ path)
  append_certs path pool (c ∷ cs) = ok (pool ++ c ∷ cs)

  -- The loop over the paths of certificates.
  unfoldable pub load_certs : List Text → List Text → Result (List Text)
  load_certs [] pool = ok pool
  load_certs (path ∷ paths) pool = do
    bytes ← sys.read_file path
    pool' ← append_certs path pool (sys.certs_of bytes)
    load_certs paths pool'

  unfoldable pub custom_roots : List Text → Result (List Text)
  unfolding load_certs
  custom_roots pool =
      if is_nil (env env_ca_certs) then ok pool else load_certs (split (env env_ca_certs) b',') pool

  unfoldable pub client_certificates : Result (List Text)
  client_certificates =
      if not (is_nil (env env_client_cert)) && not (is_nil (env env_client_key))
      then (do cert ← sys.load_key_pair (env env_client_cert) (env env_client_key); ok (cert ∷ []))
      else ok []

  unfoldable pub create_tls_config : Result Config
  create_tls_config = do
    system ← system_roots
    roots ← custom_roots system
    certificates ← client_certificates
    ok (record (hardening empty_config) { root_cas = roots; certificates = certificates })

-- Dial: `net` dials with the settings, unless no authority is trusted. The text of the refusal is
-- what the error says before the address.
unfoldable pub dial : {W : Type 0} → Net W → Config → Text → Map Text Text → W → Dialed × W
dial net config addr options w =
    if is_nil config.root_cas
    then (
      refused (record {
        op_error = false;
        temporary = false;
        conn_reset = false;
        timeout = false;
        text =
            codes "FATAL: TLS CA trust store is empty! Can not trust any TLS endpoints: tls://"
            ++ addr;
      }),
      w,
    )
    else net.dial addr options w
