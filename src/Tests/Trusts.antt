-- ===== src/Tests/Trusts.antt =====
-- Runs and witnesses for the settings of TLS.
use logspout.Text.{split}
use logspout.Prelude.{
  ◌≡◌, refl, false, [], ◌∷◌, Text, codes, text_key, ◌==◌, Result, ok, err, if◌then◌else◌, text_beq,
}
use logspout.Cfg.{Env}
use logspout.Transport.Tls.{
  Config, System, create_tls_config, env_ca_certs, env_tls_hardening, hardened_min_version,
  hardened_ciphers, hardened_curve_preferences, system_roots, custom_roots, client_certificates,
  hardening,
}
use logspout.Transport.Tls.Trust.{Trusts, create_tls_config-Trusts}

-- A file has one certificate, its own path, but for `x`, which cannot be read.
abbrev read_path : Text → Result Text
read_path path = if path == codes "x" then err (codes "no such file") else ok path

abbrev sys : System
sys = record {
  read_file = read_path;
  certs_of = λ text. text ∷ [];
  system_cert_pool = ok (codes "system" ∷ []);
  load_key_pair = λ cert key. ok cert;
}

abbrev two_files : Env
two_files name =
    if name == env_ca_certs
    then codes "a,b"
    else if name == env_tls_hardening
    then codes "true"
    else []

abbrev bad_file : Env
bad_file name = if name == env_ca_certs then codes "a,x" else []

abbrev hardened_config : Config
hardened_config = record {
  insecure_skip_verify = false;
  min_version = hardened_min_version;
  cipher_suites = hardened_ciphers;
  curve_preferences = hardened_curve_preferences;
  root_cas = codes "system" ∷ codes "a" ∷ codes "b" ∷ [];
  certificates = [];
}

unreadable : create_tls_config sys bad_file ≡ err (codes "no such file")
unfolding create_tls_config system_roots text_beq custom_roots split
unreadable = refl

create_tls_config-Trusts_example : Trusts sys two_files hardened_config
unfolding create_tls_config system_roots text_beq custom_roots split client_certificates hardening
create_tls_config-Trusts_example = create_tls_config-Trusts sys two_files hardened_config refl
