-- ===== src/Transport/Tls/Trust.antt =====
-- What a connection over TLS trusts, when there is a configuration at all.
use logspout.Prelude.{
  ◌≢◌, ne→neq, ◌≡◌, refl, ap, ◌∙◌, false, List, [], ◌∷◌, ◌++◌, append_assoc, append-nil, Text,
  codes, text_key, eq_iff, Result, ok, if◌then◌else◌, arith, ok_first,
}
use logspout.Cfg.{Env}
use logspout.Text.{split}
use logspout.Router.Route.{is_nil}
use logspout.Transport.Tls.{
  Config, System, empty_config, env_disable_system_roots, env_ca_certs, env_tls_hardening,
  hardened_min_version, hardened_ciphers, hardened_curve_preferences, hardening, system_roots,
  append_certs, load_certs, custom_roots, client_certificates, create_tls_config,
}

-- `Loaded sys paths certs`: every file of `paths` can be read and has a certificate, and `certs` are
-- those of all of them, in order.
pub data Loaded (sys : System) : List Text → List Text → Type 0 where
  no_file : Loaded sys [] []
  file :
      {paths certs : List Text} (path bytes c : Text) (cs : List Text)
      → sys.read_file path ≡ ok bytes
      → sys.certs_of bytes ≡ c ∷ cs
      → Loaded sys paths certs
      → Loaded sys (path ∷ paths) ((c ∷ cs) ++ certs)

-- The files that the environment names.
abbrev pub listed : Text → List Text
listed [] = []
listed (c ∷ s) = split (c ∷ s) b','

module _ (sys : System) (env : Env) where
  append_certs_ok :
      (path : Text) (pool cs pool' : List Text)
      → append_certs sys env path pool cs ≡ ok pool'
      → (d : Text) × (ds : List Text) × (cs ≡ d ∷ ds) × (pool' ≡ pool ++ d ∷ ds)
  append_certs_ok path pool [] pool' h = cc
  append_certs_ok path pool (d ∷ ds) pool' h = (d, ds, refl, cc)

  load_certs-Loaded :
      (paths pool pool' : List Text)
      → load_certs sys env paths pool ≡ ok pool'
      → (certs : List Text) × Loaded sys paths certs × (pool' ≡ pool ++ certs)
  unfolding load_certs
  load_certs-Loaded [] pool pool' h = ([], no_file, ground (arith, append-nil pool))
  load_certs-Loaded (path ∷ paths) pool pool' h =
      let (bytes, h₁, r) = ok_first (sys.read_file path) _ h in
      let (pool₁, h₂, a) = ok_first (append_certs sys env path pool (sys.certs_of bytes)) _ h₁ in
      let (d, ds, q, e) = append_certs_ok path pool (sys.certs_of bytes) pool₁ a in
      let (certs, l, t) = load_certs-Loaded paths pool₁ pool' h₂ in
      (
        (d ∷ ds) ++ certs,
        file path bytes d ds r q l,
        t ∙ ap (λ x. x ++ certs) e ∙ append_assoc pool (d ∷ ds) certs,
      )

  custom_roots-Loaded :
      (text : Text) (pool pool' : List Text)
      → (if is_nil text then ok pool else load_certs sys env (split text b',') pool) ≡ ok pool'
      → (certs : List Text) × Loaded sys (listed text) certs × (pool' ≡ pool ++ certs)
  custom_roots-Loaded [] pool pool' h = ([], no_file, ground (arith, append-nil pool))
  custom_roots-Loaded (c ∷ s) pool pool' h = load_certs-Loaded (split (c ∷ s) b',') pool pool' h

  -- The system's authorities, and none where they are disabled.
  abbrev pub FromSystem : List Text → Type 0
  FromSystem system =
      ((env (codes "LOGSPOUT_TLS_DISABLE_SYSTEM_ROOTS") ≡ codes "true") → system ≡ [])
      × ((env (codes "LOGSPOUT_TLS_DISABLE_SYSTEM_ROOTS") ≢ codes "true")
          → sys.system_cert_pool ≡ ok system)

  system_roots-disabled :
      (system : List Text) → system_roots sys env ≡ ok system → FromSystem system
  unfolding system_roots
  system_roots-disabled system h = (
    λ e. ground (arith, h, (eq_iff (env env_disable_system_roots) (codes "true")).1 e),
    λ n. ground (arith, h, ne→neq (env env_disable_system_roots) (codes "true") n),
  )

  -- What holds of a configuration that is made.
  pub record Trusts (config : Config) : Type 0 where
    pub system : List Text
    pub custom : List Text
    pub from_system : FromSystem system
    pub from_files : Loaded sys (listed (env env_ca_certs)) custom
    pub roots : config.root_cas ≡ system ++ custom
    pub verifies : config.insecure_skip_verify ≡ false
    pub hardened :
        env env_tls_hardening ≡ codes "true"
        → (config.min_version ≡ hardened_min_version)
          × (config.cipher_suites ≡ hardened_ciphers)
          × (config.curve_preferences ≡ hardened_curve_preferences)

  hardening_verifies : (hardening sys env empty_config).insecure_skip_verify ≡ false
  unfolding hardening
  hardening_verifies = ground arith

  hardening_hardens :
      env env_tls_hardening ≡ codes "true"
      → ((hardening sys env empty_config).min_version ≡ hardened_min_version)
        × ((hardening sys env empty_config).cipher_suites ≡ hardened_ciphers)
        × ((hardening sys env empty_config).curve_preferences ≡ hardened_curve_preferences)
  unfolding hardening
  hardening_hardens h = rw ((eq_iff (env env_tls_hardening) (codes "true")).1 h) (refl, refl, refl)

  abbrev finished : List Text → List Text → Config
  finished roots certificates = record (hardening sys env empty_config) {
    root_cas = roots;
    certificates = certificates;
  }

  finished_eq :
      (roots certificates : List Text) (config : Config)
      → ◌≡◌ {A = Result Config} (ok (finished roots certificates)) (ok config)
      → config ≡ finished roots certificates
  finished_eq roots certificates config h = cc

  -- A configuration that is made verifies servers. It trusts the system's authorities, unless they are
  -- disabled, and those of every listed file, and no other: a file that cannot be read, or that has no
  -- certificate in it, leaves no configuration. If hardening is asked for, the versions, the cipher
  -- suites and the curves are the hardened ones.
  pub create_tls_config-Trusts :
      (config : Config) → create_tls_config sys env ≡ ok config → Trusts config
  unfolding create_tls_config custom_roots
  create_tls_config-Trusts config h =
      let (system, h₁, s) = ok_first (system_roots sys env) _ h in
      let (roots, h₂, c) = ok_first (custom_roots sys env system) _ h₁ in
      let (certificates, h₃, k) = ok_first (client_certificates sys env) _ h₂ in
      let (custom, l, e) = custom_roots-Loaded (env env_ca_certs) system roots c in
      let q = finished_eq roots certificates config h₃ in
      record {
        system = system;
        custom = custom;
        from_system = system_roots-disabled system s;
        from_files = l;
        roots = ap (λ d. d.root_cas) q ∙ e;
        verifies = ap (λ d. d.insecure_skip_verify) q ∙ hardening_verifies;
        hardened = λ t. (
          ap (λ d. d.min_version) q ∙ (hardening_hardens t).0,
          ap (λ d. d.cipher_suites) q ∙ (hardening_hardens t).1,
          ap (λ d. d.curve_preferences) q ∙ (hardening_hardens t).2,
        );
      }
