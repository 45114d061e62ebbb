-- ===== src/Adapters/Multiline/Config.antt =====
-- `NewMultilineAdapter` of adapters/multiline/multiline.go. `compile` is `regexp.Compile`; the
-- result is the route as the call leaves it, and the adapter or an error.
use mathlib.Core.Path.{subst}
use logspout.Prelude.{
  sym, arith, ok_first, Option-cases, Bool-cases, inl, inr, eq_iff, ℕ, suc, ◌/◌, ◌≡◌, refl, Bool,
  true, false, List, [], ◌∷◌, ◌++◌, Option, none, some, Text, codes, text_key, ◌==◌, if◌then◌else◌,
  Result, ok, err, ◌>>=◌, ◌*◌, ◌%◌, ◌^◌,
}
use logspout.Prelude.Int.{ℤ, pos, negsuc, ◌-ℤ◌, to_uint, signed64}
use logspout.Cfg.{Env, get_env_default, or_default}
use logspout.Text.{split_two, to_lower}
use logspout.Text.Number.{atoi, parse_bool}
use logspout.Router.Route.{Route, adapter_type}
use logspout.Router.Manager.{AdapterFactory, bad_adapter}
use logspout.Adapters.Multiline.{Adapter}

abbrev pub enable_of : Text → Result Bool
enable_of [] = ok true
enable_of (c ∷ s) = elim (parse_bool (c ∷ s)) [
  | none ↦ err (
      codes "multiline: invalid value for MULTILINE_ENABLE_DEFAULT (must be true|false): " ++ c ∷ s)
  | some b ↦ ok b
]

abbrev compiled : Text → Option (Text → Bool) → Result (Text → Bool)
compiled pattern none =
    err (codes "multiline: invalid value for MULTILINE_PATTERN (must be regexp): " ++ pattern)
compiled pattern (some test) = ok test

-- matchFirstLine and negateMatch, for a match type in lower case
unfoldable pub match_type : Text → Result (Bool × Bool)
match_type s =
    if s == codes "first"
    then ok (true, false)
    else if s == codes "last"
    then ok (false, false)
    else if s == codes "nonfirst"
    then ok (true, true)
    else if s == codes "nonlast"
    then ok (false, true)
    else err (
        codes
          "multiline: invalid value for MULTILINE_MATCH (must be one of first|last|nonfirst|nonlast): "
        ++ s)

-- time.Duration(ms) * time.Millisecond
abbrev pub milliseconds : ℤ → ℤ
milliseconds ms = signed64 (to_uint ms * 1_000_000 % 2 ^ 64)

abbrev pub flush_of : Text → Result ℤ
flush_of [] = ok (pos 500_000_000)
flush_of (c ∷ s) =
    if (atoi (c ∷ s)).fine
    then ok (milliseconds (atoi (c ∷ s)).value)
    else err (codes "multiline: invalid value for multiline_timeout (must be number): " ++ c ∷ s)

-- d / 2, towards zero
abbrev pub half : ℤ → ℤ
half (pos n) = pos (n / 2)
half (negsuc n) = pos 0 -ℤ pos (suc n / 2)

-- What a variable is set to, or the default.
pub data Given (dfault : Text) : Text → Text → Type 0 where
  not_set : Given dfault [] dfault
  set_to : (c : ℕ) (s : Text) → Given dfault (c ∷ s) (c ∷ s)

pub data Enabled : Text → Bool → Type 0 where
  by_default : Enabled [] true
  parsed : {b : Bool} (c : ℕ) (s : Text) → parse_bool (c ∷ s) ≡ some b → Enabled (c ∷ s) b

-- The names of MULTILINE_MATCH: do first lines match or last ones, and is it those that do not match?
pub data Mode : Text → Bool → Bool → Type 0 where
  first_match : Mode (codes "first") true false
  last_match : Mode (codes "last") false false
  first_no_match : Mode (codes "nonfirst") true true
  last_no_match : Mode (codes "nonlast") false true

-- Half a second, or so many milliseconds, in nanoseconds of 64 bits.
pub data Flushes : Text → ℤ → Type 0 where
  after_half_second : Flushes [] (pos 500_000_000)
  after :
      (c : ℕ) (s : Text)
      → (atoi (c ∷ s)).fine ≡ true
      → Flushes (c ∷ s) (signed64 (to_uint (atoi (c ∷ s)).value * 1_000_000 % 2 ^ 64))

-- The adapter with its sub-adapter, and the time of its checks.
pub record Configured : Type 0 where
  pub adapter : Adapter
  pub sub_adapter : ℕ
  pub check_interval : ℤ

module _ (compile : Text → Option (Text → Bool)) (factories : Text → Option AdapterFactory)
    (env : Env) where
  -- The settings, in the order in which they are read.
  unfoldable pub settings : Result Adapter
  settings = do
    enable ← enable_of (env (codes "MULTILINE_ENABLE_DEFAULT"))
    pattern ←
        compiled (get_env_default env (codes "MULTILINE_PATTERN") (codes "^\\s"))
          (compile (get_env_default env (codes "MULTILINE_PATTERN") (codes "^\\s")))
    modes ← match_type (to_lower (get_env_default env (codes "MULTILINE_MATCH") (codes "nonfirst")))
    flush ← flush_of (env (codes "MULTILINE_FLUSH_AFTER"))
    ok (record {
      enable_by_default = enable;
      pattern = pattern;
      separator = get_env_default env (codes "MULTILINE_SEPARATOR") (codes "\n");
      match_first_line = modes.0;
      negate_match = modes.1;
      flush_after = flush;
      buffers = [];
    })

  -- The settings that the documentation gives the variables.
  pub record Set (a : Adapter) : Type 0 where
    pub enabled : Enabled (env (codes "MULTILINE_ENABLE_DEFAULT")) a.enable_by_default
    pub expression : Text
    pub expression_given : Given (codes "^\\s") (env (codes "MULTILINE_PATTERN")) expression
    pub matches : compile expression ≡ some a.pattern
    pub separated : Given (codes "\n") (env (codes "MULTILINE_SEPARATOR")) a.separator
    pub mode : Text
    pub mode_given : Given (codes "nonfirst") (env (codes "MULTILINE_MATCH")) mode
    pub mode_means : Mode (to_lower mode) a.match_first_line a.negate_match
    pub flushes : Flushes (env (codes "MULTILINE_FLUSH_AFTER")) a.flush_after
    pub empty : a.buffers ≡ []

  -- What the factory of the sub-adapter made of the route.
  abbrev after_factory : Text → Adapter → Route × Result ℕ → Route × Result Configured
  after_factory original a (r, err e) = (r, err e)
  after_factory original a (r, ok sub) = (
    record r { adapter = original },
    ok (record { adapter = a; sub_adapter = sub; check_interval = half a.flush_after }),
  )

  abbrev with_factory : Text → Adapter → Route → Option AdapterFactory → Route × Result Configured
  with_factory original a r none = (r, err (bad_adapter ++ original))
  with_factory original a r (some factory) = after_factory original a (factory r)

  abbrev with_parts : Adapter → Route → List Text → Route × Result Configured
  with_parts a r (_ ∷ sub ∷ []) =
      with_factory r.adapter a (record r { adapter = sub })
        (factories (adapter_type (record r { adapter = sub })))
  with_parts a r _ =
      (r, err (codes "multiline: adapter must have a sub-adapter, eg: multiline+raw+tcp"))

  abbrev with_settings : Route → Result Adapter → Route × Result Configured
  with_settings r (err e) = (r, err e)
  with_settings r (ok a) = with_parts a r (split_two r.adapter b'+')

  unfoldable pub new_multiline_adapter : Route → Route × Result Configured
  new_multiline_adapter r = with_settings r settings

  after_factory-restores :
      (original : Text) (a : Adapter) (x : Route × Result ℕ) (c : Configured)
      → (after_factory original a x).1 ≡ ok c
      → ((after_factory original a x).0.adapter ≡ original) × (c.adapter ≡ a)
  after_factory-restores original a (r, err e) c h = cc
  after_factory-restores original a (r, ok sub) c h = (refl, cc)

  with_factory-restores :
      (original : Text) (a : Adapter) (r : Route) (f : Option AdapterFactory) (c : Configured)
      → (with_factory original a r f).1 ≡ ok c
      → ((with_factory original a r f).0.adapter ≡ original) × (c.adapter ≡ a)
  with_factory-restores original a r none c h = cc
  with_factory-restores original a r (some f) c h = after_factory-restores original a (f r) c h

  with_parts-restores :
      (a : Adapter) (r : Route) (parts : List Text) (c : Configured)
      → (with_parts a r parts).1 ≡ ok c
      → ((with_parts a r parts).0.adapter ≡ r.adapter) × (c.adapter ≡ a)
  with_parts-restores a r [] c h = cc
  with_parts-restores a r (p ∷ []) c h = cc
  with_parts-restores a r (p ∷ sub ∷ []) c h =
      with_factory-restores r.adapter a (record r { adapter = sub })
        (factories (adapter_type (record r { adapter = sub }))) c h
  with_parts-restores a r (p ∷ q ∷ s ∷ ps) c h = cc

  with_settings-restores :
      (r : Route) (s : Result Adapter) (c : Configured)
      → (with_settings r s).1 ≡ ok c
      → ((with_settings r s).0.adapter ≡ r.adapter) × (s ≡ ok c.adapter)
  with_settings-restores r (err e) c h = cc
  with_settings-restores r (ok a) c h =
      let (p, q) = with_parts-restores a r (split_two r.adapter b'+') c h in (p, cc)

  enable_of-Enabled : (s : Text) (b : Bool) → enable_of s ≡ ok b → Enabled s b
  enable_of-Enabled [] b h = subst (Enabled []) (ground (arith, h)) by_default
  enable_of-Enabled (c ∷ s) b h = elim (Option-cases (parse_bool (c ∷ s))) [
    | inl e ↦ absurd (ground (arith, h, e))
    | inr (x, e) ↦ parsed c s (ground (arith, h, e))
  ]

  compiled-ok :
      (p : Text) (o : Option (Text → Bool)) (t : Text → Bool) → compiled p o ≡ ok t → o ≡ some t
  compiled-ok p none t h = cc
  compiled-ok p (some x) t h = cc

  same-Mode :
      (s name : Text) (m m' : Bool × Bool)
      → (s == name) ≡ true
      → ◌≡◌ {A = Result (Bool × Bool)} (ok m) (ok m')
      → Mode name m.0 m.1
      → Mode s m'.0 m'.1
  same-Mode s name m m' e h k =
      let q : m ≡ m' = cc in
      subst (λ x. Mode x m'.0 m'.1) (sym ((eq_iff s name).0 e)) (subst (λ x. Mode name x.0 x.1) q k)

  match_type-Mode : (s : Text) (m : Bool × Bool) → match_type s ≡ ok m → Mode s m.0 m.1
  unfolding match_type
  match_type-Mode s m h = elim (Bool-cases (s == codes "first")) [
    | inl e ↦ same-Mode s (codes "first") (true, false) m e (ground (arith, h, e)) first_match
    | inr e ↦ elim (Bool-cases (s == codes "last")) [
      | inl q ↦ same-Mode s (codes "last") (false, false) m q (ground (arith, h, e, q)) last_match
      | inr q ↦ elim (Bool-cases (s == codes "nonfirst")) [
        | inl k ↦
            same-Mode s (codes "nonfirst") (true, true) m k (ground (arith, h, e, q, k))
              first_no_match
        | inr k ↦ elim (Bool-cases (s == codes "nonlast")) [
          | inl l ↦
              same-Mode s (codes "nonlast") (false, true) m l (ground (arith, h, e, q, k, l))
                last_no_match
          | inr l ↦ absurd (ground (arith, h, e, q, k, l))
        ]
      ]
    ]
  ]

  flush_of-Flushes : (s : Text) (d : ℤ) → flush_of s ≡ ok d → Flushes s d
  flush_of-Flushes [] d h = subst (Flushes []) (ground (arith, h)) after_half_second
  flush_of-Flushes (c ∷ s) d h = elim (Bool-cases (atoi (c ∷ s)).fine) [
    | inl e ↦ subst (Flushes (c ∷ s)) (ground (arith, h, e)) (after c s e)
    | inr e ↦ absurd (ground (arith, h, e))
  ]

  default-Given : (d s : Text) → Given d s (or_default s d)
  default-Given d [] = not_set
  default-Given d (c ∷ s) = set_to c s

  settings-Set : (a : Adapter) → settings ≡ ok a → Set a
  unfolding settings get_env_default
  settings-Set a h =
      let pattern = or_default (env (codes "MULTILINE_PATTERN")) (codes "^\\s") in
      let mode = or_default (env (codes "MULTILINE_MATCH")) (codes "nonfirst") in
      let (e, h₁, e_ok) = ok_first (enable_of (env (codes "MULTILINE_ENABLE_DEFAULT"))) _ h in
      let (t, h₂, t_ok) = ok_first (compiled pattern (compile pattern)) _ h₁ in
      let (m, h₃, m_ok) = ok_first (match_type (to_lower mode)) _ h₂ in
      let (f, h₄, f_ok) = ok_first (flush_of (env (codes "MULTILINE_FLUSH_AFTER"))) _ h₃ in
      let made : Adapter = record {
        enable_by_default = e;
        pattern = t;
        separator = or_default (env (codes "MULTILINE_SEPARATOR")) (codes "\n");
        match_first_line = m.0;
        negate_match = m.1;
        flush_after = f;
        buffers = [];
      } in
      let q : made ≡ a = cc in
      subst Set q (record {
        enabled = enable_of-Enabled (env (codes "MULTILINE_ENABLE_DEFAULT")) e e_ok;
        expression = pattern;
        expression_given = default-Given (codes "^\\s") (env (codes "MULTILINE_PATTERN"));
        matches = compiled-ok pattern (compile pattern) t t_ok;
        separated = default-Given (codes "\n") (env (codes "MULTILINE_SEPARATOR"));
        mode = mode;
        mode_given = default-Given (codes "nonfirst") (env (codes "MULTILINE_MATCH"));
        mode_means = match_type-Mode (to_lower mode) m m_ok;
        flushes = flush_of-Flushes (env (codes "MULTILINE_FLUSH_AFTER")) f f_ok;
        empty = refl;
      })

  -- An adapter that is made has the settings of the environment, and its route names the adapter that
  -- it named before, whatever the factory of the sub-adapter did to the route.
  pub new_multiline_adapter_lem :
      (r : Route) (c : Configured)
      → (new_multiline_adapter r).1 ≡ ok c
      → ((new_multiline_adapter r).0.adapter ≡ r.adapter) × Set c.adapter
  unfolding new_multiline_adapter
  new_multiline_adapter_lem r c h =
      let (p, q) = with_settings-restores r settings c h in (p, settings-Set c.adapter q)
