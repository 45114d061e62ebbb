-- ===== src/Cfg.antt =====
-- cfg/cfg.go. The environment is what `os.Getenv` returns: the empty text for an unset name.
use logspout.Prelude.{Text, [], ◌∷◌}

abbrev pub Env : Type 0
Env = Text → Text

-- A value, or the default where it is empty.
abbrev pub or_default : Text → Text → Text
or_default [] dfault = dfault
or_default (c ∷ s) dfault = c ∷ s

unfoldable pub get_env_default : Env → Text → Text → Text
get_env_default env name dfault = or_default (env name) dfault
