-- ===== src/Router/Pump.antt =====
-- router/pump.go: which containers are read, how their output is cut into messages, and which
-- logstreams a message is sent to. Locks and goroutines are not modelled.
pub mod Ignore
pub mod Lines
pub mod Send
pub mod Table
pub mod Events
pub mod Started
pub mod Sound
pub mod Leave
use logspout.Prelude.{
  ℕ, zero, suc, ◌+◌, Bool, true, false, not, ◌&&◌, ◌||◌, List, [], ◌∷◌, Option, none, some, Text,
  codes, text_key, nat_key, ◌==◌, if◌then◌else◌, any, length, take, ltb, ◌++◌, Result, ok, err,
}
use logspout.Prelude.Int.{ℤ}
use logspout.Cfg.{Env, get_env_default}
use logspout.Map.{Map, lookup, insert, delete, has}
use logspout.Text.{split, split_two, trim_suffix, to_lower, equal_fold}
use logspout.Router.Message.{Container, Message}
use logspout.Router.Route.{Route, is_nil, match_message}

-- normalName; `none` is the panic of a slice out of range
unfoldable pub normal_name : Text → Option Text
normal_name [] = none
normal_name (c ∷ name) = some name

unfoldable pub normal_id : Text → Text
normal_id id = if ltb 12 (length id) then take 12 id else id

unfoldable pub log_driver_supported : Container → Bool
log_driver_supported c =
    c.log_driver == codes "json-file"
    || c.log_driver == codes "journald"
    || c.log_driver == codes "db"

-- The test of the loop over a container's environment.
unfoldable pub says_ignore : Text → Bool
says_ignore kv = elim (split_two kv b'=') [
  | k ∷ v ∷ _ ↦ k == codes "LOGSPOUT" && equal_fold v (codes "ignore")
  | _ ↦ false
]

-- The test of the loop over the labels that exclude.
unfoldable pub has_excluded : Map Text Text → Text → Text → Bool
has_excluded labels label value = elim (lookup label labels) [
  | none ↦ false
  | some v ↦ not (is_nil label) && equal_fold v (to_lower value)
]

abbrev pub label_and_value : Text → Text → List Text → Text × Text
label_and_value label value (k ∷ v ∷ []) = (k, v)
label_and_value label value _ = (label, value)

-- The loop, with the variables `excludeLabel` and `excludeValue`.
unfoldable pub excluded : Map Text Text → Text → Text → List Text → Bool
excluded labels label value [] = false
excluded labels label value (part ∷ parts) =
    let (label', value') = label_and_value label value (split part b':') in
    let later = excluded labels label' value' parts in
    if has_excluded labels label' value' then true else later

unfoldable pub exclude_labels : Env → Text
exclude_labels env =
    let s = get_env_default env (codes "EXCLUDE_LABELS") [] in
    if is_nil s then get_env_default env (codes "EXCLUDE_LABEL") [] else s

unfoldable pub ignore_container : Env → Container → Bool
ignore_container env c =
    if any says_ignore c.env
    then true
    else excluded c.labels (exclude_labels env) (codes "true") (split (exclude_labels env) b';')

-- allowTTY, which `setAllowTTY` reads
unfoldable pub allow_tty : Env → Bool
allow_tty env = get_env_default env (codes "ALLOW_TTY") [] == codes "true"

unfoldable pub ignore_container_tty : Env → Container → Bool
ignore_container_tty env c = c.tty && not (allow_tty env)

unfoldable pub backlog : Env → Bool
backlog env = env (codes "BACKLOG") == codes "true"

-- assert: `log.Fatal` ends the program with this text
abbrev pub asserted : {A : Type 0} → Text → Result A → Result A
asserted context (err e) = err (context ++ (codes ": " ++ e))
asserted context (ok x) = ok x

-- getInactivityTimeoutFromEnv, where `parse` is `time.ParseDuration`
abbrev pub inactivity_timeout : (Text → Result ℤ) → Env → Result ℤ
inactivity_timeout parse env =
    asserted
      (codes "Couldn't parse env var INACTIVITY_TIMEOUT. See "
        ++ codes "https://golang.org/pkg/time/#ParseDuration for valid format.")
      (parse (get_env_default env (codes "INACTIVITY_TIMEOUT") (codes "0")))

-- The guards of `pumpLogs`, in its order: is the container left out?
unfoldable pub left_out : Env → Container → Bool
left_out env c =
    if ignore_container_tty env c
    then true
    else if ignore_container env c
    then true
    else not (log_driver_supported c)

-- ReadString('\n'): the line with its end, and what follows; `none` at the end of the input
unfoldable pub read_string : Text → Option (Text × Text)
read_string [] = none
read_string (c ∷ s) =
    let more = read_string s in
    if c == 10
    then some (c ∷ [], s)
    else elim more [ none ↦ none | some (line, rest) ↦ some (c ∷ line, rest) ]

-- The loop of the function `pump` over what the container wrote to `source`. `clock` has the time
-- of each line; the fuel counts lines.
unfoldable pub read_lines : Container → Text → (ℕ → ℤ) → ℕ → ℕ → Text → List Message
read_lines c source clock zero i s = []
read_lines c source clock (suc fuel) i s = elim (read_string s) [
  | none ↦ []
  | some (line, rest) ↦
      (record { container = c; source = source; text = trim_suffix line 10; time = clock i })
      ∷ read_lines c source clock fuel (suc i) rest
]

-- Each line takes a byte at least.
unfoldable pub pump_input : Container → Text → (ℕ → ℤ) → Text → List Message
pump_input c source clock s = read_lines c source clock (length s) 0 s

-- A logstream is known by a number.
pub record ContainerPump : Type 0 where
  pub container : Container
  pub logstreams : Map ℕ Route

unfoldable pub new_container_pump : Container → ContainerPump
new_container_pump c = record { container = c; logstreams = [] }

unfoldable pub send_to : Message → Map ℕ Route → List ℕ
send_to m [] = []
send_to m ((c, r) ∷ rest) =
    let others = send_to m rest in if not (match_message r m.source) then others else c ∷ others

-- send: the logstreams that the message goes to, each of which gets the same object. The sends are
-- taken to succeed: the source waits for each receiver, with the pump's lock held, and that wait, like
-- a receiver's change of the object, is not part of the model.
unfoldable pub send : ContainerPump → Message → List ℕ
send cp m = send_to m cp.logstreams

unfoldable pub add : ContainerPump → ℕ → Route → ContainerPump
add cp c r = record cp { logstreams = insert c r cp.logstreams }

unfoldable pub remove : ContainerPump → ℕ → ContainerPump
remove cp c = record cp { logstreams = delete c cp.logstreams }

-- RoutingFrom, over the pumps by their containers' short ids
unfoldable pub routing_from : {P : Type 0} → Map Text P → Text → Bool
routing_from pumps id = has (normal_id id) pumps
