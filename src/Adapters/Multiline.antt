-- ===== src/Adapters/Multiline.antt =====
-- adapters/multiline/multiline.go: collects the lines of a log entry and sends them to the next
-- adapter as one message. The regular expression is a test of texts; a send on `a.out` is an
-- output, and Adapters/Multiline/Beside.antt has the next adapter's `Stream` with it.
pub mod Buffered
pub mod Lines
pub mod Flush
pub mod Groups
pub mod Beside
pub mod Config
use logspout.Prelude.{
  ℕ, Bool, true, false, not, ◌||◌, List, [], ◌∷◌, ◌++◌, Option, none, some, Text, codes, text_key,
  ◌==◌, if◌then◌else◌,
}
use logspout.Prelude.Int.{ℤ, ◌+ℤ◌, ltb_ℤ}
use logspout.Map.{Map, lookup, insert, delete, values}
use logspout.Text.{split_two, to_lower}
use logspout.Router.Message.{Container, Message}

pub record Adapter : Type 0 where
  pub enable_by_default : Bool
  pub pattern : Text → Bool
  pub separator : Text
  pub match_first_line : Bool
  pub negate_match : Bool
  pub flush_after : ℤ
  pub buffers : Map Text Message

unfoldable pub is_first_line : Adapter → Message → Bool
is_first_line a m =
    if not a.match_first_line
    then false
    else if a.negate_match
    then not (a.pattern m.text)
    else a.pattern m.text

unfoldable pub is_last_line : Adapter → Message → Bool
is_last_line a m =
    if a.match_first_line
    then false
    else if a.negate_match
    then not (a.pattern m.text)
    else a.pattern m.text

-- The answer of an environment entry for LOGSPOUT_MULTILINE; another entry has none.
abbrev multiline_entry : Bool → Text → Option Bool
multiline_entry def kv = elim (split_two kv b'=') [
  | key ∷ value ∷ _ ↦
      if key == codes "LOGSPOUT_MULTILINE"
      then some (
          if to_lower value == codes "true"
          then true
          else if to_lower value == codes "false"
          then false
          else def)
      else none
  | _ ↦ none
]

unfoldable pub multiline_env : Bool → List Text → Bool
multiline_env def [] = def
multiline_env def (kv ∷ env) =
    let rest = multiline_env def env in elim (multiline_entry def kv) [ some b ↦ b | none ↦ rest ]

-- multilineContainer
unfoldable pub multiline_container : Container → Bool → Bool
unfolding multiline_env
multiline_container c def = multiline_env def c.env

-- `old.Data += a.separator + message.Data`, as a fresh message: the source changes the object that it
-- has buffered, which is the same as long as no other logstream of the pump holds it.
abbrev pub extend : Text → Message → Message → Message
extend separator old m = record old { text = old.text ++ (separator ++ m.text) }

abbrev pub put : Adapter → Text → Message → Adapter
put a id m = record a { buffers = insert id m a.buffers }

-- A first line sends what is buffered and takes its place.
unfoldable pub first_line : Adapter → Message → Option Message → Adapter × List Message
first_line a m none = (put a m.container.id m, [])
first_line a m (some old) = (put a m.container.id m, old ∷ [])

-- Any other line is added to what is buffered, and the whole is sent if the line is a last one.
unfoldable pub next_line : Adapter → Message → Option Message → Adapter × List Message
next_line a m none = if is_last_line a m then (a, m ∷ []) else (put a m.container.id m, [])
next_line a m (some old) =
    let whole = extend a.separator old m in
    if is_last_line a m
    then (record a { buffers = delete m.container.id a.buffers }, whole ∷ [])
    else (put a m.container.id whole, [])

-- The case of `Stream` for a message: the new state, and the messages sent.
unfoldable pub on_message : Adapter → Message → Adapter × List Message
on_message a m =
    if not (multiline_container m.container a.enable_by_default)
    then (a, m ∷ [])
    else if is_first_line a m
    then first_line a m (lookup m.container.id a.buffers)
    else next_line a m (lookup m.container.id a.buffers)

-- `message.Time.Add(a.flushAfter).After(now)`
unfoldable pub flushes : Adapter → ℤ → Message → Bool
flushes a now m = ltb_ℤ now (m.time +ℤ a.flush_after)

-- The loop over the buffers: what stays, and what is sent.
unfoldable pub flush : (Message → Bool) → Map Text Message → Map Text Message × List Message
flush due [] = ([], [])
flush due ((id, m) ∷ buffers) =
    let (kept, sent) = flush due buffers in
    if due m then (kept, m ∷ sent) else ((id, m) ∷ kept, sent)

-- The case of `Stream` for the timer.
unfoldable pub on_timer : Adapter → ℤ → Adapter × List Message
on_timer a now =
    let (kept, sent) = flush (flushes a now) a.buffers in (record a { buffers = kept }, sent)

pub data Event : Type 0 where
  message : Message → Event
  timer : ℤ → Event

unfoldable pub step : Adapter → Event → Adapter × List Message
step a (message m) = on_message a m
step a (timer now) = on_timer a now

-- The loop of `Stream` over what arrives before `logstream` is closed.
unfoldable pub run : Adapter → List Event → Adapter × List Message
run a [] = (a, [])
run a (e ∷ es) = let (a', sent) = step a e in let (a'', more) = run a' es in (a'', sent ++ more)

-- Stream: when `logstream` is closed, what is still buffered is sent.
unfoldable pub stream : Adapter → List Event → List Message
stream a es = let (a', sent) = run a es in sent ++ values a'.buffers
