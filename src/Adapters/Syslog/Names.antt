-- ===== src/Adapters/Syslog/Names.antt =====
-- adapters/syslog/syslog.go: what the templates may ask of a message, but for its priority. The host
-- name is asked of the system once, and the format of a time is a parameter.
use logspout.Prelude.{
  ◌≡◌, ◌≢◌, ap, List, [], Option, none, some, Text, codes, arith, Result, ok, err, sym, ◌∙◌,
}
use logspout.Prelude.Int.{ℤ, pos}
use logspout.Text.{join}
use logspout.Text.SplitN.{split_n, join-split_n}
use logspout.Router.Message.{Message}
use logspout.Adapters.Syslog.Render.{container_name}

-- hostname, _ = os.Hostname()
abbrev pub host_of : Result Text → Text
host_of (ok name) = name
host_of (err e) = []

-- Hostname
abbrev pub message_hostname : Text → Message → Text
message_hostname hostname m = hostname

-- Timestamp
abbrev pub timestamp : (Text → ℤ → Text) → Message → Text
timestamp format m = format (codes "2006-01-02T15:04:05Z07:00") m.time

abbrev split_name : Text → ℤ → Option Text → Option (List Text)
split_name sep n none = none
split_name sep n (some name) = some (split_n name sep n)

-- ContainerNameSplitN; `none` is the panic of a slice out of range
unfoldable pub container_name_split_n : Message → Text → ℤ → Option (List Text)
unfolding split_n container_name
container_name_split_n m sep n = split_name sep n (container_name m)

split_name-parts :
    (sep : Text) (n : ℤ) (o : Option Text) (parts : List Text)
    → split_name sep n o ≡ some parts
    → sep ≢ []
    → n ≢ pos 0
    → o ≡ some (join parts sep)
split_name-parts sep n none parts h k z = absurd (ground (arith, h))
split_name-parts sep n (some name) parts h k z =
    let e : split_n name sep n ≡ parts = ground (arith, h) in
    ap some (sym (join-split_n name sep n k z) ∙ ap (λ ps. join ps sep) e)

-- The parts of a container's name, joined by the separator, are its name, unless the separator is empty
-- or the limit on the parts is zero.
pub container_name_split_n-join :
    (m : Message) (sep : Text) (n : ℤ) (parts : List Text)
    → container_name_split_n m sep n ≡ some parts
    → sep ≢ []
    → n ≢ pos 0
    → container_name m ≡ some (join parts sep)
unfolding container_name_split_n
container_name_split_n-join m sep n parts = split_name-parts sep n (container_name m) parts
