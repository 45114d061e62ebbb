-- ===== src/Adapters/Syslog/Render.antt =====
-- `Message` of adapters/syslog/syslog.go: a message rendered by the templates of its fields.
use logspout.Prelude.{
  ℕ, ◌+◌, ◌*◌, ◌≤◌, ◌≡◌, [], ◌∷◌, ◌++◌, Option, none, some, Text, codes, text_key, ◌==◌,
  if◌then◌else◌, Result, ok, ◌>>=◌, length,
}
use logspout.Text.Runes.{Cut, truncate, truncate-Cut, length-truncate}
use logspout.Router.Message.{Message}
use logspout.Adapters.Syslog.{Format, rfc5424, rfc3164, FieldTemplates}

-- Priority: a facility times 8 and a severity
unfoldable pub priority_of : Message → ℕ
priority_of m =
    if m.source == codes "stdout"
    then 1 * 8 + 6
    else if m.source == codes "stderr"
    then 1 * 8 + 3
    else 3 * 8 + 6

-- ContainerName; `none` is the panic of a slice out of range
unfoldable pub container_name : Message → Option Text
container_name m = elim m.container.name [ [] ↦ none | c ∷ name ↦ some name ]

-- The texts that the templates made.
pub record Fields : Type 0 where
  pub priority : Text
  pub timestamp : Text
  pub hostname : Text
  pub tag : Text
  pub pid : Text
  pub structured_data : Text
  pub content : Text

-- `fmt.Fprintf` of each format
unfoldable pub layout : Format → Fields → Text
layout rfc5424 f =
    codes "<"
    ++ (f.priority
        ++ (codes ">1 "
            ++ (f.timestamp
                ++ (codes " "
                    ++ (truncate 255 f.hostname
                        ++ (codes " "
                            ++ (truncate 48 f.tag
                                ++ (codes " "
                                    ++ (truncate 128 f.pid
                                        ++ (codes " - "
                                            ++ (f.structured_data
                                                ++ (codes " "
                                                    ++ (f.content ++ codes "\n")))))))))))))
layout rfc3164 f =
    codes "<"
    ++ (f.priority
        ++ (codes ">"
            ++ (f.timestamp
                ++ (codes " "
                    ++ (f.hostname
                        ++ (codes " "
                            ++ (truncate 32 f.tag
                                ++ (codes "["
                                    ++ (f.pid ++ (codes "]: " ++ (f.content ++ codes "\n")))))))))))

unfoldable pub execute : FieldTemplates → Message → Result Fields
execute tmpl m = do
  priority ← tmpl.priority m
  timestamp ← tmpl.timestamp m
  hostname ← tmpl.hostname m
  tag ← tmpl.tag m
  pid ← tmpl.pid m
  structured ← tmpl.structured_data m
  content ← tmpl.content m
  ok (record {
    priority = priority;
    timestamp = timestamp;
    hostname = hostname;
    tag = tag;
    pid = pid;
    structured_data = structured;
    content = content;
  })

-- Render
unfoldable pub render : Format → FieldTemplates → Message → Result Text
render format tmpl m = do f ← execute tmpl m; ok (layout format f)

-- A message in the format of RFC 5424 has the fields that the templates made, the host name, the tag
-- and the process id each cut to their first 255, 48 and 128 runes, of 4 bytes each at most.
pub render_rfc5424 :
    (tmpl : FieldTemplates) (m : Message) (f : Fields)
    → execute tmpl m ≡ ok f
    → (h tag pid : Text) × (render rfc5424 tmpl m
        ≡ ok (
            codes "<"
            ++ (f.priority
                ++ (codes ">1 "
                    ++ (f.timestamp
                        ++ (codes " "
                            ++ (h
                                ++ (codes " "
                                    ++ (tag
                                        ++ (codes " "
                                            ++ (pid
                                                ++ (codes " - "
                                                    ++ (f.structured_data
                                                        ++ (codes " "
                                                            ++ (f.content
                                                            ++ codes "\n")))))))))))))))
      × (Cut 255 f.hostname h × (length h ≤ 4 * 255))
      × (Cut 48 f.tag tag × (length tag ≤ 4 * 48))
      × (Cut 128 f.pid pid × (length pid ≤ 4 * 128))
unfolding render layout
render_rfc5424 tmpl m f e = (
  truncate 255 f.hostname,
  truncate 48 f.tag,
  truncate 128 f.pid,
  rw (e, render),
  (truncate-Cut 255 f.hostname, length-truncate 255 f.hostname),
  (truncate-Cut 48 f.tag, length-truncate 48 f.tag),
  (truncate-Cut 128 f.pid, length-truncate 128 f.pid),
)
