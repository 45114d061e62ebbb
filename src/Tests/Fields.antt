-- ===== src/Tests/Fields.antt =====
-- The fields of a message to Graylog.
use logspout.Prelude.{◌≡◌, refl, [], ◌∷◌, some, Text, codes, text_beq, text_key}
use logspout.Map.{Map, lookup}
use logspout.Router.Message.{Container}
use logspout.Adapters.Gelf.{extra_fields, container_fields, is_gelf_label}
use logspout.Adapters.Gelf.Fields.{last_label, or_else, node_at, lookup-extra_fields}
use logspout.Tests.Data.{web}

-- A label that takes the place of the container's name.
abbrev renaming : Container
renaming = record web { labels = (codes "GELF_container_name", codes "shop") ∷ [] }

lookup-extra_fields_example :
    (extra : Map Text Text) × (extra_fields renaming ≡ some extra)
    × ((k : Text)
        → lookup k extra
          ≡ or_else (node_at k renaming.node) (
              or_else
                (last_label k renaming.labels)
                (lookup k (container_fields renaming (codes "web_db")))))
lookup-extra_fields_example = lookup-extra_fields renaming b'/' (codes "web_db") refl

taken_over : last_label (codes "_container_name") renaming.labels ≡ some (codes "shop")
unfolding text_beq is_gelf_label
taken_over = refl
