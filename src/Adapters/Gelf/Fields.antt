-- ===== src/Adapters/Gelf/Fields.antt =====
-- What a field of a message to Graylog holds.
use logspout.Prelude.{
  ◌≡◌, refl, ap, ◌∙◌, ◌&&◌, [], ◌∷◌, Option, none, some, Text, codes, text_key, ◌==◌, if◌then◌else◌,
  drop, arith, ℕ,
}
use logspout.Map.{Map, lookup, insert, lookup-insert}
use logspout.Router.Message.{Container}
use logspout.Adapters.Gelf.{
  container_fields, is_gelf_label, add_labels, extra_fields, with_node, named_fields,
}

-- The last label for Graylog that is a field's name behind `gelf`.
abbrev pub last_label : Text → Map Text Text → Option Text
last_label k [] = none
last_label k ((name, label) ∷ labels) = elim (last_label k labels) [
  | some v ↦ some v
  | none ↦ if is_gelf_label name && drop 4 name == k then some label else none
]

-- The first value that is there.
abbrev pub or_else : Option Text → Option Text → Option Text
or_else none o = o
or_else (some v) o = some v

abbrev pub node_at : Text → Option Text → Option Text
node_at k none = none
node_at k (some node) = if codes "_swarm_node" == k then some node else none

lookup-add_labels :
    (k : Text) (labels extra : Map Text Text)
    → lookup k (add_labels labels extra) ≡ or_else (last_label k labels) (lookup k extra)
unfolding add_labels
lookup-add_labels k [] extra = refl
lookup-add_labels k ((name, label) ∷ labels) extra = ground (
  arith,
  lookup-add_labels k labels extra,
  lookup-add_labels k labels (insert (drop 4 name) label extra),
  lookup-insert (drop 4 name) label k extra,
)

lookup-with_node :
    (k : Text) (node : Option Text) (extra : Map Text Text)
    → lookup k (with_node node extra) ≡ or_else (node_at k node) (lookup k extra)
lookup-with_node k none extra = refl
lookup-with_node k (some node) extra =
    ground (arith, lookup-insert (codes "_swarm_node") node k extra)

-- A container whose name is not empty has the fields of its labels that begin with `gelf_`, in any
-- case of letters, and its own; where two have one name the last label wins over the others and over
-- the container's own field, and the node of a swarm over all.
pub lookup-extra_fields :
    (c : Container) (b : ℕ) (name : Text)
    → c.name ≡ b ∷ name
    → (extra : Map Text Text) × (extra_fields c ≡ some extra)
      × ((k : Text)
          → lookup k extra
            ≡ or_else
                (node_at k c.node)
                (or_else (last_label k c.labels) (lookup k (container_fields c name))))
unfolding extra_fields
lookup-extra_fields c b name e = (
  with_node c.node (add_labels c.labels (container_fields c name)),
  ap (named_fields c) e,
  λ k.
      lookup-with_node k c.node (add_labels c.labels (container_fields c name))
      ∙ ap (or_else (node_at k c.node)) (lookup-add_labels k c.labels (container_fields c name)),
)
