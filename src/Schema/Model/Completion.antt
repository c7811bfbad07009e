-- ===== src/Schema/Model/Completion.antt =====
-- src/nightshade-schema/src/model.rs: what can be typed next.
use nightshade.Shared.{List, [], ◌∷◌, Bool, true, false, Option, none, some}
use nightshade.Shared.Text.{Text}
use nightshade.Schema.Path.{ConfigPath}
use nightshade.Schema.Value.{placeholder}
use nightshade.Schema.Model.{
  container, tag, leaf, multi_leaf, flag, SchemaNode, schema_node, SchemaChildren, childless,
  with_child, Schema, node_of, instance_of, value_of, resolve, schema_children, NodeKind,
}

pub record NodeInfo : Type 0 where
  pub name : Text
  pub help : Text
  pub placeholder : Bool
  pub value : Option Text
  pub multi : Bool
  pub default : Option Text
  pub secret : Bool

abbrev pub value_hint : NodeKind → Option Text
value_hint container = none
value_hint (tag spec) = some (placeholder spec.value)
value_hint (leaf spec) = some (placeholder spec)
value_hint (multi_leaf spec) = some (placeholder spec)
value_hint flag = none

abbrev pub is_multi : NodeKind → Bool
is_multi (multi_leaf spec) = true
is_multi _ = false

unfoldable pub info : Text → SchemaNode → NodeInfo
info name (schema_node kind t m) = record {
  name = name;
  help = t.help;
  placeholder = false;
  value = value_hint kind;
  multi = is_multi kind;
  default = t.default;
  secret = t.secret;
}

unfoldable pub infos : SchemaChildren → List NodeInfo
unfolding info
infos childless = []
infos (with_child name n m) = info name n ∷ infos m

-- The entry for a word that the operator invents: an instance's key, or a value.
abbrev pub invented : Text → Text → Bool → Option Text → Bool → List NodeInfo
invented name help multi default secret =
    record {
      name = name;
      help = help;
      placeholder = true;
      value = none;
      multi = multi;
      default = default;
      secret = secret;
    }
    ∷ []

unfoldable pub infos_of : SchemaNode → List NodeInfo
unfolding infos
infos_of (schema_node container t m) = infos m
infos_of (schema_node (tag spec) t m) = invented (placeholder spec.value) spec.help false none false
infos_of (schema_node (leaf spec) t m) = invented (placeholder spec) t.help false t.default t.secret
infos_of (schema_node (multi_leaf spec) t m) =
    invented (placeholder spec) t.help true t.default t.secret
infos_of (schema_node flag t m) = []

unfoldable pub children_of : Schema → ConfigPath → List NodeInfo
unfolding infos_of
children_of schema p = elim (resolve schema p) [
  | none ↦ []
  | some (node_of n) ↦ infos_of n
  | some (instance_of n) ↦ infos (schema_children n)
  | some (value_of n) ↦ []
]
