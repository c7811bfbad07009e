-- ===== src/Schema/Validate/Types.antt =====
-- src/nightshade-schema/src/validate.rs: structure and types over a whole configuration.
use nightshade.Shared.{List, [], ◌∷◌, ◌++◌, none, some, length}
use nightshade.Shared.Text.{Text, codes}
use nightshade.Shared.Result.{ok, err}
use nightshade.Shared.Pieces.{join, decimal}
use nightshade.Schema.Path.{ConfigPath, child}
use nightshade.Schema.Entries.{Node, Body, Children, node, interior, values, nil, entry}
use nightshade.Schema.ValueSet.{Values}
use nightshade.Schema.Config.{ConfigTree}
use nightshade.Schema.Value.{ValueSpec, check_spec, placeholder}
use nightshade.Schema.Model.{
  SchemaNode, schema_node, SchemaChildren, schema_children, container, tag, leaf, multi_leaf, flag,
  TagSpec, Schema, Location, node_of, instance_of, value_of, child_named,
}
use nightshade.Schema.Validate.{Violation, Platform, violation, error_text}

module _ (platform : Platform) where
  -- A value, or the key of an instance, that its rule refuses.
  abbrev pub judged : ValueSpec → ConfigPath → Text → List Violation
  judged spec at v = elim (check_spec platform.zones spec v) [
    | ok _ ↦ []
    | err e ↦ violation at (error_text platform e)
  ]

  unfoldable pub judge_all : ValueSpec → ConfigPath → Values → List Violation
  unfolding check_spec
  judge_all spec at [] = []
  judge_all spec at (v ∷ vs) = judged spec at v ++ judge_all spec at vs

  abbrev pub not_one : ConfigPath → Values → List Violation
  not_one at vs = violation at (
      codes "takes one value but has "
      ++ (decimal (length vs) ++ (codes ": " ++ join (codes ", ") vs)))

  unfoldable pub check_leaf : ValueSpec → ConfigPath → Body → List Violation
  unfolding judge_all placeholder
  check_leaf spec at (interior m) = violation at (codes "takes a value, but has child nodes")
  check_leaf spec at (values []) = violation at (codes "needs a value: " ++ placeholder spec)
  check_leaf spec at (values (v ∷ [])) = judge_all spec at (v ∷ [])
  check_leaf spec at (values (v ∷ w ∷ vs)) =
      not_one at (v ∷ w ∷ vs) ++ judge_all spec at (v ∷ w ∷ vs)

  unfoldable pub check_multi : ValueSpec → ConfigPath → Body → List Violation
  unfolding judge_all placeholder
  check_multi spec at (interior m) = violation at (codes "takes a value, but has child nodes")
  check_multi spec at (values []) = violation at (codes "needs a value: " ++ placeholder spec)
  check_multi spec at (values (v ∷ vs)) = judge_all spec at (v ∷ vs)

  unfoldable pub check_flag : ConfigPath → Body → List Violation
  check_flag at (interior m) = violation at (codes "takes no value and has no settings under it")
  check_flag at (values []) = []
  check_flag at (values (v ∷ vs)) =
      violation at (codes "takes no value, but was given " ++ join (codes ", ") (v ∷ vs))

  abbrev pub groups : ConfigPath → List Violation
  groups at = violation at (codes "groups other settings, so it cannot hold a value")

  unfoldable mutual
    unfolding child child_named check_spec check_leaf check_multi check_flag

    pub check_types : Location → Node → ConfigPath → List Violation
    check_types (value_of n) config at = []
    check_types (instance_of n) (node c b) at = descend (schema_children n) b at
    check_types (node_of (schema_node container t m)) (node c b) at = descend m b at
    check_types (node_of (schema_node (tag spec) t m)) (node c b) at =
        check_instances spec (schema_node (tag spec) t m) b at
    check_types (node_of (schema_node (leaf spec) t m)) (node c b) at = check_leaf spec at b
    check_types (node_of (schema_node (multi_leaf spec) t m)) (node c b) at = check_multi spec at b
    check_types (node_of (schema_node flag t m)) (node c b) at = check_flag at b

    pub descend : SchemaChildren → Body → ConfigPath → List Violation
    descend m (values v) at = groups at
    descend m (interior k) at = check_children m k at

    pub check_children : SchemaChildren → Children → ConfigPath → List Violation
    check_children m nil at = []
    check_children m (entry name n k) at =
        (elim (child_named name m) [
          | none ↦ violation (child at name) (codes "is not a configuration path")
          | some s ↦ check_types (node_of s) n (child at name)
        ])
        ++ check_children m k at

    pub check_instances : TagSpec → SchemaNode → Body → ConfigPath → List Violation
    check_instances spec s (values v) at = groups at
    check_instances spec s (interior k) at = check_keys spec s k at

    pub check_keys : TagSpec → SchemaNode → Children → ConfigPath → List Violation
    check_keys spec s nil at = []
    check_keys spec s (entry key n k) at =
        (elim (check_spec platform.zones spec.value key) [
          | err e ↦ violation (child at key) (error_text platform e)
          | ok _ ↦ check_types (instance_of s) n (child at key)
        ])
        ++ check_keys spec s k at

  unfoldable pub validate_tree : Schema → ConfigTree → List Violation
  unfolding check_types
  validate_tree schema config = check_types (node_of schema.root) config.root []
