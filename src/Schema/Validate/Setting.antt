-- ===== src/Schema/Validate/Setting.antt =====
-- src/nightshade-schema/src/validate.rs: one `set` or `delete`, and the defaults.
use nightshade.Shared.{[], ◌∷◌, ◌++◌, Bool, true, false, Option, none, some, if◌then◌else◌}
use nightshade.Shared.Text.{Text}
use nightshade.Shared.Result.{Result, ok, err}
use nightshade.Schema.Path.{ConfigPath, child}
use nightshade.Schema.Config.{
  TreeError, ConfigTree, Outcome, new, set, add, set_flag, ensure_interior, remove, remove_value,
}
use nightshade.Schema.Value.{ValueError, Zones, check_spec, placeholder}
use nightshade.Schema.Model.{
  SchemaNode, SchemaChildren, schema_node, childless, with_child, schema_children, container, tag,
  leaf, multi_leaf, flag, Schema, Location, node_of, instance_of, value_of, child_named, resolve,
}

pub data SetError : Type 0 where
  unknown_path : ConfigPath → SetError
  value_required : ConfigPath → Text → SetError
  unexpected_value : ConfigPath → SetError
  bad_value bad_name : ConfigPath → ValueError → SetError
  not_settable : ConfigPath → SetError
  rejected : ConfigPath → TreeError → SetError

pub data DeleteError : Type 0 where
  unknown_path not_configured : ConfigPath → DeleteError
  no_such_value : ConfigPath → Text → DeleteError

-- The answer of a check of a value or a key.
abbrev pub refuse :
    {A : Type 0} → Result ValueError (Unit {0}) → (ValueError → SetError) → A → Result SetError A
refuse (ok _) why a = ok a
refuse (err e) why a = err (why e)

module _ (zones : Zones) where
  -- One turn of the loop of `validate_set`, at a segment; the path so far includes it.
  unfoldable pub enter : ConfigPath → Text → Location → Result SetError Location
  unfolding child_named check_spec
  enter so_far s (node_of (schema_node container t m)) = elim (child_named s m) [
    | none ↦ err (SetError.unknown_path so_far)
    | some n ↦ ok (node_of n)
  ]
  enter so_far s (node_of (schema_node (tag spec) t m)) =
      refuse (check_spec zones spec.value s) (bad_name so_far)
        (instance_of (schema_node (tag spec) t m))
  enter so_far s (node_of (schema_node (leaf spec) t m)) = err (SetError.unknown_path so_far)
  enter so_far s (node_of (schema_node (multi_leaf spec) t m)) = err (SetError.unknown_path so_far)
  enter so_far s (node_of (schema_node flag t m)) = err (SetError.unknown_path so_far)
  enter so_far s (instance_of n) = elim (child_named s (schema_children n)) [
    | none ↦ err (SetError.unknown_path so_far)
    | some k ↦ ok (node_of k)
  ]
  enter so_far s (value_of n) = err (SetError.unknown_path so_far)

  -- The loop, from a location that the path before has led to.
  unfoldable pub walk : ConfigPath → ConfigPath → Location → Result SetError Location
  unfolding enter
  walk before [] l = ok l
  walk before (s ∷ p) l = elim (enter (before ++ s ∷ []) s l) [
    | err e ↦ err e
    | ok k ↦ walk (before ++ s ∷ []) p k
  ]

  -- What is settled at the location where the path ends.
  unfoldable pub settle : ConfigPath → Location → Option Text → Result SetError (Unit {0})
  unfolding child check_spec placeholder
  settle path (node_of (schema_node (leaf spec) t m)) (some v) =
      refuse (check_spec zones spec v) (bad_value path) tt
  settle path (node_of (schema_node (multi_leaf spec) t m)) (some v) =
      refuse (check_spec zones spec v) (bad_value path) tt
  settle path (node_of (schema_node flag t m)) (some v) = err (unexpected_value path)
  settle path (node_of (schema_node container t m)) (some v) =
      err (SetError.unknown_path (child path v))
  settle path (node_of (schema_node (tag spec) t m)) (some v) =
      err (SetError.unknown_path (child path v))
  settle path (node_of (schema_node flag t m)) none = ok tt
  settle path (node_of (schema_node (leaf spec) t m)) none =
      err (value_required path (placeholder spec))
  settle path (node_of (schema_node (multi_leaf spec) t m)) none =
      err (value_required path (placeholder spec))
  settle path (node_of (schema_node container t m)) none = err (not_settable path)
  settle path (node_of (schema_node (tag spec) t m)) none =
      err (value_required path (placeholder spec.value))
  settle path (instance_of n) none = ok tt
  settle path (instance_of n) (some v) = err (SetError.unknown_path (child path v))
  settle path (value_of n) v = err (SetError.unknown_path path)

  unfoldable pub validate_set : Schema → ConfigPath → Option Text → Result SetError (Unit {0})
  unfolding walk settle
  validate_set schema path v = elim (walk [] path (node_of schema.root)) [
    | err e ↦ err e
    | ok l ↦ settle path l v
  ]

unfoldable pub is_multi_leaf : Schema → ConfigPath → Bool
unfolding resolve
is_multi_leaf schema path = elim (resolve schema path) [
  | some (node_of (schema_node (multi_leaf spec) t m)) ↦ true
  | _ ↦ false
]

abbrev pub is_instance : Option Location → Bool
is_instance (some (instance_of n)) = true
is_instance _ = false

-- The edit that a valid `set` is.
unfoldable pub write_to : Schema → ConfigTree → ConfigPath → Option Text → ConfigTree × Outcome
unfolding is_multi_leaf resolve
write_to schema config path (some v) =
    if is_multi_leaf schema path then add config path v else set config path v
write_to schema config path none =
    if is_instance (resolve schema path) then ensure_interior config path else set_flag config path

abbrev reject : ConfigPath → ConfigTree × Outcome → ConfigTree × Result SetError (Unit {0})
reject path (t, ok _) = (t, ok tt)
reject path (t, err e) = (t, err (rejected path e))

unfoldable pub apply_set :
    Zones → Schema → ConfigTree → ConfigPath → Option Text → ConfigTree × Result SetError (Unit {0})
unfolding validate_set write_to
apply_set zones schema config path v = elim (validate_set zones schema path v) [
  | err e ↦ (config, err e)
  | ok _ ↦ reject path (write_to schema config path v)
]

unfoldable pub apply_delete :
    Schema → ConfigTree → ConfigPath → Option Text → ConfigTree × Result DeleteError (Unit {0})
unfolding resolve remove remove_value
apply_delete schema config path v = elim (resolve schema path) [
  | none ↦ (config, err (DeleteError.unknown_path path))
  | some _ ↦ elim v [
    | some v ↦
        let (t, done) = remove_value config path v in
        (t, (if done then ok tt else err (no_such_value path v)))
    | none ↦
        let (t, done) = remove config path in
        (t, (if done then ok tt else err (not_configured path)))
  ]
]

unfoldable mutual
  unfolding child

  pub collect_defaults : SchemaNode → ConfigPath → ConfigTree → ConfigTree
  collect_defaults (schema_node container t m) at tree = collect_below m at tree
  collect_defaults (schema_node (leaf spec) t m) at tree = elim t.default [
    | none ↦ tree
    | some v ↦ (set tree at v).0
  ]
  collect_defaults (schema_node (multi_leaf spec) t m) at tree = elim t.default [
    | none ↦ tree
    | some v ↦ (set tree at v).0
  ]
  collect_defaults (schema_node (tag spec) t m) at tree = tree
  collect_defaults (schema_node flag t m) at tree = tree

  pub collect_below : SchemaChildren → ConfigPath → ConfigTree → ConfigTree
  collect_below childless at tree = tree
  collect_below (with_child name n m) at tree =
      collect_below m at (collect_defaults n (child at name) tree)

unfoldable pub defaults : Schema → ConfigTree
unfolding collect_defaults collect_below
defaults schema = collect_defaults schema.root [] new
