-- ===== src/Schema/Validate/Deletes.antt =====
-- src/nightshade-schema/src/validate.rs: a `delete` keeps a valid configuration valid.
use nightshade.Shared.{
  [], true, false, Option, none, some, ◌≡◌, refl, ap, ◌∙◌, arith, Option-cases, Bool-cases, inl,
  inr,
}
use nightshade.Shared.Text.{Text}
use nightshade.Schema.Path.{ConfigPath, split_last, split_last-append}
use nightshade.Schema.Entries.{Node, node, interior, values, nil}
use nightshade.Schema.ValueSet.{has_value}
use nightshade.Schema.Config.{
  ConfigTree, new, get, get_node, get_mut, erase_entry, drop_value, holds_no_value, values_at,
  value_set, remove, remove_value,
}
use nightshade.Schema.Config.Removal.{
  get_node-get_mut, get_mut-erase_entry, get_mut-done, remove_root, remove-get_mut, dropped,
  dropped_tree, remove_value_undone, remove_value_left, remove_value_emptied,
}
use nightshade.Schema.Model.{
  SchemaNode, kind_of, Location, schema_node, node_of, container, tag, leaf, multi_leaf, flag,
  Schema, resolve,
}
use nightshade.Schema.Validate.{Platform}
use nightshade.Schema.Validate.Setting.{apply_delete}
use nightshade.Schema.Validate.Types.{check_types, validate_tree}
use nightshade.Schema.Validate.Fits.{is_place, takes_names, fits-check_types}
use nightshade.Schema.Validate.Removal.{get_mut_keeps, erase_entry_keeps, drop_value_keeps}

module _ (platform : Platform) where
  root_takes_names :
      (n : SchemaNode) → kind_of n ≡ container → takes_names platform (node_of n) ≡ true
  root_takes_names (schema_node container t m) e = refl
  root_takes_names (schema_node (tag spec) t m) e = cc
  root_takes_names (schema_node (leaf spec) t m) e = cc
  root_takes_names (schema_node (multi_leaf spec) t m) e = cc
  root_takes_names (schema_node flag t m) e = cc

  module _ (schema : Schema) (config : ConfigTree) (path : ConfigPath)
      (top : kind_of schema.root ≡ container)
      (valid : validate_tree platform schema config ≡ []) where
    abbrev start : Location
    start = node_of schema.root

    place : is_place platform start ≡ true
    place = refl

    empty_keeps : validate_tree platform schema new ≡ []
    unfolding validate_tree
    empty_keeps = fits-check_types platform none nil [] start (root_takes_names schema.root top) tt

    erased_keeps :
        (ps : ConfigPath) (last : Text)
        → check_types platform start (get_mut ps (erase_entry last) config.root).0 [] ≡ []
    unfolding validate_tree
    erased_keeps ps last =
        get_mut_keeps platform (erase_entry last) ps [] start config.root place valid
          (λ n e q k. erase_entry_keeps platform last n q k)

    remove_keeps : validate_tree platform schema (remove config path).0 ≡ []
    unfolding validate_tree
    remove_keeps = elim (Option-cases (split_last path)) [
      | inl gone ↦
          ap (λ t. validate_tree platform schema t) (remove_root config path gone) ∙ empty_keeps
      | inr ((ps, last), e) ↦
          ap (λ n. check_types platform start n []) (remove-get_mut config path ps last e)
          ∙ erased_keeps ps last
    ]

    drop_value_same : (v : Text) (n : Node) → (drop_value v n).1 ≡ false → (drop_value v n).0 ≡ n
    unfolding drop_value
    drop_value_same v (node c (interior m)) e = refl
    drop_value_same v (node c (values vs)) e = ground (arith, e, Bool-cases (has_value v vs))

    module _ (v : Text) where
      undone_same :
          (dropped config path v).1 ≡ false
          → (n : Node) → get_node path config.root ≡ some n
          → (drop_value v n).0 ≡ n
      undone_same undone n e =
          drop_value_same v n
            (ground (arith, undone, e, get_mut-done path (drop_value v) config.root))

      left_some :
          holds_no_value (values_at (dropped_tree config path v) path) ≡ false
          → (n : Node) → get_node path config.root ≡ some n
          → holds_no_value (value_set (drop_value v n).0) ≡ false
      unfolding values_at get
      left_some left n e =
          ground (arith, left, get_node-get_mut path (drop_value v) config.root n e)

      -- The tree from which the emptied leaf is taken out.
      emptied_keeps :
          (dropped config path v).1 ≡ true
          → holds_no_value (values_at (dropped_tree config path v) path) ≡ true
          → validate_tree platform schema (remove_value config path v).0 ≡ []
      unfolding validate_tree
      emptied_keeps done emptied =
          let same = remove_value_emptied config path v done emptied in
          let tree = dropped_tree config path v in
          elim (Option-cases (split_last path)) [
            | inl gone ↦
                ap (λ t. validate_tree platform schema t) (same ∙ remove_root tree path gone)
                ∙ empty_keeps
            | inr ((ps, last), e) ↦
                let shorter : (get_mut ps (erase_entry last) tree.root).0
                    ≡ (get_mut ps (erase_entry last) config.root).0 =
                  ap
                    (λ p.
                      (get_mut ps (erase_entry last) (get_mut p (drop_value v) config.root).0).0)
                    (split_last-append path ps last e)
                  ∙ get_mut-erase_entry ps last (drop_value v) config.root in
                ap (λ t. validate_tree platform schema t) same
                ∙ (ap (λ n. check_types platform start n [])
                      (remove-get_mut tree path ps last e ∙ shorter)
                    ∙ erased_keeps ps last)
          ]

      dropped_keeps :
          ((n : Node)
            → get_node path config.root ≡ some n
            → (q : ConfigPath) (k : Location) → is_place platform k ≡ true
            → check_types platform k n q ≡ []
            → check_types platform k (drop_value v n).0 q ≡ [])
          → (remove_value config path v).0.root ≡ (dropped config path v).0
          → validate_tree platform schema (remove_value config path v).0 ≡ []
      unfolding validate_tree
      dropped_keeps keep same =
          ap (λ n. check_types platform start n []) same
          ∙ get_mut_keeps platform (drop_value v) path [] start config.root place valid keep

      remove_value_keeps : validate_tree platform schema (remove_value config path v).0 ≡ []
      remove_value_keeps = elim (Bool-cases (dropped config path v).1) [
        | inr undone ↦
            dropped_keeps
              (λ n e q k _ good.
                ap (λ m. check_types platform k m q) (undone_same undone n e) ∙ good)
              (remove_value_undone config path v undone)
        | inl done ↦
            elim (Bool-cases (holds_no_value (values_at (dropped_tree config path v) path))) [
              | inr left ↦
                  dropped_keeps
                    (λ n e q k at_place good.
                      drop_value_keeps platform v n q k (left_some left n e) at_place good)
                    (remove_value_left config path v left)
              | inl emptied ↦ emptied_keeps done emptied
            ]
      ]

    -- Over a schema whose root is a container, a delete of any path, or of a value there, keeps a
    -- configuration valid, whether it is done or refused: a leaf whose last value goes, goes with
    -- it.
    pub validate_tree-apply_delete :
        (v : Option Text) → validate_tree platform schema (apply_delete schema config path v).0 ≡ []
    unfolding apply_delete
    validate_tree-apply_delete none =
        ground (arith, valid, remove_keeps, Option-cases (resolve schema path))
    validate_tree-apply_delete (some v) =
        ground (arith, valid, remove_value_keeps v, Option-cases (resolve schema path))
