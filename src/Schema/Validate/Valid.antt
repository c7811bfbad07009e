-- ===== src/Schema/Validate/Valid.antt =====
-- src/nightshade-schema/src/validate.rs: `apply_set` on a valid configuration.
use nightshade.Shared.{[], ◌∷◌, ◌++◌, Option, none, some, ◌≡◌, refl, arith, inl, inr, append_nil}
use nightshade.Shared.Text.{Text}
use nightshade.Shared.Result.{ok, Result-cases}
use nightshade.Schema.Path.{ConfigPath}
use nightshade.Schema.Entries.{values}
use nightshade.Schema.ValueSet.{Values, singleton, add_value, add_value-cons}
use nightshade.Schema.Config.{ConfigTree, set, add, set_flag}
use nightshade.Schema.Value.{ValueSpec, check_spec}
use nightshade.Schema.Model.{
  Location, schema_node, node_of, instance_of, value_of, container, tag, leaf, multi_leaf, flag,
  Schema, SchemaChildren, Traits, resolve, resolve_from, step_to,
}
use nightshade.Schema.Validate.{Platform}
use nightshade.Schema.Validate.Setting.{
  enter, walk, settle, validate_set, apply_set, write_to, is_multi_leaf,
}
use nightshade.Schema.Validate.Types.{
  check_types, check_leaf, check_multi, check_flag, judge_all, judged, descend, check_children,
  validate_tree,
}
use nightshade.Schema.Validate.Sets.{TakesChange, edit_leaf_keeps, ensure_interior_keeps}

module _ (platform : Platform) where
  enter-step_to :
      (p : ConfigPath) (s : Text) (l k : Location)
      → enter platform.zones p s l ≡ ok k
      → step_to s l ≡ some k
  unfolding enter step_to
  enter-step_to p s (node_of (schema_node container t m)) k h = ground arith
  enter-step_to p s (node_of (schema_node (tag spec) t m)) k h =
      elim (Result-cases (check_spec platform.zones spec.value s)) [
        | inl (_, e) ↦ ground (arith, e)
        | inr (_, e) ↦ ground (arith, e)
      ]
  enter-step_to p s (instance_of n) k h = ground arith
  enter-step_to p s (node_of (schema_node (leaf spec) t m)) k h = cc
  enter-step_to p s (node_of (schema_node (multi_leaf spec) t m)) k h = cc
  enter-step_to p s (node_of (schema_node flag t m)) k h = cc
  enter-step_to p s (value_of n) k h = cc

  -- Where the walk that checks the keys arrives is where the path leads.
  walk-resolve_from :
      (before p : ConfigPath) (l k : Location)
      → walk platform.zones before p l ≡ ok k
      → resolve_from l p ≡ some k
  unfolding walk resolve_from
  walk-resolve_from before [] l k h = ground arith
  walk-resolve_from before (s ∷ p) l k h =
      elim (Result-cases (enter platform.zones (before ++ s ∷ []) s l)) [
        | inr (_, e) ↦ absurd (ground (arith, e))
        | inl (j, e) ↦ ground (
          arith,
          e,
          enter-step_to (before ++ s ∷ []) s l j e,
          walk-resolve_from (before ++ s ∷ []) p j k,
        )
      ]

  module _ (spec : ValueSpec) (v : Text) (good : check_spec platform.zones spec v ≡ ok tt) where
    judge_all-singleton : (at : ConfigPath) → judge_all platform spec at (singleton v) ≡ []
    unfolding judge_all
    judge_all-singleton at = ground (arith, good)

    judge_all-add_value :
        (at : ConfigPath) (vs : Values)
        → judge_all platform spec at vs ≡ []
        → judge_all platform spec at (add_value v vs) ≡ []
    unfolding judge_all add_value
    judge_all-add_value at [] h = ground (arith, good)
    judge_all-add_value at (w ∷ vs) h =
        let (now, later) =
          (append_nil (judged platform spec at w) (judge_all platform spec at vs)).0 h in
        ground (arith, good, now, later, judge_all-add_value at vs later, h)

    check_multi-judge_all :
        (at : ConfigPath) (vs : Values) (x : Text) (ws : Values)
        → vs ≡ x ∷ ws
        → judge_all platform spec at vs ≡ []
        → check_multi platform spec at (values vs) ≡ []
    unfolding check_multi
    check_multi-judge_all at [] x ws e h = cc
    check_multi-judge_all at (w ∷ vs) x ws e h = h

    check_multi-add_value :
        (at : ConfigPath) (vs : Values)
        → check_multi platform spec at (values vs) ≡ []
        → check_multi platform spec at (values (add_value v vs)) ≡ []
    unfolding check_multi
    check_multi-add_value at [] h = cc
    check_multi-add_value at (w ∷ vs) h =
        let (x, ws, e) = add_value-cons v (w ∷ vs) in
        check_multi-judge_all at (add_value v (w ∷ vs)) x ws e (judge_all-add_value at (w ∷ vs) h)

  -- A location that takes a value as the only one, or besides those it has.
  settle-set :
      (path : ConfigPath) (l : Location) (v : Text)
      → settle platform.zones path l (some v) ≡ ok tt
      → TakesChange platform l (λ _. singleton v) (singleton v)
  unfolding settle check_types check_leaf check_multi
  settle-set path (node_of (schema_node (leaf spec) t m)) v h =
      elim (Result-cases (check_spec platform.zones spec v)) [
        | inl (_, e) ↦
            (λ at. judge_all-singleton spec v e at, λ at c w g. judge_all-singleton spec v e at)
        | inr (_, e) ↦ absurd (ground (arith, e))
      ]
  settle-set path (node_of (schema_node (multi_leaf spec) t m)) v h =
      elim (Result-cases (check_spec platform.zones spec v)) [
        | inl (_, e) ↦
            (λ at. judge_all-singleton spec v e at, λ at c w g. judge_all-singleton spec v e at)
        | inr (_, e) ↦ absurd (ground (arith, e))
      ]
  settle-set path (node_of (schema_node container t m)) v h = absurd cc
  settle-set path (node_of (schema_node (tag spec) t m)) v h = absurd cc
  settle-set path (node_of (schema_node flag t m)) v h = absurd cc
  settle-set path (instance_of n) v h = absurd cc
  settle-set path (value_of n) v h = absurd cc

  settle-add :
      (path : ConfigPath) (spec : ValueSpec) (t : Traits) (m : SchemaChildren) (v : Text)
      → settle platform.zones path (node_of (schema_node (multi_leaf spec) t m)) (some v) ≡ ok tt
      → TakesChange platform
          (node_of (schema_node (multi_leaf spec) t m))
          (add_value v)
          (singleton v)
  unfolding settle check_types check_multi
  settle-add path spec t m v h = elim (Result-cases (check_spec platform.zones spec v)) [
    | inl (_, e) ↦
        (λ at. judge_all-singleton spec v e at, λ at c w g. check_multi-add_value spec v e at w g)
    | inr (_, e) ↦ absurd (ground (arith, e))
  ]

  module _ (schema : Schema) (config : ConfigTree) (path : ConfigPath)
      (valid : validate_tree platform schema config ≡ []) where
    abbrev start : Location
    start = node_of schema.root

    resolved :
        (l : Location) → walk platform.zones [] path start ≡ ok l → resolve schema path ≡ some l
    unfolding resolve
    resolved l led = walk-resolve_from [] path start l led

    write_to_set :
        (l : Location) (v : Text)
        → walk platform.zones [] path start ≡ ok l
        → TakesChange platform l (λ _. singleton v) (singleton v)
        → validate_tree platform schema (set config path v).0 ≡ []
    unfolding set
    write_to_set l v led takes =
        edit_leaf_keeps platform schema config path l led valid (λ _. singleton v) (singleton v)
          takes

    write_to_value :
        (l : Location) (v : Text)
        → walk platform.zones [] path start ≡ ok l
        → settle platform.zones path l (some v) ≡ ok tt
        → validate_tree platform schema (write_to schema config path (some v)).0 ≡ []
    unfolding write_to is_multi_leaf add settle
    write_to_value (node_of (schema_node (multi_leaf spec) t m)) v led fine =
        let l : Location = node_of (schema_node (multi_leaf spec) t m) in
        rw (resolved l led, is_multi_leaf)
          (edit_leaf_keeps platform schema config path l led valid (add_value v) (singleton v)
            (settle-add path spec t m v fine))
    write_to_value (node_of (schema_node (leaf spec) t m)) v led fine =
        let l : Location = node_of (schema_node (leaf spec) t m) in
        rw (resolved l led, is_multi_leaf) (write_to_set l v led (settle-set path l v fine))
    write_to_value (node_of (schema_node container t m)) v led fine = absurd (ground (arith, fine))
    write_to_value (node_of (schema_node (tag spec) t m)) v led fine = absurd (ground (arith, fine))
    write_to_value (node_of (schema_node flag t m)) v led fine = absurd (ground (arith, fine))
    write_to_value (instance_of n) v led fine = absurd (ground (arith, fine))
    write_to_value (value_of n) v led fine = absurd (ground (arith, fine))

    write_to-none :
        (l : Location)
        → walk platform.zones [] path start ≡ ok l
        → settle platform.zones path l none ≡ ok tt
        → validate_tree platform schema (write_to schema config path none).0 ≡ []
    unfolding write_to set_flag check_types check_flag descend check_children settle
    write_to-none (node_of (schema_node flag t m)) led fine =
        let l : Location = node_of (schema_node flag t m) in
        rw (resolved l led) (
          edit_leaf_keeps platform schema config path l led valid (λ _. []) []
            (λ at. refl, λ at c w g. refl))
    write_to-none (instance_of n) led fine =
        rw (resolved (instance_of n) led)
          (ensure_interior_keeps platform schema config path (instance_of n) led valid (λ at. refl))
    write_to-none (node_of (schema_node (leaf spec) t m)) led fine = absurd (ground (arith, fine))
    write_to-none (node_of (schema_node (multi_leaf spec) t m)) led fine =
        absurd (ground (arith, fine))
    write_to-none (node_of (schema_node container t m)) led fine = absurd (ground (arith, fine))
    write_to-none (node_of (schema_node (tag spec) t m)) led fine = absurd (ground (arith, fine))
    write_to-none (value_of n) led fine = absurd (ground (arith, fine))

    written :
        (l : Location) (v : Option Text)
        → walk platform.zones [] path start ≡ ok l
        → settle platform.zones path l v ≡ ok tt
        → validate_tree platform schema (write_to schema config path v).0 ≡ []
    written l (some v) led fine = write_to_value l v led fine
    written l none led fine = write_to-none l led fine

    -- A set keeps a configuration valid: where validation of the whole configuration finds
    -- nothing, it finds nothing after the set of any path and value, whether the set is done or
    -- refused.
    pub validate_tree-apply_set :
        (v : Option Text)
        → validate_tree platform schema (apply_set platform.zones schema config path v).0 ≡ []
    unfolding apply_set validate_set
    validate_tree-apply_set v = elim (Result-cases (walk platform.zones [] path start)) [
      | inr (_, e) ↦ ground (arith, e, valid)
      | inl (l, led) ↦ elim (Result-cases (settle platform.zones path l v)) [
        | inr (_, e) ↦ ground (arith, led, e, valid)
        | inl (_, fine) ↦
            ground (
              arith,
              led,
              fine,
              written l v led fine,
              Result-cases (write_to schema config path v).1,
            )
      ]
    ]
