-- ===== src/Schema/Validate/Fits.antt =====
-- src/nightshade-schema/src/validate.rs: what a configuration without violations looks like.
use nightshade.Shared.{
  [], Bool, true, false, Option, none, some, ◌≡◌, refl, arith, Option-cases, Bool-cases, Ordering,
  inl, inr, append_nil,
}
use nightshade.Shared.Text.{Text, text_eq, text_eq_iff, text_compare}
use nightshade.Shared.Result.{ok, err, Result-cases}
use nightshade.Schema.Path.{ConfigPath, child}
use nightshade.Schema.Entries.{
  Node, Children, node, interior, nil, entry, find, insert, replace, erase,
}
use nightshade.Schema.Value.{check_spec}
use nightshade.Schema.Model.{
  SchemaNode, schema_node, SchemaChildren, container, tag, leaf, multi_leaf, flag, TagSpec,
  Location, node_of, instance_of, value_of, child_named, Traits,
}
use nightshade.Schema.Validate.{Platform}
use nightshade.Schema.Validate.Setting.{SetError, enter}
use nightshade.Schema.Validate.Types.{
  check_types, check_children, check_keys, descend, check_instances, check_leaf, check_multi,
  check_flag,
}

-- A predicate of every entry.
abbrev pub Every : (Text → Node → Type 0) → Children → Type 0
Every P nil = Unit
Every P (entry k n m) = P k n × Every P m

module _ (P : Text → Node → Type 0) where
  pub Every-find : (k : Text) (n : Node) (m : Children) → Every P m → find k m ≡ some n → P k n
  unfolding find
  Every-find k n (entry j o m) (h, hs) e = elim (Bool-cases (text_eq j k)) [
    | inl same ↦ ground (arith, same, text_eq_iff j k, h)
    | inr other ↦ Every-find k n m hs (ground (arith, other))
  ]
  Every-find k n nil h e = cc

  pub Every-insert :
      (k : Text) (n : Node) (m : Children) → P k n → Every P m → Every P (insert k n m)
  unfolding insert
  Every-insert k n nil h hs = (h, tt)
  Every-insert k n (entry j o m) h (g, gs) =
      elim (text_compare k j)
          as (λ (c : Ordering).
            (text_compare k j ≡ c)
            → Every P (elim c [
              | Ordering.lt ↦ entry k n (entry j o m)
              | Ordering.eq ↦ entry k n m
              | Ordering.gt ↦ entry j o (insert k n m)
            ])) [
              | Ordering.lt ↦ λ _. (h, (g, gs))
              | Ordering.eq ↦ λ _. (h, gs)
              | Ordering.gt ↦ λ _. (g, Every-insert k n m h gs)
            ]
        refl

  pub Every-replace :
      (k : Text) (n : Node) (m : Children) → P k n → Every P m → Every P (replace k n m)
  unfolding replace
  Every-replace k n nil h hs = tt
  Every-replace k n (entry j o m) h (g, gs) = elim (Bool-cases (text_eq j k)) [
    | inl same ↦ let h' : P j n = rw ((text_eq_iff j k).0 same) h in rw same (h', gs)
    | inr other ↦ rw other (g, Every-replace k n m h gs)
  ]

  pub Every-erase : (k : Text) (m : Children) → Every P m → Every P (erase k m)
  unfolding erase
  Every-erase k nil hs = tt
  Every-erase k (entry j o m) (g, gs) = elim (Bool-cases (text_eq j k)) [
    | inl same ↦ rw same (Every-erase k m gs)
    | inr other ↦ rw other (g, Every-erase k m gs)
  ]

module _ (platform : Platform) where
  -- An entry whose name the schema takes at a location, and whose node it has nothing against.
  abbrev pub IsFitting : Location → ConfigPath → Text → Node → Type 0
  IsFitting l at name n =
      (k : Location) × (enter platform.zones (child at name) name l ≡ ok k)
      × (check_types platform k n (child at name) ≡ [])

  -- A location whose entries are the children that the schema names.
  abbrev NamesChildren : Location → SchemaChildren → Type 0
  NamesChildren l m =
      (p : ConfigPath) (s : Text)
      → enter platform.zones p s l
        ≡ elim (child_named s m) [ none ↦ err (SetError.unknown_path p) | some n ↦ ok (node_of n) ]

  module _ (l : Location) (m : SchemaChildren) (named : NamesChildren l m) (at : ConfigPath) where
    check_children_fits :
        (k : Children) → check_children platform m k at ≡ [] → Every (IsFitting l at) k
    unfolding check_children
    check_children_fits nil h = tt
    check_children_fits (entry name n k) h = elim (Option-cases (child_named name m)) [
      | inl gone ↦ absurd (ground (arith, gone))
      | inr (s, there) ↦
          let (now, later) : (check_types platform (node_of s) n (child at name) ≡ [])
              × (check_children platform m k at ≡ []) =
            ground (
              arith,
              there,
              append_nil (check_types platform (node_of s) n (child at name))
                  (check_children platform m k at),
            ) in
          (
            (node_of s, ground (arith, there, named (child at name) name), now),
            check_children_fits k later,
          )
    ]

    fits-check_children :
        (k : Children) → Every (IsFitting l at) k → check_children platform m k at ≡ []
    unfolding check_children
    fits-check_children nil h = refl
    fits-check_children (entry name n k) ((x, e, good), hs) =
        elim (Option-cases (child_named name m)) [
          | inl gone ↦ absurd (ground (arith, gone, e, named (child at name) name))
          | inr (s, there) ↦ ground (
            arith,
            there,
            e,
            good,
            named (child at name) name,
            fits-check_children k hs,
            append_nil (check_types platform (node_of s) n (child at name))
                (check_children platform m k at),
          )
        ]

  module _ (spec : TagSpec) (t : Traits) (m : SchemaChildren) (at : ConfigPath) where
    abbrev keyed : SchemaNode
    keyed = schema_node (tag spec) t m

    check_keys_fits :
        (k : Children)
        → check_keys platform spec keyed k at ≡ []
        → Every (IsFitting (node_of keyed) at) k
    unfolding check_keys enter
    check_keys_fits nil h = tt
    check_keys_fits (entry name n k) h =
        elim (Result-cases (check_spec platform.zones spec.value name)) [
          | inr (e, bad) ↦ absurd (ground (arith, bad))
          | inl (_, good) ↦
              let (now, later) : (check_types platform (instance_of keyed) n (child at name) ≡ [])
                  × (check_keys platform spec keyed k at ≡ []) =
                ground (
                  arith,
                  good,
                  append_nil (check_types platform (instance_of keyed) n (child at name))
                      (check_keys platform spec keyed k at),
                ) in
              ((instance_of keyed, ground (arith, good), now), check_keys_fits k later)
        ]

    fits-check_keys :
        (k : Children)
        → Every (IsFitting (node_of keyed) at) k
        → check_keys platform spec keyed k at ≡ []
    unfolding check_keys enter
    fits-check_keys nil h = refl
    fits-check_keys (entry name n k) ((x, e, fine), hs) =
        elim (Result-cases (check_spec platform.zones spec.value name)) [
          | inr (_, bad) ↦ absurd (ground (arith, bad, e))
          | inl (_, good) ↦ ground (
            arith,
            good,
            e,
            fine,
            fits-check_keys k hs,
            append_nil (check_types platform (instance_of keyed) n (child at name))
                (check_keys platform spec keyed k at),
          )
        ]

  -- Values have no location of their own among those that nodes are checked at.
  abbrev pub is_place : Location → Bool
  is_place (value_of n) = false
  is_place _ = true

  pub enter-place :
      (p : ConfigPath) (s : Text) (l k : Location)
      → enter platform.zones p s l ≡ ok k
      → (is_place l ≡ true) × (is_place k ≡ true)
  unfolding enter
  enter-place p s (node_of (schema_node container t m)) k e = ground arith
  enter-place p s (node_of (schema_node (tag spec) t m)) k e =
      elim (Result-cases (check_spec platform.zones spec.value s)) [
        | inl (_, g) ↦ ground (arith, g)
        | inr (_, g) ↦ ground (arith, g)
      ]
  enter-place p s (instance_of n) k e = ground arith
  enter-place p s (node_of (schema_node (leaf spec) t m)) k e = absurd cc
  enter-place p s (node_of (schema_node (multi_leaf spec) t m)) k e = absurd cc
  enter-place p s (node_of (schema_node flag t m)) k e = absurd cc
  enter-place p s (value_of n) k e = absurd cc

  -- Where nothing is wrong with an interior node, every entry is at where its name leads.
  pub check_types_fits :
      (c : Option Text) (k : Children) (at : ConfigPath) (l : Location)
      → is_place l ≡ true
      → check_types platform l (node c (interior k)) at ≡ []
      → Every (IsFitting l at) k
  unfolding check_types check_leaf check_multi check_flag descend check_instances enter
  check_types_fits c k at (node_of (schema_node container t m)) e h =
      check_children_fits (node_of (schema_node container t m)) m (λ p s. refl) at k h
  check_types_fits c k at (node_of (schema_node (tag spec) t m)) e h =
      check_keys_fits spec t m at k h
  check_types_fits c k at (instance_of (schema_node a t m)) e h =
      check_children_fits (instance_of (schema_node a t m)) m (λ p s. refl) at k h
  check_types_fits c k at (node_of (schema_node (leaf spec) t m)) e h = absurd cc
  check_types_fits c k at (node_of (schema_node (multi_leaf spec) t m)) e h = absurd cc
  check_types_fits c k at (node_of (schema_node flag t m)) e h = absurd cc
  check_types_fits c k at (value_of n) e h = absurd cc

  -- The locations that a name can follow.
  abbrev pub takes_names : Location → Bool
  takes_names (node_of (schema_node container t m)) = true
  takes_names (node_of (schema_node (tag spec) t m)) = true
  takes_names (instance_of n) = true
  takes_names _ = false

  pub enter-takes_names :
      (p : ConfigPath) (s : Text) (l k : Location)
      → enter platform.zones p s l ≡ ok k
      → takes_names l ≡ true
  unfolding enter
  enter-takes_names p s (node_of (schema_node container t m)) k e = refl
  enter-takes_names p s (node_of (schema_node (tag spec) t m)) k e = refl
  enter-takes_names p s (instance_of n) k e = refl
  enter-takes_names p s (node_of (schema_node (leaf spec) t m)) k e = absurd cc
  enter-takes_names p s (node_of (schema_node (multi_leaf spec) t m)) k e = absurd cc
  enter-takes_names p s (node_of (schema_node flag t m)) k e = absurd cc
  enter-takes_names p s (value_of n) k e = absurd cc

  module _ (c : Option Text) (k : Children) (at : ConfigPath) where
    pub check_types-takes_names :
        (l : Location)
        → is_place l ≡ true
        → check_types platform l (node c (interior k)) at ≡ []
        → takes_names l ≡ true
    unfolding check_types check_leaf check_multi check_flag
    check_types-takes_names (node_of (schema_node container t m)) e h = refl
    check_types-takes_names (node_of (schema_node (tag spec) t m)) e h = refl
    check_types-takes_names (instance_of n) e h = refl
    check_types-takes_names (node_of (schema_node (leaf spec) t m)) e h = absurd cc
    check_types-takes_names (node_of (schema_node (multi_leaf spec) t m)) e h = absurd cc
    check_types-takes_names (node_of (schema_node flag t m)) e h = absurd cc
    check_types-takes_names (value_of n) e h = absurd cc

    -- Where a name can follow, the entries are all that is checked.
    pub fits-check_types :
        (l : Location)
        → takes_names l ≡ true
        → Every (IsFitting l at) k
        → check_types platform l (node c (interior k)) at ≡ []
    unfolding enter check_types descend check_instances
    fits-check_types (node_of (schema_node container t m)) e h =
        fits-check_children (node_of (schema_node container t m)) m (λ p s. refl) at k h
    fits-check_types (node_of (schema_node (tag spec) t m)) e h = fits-check_keys spec t m at k h
    fits-check_types (instance_of (schema_node a t m)) e h =
        fits-check_children (instance_of (schema_node a t m)) m (λ p s. refl) at k h
    fits-check_types (node_of (schema_node (leaf spec) t m)) e h = absurd cc
    fits-check_types (node_of (schema_node (multi_leaf spec) t m)) e h = absurd cc
    fits-check_types (node_of (schema_node flag t m)) e h = absurd cc
    fits-check_types (value_of n) e h = absurd cc
