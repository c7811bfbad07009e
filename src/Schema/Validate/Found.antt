-- ===== src/Schema/Validate/Found.antt =====
-- src/nightshade-schema/src/validate.rs: what `validate_tree` lets through, `set` lets through.
use nightshade.Shared.{
  [], ◌∷◌, true, Option, none, some, ◌≡◌, refl, sym, ap, ◌∙◌, arith, Option-cases, Bool-cases, inl,
  inr, append_nil,
}
use nightshade.Shared.Text.{Text, text_eq, text_eq_iff}
use nightshade.Shared.Result.{ok, Result-cases}
use nightshade.Schema.Path.{ConfigPath, child}
use nightshade.Schema.Entries.{Node, node, interior, values, find}
use nightshade.Schema.ValueSet.{Values, has_value}
use nightshade.Schema.Config.{ConfigTree, get, get_node}
use nightshade.Schema.Value.{ValueSpec, check_spec}
use nightshade.Schema.Model.{
  Location, schema_node, node_of, instance_of, value_of, container, tag, leaf, multi_leaf, flag,
  Schema,
}
use nightshade.Schema.Validate.{Platform}
use nightshade.Schema.Validate.Setting.{walk, settle, validate_set}
use nightshade.Schema.Validate.Types.{
  check_types, check_leaf, check_multi, check_flag, judge_all, judged, descend, validate_tree,
  check_instances,
}
use nightshade.Schema.Validate.Fits.{Every-find, IsFitting, is_place, enter-place, check_types_fits}

module _ (platform : Platform) where
  located :
      (p at : ConfigPath) (l : Location) (m n : Node)
      → is_place platform l ≡ true
      → check_types platform l m at ≡ []
      → get_node p m ≡ some n
      → (k : Location) × (q : ConfigPath) × (walk platform.zones at p l ≡ ok k)
        × (is_place platform k ≡ true)
        × (check_types platform k n q ≡ [])
  unfolding walk get_node child
  located [] at l m n place h e = (l, at, refl, place, ground (arith, e, h))
  located (s ∷ p) at l (node c (values v)) n place h e = absurd cc
  located (s ∷ p) at l (node c (interior k)) n place h e = elim (Option-cases (find s k)) [
    | inl gone ↦ absurd (ground (arith, gone))
    | inr (m, there) ↦
        let (x, led, good) =
          Every-find (IsFitting platform l at) s m k (check_types_fits platform c k at l place h)
            there in
        let later : get_node p m ≡ some n = ground (arith, there, e) in
        let (y, q, walked, place', fine) =
          located p (child at s) x m n (enter-place platform (child at s) s l x led).1 good later in
        (y, q, ground (arith, led, walked), place', fine)
  ]

  -- A value among those that are judged and found good is good.
  judged_one :
      (spec : ValueSpec) (at : ConfigPath) (v : Text) (vs : Values)
      → judge_all platform spec at vs ≡ []
      → has_value v vs ≡ true
      → check_spec platform.zones spec v ≡ ok tt
  unfolding judge_all has_value
  judged_one spec at v [] h e = cc
  judged_one spec at v (w ∷ vs) h e =
      let (now, later) =
        (append_nil (judged platform spec at w) (judge_all platform spec at vs)).0 h in
      elim (Bool-cases (text_eq w v)) [
        | inr other ↦ judged_one spec at v vs later (ground (arith, other, e))
        | inl same ↦ elim (Result-cases (check_spec platform.zones spec w)) [
          | inl (_, good) ↦
              ap (check_spec platform.zones spec) (sym ((text_eq_iff w v).0 same)) ∙ good
          | inr (_, bad) ↦ absurd (ground (arith, bad, now))
        ]
      ]

  settle-values :
      (path q : ConfigPath) (l : Location) (c : Option Text) (v : Text) (vs : Values)
      → is_place platform l ≡ true
      → check_types platform l (node c (values vs)) q ≡ []
      → has_value v vs ≡ true
      → settle platform.zones path l (some v) ≡ ok tt
  unfolding settle check_types check_leaf check_multi check_flag descend check_instances has_value
  settle-values path q (node_of (schema_node (leaf spec) t m)) c v (w ∷ []) place h e =
      rw (judged_one spec q v (w ∷ []) h e) refl
  settle-values path q (node_of (schema_node (leaf spec) t m)) c v (w ∷ x ∷ vs) place h e =
      absurd cc
  settle-values path q (node_of (schema_node (multi_leaf spec) t m)) c v (w ∷ vs) place h e =
      rw (judged_one spec q v (w ∷ vs) h e) refl
  settle-values path q (node_of (schema_node flag t m)) c v (w ∷ vs) place h e = absurd cc
  settle-values path q (node_of (schema_node container t m)) c v vs place h e = absurd cc
  settle-values path q (node_of (schema_node (tag spec) t m)) c v vs place h e = absurd cc
  settle-values path q (instance_of n) c v vs place h e = absurd cc
  settle-values path q l c v [] place h e = absurd cc
  settle-values path q (value_of n) c v vs place h e = absurd cc

  settle-none :
      (path q : ConfigPath) (l : Location) (c : Option Text)
      → is_place platform l ≡ true
      → check_types platform l (node c (values [])) q ≡ []
      → settle platform.zones path l none ≡ ok tt
  unfolding settle check_types check_leaf check_multi check_flag descend check_instances
  settle-none path q (node_of (schema_node flag t m)) c place h = refl
  settle-none path q (node_of (schema_node (leaf spec) t m)) c place h = absurd cc
  settle-none path q (node_of (schema_node (multi_leaf spec) t m)) c place h = absurd cc
  settle-none path q (node_of (schema_node container t m)) c place h = absurd cc
  settle-none path q (node_of (schema_node (tag spec) t m)) c place h = absurd cc
  settle-none path q (instance_of n) c place h = absurd cc
  settle-none path q (value_of n) c place h = absurd cc

  module _ (schema : Schema) (config : ConfigTree) (path : ConfigPath) (c : Option Text)
      (vs : Values) (valid : validate_tree platform schema config ≡ [])
      (there : get config path ≡ some (node c (values vs))) where
    -- Of a leaf in a configuration in which validation finds nothing, at whatever path, each value
    -- is one that a set of the path would accept, the keys on the way included; a leaf without
    -- values is a flag, that a set without a value would accept.
    pub validate_set-validate_tree :
        ((v : Text)
          → has_value v vs ≡ true
          → validate_set platform.zones schema path (some v) ≡ ok tt)
        × (vs ≡ [] → validate_set platform.zones schema path none ≡ ok tt)
    unfolding validate_set validate_tree get
    validate_set-validate_tree =
        let (k, q, walked, place, fine) =
          located path [] (node_of schema.root) config.root (node c (values vs)) refl valid there in
        (
          λ v e. rw (walked, validate_set) (settle-values path q k c v vs place fine e),
          λ e.
              rw (walked, validate_set)
                (settle-none path q k c place
                  (ap (λ w. check_types platform k (node c (values w)) q) (sym e) ∙ fine)),
        )
