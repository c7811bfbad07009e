-- ===== src/Schema/Validate/Removal.antt =====
-- src/nightshade-schema/src/validate.rs: taking out of a node that is valid what is in it.
use nightshade.Shared.{
  [], ◌∷◌, Bool, true, false, Option, some, ◌≡◌, refl, arith, Option-cases, Bool-cases, inl, inr,
  append_nil, ◌≢◌,
}
use nightshade.Shared.Text.{Text, text_eq}
use nightshade.Schema.Path.{ConfigPath, child}
use nightshade.Schema.Entries.{Node, node, interior, values, find, replace, erase}
use nightshade.Schema.ValueSet.{Values, has_value, remove_value_from}
use nightshade.Schema.Config.{get_node, get_mut, erase_entry, drop_value, holds_no_value, value_set}
use nightshade.Schema.Value.{ValueSpec}
use nightshade.Schema.Model.{
  Location, schema_node, node_of, instance_of, value_of, container, tag, leaf, multi_leaf, flag,
}
use nightshade.Schema.Validate.{Platform}
use nightshade.Schema.Validate.Types.{
  check_types, check_leaf, check_multi, check_flag, judge_all, judged, descend, check_instances,
}
use nightshade.Schema.Validate.Fits.{
  Every-find, Every-replace, Every-erase, IsFitting, is_place, check_types_fits,
  check_types-takes_names, enter-place, fits-check_types,
}

module _ (platform : Platform) where
  -- An edit through `get_mut` that keeps the node it finds valid keeps the tree valid.
  pub get_mut_keeps :
      (edit : Node → Node × Bool) (p at : ConfigPath) (l : Location) (m : Node)
      → is_place platform l ≡ true
      → check_types platform l m at ≡ []
      → ((n : Node)
          → get_node p m ≡ some n
          → (q : ConfigPath) (k : Location) → is_place platform k ≡ true
          → check_types platform k n q ≡ []
          → check_types platform k (edit n).0 q ≡ [])
      → check_types platform l (get_mut p edit m).0 at ≡ []
  unfolding get_mut get_node
  get_mut_keeps edit [] at l m place good keep = keep m refl at l place good
  get_mut_keeps edit (s ∷ p) at l (node c (values v)) place good keep = good
  get_mut_keeps edit (s ∷ p) at l (node c (interior m)) place good keep =
      elim (Option-cases (find s m)) [
        | inl gone ↦ ground (arith, gone, good)
        | inr (k, there) ↦
            let P = IsFitting platform l at in
            let fit = check_types_fits platform c m at l place good in
            let (x, led, fine) = Every-find P s k m fit there in
            let place' = (enter-place platform (child at s) s l x led).1 in
            let kept : check_types platform x (get_mut p edit k).0 (child at s) ≡ [] =
              get_mut_keeps edit p (child at s) x k place' fine
                (λ n e. keep n (ground (arith, there, e))) in
            rw (there, get_mut)
              (fits-check_types platform c (replace s (get_mut p edit k).0 m) at l
                (check_types-takes_names platform c m at l place good)
                (Every-replace P s (get_mut p edit k).0 m (x, led, kept) fit))
      ]

  pub erase_entry_keeps :
      (last : Text) (n : Node) (q : ConfigPath) (k : Location)
      → is_place platform k ≡ true
      → check_types platform k n q ≡ []
      → check_types platform k (erase_entry last n).0 q ≡ []
  unfolding erase_entry
  erase_entry_keeps last (node c (values v)) q k place good = good
  erase_entry_keeps last (node c (interior m)) q k place good =
      fits-check_types platform c (erase last m) q k
        (check_types-takes_names platform c m q k place good)
        (Every-erase (IsFitting platform k q) last m (check_types_fits platform c m q k place good))

  judge_all-remove_value_from :
      (spec : ValueSpec) (at : ConfigPath) (v : Text) (vs : Values)
      → judge_all platform spec at vs ≡ []
      → judge_all platform spec at (remove_value_from v vs) ≡ []
  unfolding judge_all remove_value_from
  judge_all-remove_value_from spec at v [] h = refl
  judge_all-remove_value_from spec at v (w ∷ vs) h =
      let (now, later) =
        (append_nil (judged platform spec at w) (judge_all platform spec at vs)).0 h in
      let kept = judge_all-remove_value_from spec at v vs later in
      elim (Bool-cases (text_eq w v)) [
        | inl same ↦ rw same kept
        | inr other ↦ rw other (
            (append_nil (judged platform spec at w)
                (judge_all platform spec at (remove_value_from v vs))).1
              (now, kept))
      ]

  judge_all-check_multi :
      (spec : ValueSpec) (at : ConfigPath) (vs : Values)
      → vs ≢ []
      → judge_all platform spec at vs ≡ []
      → check_multi platform spec at (values vs) ≡ []
  unfolding check_multi
  judge_all-check_multi spec at [] some_left h = absurd (some_left refl)
  judge_all-check_multi spec at (v ∷ vs) some_left h = h

  remove_value_from_keeps :
      (v : Text) (c : Option Text) (vs : Values) (q : ConfigPath) (k : Location)
      → remove_value_from v vs ≢ []
      → is_place platform k ≡ true
      → check_types platform k (node c (values vs)) q ≡ []
      → check_types platform k (node c (values (remove_value_from v vs))) q ≡ []
  unfolding check_types check_leaf check_multi check_flag descend check_instances remove_value_from
  remove_value_from_keeps v c (w ∷ vs) q (node_of (schema_node (multi_leaf spec) t m)) some_left
        place h =
      judge_all-check_multi spec q (remove_value_from v (w ∷ vs)) some_left
        (judge_all-remove_value_from spec q v (w ∷ vs) h)
  remove_value_from_keeps v c (w ∷ []) q (node_of (schema_node (leaf spec) t m)) some_left place h =
      elim (Bool-cases (text_eq w v)) [
        | inl same ↦ absurd (some_left (ground (arith, same)))
        | inr other ↦ rw (other, remove_value_from) h
      ]
  remove_value_from_keeps v c [] q k some_left place h = absurd (some_left refl)
  remove_value_from_keeps v c (w ∷ x ∷ vs) q (node_of (schema_node (leaf spec) t m)) some_left place
        h =
      absurd cc
  remove_value_from_keeps v c (w ∷ vs) q (node_of (schema_node flag t m)) some_left place h =
      absurd cc
  remove_value_from_keeps v c vs q (node_of (schema_node container t m)) some_left place h =
      absurd cc
  remove_value_from_keeps v c vs q (node_of (schema_node (tag spec) t m)) some_left place h =
      absurd cc
  remove_value_from_keeps v c vs q (instance_of n) some_left place h = absurd cc
  remove_value_from_keeps v c vs q (value_of n) some_left place h = absurd cc

  pub drop_value_keeps :
      (v : Text) (n : Node) (q : ConfigPath) (k : Location)
      → holds_no_value (value_set (drop_value v n).0) ≡ false
      → is_place platform k ≡ true
      → check_types platform k n q ≡ []
      → check_types platform k (drop_value v n).0 q ≡ []
  unfolding drop_value holds_no_value value_set
  drop_value_keeps v (node c (interior m)) q k left place h = h
  drop_value_keeps v (node c (values vs)) q k left place h = elim (Bool-cases (has_value v vs)) [
    | inr out ↦ ground (arith, out, h)
    | inl held ↦
        rw (held, drop_value)
          (remove_value_from_keeps v c vs q k (λ e. ground (arith, held, e, left)) place h)
  ]
