-- ===== src/Schema/Validate/Sets.antt =====
-- src/nightshade-schema/src/validate.rs: a `set` keeps a valid configuration valid.
use nightshade.Shared.{
  [], ◌∷◌, ◌++◌, Option, none, some, ◌≡◌, refl, ap, ◌∙◌, arith, Option-cases, inl, inr,
}
use nightshade.Shared.Text.{Text}
use nightshade.Shared.Result.{ok, err}
use nightshade.Schema.Path.{ConfigPath, child, split_last, split_last-append}
use nightshade.Schema.Entries.{Node, Children, node, interior, values, find, insert}
use nightshade.Schema.ValueSet.{Values}
use nightshade.Schema.Config.{
  ConfigTree, interior_node, values_node, leaf_entry, leaf_over, interior_entry, edit_leaf,
  ensure_interior, not_a_leaf,
}
use nightshade.Schema.Config.Edits.{edit_entry-root}
use nightshade.Schema.Model.{Location, node_of, Schema}
use nightshade.Schema.Validate.{Platform}
use nightshade.Schema.Validate.Setting.{enter, walk}
use nightshade.Schema.Validate.Types.{check_types, validate_tree}
use nightshade.Schema.Validate.Fits.{Every, Every-find, Every-insert, Every-replace, IsFitting}
use nightshade.Schema.Validate.Keeps.{parent_of_keeps}

module _ (platform : Platform) where
  -- Where a location takes some values and takes what a change makes of the values it takes.
  abbrev pub TakesChange : Location → (Values → Values) → Values → Type 0
  TakesChange out change fresh =
      ((at : ConfigPath) → check_types platform out (values_node fresh) at ≡ [])
      × ((at : ConfigPath) (c : Option Text) (v : Values)
          → check_types platform out (node c (values v)) at ≡ []
          → check_types platform out (node c (values (change v))) at ≡ [])

  module _ (full : ConfigPath) (last : Text) (m : Children) where
    leaf_entry-none :
        (change : Values → Values) (made : Values)
        → find last m ≡ none
        → (leaf_entry full change made last m).0 ≡ insert last (values_node made) m
    unfolding leaf_entry
    leaf_entry-none change made e = rw (e, leaf_entry) refl

    leaf_entry-some :
        (change : Values → Values) (made : Values) (n : Node)
        → find last m ≡ some n
        → (leaf_entry full change made last m).0 ≡ (leaf_over full last change m n).0
    unfolding leaf_entry
    leaf_entry-some change made n e = rw (e, leaf_entry) refl

    interior_entry-none :
        find last m ≡ none → (interior_entry full last m).0 ≡ insert last interior_node m
    unfolding interior_entry
    interior_entry-none e = rw (e, interior_entry) refl

    interior_entry-some : (n : Node) → find last m ≡ some n → (interior_entry full last m).0 ≡ m
    unfolding interior_entry
    interior_entry-some n e = rw (e, interior_entry) refl

  leaf_entry_keeps :
      (full : ConfigPath) (change : Values → Values) (new_values : Values) (last : Text)
      (out : Location)
      → TakesChange out change new_values
      → (at : ConfigPath) (l : Location) (m : Children)
      → enter platform.zones (child at last) last l ≡ ok out
      → Every (IsFitting platform l at) m
      → Every (IsFitting platform l at) (leaf_entry full change new_values last m).0
  unfolding leaf_over
  leaf_entry_keeps full change new_values last out (made, changed) at l m led fit =
      elim (Option-cases (find last m)) [
        | inl gone ↦ rw (leaf_entry-none full last m change new_values gone) (
            Every-insert (IsFitting platform l at) last (values_node new_values) m
              (out, led, made (child at last)) fit)
        | inr (node c (interior k), there) ↦
            rw (leaf_entry-some full last m change new_values (node c (interior k)) there) fit
        | inr (node c (values v), there) ↦
            let (out', led', good) =
              Every-find (IsFitting platform l at) last (node c (values v)) m fit there in
            let good' : check_types platform out (node c (values v)) (child at last) ≡ [] =
              ground (arith, led, led', good) in
            rw (leaf_entry-some full last m change new_values (node c (values v)) there) (
              Every-replace (IsFitting platform l at) last (node c (values (change v))) m
                (out, led, changed (child at last) c v good') fit)
      ]

  module _ (schema : Schema) (t : ConfigTree) (path : ConfigPath) (out : Location)
      (led : walk platform.zones [] path (node_of schema.root) ≡ ok out)
      (valid : validate_tree platform schema t ≡ []) where
    pub edit_leaf_keeps :
        (change : Values → Values) (new_values : Values)
        → TakesChange out change new_values
        → validate_tree platform schema (edit_leaf t path change new_values).0 ≡ []
    unfolding edit_leaf validate_tree
    edit_leaf_keeps change new_values takes = elim (Option-cases (split_last path)) [
      | inl gone ↦ ground (arith, gone, valid)
      | inr ((ps, last), e) ↦
          let led' : walk platform.zones [] (ps ++ last ∷ []) (node_of schema.root) ≡ ok out =
            ground (arith, led, split_last-append path ps last e) in
          ap (λ n. check_types platform (node_of schema.root) n [])
            (edit_entry-root t path ps last (err (not_a_leaf path))
              (leaf_entry path change new_values) e)
          ∙ (parent_of_keeps platform path (leaf_entry path change new_values last) last out
              (leaf_entry_keeps path change new_values last out takes) ps [] []
              (node_of schema.root) t.root led' valid)
    ]

    pub ensure_interior_keeps :
        ((at : ConfigPath) → check_types platform out interior_node at ≡ [])
        → validate_tree platform schema (ensure_interior t path).0 ≡ []
    unfolding ensure_interior validate_tree
    ensure_interior_keeps takes = elim (Option-cases (split_last path)) [
      | inl gone ↦ ground (arith, gone, valid)
      | inr ((ps, last), e) ↦
          let led' : walk platform.zones [] (ps ++ last ∷ []) (node_of schema.root) ≡ ok out =
            ground (arith, led, split_last-append path ps last e) in
          ap (λ n. check_types platform (node_of schema.root) n [])
            (edit_entry-root t path ps last (ok tt) (interior_entry path) e)
          ∙ (parent_of_keeps platform path (interior_entry path last) last out
              (λ at l m led fit. elim (Option-cases (find last m)) [
                | inl gone ↦ rw (interior_entry-none path last m gone) (
                    Every-insert (IsFitting platform l at) last interior_node m
                      (out, led, takes (child at last)) fit)
                | inr (n, there) ↦ rw (interior_entry-some path last m n there) fit
              ])
              ps [] [] (node_of schema.root) t.root led' valid)
    ]
