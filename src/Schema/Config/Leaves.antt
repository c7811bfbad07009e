-- ===== src/Schema/Config/Leaves.antt =====
-- The edits of leaves: `set`, `add`, `set_flag`, `declare_leaf`, and `ensure_interior`.
use nightshade.Shared.{
  [], ◌∷◌, true, false, Option, none, some, ◌≡◌, arith, Option-cases, inl, inr, ◌≢◌, ◌||◌,
}
use nightshade.Shared.Text.{Text, text_eq, text_eq_refl}
use nightshade.Shared.Result.{ok, err}
use nightshade.Schema.Path.{ConfigPath, split_last, split_last-append}
use nightshade.Schema.Entries.{
  Node, Children, node, interior, values, nil, find, find-insert, find-replace,
}
use nightshade.Schema.ValueSet.{Values, singleton, add_value, has_value, has_value-add_value}
use nightshade.Schema.Config.{
  TreeError, not_a_leaf, Outcome, values_node, ConfigTree, get, leaf_entry, interior_entry,
  edit_leaf, set, add, set_flag, declare_leaf, ensure_interior, comment,
}
use nightshade.Schema.Config.Edits.{
  diverges, children_at, get_node-children_at, parent_of_err, get-parent_of_self, get-parent_of_ne,
  parent_of_there,
}

-- What a leaf edit leaves at the path, from what was there.
abbrev leaf_after : (Values → Values) → Values → Option Node → Option Node
leaf_after change fresh none = some (values_node fresh)
leaf_after change fresh (some (node c (values v))) = some (node c (values (change v)))
leaf_after change fresh (some (node c (interior m))) = some (node c (interior m))

module _ (full : ConfigPath) (change : Values → Values) (fresh : Values) where
  leaf_entry_err :
      (last : Text) (m : Children) (e : TreeError)
      → (leaf_entry full change fresh last m).1 ≡ err e
      → (leaf_entry full change fresh last m).0 ≡ m
  unfolding leaf_entry
  leaf_entry_err last m e h = ground arith

  leaf_entry_fresh :
      (last : Text) (e : TreeError) → (leaf_entry full change fresh last nil).1 ≢ err e
  unfolding leaf_entry find
  leaf_entry_fresh last e h = cc

  leaf_entry_self :
      (last : Text) (m : Children)
      → find last (leaf_entry full change fresh last m).0 ≡ leaf_after change fresh (find last m)
  unfolding leaf_entry
  leaf_entry_self last m = elim (Option-cases (find last m)) [
    | inl gone ↦
        ground (arith, gone, find-insert last last (values_node fresh) m, text_eq_refl last)
    | inr (node c (values v), there) ↦
        ground
          (arith, there, text_eq_refl last, find-replace last last (node c (values (change v))) m)
    | inr (node c (interior k), there) ↦ ground (arith, there)
  ]

  leaf_entry_ne :
      (last : Text) (m : Children) (j : Text)
      → text_eq last j ≡ false
      → find j (leaf_entry full change fresh last m).0 ≡ find j m
  unfolding leaf_entry
  leaf_entry_ne last m j h = elim (Option-cases (find last m)) [
    | inl gone ↦ ground (arith, gone, find-insert last j (values_node fresh) m)
    | inr (node c (values v), there) ↦
        ground (arith, there, find-replace last j (node c (values (change v))) m)
    | inr (node c (interior k), there) ↦ ground (arith, there)
  ]

-- The five edits as one type, for what they have in common.
pub data Edit : Type 0 where
  to_value with_value : Text → Edit
  to_flag to_leaf to_interior : Edit

abbrev pub run_edit : Edit → ConfigTree → ConfigPath → ConfigTree × Outcome
run_edit (to_value v) t p = set t p v
run_edit (with_value v) t p = add t p v
run_edit to_flag t p = set_flag t p
run_edit to_leaf t p = declare_leaf t p
run_edit to_interior t p = ensure_interior t p

module _ (t : ConfigTree) (p : ConfigPath) where
  edit_leaf_err :
      (change : Values → Values) (fresh : Values) (e : TreeError)
      → (edit_leaf t p change fresh).1 ≡ err e
      → (edit_leaf t p change fresh).0 ≡ t
  unfolding edit_leaf
  edit_leaf_err change fresh e h = elim (Option-cases (split_last p)) [
    | inl gone ↦ ground (arith, gone)
    | inr ((ps, last), e') ↦ ground (
      arith,
      e',
      parent_of_err (leaf_entry p change fresh last) p (leaf_entry_err p change fresh last)
          (leaf_entry_fresh p change fresh last) ps [] t.root e,
    )
  ]

  edit_leaf_self :
      (change : Values → Values) (fresh : Values)
      → (edit_leaf t p change fresh).1 ≡ ok tt
      → get (edit_leaf t p change fresh).0 p ≡ leaf_after change fresh (get t p)
  unfolding edit_leaf get
  edit_leaf_self change fresh h = elim (Option-cases (split_last p)) [
    | inl gone ↦ ground (arith, gone)
    | inr ((ps, last), e') ↦ ground (
      arith,
      e',
      split_last-append p ps last e',
      get-parent_of_self (leaf_entry p change fresh last) p ps [] last t.root,
      leaf_entry_self p change fresh last (children_at ps t.root),
      get_node-children_at ps last t.root,
    )
  ]

  edit_leaf_ne :
      (change : Values → Values) (fresh : Values) (q : ConfigPath)
      → diverges p q ≡ true
      → get (edit_leaf t p change fresh).0 q ≡ get t q
  unfolding edit_leaf get
  edit_leaf_ne change fresh q h = elim (Option-cases (split_last p)) [
    | inl gone ↦ ground (arith, gone)
    | inr ((ps, last), e') ↦ ground (
      arith,
      e',
      split_last-append p ps last e',
      get-parent_of_ne (leaf_entry p change fresh last) p last (leaf_entry_ne p change fresh last)
          ps [] q t.root,
    )
  ]

  edit_leaf_interior :
      (change : Values → Values) (fresh : Values) (c : Option Text) (m : Children)
      → get t p ≡ some (node c (interior m))
      → (edit_leaf t p change fresh).1 ≡ err (not_a_leaf p)
  unfolding edit_leaf get
  edit_leaf_interior change fresh c m h = elim (Option-cases (split_last p)) [
    | inl gone ↦ ground (arith, gone)
    | inr ((ps, last), e') ↦ ground (
      arith,
      e',
      split_last-append p ps last e',
      parent_of_there (leaf_entry p change fresh last) p ps [] last t.root (node c (interior m)),
      get_node-children_at ps last t.root,
    )
  ]

  ensure_interior_err :
      (e : TreeError) → (ensure_interior t p).1 ≡ err e → (ensure_interior t p).0 ≡ t
  unfolding ensure_interior find
  ensure_interior_err e h = elim (Option-cases (split_last p)) [
    | inl gone ↦ ground (arith, gone)
    | inr ((ps, last), e') ↦ ground (
      arith,
      e',
      parent_of_err (interior_entry p last) p (λ m e₁ h₁. ground arith) (λ e₁ h₁. cc) ps [] t.root
          e,
    )
  ]

-- An edit of the tree that is refused, of whichever of the five kinds, leaves the tree as it was,
-- although the nodes on the way may be made before the refusal.
pub run_edit_err :
    (k : Edit) (t : ConfigTree) (p : ConfigPath) (e : TreeError)
    → (run_edit k t p).1 ≡ err e
    → (run_edit k t p).0 ≡ t
unfolding set add set_flag declare_leaf
run_edit_err (to_value v) t p e h = edit_leaf_err t p (λ _. singleton v) (singleton v) e h
run_edit_err (with_value v) t p e h = edit_leaf_err t p (add_value v) (singleton v) e h
run_edit_err to_flag t p e h = edit_leaf_err t p (λ _. []) [] e h
run_edit_err to_leaf t p e h = edit_leaf_err t p (λ v. v) [] e h
run_edit_err to_interior t p e h = ensure_interior_err t p e h

-- What a node notes about itself, if there is one.
abbrev pub noted : Option Node → Option Text
noted none = none
noted (some n) = comment n

-- The values held at a path; none where there is no leaf.
abbrev pub held : Option Node → Values
held (some (node c (values v))) = v
held _ = []

abbrev values_after : (Values → Values) → Values → Option Node → Values
values_after change fresh none = fresh
values_after change fresh (some (node c (values v))) = change v
values_after change fresh (some (node c (interior m))) = fresh

edit_leaf_done :
    (t : ConfigTree) (p : ConfigPath) (change : Values → Values) (fresh : Values)
    → (edit_leaf t p change fresh).1 ≡ ok tt
    → get (edit_leaf t p change fresh).0 p
      ≡ some (node (noted (get t p)) (values (values_after change fresh (get t p))))
edit_leaf_done t p change fresh h = elim (Option-cases (get t p)) [
  | inl gone ↦ rw (edit_leaf_self t p change fresh h, gone)
  | inr (node c (values v), there) ↦ rw (edit_leaf_self t p change fresh h, there)
  | inr (node c (interior m), there) ↦ cc (h, edit_leaf_interior t p change fresh c m there)
]

module _ (t : ConfigTree) (p : ConfigPath) (v : Text) where
  set_self :
      (set t p v).1 ≡ ok tt → get (set t p v).0 p ≡ some (node (noted (get t p)) (values (v ∷ [])))
  unfolding set
  set_self h = elim (Option-cases (get t p)) [
    | inl gone ↦ ground (arith, gone, edit_leaf_done t p (λ _. singleton v) (singleton v) h)
    | inr (node c (values w), there) ↦
        ground (arith, there, edit_leaf_done t p (λ _. singleton v) (singleton v) h)
    | inr (node c (interior m), there) ↦
        ground (arith, there, edit_leaf_done t p (λ _. singleton v) (singleton v) h)
  ]

  -- After a set that succeeds the path holds that one value under the comment that it had, and
  -- every path that leaves it holds what it held.
  pub get-set :
      (q : ConfigPath)
      → (set t p v).1 ≡ ok tt
      → (get (set t p v).0 p ≡ some (node (noted (get t p)) (values (v ∷ []))))
        × (diverges p q ≡ true → get (set t p v).0 q ≡ get t q)
  unfolding set
  get-set q h = (set_self h, edit_leaf_ne t p (λ _. singleton v) (singleton v) q)

  added :
      (o : Option Node) (w : Text)
      → has_value w (values_after (add_value v) (singleton v) o)
        ≡ (text_eq v w || has_value w (held o))
  unfolding has_value
  added none w = ground arith
  added (some (node c (values vs))) w = has_value-add_value v w vs
  added (some (node c (interior m))) w = ground arith

  -- After an add that succeeds the path holds the value, and of the others exactly those that it
  -- held.
  pub has_value-add :
      (w : Text)
      → (add t p v).1 ≡ ok tt
      → (vs : Values) × (get (add t p v).0 p ≡ some (node (noted (get t p)) (values vs)))
        × (has_value w vs ≡ (text_eq v w || has_value w (held (get t p))))
  unfolding add
  has_value-add w h = (
    values_after (add_value v) (singleton v) (get t p),
    edit_leaf_done t p (add_value v) (singleton v) h,
    added (get t p) w,
  )
