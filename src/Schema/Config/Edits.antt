-- ===== src/Schema/Config/Edits.antt =====
-- What an edit under the parent of a path does to the tree, whatever the edit is.
use nightshade.Shared.{
  [], ◌∷◌, ◌++◌, Bool, true, false, none, some, if◌then◌else◌, ◌≡◌, refl, arith, Option-cases, inl,
  inr, ◌≢◌,
}
use nightshade.Shared.Text.{Text, text_eq, text_eq_refl, text_eq_iff}
use nightshade.Shared.Result.{ok, err}
use nightshade.Schema.Path.{ConfigPath, split_last}
use nightshade.Schema.Entries.{
  Node, Children, node, interior, values, nil, find, find-insert, find-replace, replace_self,
}
use nightshade.Schema.Config.{
  TreeError, Outcome, ConfigTree, interior_node, get_node, parent_of, edit_entry,
}

-- A path that leaves another one: they differ at a segment that both have.
abbrev pub diverges : ConfigPath → ConfigPath → Bool
diverges [] q = false
diverges (s ∷ p) [] = false
diverges (s ∷ p) (t ∷ q) = if text_eq s t then diverges p q else true

-- The map that `parent_of` finds or makes.
abbrev pub children_at : ConfigPath → Node → Children
children_at ps (node c (values v)) = nil
children_at [] (node c (interior m)) = m
children_at (s ∷ ps) (node c (interior m)) = elim (find s m) [
  | none ↦ nil
  | some n ↦ children_at ps n
]

children_at-fresh : (ps : ConfigPath) → children_at ps interior_node ≡ nil
unfolding find
children_at-fresh [] = refl
children_at-fresh (s ∷ ps) = refl

get_node-fresh : (p q : ConfigPath) → diverges p q ≡ true → get_node q interior_node ≡ none
unfolding get_node find
get_node-fresh [] q h = cc
get_node-fresh (s ∷ p) [] h = cc
get_node-fresh (s ∷ p) (t ∷ q) h = refl

pub get_node-children_at :
    (ps : ConfigPath) (last : Text) (n : Node)
    → get_node (ps ++ last ∷ []) n ≡ find last (children_at ps n)
unfolding get_node find
get_node-children_at [] last (node c (interior m)) = ground arith
get_node-children_at [] last (node c (values v)) = refl
get_node-children_at (s ∷ ps) last (node c (interior m)) = elim (Option-cases (find s m)) [
  | inl gone ↦ ground (arith, gone)
  | inr (n, there) ↦ ground (arith, there, get_node-children_at ps last n)
]
get_node-children_at (s ∷ ps) last (node c (values v)) = refl

module _ (edit : Children → Children × Outcome) (full : ConfigPath) where
  -- An edit that succeeds on an empty map succeeds under parents that are made for it.
  parent_of_fresh :
      ((e : TreeError) → (edit nil).1 ≢ err e)
      → (ps w : ConfigPath) (e : TreeError) → (parent_of ps w full edit interior_node).1 ≢ err e
  unfolding parent_of find
  parent_of_fresh fresh [] w e = fresh e
  parent_of_fresh fresh (s ∷ ps) w e = parent_of_fresh fresh ps (w ++ s ∷ []) e

  -- A refused edit leaves the node as it was: no parent is made on the way to a refusal.
  pub parent_of_err :
      ((m : Children) (e : TreeError) → (edit m).1 ≡ err e → (edit m).0 ≡ m)
      → ((e : TreeError) → (edit nil).1 ≢ err e)
      → (ps w : ConfigPath) (n : Node) (e : TreeError) → (parent_of ps w full edit n).1 ≡ err e
      → (parent_of ps w full edit n).0 ≡ n
  unfolding parent_of
  parent_of_err keep fresh [] w (node c (interior m)) e h = ground (arith, keep m e h)
  parent_of_err keep fresh (s ∷ ps) w (node c (interior m)) e h = elim (Option-cases (find s m)) [
    | inl gone ↦ ground (arith, gone, parent_of_fresh fresh ps (w ++ s ∷ []) e)
    | inr (n, there) ↦
        ground
          (arith, there, parent_of_err keep fresh ps (w ++ s ∷ []) n e, replace_self s n m there)
  ]
  parent_of_err keep fresh [] w (node c (values v)) e h = refl
  parent_of_err keep fresh (s ∷ ps) w (node c (values v)) e h = refl

  -- Where the edit is done, the edited entry is found at the path.
  pub get-parent_of_self :
      (ps w : ConfigPath) (last : Text) (n : Node)
      → (parent_of ps w full edit n).1 ≡ ok tt
      → get_node (ps ++ last ∷ []) (parent_of ps w full edit n).0
        ≡ find last (edit (children_at ps n)).0
  unfolding parent_of get_node
  get-parent_of_self [] w last (node c (interior m)) h = ground arith
  get-parent_of_self (s ∷ ps) w last (node c (interior m)) h = elim (Option-cases (find s m)) [
    | inl gone ↦ ground (
      arith,
      gone,
      get-parent_of_self ps (w ++ s ∷ []) last interior_node,
      children_at-fresh ps,
      text_eq_refl s,
      find-insert s s (parent_of ps (w ++ s ∷ []) full edit interior_node).0 m,
    )
    | inr (n, there) ↦ ground (
      arith,
      there,
      get-parent_of_self ps (w ++ s ∷ []) last n,
      text_eq_refl s,
      find-replace s s (parent_of ps (w ++ s ∷ []) full edit n).0 m,
    )
  ]
  get-parent_of_self ps w last (node c (values v)) h = cc

  -- Every path that leaves the edited one has what it had.
  pub get-parent_of_ne :
      (last : Text)
      → ((m : Children) (j : Text) → text_eq last j ≡ false → find j (edit m).0 ≡ find j m)
      → (ps w q : ConfigPath) (n : Node) → diverges (ps ++ last ∷ []) q ≡ true
      → get_node q (parent_of ps w full edit n).0 ≡ get_node q n
  unfolding parent_of get_node
  get-parent_of_ne last other [] w (t ∷ q) (node c (interior m)) h = ground (arith, other m t)
  get-parent_of_ne last other (s ∷ ps) w (t ∷ q) (node c (interior m)) h =
      elim (Option-cases (find s m)) [
        | inl gone ↦ ground (
          arith,
          gone,
          get-parent_of_ne last other ps (w ++ s ∷ []) q interior_node,
          get_node-fresh (ps ++ last ∷ []) q,
          text_eq_iff s t,
          find-insert s t (parent_of ps (w ++ s ∷ []) full edit interior_node).0 m,
        )
        | inr (n, there) ↦ ground (
          arith,
          there,
          get-parent_of_ne last other ps (w ++ s ∷ []) q n,
          text_eq_iff s t,
          find-replace s t (parent_of ps (w ++ s ∷ []) full edit n).0 m,
        )
      ]
  get-parent_of_ne last other [] w [] (node c (interior m)) h = cc
  get-parent_of_ne last other (s ∷ ps) w [] (node c (interior m)) h = cc
  get-parent_of_ne last other ps w q (node c (values v)) h = refl

  -- Where the path is there, the answer is that of the edit on the map found.
  pub parent_of_there :
      (ps w : ConfigPath) (last : Text) (n x : Node)
      → get_node (ps ++ last ∷ []) n ≡ some x
      → (parent_of ps w full edit n).1 ≡ (edit (children_at ps n)).1
  unfolding parent_of get_node
  parent_of_there [] w last (node c (interior m)) x h = ground arith
  parent_of_there (s ∷ ps) w last (node c (interior m)) x h = elim (Option-cases (find s m)) [
    | inl gone ↦ ground (arith, gone)
    | inr (n, there) ↦ ground (arith, there, parent_of_there ps (w ++ s ∷ []) last n x)
  ]
  parent_of_there [] w last (node c (values v)) x h = cc
  parent_of_there (s ∷ ps) w last (node c (values v)) x h = cc

pub edit_entry-root :
    (t : ConfigTree) (path ps : ConfigPath) (last : Text) (at_root : Outcome)
    (edit : Text → Children → Children × Outcome)
    → split_last path ≡ some (ps, last)
    → (edit_entry t path at_root edit).0.root ≡ (parent_of ps [] path (edit last) t.root).0
unfolding edit_entry
edit_entry-root t path ps last at_root edit e = rw (e, edit_entry) refl
