-- ===== src/Schema/Config/Removal.antt =====
-- What taking nodes out through `get_mut` comes to.
use nightshade.Shared.{
  [], ◌∷◌, ◌++◌, Bool, true, false, none, some, ◌≡◌, refl, arith, Option-cases, Bool-cases, inl,
  inr,
}
use nightshade.Shared.Text.{Text, text_eq_refl}
use nightshade.Schema.Path.{ConfigPath, split_last}
use nightshade.Schema.Entries.{
  Node, Children, node, interior, values, nil, entry, find, replace, erase, find-replace,
}
use nightshade.Schema.Config.{
  ConfigTree, new, get_node, get_mut, erase_entry, drop_value, holds_no_value, values_at, remove,
  remove_value,
}

-- An entry that is not there is not taken out.
pub erase-none : (k : Text) (m : Children) → find k m ≡ none → erase k m ≡ m
unfolding find erase
erase-none k nil h = refl
erase-none k (entry j n m) h = ground (arith, erase-none k m)

erase-replace : (k : Text) (n : Node) (m : Children) → erase k (replace k n m) ≡ erase k m
unfolding replace erase
erase-replace k n nil = refl
erase-replace k n (entry j o m) = ground (arith, erase-replace k n m)

replace-replace :
    (k : Text) (a b : Node) (m : Children) → replace k a (replace k b m) ≡ replace k a m
unfolding replace
replace-replace k a b nil = refl
replace-replace k a b (entry j o m) = ground (arith, replace-replace k a b m)

pub find-replace_self :
    (k : Text) (a b : Node) (m : Children) → find k m ≡ some b → find k (replace k a m) ≡ some a
find-replace_self k a b m e = ground (arith, e, find-replace k k a m, text_eq_refl k)

-- What is found at a path after an edit of what was found there.
pub get_node-get_mut :
    (p : ConfigPath) (edit : Node → Node × Bool) (m n : Node)
    → get_node p m ≡ some n
    → get_node p (get_mut p edit m).0 ≡ some (edit n).0
unfolding get_node get_mut
get_node-get_mut [] edit m n h = ground arith
get_node-get_mut (s ∷ p) edit (node c (values v)) n h = absurd cc
get_node-get_mut (s ∷ p) edit (node c (interior m)) n h = elim (Option-cases (find s m)) [
  | inl gone ↦ absurd (ground (arith, gone))
  | inr (k, there) ↦ ground (
    arith,
    there,
    get_node-get_mut p edit k n,
    find-replace_self s (get_mut p edit k).0 k m there,
  )
]

-- Taking out a node that was edited is taking it out.
pub get_mut-erase_entry :
    (ps : ConfigPath) (last : Text) (edit : Node → Node × Bool) (m : Node)
    → (get_mut ps (erase_entry last) (get_mut (ps ++ last ∷ []) edit m).0).0
      ≡ (get_mut ps (erase_entry last) m).0
unfolding get_mut erase_entry
get_mut-erase_entry [] last edit (node c (values v)) = refl
get_mut-erase_entry [] last edit (node c (interior m)) = elim (Option-cases (find last m)) [
  | inl gone ↦ ground (arith, gone)
  | inr (k, there) ↦ ground (arith, there, erase-replace last (edit k).0 m)
]
get_mut-erase_entry (s ∷ ps) last edit (node c (values v)) = refl
get_mut-erase_entry (s ∷ ps) last edit (node c (interior m)) = elim (Option-cases (find s m)) [
  | inl gone ↦ ground (arith, gone)
  | inr (k, there) ↦ ground (
    arith,
    there,
    get_mut-erase_entry ps last edit k,
    find-replace_self s (get_mut (ps ++ last ∷ []) edit k).0 k m there,
    replace-replace s (get_mut ps (erase_entry last) k).0 (get_mut (ps ++ last ∷ []) edit k).0 m,
  )
]

pub get_mut-done :
    (p : ConfigPath) (edit : Node → Node × Bool) (m : Node)
    → (get_mut p edit m).1 ≡ elim (get_node p m) [ none ↦ false | some n ↦ (edit n).1 ]
unfolding get_node get_mut
get_mut-done [] edit m = refl
get_mut-done (s ∷ p) edit (node c (values v)) = refl
get_mut-done (s ∷ p) edit (node c (interior m)) = elim (Option-cases (find s m)) [
  | inl gone ↦ ground (arith, gone)
  | inr (k, there) ↦ ground (arith, there, get_mut-done p edit k)
]

module _ (t : ConfigTree) (path : ConfigPath) where
  pub remove_root : split_last path ≡ none → (remove t path).0 ≡ new
  unfolding remove
  remove_root e = ground (arith, e)

  pub remove-get_mut :
      (ps : ConfigPath) (last : Text)
      → split_last path ≡ some (ps, last)
      → (remove t path).0.root ≡ (get_mut ps (erase_entry last) t.root).0
  unfolding remove
  remove-get_mut ps last e = rw (e, remove) refl

  module _ (v : Text) where
    abbrev pub dropped : Node × Bool
    dropped = get_mut path (drop_value v) t.root

    abbrev pub dropped_tree : ConfigTree
    dropped_tree = record { root = dropped.0 }

    pub remove_value_undone : dropped.1 ≡ false → (remove_value t path v).0.root ≡ dropped.0
    unfolding remove_value
    remove_value_undone e = ground (arith, e)

    pub remove_value_left :
        holds_no_value (values_at dropped_tree path) ≡ false
        → (remove_value t path v).0.root ≡ dropped.0
    unfolding remove_value
    remove_value_left e = ground (arith, e, Bool-cases dropped.1)

    pub remove_value_emptied :
        dropped.1 ≡ true
        → holds_no_value (values_at dropped_tree path) ≡ true
        → (remove_value t path v).0 ≡ (remove dropped_tree path).0
    unfolding remove_value
    remove_value_emptied e h = ground (arith, e, h)
