-- ===== src/Schema/Config.antt =====
-- src/nightshade-schema/src/config.rs: the configuration tree and its edits.
--
-- A `BTreeMap<String, Node>` is a list of entries kept in the order of its keys, and a
-- `BTreeSet<String>` a list of values kept in order. An edit through `&mut` returns the new tree
-- beside its result, also where it fails, so that what a failed edit leaves behind is visible.
pub mod Edits
pub mod Leaves
pub mod Removal
use nightshade.Shared.{
  ℕ, List, [], ◌∷◌, ◌++◌, Bool, true, false, Option, none, some, if◌then◌else◌, is_nil, length,
  is_some,
}
use nightshade.Shared.Text.{Text}
use nightshade.Shared.Result.{Result, ok, err}
use nightshade.Schema.Path.{ConfigPath, split_last}
use nightshade.Schema.Entries.{
  Node, Body, Children, node, interior, values, nil, entry, find, insert, replace, erase,
}
use nightshade.Schema.ValueSet.{Values, singleton, add_value, remove_value_from, has_value}

pub data TreeError : Type 0 where
  not_interior : ConfigPath → ConfigPath → TreeError
  not_a_container : ConfigPath → TreeError
  not_a_leaf : ConfigPath → TreeError

abbrev pub Outcome : Type 0
Outcome = Result TreeError (Unit {0})

abbrev pub interior_node : Node
interior_node = node none (interior nil)

abbrev pub values_node : Values → Node
values_node v = node none (values v)

-- A valueless leaf.
abbrev pub flag : Node
flag = values_node []

unfoldable pub children_of : Node → Option Children
children_of (node c (interior m)) = some m
children_of (node c (values v)) = none

unfoldable pub value_set : Node → Option Values
value_set (node c (interior m)) = none
value_set (node c (values v)) = some v

-- The single value of a leaf.
unfoldable pub value : Node → Option Text
value (node c (values (v ∷ []))) = some v
value _ = none

abbrev pub is_interior : Node → Bool
is_interior (node c (interior m)) = true
is_interior (node c (values v)) = false

abbrev pub comment : Node → Option Text
comment (node c b) = c

pub record ConfigTree : Type 0 where
  pub root : Node

abbrev pub new : ConfigTree
new = record { root = interior_node }

abbrev pub from_children : Children → ConfigTree
from_children m = record { root = node none (interior m) }

unfoldable pub is_empty : ConfigTree → Bool
unfolding children_of
is_empty t = elim (children_of t.root) [ some nil ↦ true | _ ↦ false ]

unfoldable pub get_node : ConfigPath → Node → Option Node
get_node [] n = some n
get_node (s ∷ p) (node c (values v)) = none
get_node (s ∷ p) (node c (interior m)) = elim (find s m) [ none ↦ none | some n ↦ get_node p n ]

unfoldable pub get : ConfigTree → ConfigPath → Option Node
unfolding get_node
get t p = get_node p t.root

unfoldable pub contains : ConfigTree → ConfigPath → Bool
unfolding get
contains t p = is_some (get t p)

unfoldable pub values_at : ConfigTree → ConfigPath → Option Values
unfolding get value_set
values_at t p = elim (get t p) [ none ↦ none | some n ↦ value_set n ]

-- `get_mut`, and what its caller does through the reference.
unfoldable pub get_mut : ConfigPath → (Node → Node × Bool) → Node → Node × Bool
get_mut [] edit n = edit n
get_mut (s ∷ p) edit (node c (values v)) = (node c (values v), false)
get_mut (s ∷ p) edit (node c (interior m)) = elim (find s m) [
  | none ↦ (node c (interior m), false)
  | some n ↦ let (n', done) = get_mut p edit n in (node c (interior (replace s n' m)), done)
]

-- `parent_of`, and what its caller does with the map it returns. The arguments are the parents
-- still to walk, those walked, and the whole path.
unfoldable pub parent_of :
    ConfigPath → ConfigPath → ConfigPath → (Children → Children × Outcome) → Node → Node × Outcome
parent_of ps walked full edit (node c (values v)) =
    (node c (values v), err (not_interior walked full))
parent_of [] walked full edit (node c (interior m)) =
    let (m', r) = edit m in (node c (interior m'), r)
parent_of (s ∷ ps) walked full edit (node c (interior m)) = elim (find s m) [
  | none ↦
      let (n', r) = parent_of ps (walked ++ s ∷ []) full edit interior_node in
      (node c (interior (insert s n' m)), r)
  | some n ↦
      let (n', r) = parent_of ps (walked ++ s ∷ []) full edit n in
      (node c (interior (replace s n' m)), r)
]

-- An edit of the entry `last` under the parent of `path`; `root` is the answer at the root.
unfoldable pub edit_entry :
    ConfigTree
    → ConfigPath
    → Outcome
    → (Text → Children → Children × Outcome)
    → ConfigTree × Outcome
unfolding parent_of split_last
edit_entry t path at_root edit = elim (split_last path) [
  | none ↦ (t, at_root)
  | some (parents, last) ↦
      let (n, r) = parent_of parents [] path (edit last) t.root in (record { root = n }, r)
]

unfoldable pub interior_entry : ConfigPath → Text → Children → Children × Outcome
interior_entry path last m = elim (find last m) [
  | none ↦ (insert last interior_node m, ok tt)
  | some n ↦ (m, (if is_interior n then ok tt else err (not_a_container path)))
]

unfoldable pub ensure_interior : ConfigTree → ConfigPath → ConfigTree × Outcome
unfolding edit_entry interior_entry
ensure_interior t path = edit_entry t path (ok tt) (interior_entry path)

-- What an entry API edit of a leaf does: refuse an interior node, change the values of a node
-- that is there, or insert a new one.
unfoldable pub leaf_over :
    ConfigPath → Text → (Values → Values) → Children → Node → Children × Outcome
leaf_over path last change m (node c (interior _)) = (m, err (not_a_leaf path))
leaf_over path last change m (node c (values v)) =
    (replace last (node c (values (change v))) m, ok tt)

unfoldable pub leaf_entry :
    ConfigPath → (Values → Values) → Values → Text → Children → Children × Outcome
unfolding leaf_over
leaf_entry path change fresh last m = elim (find last m) [
  | none ↦ (insert last (values_node fresh) m, ok tt)
  | some n ↦ leaf_over path last change m n
]

unfoldable pub edit_leaf :
    ConfigTree → ConfigPath → (Values → Values) → Values → ConfigTree × Outcome
unfolding edit_entry leaf_entry
edit_leaf t path change fresh =
    edit_entry t path (err (not_a_leaf path)) (leaf_entry path change fresh)

unfoldable pub declare_leaf : ConfigTree → ConfigPath → ConfigTree × Outcome
unfolding edit_leaf
declare_leaf t path = edit_leaf t path (λ v. v) []

unfoldable pub set : ConfigTree → ConfigPath → Text → ConfigTree × Outcome
unfolding edit_leaf
set t path v = edit_leaf t path (λ _. singleton v) (singleton v)

unfoldable pub add : ConfigTree → ConfigPath → Text → ConfigTree × Outcome
unfolding edit_leaf
add t path v = edit_leaf t path (add_value v) (singleton v)

unfoldable pub set_flag : ConfigTree → ConfigPath → ConfigTree × Outcome
unfolding edit_leaf
set_flag t path = edit_leaf t path (λ _. []) []

unfoldable pub erase_entry : Text → Node → Node × Bool
erase_entry last (node c (interior m)) = (node c (interior (erase last m)), is_some (find last m))
erase_entry last (node c (values v)) = (node c (values v), false)

unfoldable pub remove : ConfigTree → ConfigPath → ConfigTree × Bool
unfolding get_mut erase_entry split_last
remove t path = elim (split_last path) [
  | none ↦ (new, true)
  | some (parents, last) ↦
      let (n, done) = get_mut parents (erase_entry last) t.root in (record { root = n }, done)
]

-- Takes one value out; the flag says that it was there.
unfoldable pub drop_value : Text → Node → Node × Bool
drop_value v (node c (interior m)) = (node c (interior m), false)
drop_value v (node c (values vs)) =
    if has_value v vs
    then (node c (values (remove_value_from v vs)), true)
    else (node c (values vs), false)

unfoldable pub holds_no_value : Option Values → Bool
holds_no_value (some []) = true
holds_no_value _ = false

unfoldable pub remove_value : ConfigTree → ConfigPath → Text → ConfigTree × Bool
unfolding get_mut drop_value remove values_at holds_no_value
remove_value t path v =
    let (n, done) = get_mut path (drop_value v) t.root in
    let t' : ConfigTree = record { root = n } in
    if done
    then ((if holds_no_value (values_at t' path) then (remove t' path).0 else t'), true)
    else (t', false)

put_entry : Text → Node → Node → Node
put_entry last n (node c (interior m)) = node c (interior (insert last n m))
put_entry last n (node c (values v)) = node c (values v)

unfoldable pub subtree : ConfigTree → ConfigPath → Option ConfigTree
unfolding get ensure_interior get_mut put_entry split_last
subtree t path = elim (get t path) [
  | none ↦ none
  | some n ↦ elim (split_last path) [
    | none ↦ some t
    | some (parents, last) ↦
        let made = (ensure_interior new parents).0 in
        let (root', _) = get_mut parents (λ p. (put_entry last n p, true)) made.root in
        some (record { root = root' })
  ]
]

unfoldable pub set_comment : ConfigTree → ConfigPath → Option Text → ConfigTree × Bool
unfolding get_mut
set_comment t path c =
    let (n, done) = get_mut path (elim [ node _ b ↦ (node c b, true) ]) t.root in
    (record { root = n }, done)
