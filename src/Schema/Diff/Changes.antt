-- ===== src/Schema/Diff/Changes.antt =====
-- Which changes `diff` reports, and in which order.
use nightshade.Shared.{
  List, [], ◌∷◌, ◌++◌, Bool, true, false, not, ◌&&◌, ◌||◌, is_some, Option-cases, none, some, inl,
  inr, ◌≡◌, refl, ap, arith, map,
}
use nightshade.Shared.Sort.{sort_by, insert_by, sort_by-IsSorted, IsChain, IsSorted-IsChain}
use nightshade.Schema.Config.{ConfigTree, get, is_interior}
use nightshade.Schema.Path.{ConfigPath}
use nightshade.Schema.Entries.{Node, node, interior, values}
use nightshade.Schema.Diff.Lines.{IsKeyed, holds_line, has_line-lines}
use nightshade.Schema.Diff.{
  Op, removed, added, Change, Line, change_compare, line_eq, has_line, survives, interior_at,
  difference, keep_changes, change_of, changes_between, diff,
}
use nightshade.Schema.Diff.Order.{ChangeUpTo, ChangeUpTo_lem, change_compare_flip, line_eq_iff}

abbrev op_eq : Op → Op → Bool
op_eq removed removed = true
op_eq added added = true
op_eq _ _ = false

abbrev pub line_of : Change → Line
line_of ch = (ch.path, ch.value)

unfoldable pub has_change : Change → List Change → Bool
has_change ch [] = false
has_change ch (x ∷ xs) = (op_eq x.op ch.op && line_eq (line_of x) (line_of ch)) || has_change ch xs

has_change-insert_by :
    (ch x : Change) (l : List Change)
    → has_change ch (insert_by change_compare x l) ≡ has_change ch (x ∷ l)
unfolding has_change insert_by
has_change-insert_by ch x [] = refl
has_change-insert_by ch x (y ∷ l) = ground (arith, has_change-insert_by ch x l)

has_change-sort_by :
    (ch : Change) (l : List Change) → has_change ch (sort_by change_compare l) ≡ has_change ch l
unfolding has_change sort_by
has_change-sort_by ch [] = refl
has_change-sort_by ch (x ∷ l) =
    ground (arith, has_change-sort_by ch l, has_change-insert_by ch x (sort_by change_compare l))

has_change-append :
    (ch : Change) (l m : List Change)
    → has_change ch (l ++ m) ≡ (has_change ch l || has_change ch m)
unfolding has_change
has_change-append ch [] m = refl
has_change-append ch (x ∷ l) m = ground (arith, has_change-append ch l m)

has_change-change_of :
    (ch : Change) (op : Op) (l : List Line)
    → has_change ch (map (change_of op) l) ≡ (op_eq op ch.op && has_line (line_of ch) l)
unfolding has_change has_line
has_change-change_of ch op [] = ground arith
has_change-change_of ch op (k ∷ l) = ground (arith, has_change-change_of ch op l)

has_line-difference :
    (k : Line) (l m : List Line)
    → has_line k (difference l m) ≡ (has_line k l && not (has_line k m))
unfolding has_line difference
has_line-difference k [] m = refl
has_line-difference k (j ∷ l) m = ground (arith, has_line-difference k l m, line_eq_iff j k)

change_match :
    (p : Change → Bool) (x ch : Change)
    → (op_eq x.op ch.op && line_eq (line_of x) (line_of ch)) ≡ true
    → p x ≡ p ch
change_match p x ch h = ap p same
  where
    same : x ≡ ch
    same = ground (arith, line_eq_iff (line_of x) (line_of ch))

-- A filter keeps exactly the changes that pass it, when it looks at no more than the line.
has_change-keep_changes :
    (p : Change → Bool) (ch : Change) (l : List Change)
    → has_change ch (keep_changes p l) ≡ (has_change ch l && p ch)
unfolding has_change keep_changes
has_change-keep_changes p ch [] = ground arith
has_change-keep_changes p ch (x ∷ l) =
    ground (arith, has_change-keep_changes p ch l, change_match p x ch)

abbrev pub is_container : Node → Bool
is_container (node c (interior m)) = true
is_container (node c (values vs)) = false

-- Whether a path is a node of a configuration that can have children.
abbrev pub container_at : ConfigTree → ConfigPath → Bool
container_at t path = elim (get t path) [ none ↦ false | some n ↦ is_container n ]

container_is_interior : (n : Node) → is_interior n ≡ is_container n
container_is_interior (node c (interior m)) = refl
container_is_interior (node c (values vs)) = refl

survives-container_at :
    (from to : ConfigTree) (path : ConfigPath)
    → survives from to path ≡ (container_at from path && container_at to path)
unfolding survives
survives-container_at from to path = ground (arith, at from, at to)
  where
    at : (t : ConfigTree) → interior_at t path ≡ container_at t path
    at t = elim (Option-cases (get t path)) [
      | inl e ↦ rw (interior_at, container_at, e) refl
      | inr (n, e) ↦ rw (interior_at, container_at, e) (container_is_interior n)
    ]

-- Between two configurations in which no node has two children of one name, a change with a value
-- is reported exactly if the one side has that value at that path and the other has not, as its
-- sign says. A change without a value is reported exactly if the one side has at that path a leaf
-- without values, or, below the root, a container without children, and the other has neither, and
-- the path is not a container in both.
pub has_change-diff :
    (from to : ConfigTree) (ch : Change)
    → IsKeyed from.root
    → IsKeyed to.root
    → has_change ch (diff from to) ≡ (
        (elim ch.op [
          | added ↦ holds_line (line_of ch) to && not (holds_line (line_of ch) from)
          | removed ↦ holds_line (line_of ch) from && not (holds_line (line_of ch) to)
        ])
        && (is_some ch.value || not (container_at from ch.path && container_at to ch.path)))
unfolding diff changes_between
has_change-diff from to ch hf ht =
    simp
      (
        has_change-sort_by, has_change-keep_changes, has_change-append, has_change-change_of,
        has_line-difference, survives-container_at,
      )
      (ground (arith, has_line-lines (line_of ch) from hf, has_line-lines (line_of ch) to ht))

-- Each change of a difference stands before the next by an earlier path, a path being earlier than
-- those that go on from it and than those with a later segment where they part; or, at the same
-- path, as a removal before an addition; or, with the same sign, by no value before a value, or by
-- a value that is smaller or the same.
pub diff-IsChain : (from to : ConfigTree) → IsChain ChangeUpTo (diff from to)
unfolding diff
diff-IsChain from to =
    IsSorted-IsChain change_compare ChangeUpTo ChangeUpTo_lem (diff from to)
      (sort_by-IsSorted change_compare change_compare_flip (changes_between from to))
