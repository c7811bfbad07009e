-- ===== src/Schema/Diff.antt =====
-- src/nightshade-schema/src/diff.rs: the differences between two configurations, line by line.
pub mod Order
pub mod Lines
pub mod Changes
use nightshade.Shared.{
  List, [], ◌∷◌, ◌++◌, Bool, true, false, not, ◌&&◌, ◌||◌, Option, none, some, if◌then◌else◌,
  Ordering, is_some, is_nil, map,
}
use nightshade.Shared.Text.{Text, text_eq, text_compare}
use nightshade.Shared.Sort.{then_compare, sort_by}
use nightshade.Schema.Path.{ConfigPath, child, root}
use nightshade.Schema.Entries.{Node, Body, Children, node, interior, values, nil, entry}
use nightshade.Schema.ValueSet.{Values}
use nightshade.Schema.Config.{ConfigTree, get, is_interior}

pub data Op : Type 0 where
  removed added : Op

pub record Change : Type 0 where
  pub path : ConfigPath
  pub op : Op
  pub value : Option Text

-- The orders that Rust derives: by segments, removals first, no value first.
unfoldable pub path_compare : ConfigPath → ConfigPath → Ordering
path_compare [] [] = Ordering.eq
path_compare [] (t ∷ q) = Ordering.lt
path_compare (s ∷ p) [] = Ordering.gt
path_compare (s ∷ p) (t ∷ q) = let rest = path_compare p q in then_compare (text_compare s t) rest

unfoldable pub op_compare : Op → Op → Ordering
op_compare removed added = Ordering.lt
op_compare added removed = Ordering.gt
op_compare _ _ = Ordering.eq

unfoldable pub value_compare : Option Text → Option Text → Ordering
value_compare none none = Ordering.eq
value_compare none (some w) = Ordering.lt
value_compare (some v) none = Ordering.gt
value_compare (some v) (some w) = text_compare v w

unfoldable pub change_compare : Change → Change → Ordering
unfolding path_compare op_compare value_compare
change_compare a b =
    then_compare (path_compare a.path b.path)
      (then_compare (op_compare a.op b.op) (value_compare a.value b.value))

abbrev pub Line : Type 0
Line = ConfigPath × Option Text

unfoldable pub path_eq : ConfigPath → ConfigPath → Bool
path_eq [] [] = true
path_eq (s ∷ p) (t ∷ q) = text_eq s t && path_eq p q
path_eq _ _ = false

unfoldable pub value_eq : Option Text → Option Text → Bool
value_eq none none = true
value_eq (some v) (some w) = text_eq v w
value_eq _ _ = false

unfoldable pub line_eq : Line → Line → Bool
unfolding path_eq value_eq
line_eq (p, v) (q, w) = path_eq p q && value_eq v w

-- A `BTreeSet` of lines, of which only membership is asked before the changes are sorted.
unfoldable pub has_line : Line → List Line → Bool
has_line l [] = false
has_line l (k ∷ ks) = line_eq k l || has_line l ks

unfoldable pub add_line : Line → List Line → List Line
unfolding has_line line_eq
add_line l ks = if has_line l ks then ks else ks ++ l ∷ []

unfoldable pub add_values : ConfigPath → Values → List Line → List Line
unfolding add_line
add_values at [] out = out
add_values at (v ∷ vs) out = add_values at vs (add_line (at, some v) out)

-- The line of an interior node under which nothing was found.
unfoldable pub close : ConfigPath → Bool × List Line → Bool × List Line
unfolding add_line
close at (any, out) =
    if not any && not (is_nil at) then (true, add_line (at, none) out) else (any, out)

unfoldable mutual
  unfolding add_values close child

  pub collect : Node → ConfigPath → List Line → Bool × List Line
  collect (node c (values [])) at out = (true, add_line (at, none) out)
  collect (node c (values (v ∷ vs))) at out = (true, add_values at (v ∷ vs) out)
  collect (node c (interior m)) at out = close at (collect_children m at false out)

  pub collect_children : Children → ConfigPath → Bool → List Line → Bool × List Line
  collect_children nil at any out = (any, out)
  collect_children (entry name n m) at any out =
      let (one, out') = collect n (child at name) out in collect_children m at (any || one) out'

unfoldable pub lines : ConfigTree → List Line
unfolding collect collect_children
lines t = (collect t.root root []).1

abbrev pub interior_at : ConfigTree → ConfigPath → Bool
interior_at t path = elim (get t path) [ none ↦ false | some n ↦ is_interior n ]

-- Whether a path is an interior node in both configurations.
unfoldable pub survives : ConfigTree → ConfigTree → ConfigPath → Bool
survives from to path = interior_at from path && interior_at to path

unfoldable pub difference : List Line → List Line → List Line
unfolding has_line
difference [] b = []
difference (l ∷ ls) b = let rest = difference ls b in if has_line l b then rest else l ∷ rest

unfoldable pub keep_changes : (Change → Bool) → List Change → List Change
keep_changes p [] = []
keep_changes p (x ∷ xs) = let rest = keep_changes p xs in if p x then x ∷ rest else rest

abbrev pub change_of : Op → Line → Change
change_of op l = record { path = l.0; op = op; value = l.1 }

-- Every change before it is sorted.
unfoldable pub changes_between : ConfigTree → ConfigTree → List Change
changes_between from to =
    let before = lines from in
    let after = lines to in
    keep_changes (λ ch. is_some ch.value || not (survives from to ch.path))
      (map (change_of added) (difference after before)
        ++ map (change_of removed) (difference before after))

unfoldable pub diff : ConfigTree → ConfigTree → List Change
diff from to = sort_by change_compare (changes_between from to)
