-- ===== src/Configd/Commit/Order.antt =====
-- src/nightshade-configd/src/commit.rs: the order in which changes are reported.
use mathlib.Core.List.{Perm}
use nightshade.Shared.{List, ◌≡◌, ◌≢◌, ◌<◌, ◌⊎◌, arith, Ordering}
use nightshade.Shared.Sort.{sort_by-perm, sort_by-IsSorted, IsChain, IsSorted-IsChain}
use nightshade.Schema.Diff.{Change, op_compare}
use nightshade.Schema.Diff.Order.{
  path_compare_flip, path_compare_iff, PathBefore, PathBefore_lem, SignBefore,
}
use nightshade.Configd.Commit.{SchemaOps, order, order_compare, priority}

order_compare_flip :
    (schema : SchemaOps) (a b : Change)
    → order_compare schema a b ≡ Ordering.gt
    → order_compare schema b a ≡ Ordering.lt
unfolding order_compare op_compare
order_compare_flip schema a b h = ground (
  arith,
  path_compare_flip a.path b.path,
  path_compare_flip b.path a.path,
  path_compare_iff a.path b.path,
  path_compare_iff b.path a.path,
)

-- The order of a commit: a change has a lower priority than another, or the same priority and an
-- earlier path, or the same path and is removed where the other is added, or the sign is the same.
abbrev pub CommitsUpTo : SchemaOps → Change → Change → Type 0
CommitsUpTo schema a b =
    (priority schema a.path < priority schema b.path)
    ⊎ ((priority schema a.path ≡ priority schema b.path)
        × (PathBefore a.path b.path ⊎ ((a.path ≡ b.path) × (SignBefore a.op b.op ⊎ (a.op ≡ b.op)))))

CommitsUpTo_lem :
    (schema : SchemaOps) (a b : Change)
    → order_compare schema a b ≢ Ordering.gt
    → CommitsUpTo schema a b
unfolding order_compare op_compare
CommitsUpTo_lem schema a b h =
    ground (arith, h, PathBefore_lem a.path b.path, path_compare_iff a.path b.path)

-- Ordering the changes of a commit keeps every change as often as it is there, and each stands
-- before the next by a lower priority; or, at the same priority, by an earlier path, a path being
-- earlier than those that go on from it and than those with a later segment where they part; or,
-- at the same path, as a removal before an addition, or with the same sign.
pub order_lem :
    (schema : SchemaOps) (changes : List Change)
    → Perm (order schema changes) changes × IsChain (CommitsUpTo schema) (order schema changes)
unfolding order
order_lem schema changes = (
  sort_by-perm (order_compare schema) changes,
  IsSorted-IsChain (order_compare schema) (CommitsUpTo schema) (CommitsUpTo_lem schema)
      (order schema changes)
      (sort_by-IsSorted (order_compare schema) (order_compare_flip schema) changes),
)
