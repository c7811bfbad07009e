-- ===== src/Schema/Diff/Order.antt =====
-- The orders of paths and of changes.
use nightshade.Shared.{[], ◌⊎◌, ◌≢◌, ◌∷◌, Option, none, some, Ordering, ◌≡◌, arith, ◌↔◌, true}
use nightshade.Shared.Text.{Text, text_eq_iff, text_compare, text_compare_flip, text_compare_iff}
use nightshade.Schema.Path.{ConfigPath}
use nightshade.Schema.Diff.{
  Op, removed, added, op_compare, Change, Line, path_compare, value_compare, change_compare,
  path_eq, value_eq, line_eq,
}

abbrev Flips : Ordering → Ordering → Type 0
Flips a b = (a ≡ Ordering.gt) ↔ (b ≡ Ordering.lt)

pub path_compare_flip : (p q : ConfigPath) → Flips (path_compare p q) (path_compare q p)
unfolding path_compare
path_compare_flip (s ∷ p) (t ∷ q) = ground (
  arith,
  path_compare_flip p q,
  text_compare_flip s t,
  text_compare_flip t s,
  text_compare_iff s t,
  text_compare_iff t s,
)
path_compare_flip _ _ = ground arith

value_compare_flip : (a b : Option Text) → Flips (value_compare a b) (value_compare b a)
unfolding value_compare
value_compare_flip (some v) (some w) = ground (arith, text_compare_flip v w, text_compare_flip w v)
value_compare_flip none b = ground arith
value_compare_flip (some v) none = ground arith

pub path_compare_iff : (p q : ConfigPath) → (path_compare p q ≡ Ordering.eq) ↔ (p ≡ q)
unfolding path_compare
path_compare_iff (s ∷ p) (t ∷ q) = ground (arith, path_compare_iff p q, text_compare_iff s t)
path_compare_iff _ _ = ground arith

pub change_compare_flip :
    (a b : Change) → change_compare a b ≡ Ordering.gt → change_compare b a ≡ Ordering.lt
unfolding change_compare
change_compare_flip a b h = ground (
  arith,
  path_compare_flip a.path b.path,
  path_compare_flip b.path a.path,
  path_compare_iff a.path b.path,
  path_compare_iff b.path a.path,
  value_compare_flip a.value b.value,
)

pub path_eq_iff : (p q : ConfigPath) → (path_eq p q ≡ true) ↔ (p ≡ q)
unfolding path_eq
path_eq_iff (s ∷ p) (t ∷ q) = ground (arith, path_eq_iff p q, text_eq_iff s t)
path_eq_iff _ _ = ground arith

pub value_eq_iff : (a b : Option Text) → (value_eq a b ≡ true) ↔ (a ≡ b)
unfolding value_eq
value_eq_iff (some v) (some w) = ground (arith, text_eq_iff v w)
value_eq_iff none b = ground arith
value_eq_iff (some v) none = ground arith

pub line_eq_iff : (k l : Line) → (line_eq k l ≡ true) ↔ (k ≡ l)
unfolding line_eq
line_eq_iff (p, v) (q, w) = ground (arith, path_eq_iff p q, value_eq_iff v w)

-- A path stands before another that goes on from it, or that has a later segment where they part.
abbrev pub PathBefore : ConfigPath → ConfigPath → Type 0
PathBefore p [] = ⊥
PathBefore [] (t ∷ q) = Unit {0}
PathBefore (s ∷ p) (t ∷ q) = (text_compare s t ≡ Ordering.lt) ⊎ ((s ≡ t) × PathBefore p q)

-- Of the changes at a path, one stands before the other: the removals first.
abbrev pub SignBefore : Op → Op → Type 0
SignBefore a b = (a ≡ removed) × (b ≡ added)

-- No value stands before a value, and values are in their order or the same.
abbrev pub ValueUpTo : Option Text → Option Text → Type 0
ValueUpTo none b = Unit {0}
ValueUpTo (some v) none = ⊥
ValueUpTo (some v) (some w) = (text_compare v w ≡ Ordering.lt) ⊎ (v ≡ w)

pub PathBefore_lem : (p q : ConfigPath) → path_compare p q ≡ Ordering.lt → PathBefore p q
unfolding path_compare
PathBefore_lem [] [] h = ground (arith, h)
PathBefore_lem (s ∷ p) [] h = ground (arith, h)
PathBefore_lem [] (t ∷ q) h = tt
PathBefore_lem (s ∷ p) (t ∷ q) h = ground (arith, h, PathBefore_lem p q, text_compare_iff s t)

ValueUpTo_lem : (a b : Option Text) → value_compare a b ≢ Ordering.gt → ValueUpTo a b
unfolding value_compare
ValueUpTo_lem none b h = tt
ValueUpTo_lem (some v) none h = ground (arith, h)
ValueUpTo_lem (some v) (some w) h = ground (arith, h, text_compare_iff v w)

-- The order of a configuration's changes.
abbrev pub ChangeUpTo : Change → Change → Type 0
ChangeUpTo a b =
    PathBefore a.path b.path
    ⊎ ((a.path ≡ b.path) × (SignBefore a.op b.op ⊎ ((a.op ≡ b.op) × ValueUpTo a.value b.value)))

pub ChangeUpTo_lem : (a b : Change) → change_compare a b ≢ Ordering.gt → ChangeUpTo a b
unfolding change_compare op_compare
ChangeUpTo_lem a b h = ground (
  arith,
  h,
  PathBefore_lem a.path b.path,
  path_compare_iff a.path b.path,
  ValueUpTo_lem a.value b.value,
)
