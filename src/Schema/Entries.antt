-- ===== src/Schema/Entries.antt =====
-- The nodes of src/nightshade-schema/src/config.rs, and the operations of `BTreeMap` on children.
use nightshade.Shared.{Option, none, some, Ordering, if◌then◌else◌, ◌≡◌, refl, arith}
use nightshade.Shared.Text.{Text, text_eq, text_eq_iff, text_compare, text_compare_iff}
use nightshade.Schema.ValueSet.{Values}

mutual
  pub data Node : Type 0 where
    node : Option Text → Body → Node

  pub data Body : Type 0 where
    interior : Children → Body
    values : Values → Body

  pub data Children : Type 0 where
    nil : Children
    entry : Text → Node → Children → Children

-- `children.get(key)`.
unfoldable pub find : Text → Children → Option Node
find k nil = none
find k (entry j n m) = if text_eq j k then some n else find k m

-- Inserting a key that is not there, in its place; one that is there gets the new node.
unfoldable pub insert : Text → Node → Children → Children
insert k n nil = entry k n nil
insert k n (entry j o m) =
    let rest = insert k n m in
    elim (text_compare k j) [
      | Ordering.lt ↦ entry k n (entry j o m)
      | Ordering.eq ↦ entry k n m
      | Ordering.gt ↦ entry j o rest
    ]

-- Writing through a reference to the node of a key.
unfoldable pub replace : Text → Node → Children → Children
replace k n nil = nil
replace k n (entry j o m) = if text_eq j k then entry j n m else entry j o (replace k n m)

-- `children.remove(key)`. A key stands once in a map.
unfoldable pub erase : Text → Children → Children
erase k nil = nil
erase k (entry j n m) = let rest = erase k m in if text_eq j k then rest else entry j n rest

pub find-insert :
    (k j : Text) (n : Node) (m : Children)
    → find j (insert k n m) ≡ (if text_eq k j then some n else find j m)
unfolding find insert
find-insert k j n nil = refl
find-insert k j n (entry i o m) =
    ground (arith, find-insert k j n m, text_compare_iff k i, text_eq_iff i j, text_eq_iff k j)

pub find-replace :
    (k j : Text) (n : Node) (m : Children)
    → find j (replace k n m)
      ≡ (if text_eq k j then (elim (find k m) [ none ↦ none | some _ ↦ some n ]) else find j m)
unfolding find replace
find-replace k j n nil = ground arith
find-replace k j n (entry i o m) =
    ground (arith, find-replace k j n m, text_eq_iff i k, text_eq_iff i j, text_eq_iff k j)

pub find-erase :
    (k j : Text) (m : Children) → find j (erase k m) ≡ (if text_eq k j then none else find j m)
unfolding find erase
find-erase k j nil = ground arith
find-erase k j (entry i o m) =
    ground (arith, find-erase k j m, text_eq_iff i k, text_eq_iff i j, text_eq_iff k j)

-- Writing back what was read changes nothing.
pub replace_self : (k : Text) (n : Node) (m : Children) → find k m ≡ some n → replace k n m ≡ m
unfolding find replace
replace_self k n nil h = refl
replace_self k n (entry i o m) h = ground (arith, replace_self k n m)
