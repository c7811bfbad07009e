-- ===== src/Shared/Sort.antt =====
-- `slice::sort_by`: a stable sort by a comparison, as an insertion sort.
use mathlib.Core.List.{Perm}
use mathlib.Core.List.Perm
use Prim.Native.Nat.{Ordering}
use mathlib.Core.Path.{◌≡◌, refl}
use mathlib.Core.Logic.{◌≢◌, ◌⊎◌, inl, inr}
use mathlib.Core.List.{List, [], ◌∷◌}
use native.Mathlib.Omega.{arith}

-- One comparison, and the next where that one says equal.
abbrev pub then_compare : Ordering → Ordering → Ordering
then_compare Ordering.lt o = Ordering.lt
then_compare Ordering.eq o = o
then_compare Ordering.gt o = Ordering.gt

pub Ordering-cases : (o : Ordering) → (o ≡ Ordering.gt) ⊎ (o ≢ Ordering.gt)
Ordering-cases Ordering.lt = inr cc
Ordering-cases Ordering.eq = inr cc
Ordering-cases Ordering.gt = inl refl

module _ {ℓ} {A : Type ℓ} (cmp : A → A → Ordering) where
  unfoldable pub insert_by : A → List A → List A
  insert_by x [] = x ∷ []
  insert_by x (y ∷ ys) =
      let rest = insert_by x ys in elim (cmp x y) [ Ordering.gt ↦ y ∷ rest | _ ↦ x ∷ y ∷ ys ]

  unfoldable pub sort_by : List A → List A
  unfolding insert_by
  sort_by [] = []
  sort_by (x ∷ xs) = insert_by x (sort_by xs)

  -- Each element is not after the next.
  abbrev pub IsSorted : List A → Type 0
  IsSorted [] = Unit
  IsSorted (x ∷ []) = Unit
  IsSorted (x ∷ y ∷ l) = (cmp x y ≢ Ordering.gt) × IsSorted (y ∷ l)

  insert_by-perm : (x : A) (l : List A) → Perm (insert_by x l) (x ∷ l)
  unfolding insert_by
  insert_by-perm x [] = Perm.refl (x ∷ [])
  insert_by-perm x (y ∷ l) =
      let later = Perm.trans (Perm.cons y (insert_by-perm x l)) (Perm.swap x y l) in
      elim (cmp x y)
        as (λ o. Perm (elim o [ Ordering.gt ↦ y ∷ insert_by x l | _ ↦ x ∷ y ∷ l ]) (x ∷ y ∷ l)) [
          | Ordering.gt ↦ later
          | Ordering.lt ↦ Perm.refl _
          | Ordering.eq ↦ Perm.refl _
        ]

  pub sort_by-perm : (l : List A) → Perm (sort_by l) l
  unfolding sort_by
  sort_by-perm [] = Perm.refl []
  sort_by-perm (x ∷ l) = Perm.trans (insert_by-perm x (sort_by l)) (Perm.cons x (sort_by-perm l))

  module _ (flip : (x y : A) → cmp x y ≡ Ordering.gt → cmp y x ≡ Ordering.lt) where
    insert_by-IsSorted : (x : A) (l : List A) → IsSorted l → IsSorted (insert_by x l)
    unfolding insert_by
    insert_by-IsSorted x [] h = tt
    insert_by-IsSorted x (y ∷ []) h = ground (arith, flip x y)
    insert_by-IsSorted x (y ∷ z ∷ l) h =
        ground (arith, flip x y, flip x z, insert_by-IsSorted x (z ∷ l))

    pub sort_by-IsSorted : (l : List A) → IsSorted (sort_by l)
    unfolding sort_by
    sort_by-IsSorted [] = tt
    sort_by-IsSorted (x ∷ l) = insert_by-IsSorted x (sort_by l) (sort_by-IsSorted l)

-- Each element stands to the next in a relation.
abbrev pub IsChain : {A : Type 0} → (A → A → Type 0) → List A → Type 0
IsChain R [] = Unit
IsChain R (x ∷ []) = Unit
IsChain R (x ∷ y ∷ l) = R x y × IsChain R (y ∷ l)

pub IsSorted-IsChain :
    {A : Type 0} (cmp : A → A → Ordering) (R : A → A → Type 0)
    → ((x y : A) → cmp x y ≢ Ordering.gt → R x y)
    → (l : List A) → IsSorted cmp l
    → IsChain R l
IsSorted-IsChain cmp R meaning [] h = tt
IsSorted-IsChain cmp R meaning (x ∷ []) h = tt
IsSorted-IsChain cmp R meaning (x ∷ y ∷ l) (first, rest) =
    (meaning x y first, IsSorted-IsChain cmp R meaning (y ∷ l) rest)
