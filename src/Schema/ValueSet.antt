-- ===== src/Schema/ValueSet.antt =====
-- The operations of `BTreeSet<String>`: a list of values in order, without repetition.
use nightshade.Shared.{
  List, [], ◌∷◌, Bool, false, Ordering, if◌then◌else◌, ◌≡◌, refl, arith, ◌&&◌, ◌||◌, not,
}
use nightshade.Shared.Text.{Text, text_eq, text_eq_iff, text_compare, text_compare_iff}

abbrev pub Values : Type 0
Values = List Text

abbrev pub singleton : Text → Values
singleton v = v ∷ []

unfoldable pub has_value : Text → Values → Bool
has_value v [] = false
has_value v (w ∷ ws) = text_eq w v || has_value v ws

unfoldable pub add_value : Text → Values → Values
add_value v [] = v ∷ []
add_value v (w ∷ ws) =
    let rest = add_value v ws in
    elim (text_compare v w) [
      | Ordering.lt ↦ v ∷ w ∷ ws
      | Ordering.eq ↦ w ∷ ws
      | Ordering.gt ↦ w ∷ rest
    ]

unfoldable pub remove_value_from : Text → Values → Values
remove_value_from v [] = []
remove_value_from v (w ∷ ws) =
    let rest = remove_value_from v ws in if text_eq w v then rest else w ∷ rest

pub has_value-add_value :
    (v w : Text) (vs : Values) → has_value w (add_value v vs) ≡ (text_eq v w || has_value w vs)
unfolding has_value add_value
has_value-add_value v w [] = refl
has_value-add_value v w (x ∷ vs) =
    ground (arith, has_value-add_value v w vs, text_compare_iff v x, text_eq_iff x w)

pub has_value-remove_value_from :
    (v w : Text) (vs : Values)
    → has_value w (remove_value_from v vs) ≡ (not (text_eq v w) && has_value w vs)
unfolding has_value remove_value_from
has_value-remove_value_from v w [] = ground arith
has_value-remove_value_from v w (x ∷ vs) =
    ground
      (arith, has_value-remove_value_from v w vs, text_eq_iff x v, text_eq_iff x w, text_eq_iff v w)

-- A set that a value was added to is not empty.
pub add_value-cons :
    (v : Text) (vs : Values) → (w : Text) × (ws : Values) × (add_value v vs ≡ w ∷ ws)
unfolding add_value
add_value-cons v [] = (v, [], refl)
add_value-cons v (w ∷ vs) =
    elim (text_compare v w)
      as (λ o.
        (x : Text) × (ws : Values) × (elim o [
          | Ordering.lt ↦ v ∷ w ∷ vs
          | Ordering.eq ↦ w ∷ vs
          | Ordering.gt ↦ w ∷ add_value v vs
        ]
          ≡ x ∷ ws)) [
            | Ordering.lt ↦ (v, w ∷ vs, refl)
            | Ordering.eq ↦ (w, vs, refl)
            | Ordering.gt ↦ (w, add_value v vs, refl)
          ]
