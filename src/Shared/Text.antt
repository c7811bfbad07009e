-- ===== src/Shared/Text.antt =====
-- Text as its code points. Rust orders a `String` by its UTF-8 bytes, which is the order of the
-- code points.
use Prim.Native.Char.{code}
use Prim.Native.String.{String}
use Prim.Native.Nat.{ℕ, compare, Ordering}
use mathlib.Core.Path.{◌≡◌, refl}
use mathlib.Core.Logic.{◌↔◌}
use mathlib.Core.Bool.{Bool, true, false, ◌&&◌}
use mathlib.Core.List.{List, [], ◌∷◌}
use native.Mathlib.Omega.{arith}
use nightshade.Shared.Tests.{◌==◌}

abbrev pub Text : Type 0
Text = List ℕ

-- The code points of a literal.
abbrev pub codes : String → Text
codes String.[] = []
codes (String.◌∷◌ c s) = code c ∷ codes s

unfoldable pub text_eq : Text → Text → Bool
text_eq [] [] = true
text_eq (x ∷ xs) (y ∷ ys) = x == y && text_eq xs ys
text_eq _ _ = false

-- `Ord::cmp` of two strings: the first difference decides, then the length.
unfoldable pub text_compare : Text → Text → Ordering
text_compare [] [] = Ordering.eq
text_compare [] (y ∷ ys) = Ordering.lt
text_compare (x ∷ xs) [] = Ordering.gt
text_compare (x ∷ xs) (y ∷ ys) =
    let rest = text_compare xs ys in
    elim (compare x y) [
      | Ordering.lt ↦ Ordering.lt
      | Ordering.eq ↦ rest
      | Ordering.gt ↦ Ordering.gt
    ]

pub text_eq_iff : (a b : Text) → (text_eq a b ≡ true) ↔ (a ≡ b)
unfolding text_eq
text_eq_iff (x ∷ a) (y ∷ b) = ground (arith, text_eq_iff a b)
text_eq_iff _ _ = ground arith

pub text_eq_refl : (a : Text) → text_eq a a ≡ true
text_eq_refl a = (text_eq_iff a a).1 refl

pub text_compare_refl : (a : Text) → text_compare a a ≡ Ordering.eq
unfolding text_compare
text_compare_refl [] = refl
text_compare_refl (x ∷ a) = ground (arith, text_compare_refl a)

pub text_compare_iff : (a b : Text) → (text_compare a b ≡ Ordering.eq) ↔ (a ≡ b)
unfolding text_compare
text_compare_iff (x ∷ a) (y ∷ b) = ground (arith, text_compare_iff a b)
text_compare_iff _ _ = ground arith

pub text_compare_flip :
    (a b : Text) → (text_compare a b ≡ Ordering.lt) ↔ (text_compare b a ≡ Ordering.gt)
unfolding text_compare
text_compare_flip (x ∷ a) (y ∷ b) = ground (arith, text_compare_flip a b)
text_compare_flip _ _ = ground arith

pub text_compare_trans :
    (a b c : Text)
    → text_compare a b ≡ Ordering.lt
    → text_compare b c ≡ Ordering.lt
    → text_compare a c ≡ Ordering.lt
unfolding text_compare
text_compare_trans (x ∷ a) (y ∷ b) (z ∷ c) h k =
    ground (arith, text_compare_trans a b c, text_compare_iff a b, text_compare_iff b c)
text_compare_trans _ _ _ h k = ground arith
