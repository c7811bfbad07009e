-- ===== src/Shared/Pieces.antt =====
-- The operations of Rust's `str` that the model uses beside comparison, on texts as code points, and
-- numbers in decimal.
use Prim.Native.Nat.{ℕ, zero, suc, ◌+◌, ◌*◌, ◌/◌, ◌%◌, ◌-◌}
use mathlib.Core.Bool.{Bool, true, false, ◌&&◌, ◌||◌}
use mathlib.Core.Option.{Option, none, some}
use mathlib.Core.List.{List, [], ◌∷◌, ◌++◌}
use nightshade.Shared.Tests.{◌==◌, ltb, leb, if◌then◌else◌}
use nightshade.Shared.Text.{Text, text_eq}

-- Whether some element passes.
abbrev pub any {ℓ} : {A : Type ℓ} → (A → Bool) → List A → Bool
any p [] = false
any p (x ∷ xs) = p x || any p xs

abbrev pub is_member : Text → List Text → Bool
is_member t l = any (text_eq t) l

-- `first().copied()`, and the last character.
abbrev pub starts_with : ℕ → Text → Bool
starts_with c [] = false
starts_with c (d ∷ s) = d == c

unfoldable pub ends_with : ℕ → Text → Bool
ends_with c [] = false
ends_with c (d ∷ []) = d == c
ends_with c (d ∷ e ∷ s) = ends_with c (e ∷ s)

-- `s.split(c)`: the pieces between the places where `c` stands, always one at least.
unfoldable pub split : ℕ → Text → List Text
split c [] = [] ∷ []
split c (d ∷ s) =
    let rest = split c s in
    if d == c then [] ∷ rest else elim rest [ [] ↦ (d ∷ []) ∷ [] | ◌∷◌ p ps ↦ (d ∷ p) ∷ ps ]

-- `s.split_once(c)`: before the first `c`, and after it.
unfoldable pub split_once : ℕ → Text → Option (Text × Text)
split_once c [] = none
split_once c (d ∷ s) =
    let rest = split_once c s in
    if d == c
    then some ([], s)
    else elim rest [ none ↦ none | some (before, after) ↦ some (d ∷ before, after) ]

-- `parts.join(sep)`.
unfoldable pub join : Text → List Text → Text
join sep [] = []
join sep (t ∷ []) = t
join sep (t ∷ u ∷ ts) = t ++ (sep ++ join sep (u ∷ ts))

abbrev pub in_range : ℕ → ℕ → ℕ → Bool
in_range low high c = leb low c && leb c high

abbrev pub is_digit : ℕ → Bool
is_digit c = in_range 48 57 c

abbrev pub is_lower : ℕ → Bool
is_lower c = in_range 97 122 c

abbrev pub is_alphanumeric : ℕ → Bool
is_alphanumeric c = is_digit c || in_range 65 90 c || is_lower c

-- `char::is_control`: the general category Cc.
abbrev pub is_control : ℕ → Bool
is_control c = leb c 31 || in_range 127 159 c

-- The number that a text of digits is, from what its first digits are; none where another
-- character stands. `str::parse` stops at the first step that leaves its type, which is so exactly
-- where the whole number does.
unfoldable pub digits_from : ℕ → Text → Option ℕ
digits_from v [] = some v
digits_from v (c ∷ s) =
    let rest = digits_from (v * 10 + (c - 48)) s in if is_digit c then rest else none

-- `str::parse` into an unsigned type whose largest number is given: digits, after a plus or not.
unfoldable pub parse_unsigned : ℕ → Text → Option ℕ
unfolding digits_from
parse_unsigned max s =
    let digits : Text = elim s [ [] ↦ [] | ◌∷◌ c cs ↦ if c == 43 then cs else c ∷ cs ] in
    elim digits [
      | [] ↦ none
      | ◌∷◌ c cs ↦ elim (digits_from 0 (c ∷ cs)) [
        | none ↦ none
        | some n ↦ if leb n max then some n else none
      ]
    ]

-- The decimal digits of a number, put before a text; as many turns as there are digits.
unfoldable pub decimal_before : ℕ → ℕ → Text → Text
decimal_before zero n after = after
decimal_before (suc fuel) n after = elim (ltb n 10) [
  | true ↦ (48 + n) ∷ after
  | false ↦ decimal_before fuel (n / 10) ((48 + n % 10) ∷ after)
]

-- A 64-bit number has twenty digits at most.
unfoldable pub decimal : ℕ → Text
unfolding decimal_before
decimal n = decimal_before 20 n []
