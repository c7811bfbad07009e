-- ===== src/Schema/Value/Rules.antt =====
-- src/nightshade-schema/src/value.rs: a length of a prefix is written in one way.
use nightshade.Shared.{ℕ, ◌+◌, ◌*◌, ◌≢◌, [], ◌∷◌, true, some, ◌≡◌, refl, arith}
use nightshade.Shared.Text.{Text}
use nightshade.Shared.Pieces.{digits_from, parse_unsigned, is_digit}
use nightshade.Schema.Value.Names.{prefix_len}

-- A text of one digit, or of two or three of which the first is no zero.
abbrev IsShort : Text → ℕ → Type 0
IsShort (a ∷ []) n = (is_digit a ≡ true) × (n + 48 ≡ a)
IsShort (a ∷ b ∷ []) n =
    (is_digit a ≡ true) × (is_digit b ≡ true) × (a ≢ 48) × (n + 528 ≡ a * 10 + b)
IsShort (a ∷ b ∷ c ∷ []) n =
    (is_digit a ≡ true)
    × (is_digit b ≡ true)
    × (is_digit c ≡ true)
    × (a ≢ 48)
    × (n + 5328 ≡ a * 100 + b * 10 + c)
IsShort _ n = n ≢ n

short : (s : Text) (n : ℕ) → prefix_len s ≡ some n → IsShort s n
unfolding prefix_len parse_unsigned digits_from
short [] n h = absurd cc
short (a ∷ []) n h = ground (arith, h)
short (a ∷ b ∷ []) n h = ground (arith, h)
short (a ∷ b ∷ c ∷ []) n h = ground (arith, h)
short (a ∷ b ∷ c ∷ d ∷ s) n h = absurd (ground (arith, h))

-- Digits with the same value are the same digits.
same_digits :
    (a b x y : ℕ)
    → is_digit b ≡ true
    → is_digit y ≡ true
    → a * 10 + b ≡ x * 10 + y
    → (a ≡ x) × (b ≡ y)
same_digits a b x y p q e = ground (arith, p, q, e)

short_unique : (s t : Text) (n : ℕ) → IsShort s n → IsShort t n → s ≡ t
short_unique (a ∷ []) (x ∷ []) n (p, e) (q, f) = ground (arith, e, f)
short_unique (a ∷ []) (x ∷ y ∷ []) n (p, e) (q, r, z, f) = absurd (ground (arith, p, q, r, e, f, z))
short_unique (a ∷ []) (x ∷ y ∷ w ∷ []) n (p, e) (q, r, u, z, f) =
    absurd (ground (arith, p, q, r, u, e, f, z))
short_unique (a ∷ b ∷ []) (x ∷ []) n (q, r, z, f) (p, e) = absurd (ground (arith, p, q, r, e, f, z))
short_unique (a ∷ b ∷ []) (x ∷ y ∷ []) n (p, q, z, e) (u, v, w, f) =
    let (i, j) = same_digits a b x y q v (omega (arith, e, f)) in ground (arith, i, j)
short_unique (a ∷ b ∷ []) (x ∷ y ∷ w ∷ []) n (p, q, z, e) (u, v, r, k, f) =
    absurd (ground (arith, p, q, e, u, v, r, k, f))
short_unique (a ∷ b ∷ c ∷ []) (x ∷ []) n (u, v, r, k, f) (p, e) =
    absurd (ground (arith, p, e, u, v, r, k, f))
short_unique (a ∷ b ∷ c ∷ []) (x ∷ y ∷ []) n (u, v, r, k, f) (p, q, z, e) =
    absurd (ground (arith, p, q, e, u, v, r, k, f))
short_unique (a ∷ b ∷ c ∷ []) (x ∷ y ∷ w ∷ []) n (p, q, r, z, e) (i, j, k, u, f) =
    let (front, back) = same_digits (a * 10 + b) c (x * 10 + y) w r k (omega (arith, e, f)) in
    let (one, two) = same_digits a b x y q j front in ground (arith, one, two, back)
short_unique [] t n h k = absurd (h refl)
short_unique (a ∷ b ∷ c ∷ d ∷ s) t n h k = absurd (h refl)
short_unique s [] n h k = absurd (k refl)
short_unique s (a ∷ b ∷ c ∷ d ∷ t) n h k = absurd (k refl)

-- Two texts that are taken as prefix lengths and mean the same number are the same text: a length
-- is written in one way only.
pub prefix_len_unique : (s t : Text) (n : ℕ) → prefix_len s ≡ some n → prefix_len t ≡ some n → s ≡ t
prefix_len_unique s t n h k = short_unique s t n (short s n h) (short t n k)
