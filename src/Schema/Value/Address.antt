-- ===== src/Schema/Value/Address.antt =====
-- The parsers of `std::net` that src/nightshade-schema/src/value.rs asks about an address: the
-- library reads from the front of the text and gives back what is left.
use nightshade.Shared.{
  ℕ, zero, suc, ◌+◌, ◌*◌, ◌/◌, ◌-◌, List, [], ◌∷◌, ◌++◌, Bool, true, false, not, ◌&&◌, ◌||◌, Option,
  none, some, if◌then◌else◌, ◌==◌, ltb, is_nil, length,
}
use nightshade.Shared.Text.{Text}
use nightshade.Shared.Pieces.{is_digit, in_range}

-- The value of a digit in base ten or sixteen.
unfoldable pub digit_of : Bool → ℕ → Option ℕ
digit_of hex c =
    if is_digit c
    then some (c - 48)
    else if hex && in_range 97 102 c
    then some (c - 87)
    else if hex && in_range 65 70 c
    then some (c - 55)
    else none

-- The digits in front, how many there are, and their number.
unfoldable pub read_digits : Bool → ℕ → ℕ → Text → (ℕ × ℕ) × Text
unfolding digit_of
read_digits hex count v [] = ((count, v), [])
read_digits hex count v (c ∷ s) = elim (digit_of hex c) [
  | none ↦ ((count, v), c ∷ s)
  | some d ↦ read_digits hex (suc count) (v * (if hex then 16 else 10) + d) s
]

-- `read_number`: at most some digits, a largest value, and no leading zero in base ten.
unfoldable pub read_number : Bool → ℕ → ℕ → Text → Option (ℕ × Text)
unfolding read_digits
read_number hex digits max s =
    let ((count, v), rest) = read_digits hex 0 0 s in
    let zero_first : Bool = elim s [ [] ↦ false | ◌∷◌ c cs ↦ c == 48 ] in
    if count == 0 || ltb digits count || ltb max v || (not hex && zero_first && ltb 1 count)
    then none
    else some (v, rest)

unfoldable pub read_given_char : ℕ → Text → Option Text
read_given_char c [] = none
read_given_char c (d ∷ s) = if d == c then some s else none

-- `read_separator`: nothing before the first item, the character before each later one.
unfoldable pub read_separator : ℕ → Bool → Text → Option Text
unfolding read_given_char
read_separator c first s = if first then some s else read_given_char c s

-- One octet of an IPv4 address.
unfoldable pub read_octet : Bool → Text → Option (ℕ × Text)
unfolding read_separator read_number
read_octet first s = elim (read_separator 46 first s) [
  | none ↦ none
  | some rest ↦ read_number false 3 255 rest
]

unfoldable pub read_octets : ℕ → Bool → Text → Option (List ℕ × Text)
unfolding read_octet
read_octets zero first s = some ([], s)
read_octets (suc n) first s = elim (read_octet first s) [
  | none ↦ none
  | some (o, rest) ↦ elim (read_octets n false rest) [
    | none ↦ none
    | some (os, after) ↦ some (o ∷ os, after)
  ]
]

-- One group of an IPv6 address.
unfoldable pub read_group : Bool → Text → Option (ℕ × Text)
unfolding read_separator read_number
read_group first s = elim (read_separator 58 first s) [
  | none ↦ none
  | some rest ↦ read_number true 4 65535 rest
]

-- An embedded IPv4 address, as two groups.
unfoldable pub read_embedded : Bool → Text → Option (List ℕ × Text)
unfolding read_separator read_octets
read_embedded first s = elim (read_separator 58 first s) [
  | none ↦ none
  | some rest ↦ elim (read_octets 4 true rest) [
    | none ↦ none
    | some (a ∷ b ∷ c ∷ d ∷ [], after) ↦ some ((a * 256 + b) ∷ (c * 256 + d) ∷ [], after)
    | some (other, after) ↦ none
  ]
]

-- `read_groups`: groups as far as they go, at most some, and whether the last two were an IPv4
-- address.
unfoldable pub read_groups : ℕ → Bool → Text → (List ℕ × Bool) × Text
unfolding read_group read_embedded
read_groups zero first s = (([], false), s)
read_groups (suc n) first s =
    let embedded = if n == 0 then none else read_embedded first s in
    elim embedded [
      | some (groups, rest) ↦ ((groups, true), rest)
      | none ↦ elim (read_group first s) [
        | none ↦ (([], false), s)
        | some (g, rest) ↦
            let ((groups, v4), after) = read_groups n false rest in ((g ∷ groups, v4), after)
      ]
    ]

-- `"…".parse::<Ipv4Addr>()`: the four octets. The longest text is fifteen characters.
unfoldable pub parse_ipv4 : Text → Option (List ℕ)
unfolding read_octets
parse_ipv4 s = if ltb 15 (length s) then none else elim (read_octets 4 true s) [
  | none ↦ none
  | some (octets, rest) ↦ if is_nil rest then some octets else none
]

unfoldable pub zeros : ℕ → List ℕ
zeros zero = []
zeros (suc n) = 0 ∷ zeros n

-- `"…".parse::<Ipv6Addr>()`: the eight groups.
unfoldable pub parse_ipv6 : Text → Option (List ℕ)
unfolding read_groups read_given_char zeros
parse_ipv6 s =
    let ((head, head_v4), after) = read_groups 8 true s in
    if length head == 8
    then (if is_nil after then some head else none)
    else if head_v4
    then none
    else elim (read_given_char 58 after) [
      | none ↦ none
      | some colon ↦ elim (read_given_char 58 colon) [
        | none ↦ none
        | some tail_text ↦
            let ((tail, _), rest) = read_groups (8 - (length head + 1)) true tail_text in
            if is_nil rest
            then some (head ++ (zeros (8 - (length head + length tail)) ++ tail))
            else none
      ]
    ]

pub data IpAddr : Type 0 where
  v4 v6 : List ℕ → IpAddr

unfoldable pub parse_ip : Text → Option IpAddr
unfolding parse_ipv4 parse_ipv6
parse_ip s = elim (parse_ipv4 s) [
  | some octets ↦ some (v4 octets)
  | none ↦ elim (parse_ipv6 s) [ none ↦ none | some groups ↦ some (v6 groups) ]
]

-- 224.0.0.0/4 and ff00::/8.
unfoldable pub is_multicast : IpAddr → Bool
is_multicast (v4 (a ∷ os)) = in_range 224 239 a
is_multicast (v6 (g ∷ gs)) = g / 256 == 255
is_multicast _ = false
