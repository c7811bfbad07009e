-- ===== src/Schema/Value/Names.antt =====
-- src/nightshade-schema/src/value.rs: the individual rules.
use mathlib.Core.List.{reverse}
use nightshade.Shared.{
  ℕ, ◌+◌, ◌*◌, ◌%◌, List, [], ◌∷◌, Bool, false, not, ◌&&◌, ◌||◌, Option, none, some, if◌then◌else◌,
  ◌==◌, ltb, leb, all, is_nil, is_some, length, drop,
}
use nightshade.Shared.Text.{Text, codes, text_eq}
use nightshade.Shared.Pieces.{
  any, starts_with, ends_with, split, split_once, is_digit, is_lower, is_alphanumeric, is_control,
  parse_unsigned,
}
use nightshade.Schema.Lex.{is_whitespace, to_digit}
use nightshade.Schema.Value.Address.{IpAddr, v4, v6, parse_ip}

pub data Family : Type 0 where
  only_v4 only_v6 either : Family

-- The largest prefix length of an address of a family.
unfoldable pub prefix_limit : Family → IpAddr → Option ℕ
prefix_limit only_v4 (v4 os) = some 32
prefix_limit only_v4 (v6 gs) = none
prefix_limit only_v6 (v4 os) = none
prefix_limit only_v6 (v6 gs) = some 128
prefix_limit either (v4 os) = some 32
prefix_limit either (v6 gs) = some 128

-- A prefix length: one to three digits with no zero in front, below 256.
unfoldable pub prefix_len : Text → Option ℕ
unfolding parse_unsigned
prefix_len len =
    if is_nil len || ltb 3 (length len) || not (all is_digit len)
    then none
    else if ltb 1 (length len) && starts_with 48 len
    then none
    else parse_unsigned 255 len

unfoldable pub is_prefix : Family → Text → Bool
unfolding split_once prefix_len prefix_limit parse_ip
is_prefix family value = elim (split_once 47 value) [
  | none ↦ false
  | some (addr, len) ↦ elim (prefix_len len) [
    | none ↦ false
    | some n ↦ elim (parse_ip addr) [
      | none ↦ false
      | some ip ↦ elim (prefix_limit family ip) [ none ↦ false | some limit ↦ leb n limit ]
    ]
  ]
]

unfoldable pub octet_of : Text → Option ℕ
unfolding to_digit
octet_of (a ∷ b ∷ []) = elim (to_digit a) [
  | none ↦ none
  | some high ↦ elim (to_digit b) [ none ↦ none | some low ↦ some (high * 16 + low) ]
]
octet_of _ = none

unfoldable pub octets_of : List Text → Option (List ℕ)
unfolding octet_of
octets_of [] = some []
octets_of (part ∷ parts) = elim (octet_of part) [
  | none ↦ none
  | some o ↦ elim (octets_of parts) [ none ↦ none | some os ↦ some (o ∷ os) ]
]

-- Six octets of two digits each, not all zero, the first one even.
unfoldable pub is_unicast_mac : Text → Bool
unfolding split octets_of
is_unicast_mac value = elim (octets_of (split 58 value)) [
  | none ↦ false
  | some [] ↦ false
  | some (first ∷ others) ↦
      length others == 5 && any (λ o. not (o == 0)) (first ∷ others) && first % 2 == 0
]

unfoldable pub port_of : Text → Option ℕ
unfolding parse_unsigned
port_of s =
    if is_nil s || (ltb 1 (length s) && starts_with 48 s)
    then none
    else elim (parse_unsigned 65535 s) [ none ↦ none | some p ↦ if ltb 0 p then some p else none ]

unfoldable pub is_port_range : Text → Bool
unfolding split_once port_of
is_port_range value = elim (split_once 45 value) [
  | none ↦ is_some (port_of value)
  | some (low, high) ↦ elim (port_of low) [
    | none ↦ false
    | some a ↦ elim (port_of high) [ none ↦ false | some b ↦ leb a b ]
  ]
]

abbrev pub is_name_char : ℕ → Bool
is_name_char c = is_alphanumeric c || c == 45 || c == 95 || c == 46

unfoldable pub is_interface_name : Text → Bool
is_interface_name value =
    not (
      is_nil value
      || ltb 15 (length value)
      || text_eq value (codes ".")
      || text_eq value (codes ".."))
    && all is_name_char value

abbrev pub is_label_char : ℕ → Bool
is_label_char c = is_alphanumeric c || c == 45

unfoldable pub is_label : Text → Bool
unfolding ends_with
is_label label =
    not (is_nil label)
    && leb (length label) 63
    && not (starts_with 45 label)
    && not (ends_with 45 label)
    && all is_label_char label

unfoldable pub is_hostname : Text → Bool
unfolding split is_label
is_hostname value =
    not (is_nil value || ltb 253 (length value) || starts_with 46 value || ends_with 46 value)
    && all is_label (split 46 value)

-- The rest of a login name without a dollar at its end.
unfoldable pub without_dollar : Text → Text
without_dollar rest = elim (reverse rest) [
  | [] ↦ []
  | ◌∷◌ c cs ↦ if c == 36 then reverse cs else rest
]

abbrev pub is_login_char : ℕ → Bool
is_login_char c = is_lower c || is_digit c || c == 45 || c == 95

unfoldable pub is_user_name : Text → Bool
unfolding without_dollar
is_user_name [] = false
is_user_name (c ∷ rest) =
    leb (length (c ∷ rest)) 32 && (is_lower c || c == 95) && all is_login_char (without_dollar rest)

-- The shape of a crypt(3) hash, or one of the two texts that stand for no password.
unfoldable pub is_encrypted_password : Text → Bool
unfolding split
is_encrypted_password value =
    let fields = split 36 value in
    (text_eq value (codes "!") || text_eq value (codes "*"))
    || (starts_with 36 value
        && leb 4 (length fields)
        && all (λ f. not (is_nil f)) (drop 1 fields)
        && not (any (λ c. c == 58) value)
        && not (any (λ c. is_whitespace c || is_control c) value))

-- `value.contains("..")`.
unfoldable pub has_two_dots : Text → Bool
has_two_dots [] = false
has_two_dots (c ∷ []) = false
has_two_dots (c ∷ d ∷ s) = (c == 46 && d == 46) || has_two_dots (d ∷ s)

abbrev pub is_zone_char : ℕ → Bool
is_zone_char c = is_alphanumeric c || c == 47 || c == 95 || c == 45 || c == 43

unfoldable pub is_zone_shaped : Text → Bool
unfolding ends_with has_two_dots
is_zone_shaped value =
    not (is_nil value)
    && leb (length value) 64
    && not (starts_with 47 value)
    && not (ends_with 47 value)
    && not (has_two_dots value)
    && all is_zone_char value
