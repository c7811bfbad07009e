-- ===== src/Schema/Value.antt =====
-- src/nightshade-schema/src/value.rs: the types of values, and what each accepts.
--
-- The length of a `String` is its bytes and here its characters; where a rule looks at it, each
-- character has to be ASCII as well. Regular expressions and the database of time zones are other
-- libraries' and are records of what is asked of them.
pub mod Address
pub mod Names
pub mod Rules
use nightshade.Shared.{
  ℕ, zero, suc, ◌+◌, ◌-◌, ◌%◌, ◌++◌, List, [], ◌∷◌, Bool, true, false, not, ◌&&◌, ◌||◌, Option,
  none, some, if◌then◌else◌, ◌==◌, ltb, leb, all, is_nil, is_some, length, map,
}
use nightshade.Shared.Text.{Text, codes, text_eq}
use nightshade.Shared.Result.{Result, ok, err}
use nightshade.Shared.Pieces.{
  any, is_member, starts_with, ends_with, split, split_once, join, in_range, is_digit, is_lower,
  is_alphanumeric, is_control, digits_from, parse_unsigned, decimal,
}
use nightshade.Schema.Lex.{trim_both}
use nightshade.Schema.Value.Address.{parse_ipv4, parse_ipv6, parse_ip, is_multicast}
use nightshade.Schema.Value.Names.{
  only_v4, only_v6, either, is_prefix, is_unicast_mac, is_port_range, is_interface_name,
  is_hostname, is_user_name, is_encrypted_password, is_zone_shaped,
}

pub record ValueError : Type 0 where
  pub value : Text
  pub expected : Text

abbrev pub Check : Type 0
Check = Result ValueError (Unit {0})

abbrev pub fail : Text → Text → Check
fail value expected = err (record { value = value; expected = expected })

-- An `i64`: `pos n` is n, and `negsuc n` is -(n + 1).
pub data ℤ : Type 0 where
  pos negsuc : ℕ → ℤ

unfoldable pub int_leb : ℤ → ℤ → Bool
int_leb (pos a) (pos b) = leb a b
int_leb (pos a) (negsuc b) = false
int_leb (negsuc a) (pos b) = true
int_leb (negsuc a) (negsuc b) = leb b a

-- `(a - b).unsigned_abs()` where b is not above a, and the subtraction stays in an `i64`.
unfoldable pub distance : ℤ → ℤ → ℕ
distance (pos a) (pos b) = a - b
distance (pos a) (negsuc b) = a + suc b
distance (negsuc a) (pos b) = 0
distance (negsuc a) (negsuc b) = b - a

unfoldable pub show_int : ℤ → Text
show_int (pos n) = decimal n
show_int (negsuc n) = 45 ∷ decimal (suc n)

-- `parse::<i64>()`: digits, after a sign or not, from -2^63 to 2^63 - 1.
unfoldable pub parse_int : Text → Option ℤ
unfolding digits_from parse_unsigned
parse_int [] = none
parse_int (c ∷ s) =
    if c == 45
    then (if is_nil s || starts_with 43 s
        then none
        else elim (parse_unsigned 9223372036854775808 s) [
          | none ↦ none
          | some zero ↦ some (pos zero)
          | some (suc n) ↦ some (negsuc n)
        ])
    else elim (parse_unsigned 9223372036854775807 (c ∷ s)) [ none ↦ none | some n ↦ some (pos n) ]

pub record Range : Type 0 where
  pub min : ℤ
  pub max : ℤ
  pub step : Option ℕ

unfoldable pub describe : Range → Text
describe r =
    codes "a whole number between "
    ++ (show_int r.min
        ++ (codes " and "
            ++ (show_int r.max ++ (elim r.step [
              | none ↦ []
              | some step ↦ codes " in steps of " ++ decimal step
            ]))))

-- `n.is_multiple_of(step)`: a step of zero divides zero alone.
unfoldable pub is_multiple_of : ℕ → ℕ → Bool
is_multiple_of n zero = n == 0
is_multiple_of n (suc k) = n % suc k == 0

unfoldable pub on_step : Range → ℤ → Bool
unfolding is_multiple_of distance
on_step r n = elim r.step [ none ↦ true | some step ↦ is_multiple_of (distance n r.min) step ]

unfoldable pub check_range : Range → Text → Check
unfolding parse_int int_leb on_step describe
check_range r value = elim (parse_int value) [
  | none ↦ fail value (describe r)
  | some n ↦
      if int_leb r.min n && int_leb n r.max && on_step r n then ok tt else fail value (describe r)
]

pub data ValueType : Type 0 where
  any_text bool : ValueType
  number : Range → ValueType
  ipv4_address ipv6_address ip_address ipv4_prefix ipv6_prefix ip_prefix : ValueType
  ip_or_prefix multicast_address mac_address port port_range interface_name hostname : ValueType
  time_zone user_name encrypted_password : ValueType
  enum : List Text → ValueType

unfoldable pub placeholder_of : ValueType → Text
unfolding show_int
placeholder_of any_text = codes "<text>"
placeholder_of bool = codes "<true|false>"
placeholder_of (number r) =
    codes "<" ++ (show_int r.min ++ (codes "-" ++ (show_int r.max ++ codes ">")))
placeholder_of ipv4_address = codes "<x.x.x.x>"
placeholder_of ipv6_address = codes "<h:h:h:h:h:h:h:h>"
placeholder_of ip_address = codes "<ip-address>"
placeholder_of ipv4_prefix = codes "<x.x.x.x/x>"
placeholder_of ipv6_prefix = codes "<h:h:h:h:h:h:h:h/x>"
placeholder_of ip_prefix = codes "<ip-address/prefix>"
placeholder_of ip_or_prefix = codes "<ip-address[/prefix]>"
placeholder_of multicast_address = codes "<multicast-address>"
placeholder_of mac_address = codes "<xx:xx:xx:xx:xx:xx>"
placeholder_of port = codes "<1-65535>"
placeholder_of port_range = codes "<port[-port]>"
placeholder_of interface_name = codes "<interface>"
placeholder_of hostname = codes "<hostname>"
placeholder_of time_zone = codes "<Area/Location>"
placeholder_of user_name = codes "<user>"
placeholder_of encrypted_password = codes "<crypt-hash>"
placeholder_of (enum values) = codes "<" ++ (join (codes "|") values ++ codes ">")

unfoldable pub expected_of : ValueType → Text
unfolding describe
expected_of any_text = codes "text"
expected_of bool = codes "`true` or `false`"
expected_of (number r) = describe r
expected_of ipv4_address = codes "an IPv4 address"
expected_of ipv6_address = codes "an IPv6 address"
expected_of ip_address = codes "an IP address"
expected_of ipv4_prefix = codes "an IPv4 address and prefix length, e.g. 192.168.1.1/24"
expected_of ipv6_prefix = codes "an IPv6 address and prefix length, e.g. 2001:db8::1/64"
expected_of ip_prefix = codes "an IP address and prefix length"
expected_of ip_or_prefix = codes "an IP address, with or without a prefix length"
expected_of multicast_address = codes "a multicast IP address"
expected_of mac_address = codes "a unicast MAC address, e.g. 02:00:5e:10:00:01"
expected_of port = codes "a port number between 1 and 65535"
expected_of port_range = codes "a port or a port range, e.g. 1024-2048"
expected_of interface_name = codes "a valid interface name (up to 15 characters)"
expected_of hostname = codes "a valid host name"
expected_of time_zone = codes "a known time zone, e.g. Europe/London"
expected_of user_name = codes "a valid login name (lower-case, up to 32 characters)"
expected_of encrypted_password = codes "a crypt(3) hash, e.g. $6$... -- not a plaintext password"
expected_of (enum values) = codes "one of: " ++ join (codes ", ") values

-- The system's time zones: whether there are any, and whether one is known.
pub record Zones : Type 0 where
  pub available : Bool
  pub known : Text → Bool

unfoldable pub check_time_zone : Zones → Text → Check
unfolding is_zone_shaped expected_of
check_time_zone zones value =
    if not (is_zone_shaped value)
    then fail value (expected_of time_zone)
    else if zones.available && not (zones.known value)
    then fail value (expected_of time_zone ++ codes " (not in this system's time zone database)")
    else ok tt

unfoldable pub check_text : Text → Check
check_text value =
    if any is_control value
    then fail value (codes "text without control characters or line breaks")
    else ok tt

unfoldable pub is_port : Text → Bool
unfolding check_range
is_port value = elim (check_range (record { min = pos 1; max = pos 65535; step = none }) value) [
  | ok _ ↦ true
  | err _ ↦ false
]

-- The answer of a rule that says yes or no.
abbrev pub judge : Bool → ValueType → Text → Check
judge good type value = if good then ok tt else fail value (expected_of type)

unfoldable pub check_type : Zones → ValueType → Text → Check
unfolding check_text check_range check_time_zone expected_of is_prefix is_unicast_mac is_port
    is_port_range is_interface_name is_hostname is_user_name is_encrypted_password parse_ip
    parse_ipv4 parse_ipv6 is_multicast
check_type zones any_text value = check_text value
check_type zones bool value =
    judge (text_eq value (codes "true") || text_eq value (codes "false")) bool value
check_type zones (number r) value = check_range r value
check_type zones ipv4_address value = judge (is_some (parse_ipv4 value)) ipv4_address value
check_type zones ipv6_address value = judge (is_some (parse_ipv6 value)) ipv6_address value
check_type zones ip_address value = judge (is_some (parse_ip value)) ip_address value
check_type zones ipv4_prefix value = judge (is_prefix only_v4 value) ipv4_prefix value
check_type zones ipv6_prefix value = judge (is_prefix only_v6 value) ipv6_prefix value
check_type zones ip_prefix value = judge (is_prefix either value) ip_prefix value
check_type zones ip_or_prefix value =
    judge (is_some (parse_ip value) || is_prefix either value) ip_or_prefix value
check_type zones multicast_address value =
    judge (elim (parse_ip value) [ none ↦ false | some ip ↦ is_multicast ip ]) multicast_address
      value
check_type zones mac_address value = judge (is_unicast_mac value) mac_address value
check_type zones port value = judge (is_port value) port value
check_type zones port_range value = judge (is_port_range value) port_range value
check_type zones interface_name value = judge (is_interface_name value) interface_name value
check_type zones hostname value = judge (is_hostname value) hostname value
check_type zones time_zone value = check_time_zone zones value
check_type zones user_name value = judge (is_user_name value) user_name value
check_type zones encrypted_password value =
    judge (is_encrypted_password value) encrypted_password value
check_type zones (enum values) value = judge (is_member value values) (enum values) value

-- A compiled pattern: its source, and which texts match.
pub record Regex : Type 0 where
  pub source : Text
  pub is_match : Text → Bool

pub record ValueSpec : Type 0 where
  pub ty : ValueType
  pub accepts : List Text
  pub pattern : Option Regex

unfoldable pub check_spec : Zones → ValueSpec → Text → Check
unfolding check_type expected_of
check_spec zones spec value =
    if is_member value spec.accepts then ok tt else elim (check_type zones spec.ty value) [
      | err e ↦ err (
          if is_nil spec.accepts then e else record e {
            expected = e.expected ++ (codes ", or one of: " ++ join (codes ", ") spec.accepts);
          })
      | ok _ ↦ elim spec.pattern [
        | none ↦ ok tt
        | some p ↦
            if p.is_match value
            then ok tt
            else fail value (expected_of spec.ty ++ (codes " matching " ++ p.source))
      ]
    ]

-- The placeholder without the angle brackets around it.
unfoldable pub unbracketed : Text → Text
unfolding trim_both
unbracketed = trim_both λ c. c == 60 || c == 62

unfoldable pub placeholder : ValueSpec → Text
unfolding placeholder_of unbracketed
placeholder spec =
    if is_nil spec.accepts
    then placeholder_of spec.ty
    else codes "<"
      ++ (unbracketed (placeholder_of spec.ty)
          ++ (codes "|" ++ (join (codes "|") spec.accepts ++ codes ">")))
