-- ===== src/Proto/SessionId/Names.antt =====
-- src/nightshade-proto/src/message/session_id.rs: what an id can be.
use nightshade.Shared.{
  ℕ, ◌*◌, ◌/◌, ◌%◌, ◌<◌, List, [], ◌∷◌, Bool, true, not, ◌||◌, ◌≡◌, refl, arith, All, all, length,
  ◌==◌,
}
use nightshade.Shared.Text.{Text}
use nightshade.Shared.Result.{ok}
use nightshade.Proto.SessionId.{len, is_id_char, parse, nibble, from_bytes}

abbrev pub IsByte : ℕ → Type 0
IsByte b = b < 256

nibble-is_id_char : (n : ℕ) → n < 16 → is_id_char (nibble n) ≡ true
unfolding nibble is_id_char
nibble-is_id_char n h = ground (arith, h)

from_bytes-all : (bytes : List ℕ) → All IsByte bytes → all is_id_char (from_bytes bytes) ≡ true
unfolding from_bytes
from_bytes-all [] h = refl
from_bytes-all (b ∷ bytes) (small, h) = rw (
  nibble-is_id_char (b / 16) (omega (arith, small)),
  nibble-is_id_char (b % 16) (omega (arith, small)),
  from_bytes-all bytes h,
)

length-from_bytes : (bytes : List ℕ) → length (from_bytes bytes) ≡ 2 * length bytes
unfolding from_bytes
length-from_bytes [] = refl
length-from_bytes (b ∷ bytes) = omega (arith, length-from_bytes bytes)

-- An id made from eight bytes is accepted as a session id.
pub parse-from_bytes :
    (bytes : List ℕ)
    → length bytes ≡ 8
    → All IsByte bytes
    → parse (from_bytes bytes) ≡ ok (from_bytes bytes)
unfolding parse
parse-from_bytes bytes eight small = rw (from_bytes-all bytes small, length-from_bytes bytes, eight)

-- A character that has a meaning in a path.
abbrev pub is_path_char : ℕ → Bool
is_path_char c = (c == 46) || (c == 47) || (c == 0)

is_id_char-safe :
    (text : Text) → all is_id_char text ≡ true → all (λ c. not (is_path_char c)) text ≡ true
unfolding is_id_char
is_id_char-safe [] h = refl
is_id_char-safe (c ∷ text) h = ground (arith, h, is_id_char-safe text)

-- A text that is accepted as a session id is that id, has sixteen characters, and none of them is
-- a dot, a slash or a NUL, so that the file named by it stays in its directory.
pub parse-safe :
    (text id : Text)
    → parse text ≡ ok id
    → (id ≡ text) × (length id ≡ len) × (all (λ c. not (is_path_char c)) id ≡ true)
unfolding parse
parse-safe text id h = ground (arith, h, is_id_char-safe text)
