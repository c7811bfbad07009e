-- ===== src/Proto/SessionId.antt =====
-- src/nightshade-proto/src/message/session_id.rs: the ids of sessions, which become file names.
--
-- A character that is not ASCII is no digit by its code point, as none of its bytes is, so that the
-- length in characters decides where the source counts bytes.
pub mod Names
use nightshade.Shared.{
  ℕ, ◌+◌, ◌/◌, ◌%◌, List, [], ◌∷◌, Bool, ◌&&◌, ◌||◌, if◌then◌else◌, ◌==◌, ltb, leb, all, length,
}
use nightshade.Shared.Text.{Text}
use nightshade.Shared.Result.{Result, ok, err}

abbrev pub len : ℕ
len = 16

pub data SessionIdError : Type 0 where
  session_id_error : SessionIdError

-- An ASCII digit, or a letter from `a` to `f`.
unfoldable pub is_id_char : ℕ → Bool
is_id_char c = (leb 48 c && leb c 57) || (leb 97 c && leb c 102)

unfoldable pub parse : Text → Result SessionIdError Text
unfolding is_id_char
parse text = if length text == len && all is_id_char text then ok text else err session_id_error

-- `char::from_digit(n, 16)` of a nibble.
unfoldable pub nibble : ℕ → ℕ
nibble n = if ltb n 10 then n + 48 else n + 87

unfoldable pub from_bytes : List ℕ → Text
unfolding nibble
from_bytes [] = []
from_bytes (byte ∷ bytes) = nibble (byte / 16) ∷ nibble (byte % 16) ∷ from_bytes bytes
