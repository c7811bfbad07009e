-- ===== src/Proto/Frame.antt =====
-- src/nightshade-proto/src/frame.rs: frames, a length of four bytes before a body.
--
-- A stream is the list of the bytes that it will give. The encoding of a message, CBOR, is a
-- library's: `encode` and `read_blocking` take its two directions.
pub mod RoundTrip
use nightshade.Shared.{
  ℕ, ◌+◌, ◌*◌, ◌/◌, ◌%◌, List, [], ◌∷◌, ◌++◌, Bool, if◌then◌else◌, ◌==◌, ltb, length, take, drop,
}
use nightshade.Shared.Text.{Text}
use nightshade.Shared.Result.{Result, ok, err, ◌>>=◌, map_err}

abbrev pub Bytes : Type 0
Bytes = List ℕ

-- 4 MiB.
abbrev pub max_body : ℕ
max_body = 4194304

pub data FrameError : Type 0 where
  too_large : ℕ → FrameError
  empty unexpected_end : FrameError
  malformed unencoded : Text → FrameError

-- `[u8; 4]`.
pub record Header : Type 0 where
  pub b0 : ℕ
  pub b1 : ℕ
  pub b2 : ℕ
  pub b3 : ℕ

-- `u32::from_be_bytes` and `u32::to_be_bytes`.
unfoldable pub from_be_bytes : Header → ℕ
from_be_bytes h = ((h.b0 * 256 + h.b1) * 256 + h.b2) * 256 + h.b3

unfoldable pub to_be_bytes : ℕ → Header
to_be_bytes n = record {
  b0 = n / 16777216 % 256;
  b1 = n / 65536 % 256;
  b2 = n / 256 % 256;
  b3 = n % 256;
}

abbrev pub bytes_of : Header → Bytes
bytes_of h = h.b0 ∷ h.b1 ∷ h.b2 ∷ h.b3 ∷ []

unfoldable pub body_len : Header → Result FrameError ℕ
unfolding from_be_bytes
body_len header =
    let len = from_be_bytes header in
    if len == 0 then err empty else if ltb max_body len then err (too_large len) else ok len

-- `read_exact` into a header and into a body of some length.
unfoldable pub read_header : Bytes → Result FrameError (Header × Bytes)
read_header (a ∷ b ∷ c ∷ d ∷ rest) = ok (record { b0 = a; b1 = b; b2 = c; b3 = d }, rest)
read_header _ = err unexpected_end

unfoldable pub read_exact : ℕ → Bytes → Result FrameError (Bytes × Bytes)
read_exact n stream =
    if ltb (length stream) n then err unexpected_end else ok (take n stream, drop n stream)

module _ {T : Type 0} where
  unfoldable pub encode : (T → Result Text Bytes) → T → Result FrameError Bytes
  unfolding to_be_bytes
  encode into_writer message = do
    body ← map_err unencoded (into_writer message)
    if ltb max_body (length body)
        then err (too_large (length body))
        else ok (bytes_of (to_be_bytes (length body % 4294967296)) ++ body)

  unfoldable pub decode : (Bytes → Result Text T) → Bytes → Result FrameError T
  decode from_reader body = map_err malformed (from_reader body)

  -- The message, with what is left of the stream.
  unfoldable pub read_blocking : (Bytes → Result Text T) → Bytes → Result FrameError (T × Bytes)
  unfolding read_header body_len read_exact decode
  read_blocking from_reader stream = do
    (header, after) ← read_header stream
    len ← body_len header
    (body, rest) ← read_exact len after
    message ← decode from_reader body
    ok (message, rest)
