-- ===== src/Proto/Frame/RoundTrip.antt =====
-- src/nightshade-proto/src/frame.rs: what is framed is read back, and what is read is bounded.
use nightshade.Shared.{
  ℕ, ◌+◌, ◌*◌, ◌/◌, ◌%◌, ◌≤◌, ◌<◌, ◌↔◌, [], ◌∷◌, ◌++◌, ◌≡◌, ◌∙◌, refl, ap, sym, arith, length,
  length-append, take, drop, ltb, if◌then◌else◌,
}
use nightshade.Shared.Text.{Text}
use nightshade.Shared.Result.{Result, ok, err}
use nightshade.Proto.Frame.{
  Bytes, Header, too_large, max_body, from_be_bytes, to_be_bytes, bytes_of, body_len, read_exact,
  encode, read_blocking,
}

from_be_bytes-to_be_bytes : (n : ℕ) → n ≤ max_body → from_be_bytes (to_be_bytes n) ≡ n
unfolding from_be_bytes to_be_bytes
from_be_bytes-to_be_bytes n h = omega (arith, h)

take-append : (l m : Bytes) → take (length l) (l ++ m) ≡ l
take-append [] m = refl
take-append (x ∷ l) m = ap (λ t. x ∷ t) (take-append l m)

drop-append : (l m : Bytes) → drop (length l) (l ++ m) ≡ m
drop-append [] m = refl
drop-append (x ∷ l) m = drop-append l m

body_len-accepts :
    (header : Header) (n : ℕ)
    → body_len header ≡ ok n
    → (n ≡ from_be_bytes header) × (1 ≤ n) × (n ≤ max_body)
unfolding body_len
body_len-accepts header n h = ground (arith, h)

body_len-eq :
    (header : Header) (n : ℕ)
    → from_be_bytes header ≡ n
    → 1 ≤ n
    → n ≤ max_body
    → body_len header ≡ ok n
unfolding body_len
body_len-eq header n h low high = ground (arith, h, low, high)

-- The four numbers of a prefix are bytes.
abbrev pub IsBytes : Header → Type 0
IsBytes h = (h.b0 < 256) × (h.b1 < 256) × (h.b2 < 256) × (h.b3 < 256)

to_be_bytes-from_be_bytes :
    (a b c d : ℕ)
    → IsBytes (record { b0 = a; b1 = b; b2 = c; b3 = d })
    → to_be_bytes (((a * 256 + b) * 256 + c) * 256 + d) ≡ record { b0 = a; b1 = b; b2 = c; b3 = d }
unfolding to_be_bytes
to_be_bytes-from_be_bytes a b c d (ha, hb, hc, hd) =
    let n = ((a * 256 + b) * 256 + c) * 256 + d in
    let ea : n / 16777216 % 256 ≡ a = omega (arith, ha, hb, hc, hd) in
    let eb : n / 65536 % 256 ≡ b = omega (arith, ha, hb, hc, hd) in
    let ec : n / 256 % 256 ≡ c = omega (arith, ha, hb, hc, hd) in
    let ed : n % 256 ≡ d = omega (arith, ha, hb, hc, hd) in rw (ea, eb, ec, ed) refl

-- A prefix of four bytes is taken for a length exactly if the length is from one byte to 4 MiB,
-- both included, and the prefix is the one that the writer puts before a body of that length.
pub body_len-to_be_bytes :
    (header : Header) (n : ℕ)
    → IsBytes header
    → (body_len header ≡ ok n) ↔ ((1 ≤ n) × (n ≤ max_body) × (header ≡ to_be_bytes n))
unfolding from_be_bytes
body_len-to_be_bytes header n bytes =
    let back = to_be_bytes-from_be_bytes header.b0 header.b1 header.b2 header.b3 bytes in
    (
      (λ h.
          let (same, low, high) = body_len-accepts header n h in
          (low, high, sym (ap to_be_bytes same ∙ back))),
      (λ (low, high, same).
          body_len-eq header n (ap from_be_bytes same ∙ from_be_bytes-to_be_bytes n high) low high),
    )

read_exact-append : (l m : Bytes) → read_exact (length l) (l ++ m) ≡ ok (l, m)
unfolding read_exact
read_exact-append l m = ground (arith, length-append l m, take-append l m, drop-append l m)

module _ {T : Type 0} where
  encode-eq-ok :
      (into_writer : T → Result Text Bytes) (message : T) (body frame : Bytes)
      → into_writer message ≡ ok body
      → encode into_writer message ≡ ok frame
      → (length body ≤ max_body)
        × (frame ≡ bytes_of (to_be_bytes (length body % 4294967296)) ++ body)
  unfolding encode
  encode-eq-ok into_writer message body frame writes framed =
      let plain : (if ltb max_body (length body)
            then err (too_large (length body))
            else ok (bytes_of (to_be_bytes (length body % 4294967296)) ++ body))
          ≡ ok frame =
        rw writes at framed in
      ground (arith, plain)

  read_blocking-eq :
      (from_reader : Bytes → Result Text T) (header : Header) (body rest : Bytes) (message : T)
      → body_len header ≡ ok (length body)
      → from_reader body ≡ ok message
      → read_blocking from_reader ((bytes_of header ++ body) ++ rest) ≡ ok (message, rest)
  unfolding read_blocking
  read_blocking-eq from_reader header body rest message h reads =
      rw (read_blocking, h, read_exact-append body rest, reads)

  -- A message that is framed is read back from a stream that starts with its frame, with the rest
  -- of the stream left over, where the encoding of the message is not empty and decodes to it.
  pub read_blocking-encode :
      (into_writer : T → Result Text Bytes) (from_reader : Bytes → Result Text T) (message : T)
      (body frame rest : Bytes)
      → into_writer message ≡ ok body
      → from_reader body ≡ ok message
      → 1 ≤ length body
      → encode into_writer message ≡ ok frame
      → read_blocking from_reader (frame ++ rest) ≡ ok (message, rest)
  read_blocking-encode into_writer from_reader message body frame rest writes reads some_body
        framed =
      let (small, eq) = encode-eq-ok into_writer message body frame writes framed in
      let n = length body in
      let header = to_be_bytes (n % 4294967296) in
      let same : n % 4294967296 ≡ n = omega (arith, small) in
      let len =
        body_len-eq header n
          (ap (λ (k : ℕ). from_be_bytes (to_be_bytes k)) same ∙ from_be_bytes-to_be_bytes n small)
          some_body small in
      rw eq (read_blocking-eq from_reader header body rest message len reads)
