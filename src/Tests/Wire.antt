-- ===== src/Tests/Wire.antt =====
-- Examples of frames and session ids.
use nightshade.Shared.{ℕ, List, [], ◌∷◌, ◌++◌, true, not, ◌≡◌, ◌≤◌, ◌↔◌, refl, arith, all, length}
use nightshade.Shared.Text.{Text, codes}
use nightshade.Shared.Result.{Result, ok}
use nightshade.Proto.Frame.{Bytes, Header, body_len, encode, to_be_bytes, max_body, read_blocking}
use nightshade.Proto.Frame.RoundTrip.{body_len-to_be_bytes, read_blocking-encode}
use nightshade.Proto.SessionId.{len, parse, from_bytes}
use nightshade.Proto.SessionId.Names.{is_path_char, parse-from_bytes, parse-safe}

-- A message of two bytes, which are their own encoding.
abbrev message : Bytes
message = 7 ∷ 9 ∷ []

abbrev frame : Bytes
frame = 0 ∷ 0 ∷ 0 ∷ 2 ∷ 7 ∷ 9 ∷ []

abbrev same : Bytes → Result Text Bytes
same b = ok b

framed : encode same message ≡ ok frame
unfolding encode
framed = refl

read_blocking-encode_example : read_blocking same (frame ++ 1 ∷ []) ≡ ok (message, 1 ∷ [])
read_blocking-encode_example =
    read_blocking-encode same same message message frame (1 ∷ []) refl refl (omega arith) framed

abbrev thousand : Header
thousand = record { b0 = 0; b1 = 0; b2 = 3; b3 = 232 }

body_len-to_be_bytes_example :
    (body_len thousand ≡ ok 1000) ↔ ((1 ≤ 1000) × (1000 ≤ max_body) × (thousand ≡ to_be_bytes 1000))
body_len-to_be_bytes_example =
    body_len-to_be_bytes thousand 1000 (omega arith, omega arith, omega arith, omega arith)

abbrev id : Text
id = codes "00ff10a20b3c4d5e"

id_accepted : parse id ≡ ok id
unfolding parse
id_accepted = refl

parse-safe_example : (id ≡ id) × (length id ≡ len) × (all (λ c. not (is_path_char c)) id ≡ true)
parse-safe_example = parse-safe id id id_accepted

abbrev bytes : List ℕ
bytes = 0 ∷ 255 ∷ 16 ∷ 162 ∷ 11 ∷ 60 ∷ 77 ∷ 94 ∷ []

parse-from_bytes_example : parse (from_bytes bytes) ≡ ok (from_bytes bytes)
parse-from_bytes_example = parse-from_bytes bytes refl (
  omega arith,
  (
    omega arith,
    (omega arith, (omega arith, (omega arith, (omega arith, (omega arith, (omega arith, tt)))))),
  ),
)
