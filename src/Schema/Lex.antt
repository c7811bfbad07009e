-- ===== src/Schema/Lex.antt =====
-- src/nightshade-schema/src/lex.rs: the tokeniser, and the quoting of values.
--
-- The lexer is the text that is left with the position of its first character. Lines and columns
-- are `u32` and wrap.
pub mod Words
pub mod Strings
pub mod Quoting
pub mod Fuel
pub mod Progress
use mathlib.Core.List.{reverse}
use nightshade.Shared.{
  ℕ, zero, suc, ◌+◌, ◌*◌, ◌/◌, ◌%◌, List, [], ◌∷◌, ◌++◌, map, Bool, true, false, not, ◌&&◌, ◌||◌,
  Option, none, some, if◌then◌else◌, ◌==◌, ltb, leb, all, is_nil, length, drop, ◌-◌,
}
use nightshade.Shared.Text.{Text, codes}
use nightshade.Shared.Result.{Result, ok, err, ◌>>=◌}

pub record Pos : Type 0 where
  pub line : ℕ
  pub column : ℕ

pub data Token : Type 0 where
  value : Text → Token
  open_brace close_brace : Token
  comment : Text → Token

pub record Spanned : Type 0 where
  pub token : Token
  pub pos : Pos

pub data LexError : Type 0 where
  unterminated_string unterminated_comment bad_hex_escape : Pos → LexError
  unknown_escape unexpected_char : Pos → ℕ → LexError

-- A range of code points, both ends included.
abbrev pub between : ℕ → ℕ → ℕ → Bool
between low high c = leb low c && leb c high

-- ASCII letters and digits, and `.` `:` `/` `_` `-` `+` `%`.
unfoldable pub is_bare_char : ℕ → Bool
is_bare_char c =
    between 48 57 c
    || between 65 90 c
    || between 97 122 c
    || c == 46
    || c == 58
    || c == 47
    || c == 95
    || c == 45
    || c == 43
    || c == 37

unfoldable pub is_bare : Text → Bool
unfolding is_bare_char
is_bare s = not (is_nil s) && all is_bare_char s

-- A hexadecimal digit below 16, in lower case.
unfoldable pub hex_digit : ℕ → ℕ
hex_digit n = if ltb n 10 then n + 48 else n + 87

unfoldable pub quote_char : ℕ → Text
unfolding hex_digit
quote_char c =
    if c == 92
    then 92 ∷ 92 ∷ []
    else if c == 34
    then 92 ∷ 34 ∷ []
    else if c == 10
    then 92 ∷ 110 ∷ []
    else if c == 9
    then 92 ∷ 116 ∷ []
    else if c == 13
    then 92 ∷ 114 ∷ []
    else if ltb c 32 || c == 127
    then 92 ∷ 120 ∷ hex_digit (c / 16) ∷ hex_digit (c % 16) ∷ []
    else c ∷ []

unfoldable pub quote_chars : Text → Text
unfolding quote_char
quote_chars [] = []
quote_chars (c ∷ cs) = quote_char c ++ quote_chars cs

unfoldable pub quote : Text → Text
unfolding is_bare quote_chars
quote s = if is_bare s then s else 34 ∷ (quote_chars s ++ 34 ∷ [])

pub record Lexer : Type 0 where
  pub rest : Text
  pub pos : Pos

abbrev pub wrap : ℕ → ℕ
wrap n = n % 4294967296

-- The position after a character.
unfoldable pub advance : ℕ → Pos → Pos
advance c p =
    if c == 10
    then record { line = wrap (p.line + 1); column = 1 }
    else record { line = p.line; column = wrap (p.column + 1) }

abbrev pub lexer : Text → Pos → Lexer
lexer rest pos = record { rest = rest; pos = pos }

unfoldable pub new : Text → Lexer
new src = lexer src (record { line = 1; column = 1 })

unfoldable pub bump : Lexer → Option (ℕ × Lexer)
unfolding advance
bump l = elim l.rest [ [] ↦ none | ◌∷◌ c cs ↦ some (c, lexer cs (advance c l.pos)) ]

-- `char::is_whitespace`: the characters with the Unicode property White_Space.
unfoldable pub is_whitespace : ℕ → Bool
is_whitespace c =
    between 9 13 c
    || c == 32
    || c == 133
    || c == 160
    || c == 5760
    || between 8192 8202 c
    || c == 8232
    || c == 8233
    || c == 8239
    || c == 8287
    || c == 12288

unfoldable pub skip_whitespace : Text → Pos → Lexer
unfolding is_whitespace advance
skip_whitespace [] p = lexer [] p
skip_whitespace (c ∷ cs) p =
    let after = skip_whitespace cs (advance c p) in
    if is_whitespace c then after else lexer (c ∷ cs) p

unfoldable pub word : Text → Pos → Text × Lexer
unfolding is_bare_char advance
word [] p = ([], lexer [] p)
word (c ∷ cs) p =
    let (s, after) = word cs (advance c p) in
    if is_bare_char c then (c ∷ s, after) else ([], lexer (c ∷ cs) p)

-- `char::to_digit(16)`.
unfoldable pub to_digit : ℕ → Option ℕ
to_digit c =
    if between 48 57 c
    then some (c - 48)
    else if between 97 102 c
    then some (c - 87)
    else if between 65 70 c
    then some (c - 55)
    else none

-- One digit of `\xNN`, added to the value so far.
unfoldable pub hex_step : Pos → ℕ → Lexer → Result LexError (ℕ × Lexer)
unfolding bump to_digit
hex_step backslash v l = elim (bump l) [
  | none ↦ err (bad_hex_escape backslash)
  | some (c, after) ↦ elim (to_digit c) [
    | none ↦ err (bad_hex_escape backslash)
    | some digit ↦ ok (v * 16 + digit, after)
  ]
]

unfoldable pub hex_escape : Pos → Lexer → Result LexError (ℕ × Lexer)
unfolding hex_step
hex_escape backslash l = do
  (high, l1) ← hex_step backslash 0 l
  (v, l2) ← hex_step backslash high l1
  if ltb 127 v then err (bad_hex_escape backslash) else ok (v, l2)

unfoldable pub escape : Pos → Lexer → Result LexError (ℕ × Lexer)
unfolding bump hex_escape
escape backslash l = elim (bump l) [
  | none ↦ err (unterminated_string backslash)
  | some (c, after) ↦
      if c == 92
      then ok (92, after)
      else if c == 34
      then ok (34, after)
      else if c == 110
      then ok (10, after)
      else if c == 116
      then ok (9, after)
      else if c == 114
      then ok (13, after)
      else if c == 120
      then hex_escape backslash after
      else err (unknown_escape backslash c)
]

-- A character in front of what is read next.
abbrev pub push : ℕ → Result LexError (Text × Lexer) → Result LexError (Text × Lexer)
push c m = m >>= λ r. ok (c ∷ r.0, r.1)

-- The loop of `string`, after the opening quote. Each turn takes a character, so as many turns as
-- the text has characters, and one to see its end, are enough.
unfoldable pub string_body : ℕ → Pos → Lexer → Result LexError (Text × Lexer)
unfolding bump escape
string_body zero opened l = err (unterminated_string opened)
string_body (suc fuel) opened l = elim (bump l) [
  | none ↦ err (unterminated_string opened)
  | some (c, after) ↦
      if c == 34
      then ok ([], after)
      else if c == 92
      then elim (escape l.pos after) [
        | err e ↦ err e
        | ok (v, l2) ↦ push v (string_body fuel opened l2)
      ]
      else push c (string_body fuel opened after)
]

unfoldable pub string : Pos → Lexer → Result LexError (Token × Lexer)
unfolding string_body
string opened l = string_body (suc (length l.rest)) opened l >>= λ r. ok (value r.0, r.1)

unfoldable pub comment_line : Text → Pos → Text × Lexer
unfolding advance
comment_line [] p = ([], lexer [] p)
comment_line (c ∷ cs) p =
    let (s, after) = comment_line cs (advance c p) in
    if c == 10 then ([], lexer (c ∷ cs) p) else (c ∷ s, after)

-- `strip_prefix(' ').unwrap_or(..)`.
unfoldable pub strip_space : Text → Text
strip_space [] = []
strip_space (c ∷ cs) = if c == 32 then cs else c ∷ cs

-- What stands before the closing `*/`.
unfoldable pub block_raw : Pos → Text → Pos → Result LexError (Text × Lexer)
unfolding advance
block_raw opened [] p = err (unterminated_comment opened)
block_raw opened (c ∷ []) p = err (unterminated_comment opened)
block_raw opened (c ∷ d ∷ cs) p =
    let later = block_raw opened (d ∷ cs) (advance c p) in
    if c == 42 && d == 47 then ok ([], lexer cs (advance d (advance c p))) else push c later

unfoldable pub drop_while : (ℕ → Bool) → Text → Text
drop_while p [] = []
drop_while p (c ∷ cs) = let rest = drop_while p cs in if p c then rest else c ∷ cs

unfoldable pub trim_both : (ℕ → Bool) → Text → Text
unfolding drop_while
trim_both p s = reverse (drop_while p (reverse (drop_while p s)))

-- `str::lines`; a carriage return at the end of a line is left for `trim`.
unfoldable pub lines : Text → List Text
lines [] = []
lines (c ∷ cs) =
    let rest = lines cs in
    if c == 10 then [] ∷ rest else elim rest [ [] ↦ (c ∷ []) ∷ [] | ◌∷◌ l ls ↦ (c ∷ l) ∷ ls ]

unfoldable pub unlines : List Text → Text
unlines [] = []
unlines (l ∷ []) = l
unlines (l ∷ m ∷ ls) = l ++ 10 ∷ unlines (m ∷ ls)

unfoldable pub block_text : Text → Text
unfolding lines unlines trim_both drop_while is_whitespace
block_text raw =
    trim_both (λ c. c == 10)
      (unlines (
        map (λ l. drop_while is_whitespace (drop_while (λ c. c == 42) (trim_both is_whitespace l)))
          (lines raw)))

unfoldable pub block_comment : Pos → Text → Pos → Result LexError (Token × Lexer)
unfolding block_raw block_text
block_comment opened cs p = block_raw opened cs p >>= λ r. ok (comment (block_text r.0), r.1)

-- Whether a text starts a block comment.
unfoldable pub opens_block : Text → Bool
opens_block (c ∷ d ∷ cs) = c == 47 && d == 42
opens_block _ = false

-- A token that does not start a block comment, from its first character on.
unfoldable pub plain_token : ℕ → Text → Pos → Result LexError (Token × Lexer)
unfolding string word comment_line strip_space is_bare_char advance
plain_token c cs p =
    if c == 123
    then ok (open_brace, lexer cs (advance c p))
    else if c == 125
    then ok (close_brace, lexer cs (advance c p))
    else if c == 35
    then (let (s, after) = comment_line cs (advance c p) in ok (comment (strip_space s), after))
    else if c == 34
    then string p (lexer cs (advance c p))
    else if is_bare_char c
    then (let (s, after) = word (c ∷ cs) p in ok (value s, after))
    else err (unexpected_char p c)

unfoldable pub first_token : Text → Pos → Result LexError (Option (Spanned × Lexer))
unfolding plain_token opens_block block_comment advance
first_token [] p = ok none
first_token (c ∷ cs) p =
    let token =
      if opens_block (c ∷ cs)
      then block_comment p (drop 2 (c ∷ cs)) (advance 42 (advance c p))
      else plain_token c cs p in
    token >>= λ r. ok (some (record { token = r.0; pos = p }, r.1))

unfoldable pub next_token : Lexer → Result LexError (Option (Spanned × Lexer))
unfolding skip_whitespace first_token
next_token l = let start = skip_whitespace l.rest l.pos in first_token start.rest start.pos
