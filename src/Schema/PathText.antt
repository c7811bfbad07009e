-- ===== src/Schema/PathText.antt =====
-- src/nightshade-schema/src/path.rs: how a path is typed and printed.
pub mod RoundTrip
pub mod Fuel
use nightshade.Shared.{ℕ, zero, suc, ◌+◌, List, [], ◌∷◌, ◌++◌, Option, none, some, length}
use nightshade.Shared.Text.{Text}
use nightshade.Shared.Result.{Result, ok, err}
use nightshade.Schema.Path.{ConfigPath}
use nightshade.Schema.Lex.{
  Pos, LexError, Lexer, value, open_brace, close_brace, comment, quote, next_token, new,
}

-- What `?` makes of an error of the lexer, and the errors of a path.
pub data PathError : Type 0 where
  bad_token : LexError → PathError
  brace : Pos → ℕ → PathError
  commented : Pos → PathError

-- The segments, quoted where they have to be, with a space between them.
unfoldable pub display : ConfigPath → Text
display [] = []
display (s ∷ []) = quote s
display (s ∷ t ∷ p) = quote s ++ 32 ∷ display (t ∷ p)

unfoldable pub cons_segment : Text → Result PathError ConfigPath → Result PathError ConfigPath
cons_segment s (err e) = err e
cons_segment s (ok p) = ok (s ∷ p)

-- The loop over the tokens, on fuel: each token takes a character at least.
unfoldable pub parse_from : ℕ → Lexer → Result PathError ConfigPath
unfolding cons_segment
parse_from zero l = ok []
parse_from (suc fuel) l = elim (next_token l) [
  | err e ↦ err (bad_token e)
  | ok none ↦ ok []
  | ok (some (spanned, after)) ↦ elim spanned.token [
    | value s ↦ cons_segment s (parse_from fuel after)
    | open_brace ↦ err (brace spanned.pos 123)
    | close_brace ↦ err (brace spanned.pos 125)
    | comment _ ↦ err (commented spanned.pos)
  ]
]

unfoldable pub parse : Text → Result PathError ConfigPath
unfolding parse_from
parse s = parse_from (suc (length s)) (new s)
