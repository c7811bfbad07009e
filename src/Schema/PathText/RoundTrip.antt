-- ===== src/Schema/PathText/RoundTrip.antt =====
-- src/nightshade-schema/src/path.rs: a path that is printed is read back.
use nightshade.Shared.{
  ℕ, zero, suc, ◌≤◌, ◌<◌, [], ◌∷◌, ◌++◌, true, ◌&&◌, ◌≡◌, ◌∙◌, refl, ap, sym, arith, inl, inr,
  Bool-cases, length, length-append, all,
}
use mathlib.Core.List.{append-nil}
use nightshade.Shared.Text.{Text}
use nightshade.Shared.Result.{ok}
use nightshade.Schema.Path.{ConfigPath}
use nightshade.Schema.Lex.{
  Pos, Lexer, lexer, value, advance, is_bare, quote, quote_chars, next_token, first_token,
  skip_whitespace, is_whitespace, is_bare_char,
}
use nightshade.Schema.Lex.Words.{after_text, ends_word}
use nightshade.Schema.Lex.Quoting.{next_token-quote}
use nightshade.Schema.PathText.{display, parse, parse_from, cons_segment}

length-quote : (s : Text) → 0 < length (quote s)
unfolding quote is_bare
length-quote [] = omega arith
length-quote (c ∷ s) = elim (Bool-cases (is_bare_char c && all is_bare_char s)) [
  | inl bare ↦ rw (bare) (omega arith)
  | inr quoted ↦ rw (quoted) (omega arith)
]

length-display : (p : ConfigPath) → length p ≤ length (display p)
unfolding display
length-display [] = omega arith
length-display (s ∷ []) = omega (arith, length-quote s)
length-display (s ∷ t ∷ p) =
    omega (
      arith,
      length-quote s,
      length-display (t ∷ p),
      length-append (quote s) (32 ∷ display (t ∷ p)),
    )

next_token-space :
    (cs : Text) (p : Pos) → next_token (lexer (32 ∷ cs) p) ≡ next_token (lexer cs (advance 32 p))
unfolding next_token skip_whitespace is_whitespace
next_token-space cs p = refl

parse_from-space :
    (fuel : ℕ) (cs : Text) (p : Pos)
    → parse_from fuel (lexer (32 ∷ cs) p) ≡ parse_from fuel (lexer cs (advance 32 p))
unfolding parse_from
parse_from-space zero cs p = refl
parse_from-space (suc fuel) cs p = rw (next_token-space cs p, parse_from) refl

parse_from-quote :
    (fuel : ℕ) (s rest : Text) (p : Pos)
    → ends_word rest ≡ true
    → parse_from (suc fuel) (lexer (quote s ++ rest) p)
      ≡ cons_segment s (parse_from fuel (lexer rest (after_text (quote s) p)))
unfolding parse_from
parse_from-quote fuel s rest p h = rw (next_token-quote s rest p (inr h), parse_from) refl

parse_from_end : (fuel : ℕ) (p : Pos) → parse_from (suc fuel) (lexer [] p) ≡ ok []
unfolding parse_from next_token first_token skip_whitespace
parse_from_end fuel p = refl

parse_from-display :
    (fuel : ℕ) (path : ConfigPath) (p : Pos)
    → length path < fuel
    → parse_from fuel (lexer (display path) p) ≡ ok path
unfolding parse_from display cons_segment is_bare_char
parse_from-display zero path p h = absurd (omega arith)
parse_from-display (suc fuel) [] p h = parse_from_end fuel p
parse_from-display (suc (suc fuel)) (s ∷ []) p h =
    ap (λ cs. parse_from (suc (suc fuel)) (lexer cs p)) (sym (append-nil (quote s)))
    ∙ (parse_from-quote (suc fuel) s [] p refl
        ∙ ap (cons_segment s)
            (parse_from-display (suc fuel) [] (after_text (quote s) p) (omega arith)))
parse_from-display (suc zero) (s ∷ path) p h = absurd (omega arith)
parse_from-display (suc fuel) (s ∷ t ∷ path) p h =
    parse_from-quote fuel s (32 ∷ display (t ∷ path)) p refl
    ∙ ap (cons_segment s) (
        parse_from-space fuel (display (t ∷ path)) (after_text (quote s) p)
        ∙ parse_from-display fuel (t ∷ path) (advance 32 (after_text (quote s) p)) (omega arith))

-- Every path that is printed is read back as the same path, whatever its segments hold.
pub parse-display : (path : ConfigPath) → parse (display path) ≡ ok path
unfolding parse nightshade.Schema.Lex.new
parse-display path =
    parse_from-display (suc (length (display path))) path (record { line = 1; column = 1 })
      (omega (arith, length-display path))
