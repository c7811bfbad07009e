-- ===== src/Schema/PathText/Fuel.antt =====
-- src/nightshade-schema/src/path.rs: the loop over the tokens of a path ends on every text.
use nightshade.Shared.{
  ℕ, zero, suc, ◌<◌, none, some, ◌≡◌, refl, ap, sym, ◌∙◌, arith, inl, inr, length,
}
use mathlib.Core.Path.{subst}
use nightshade.Shared.Result.{Result, Result-cases, ok, err}
use nightshade.Schema.Path.{ConfigPath}
use nightshade.Schema.Lex.{Spanned, Lexer, value, open_brace, close_brace, comment, next_token}
use nightshade.Schema.Lex.Progress.{LeavesLess, next_token-LeavesLess}
use nightshade.Schema.PathText.{PathError, brace, commented, parse_from, cons_segment}

-- What a token comes to, where the rest of the path is known.
abbrev after_token : Spanned → Result PathError ConfigPath → Result PathError ConfigPath
after_token spanned rest = elim spanned.token [
  | value s ↦ cons_segment s rest
  | open_brace ↦ err (brace spanned.pos 123)
  | close_brace ↦ err (brace spanned.pos 125)
  | comment _ ↦ err (commented spanned.pos)
]

parse_from-after_token :
    (k : ℕ) (l after : Lexer) (s : Spanned)
    → next_token l ≡ ok (some (s, after))
    → parse_from (suc k) l ≡ after_token s (parse_from k after)
unfolding parse_from
parse_from-after_token k l after s e = rw (e, parse_from) refl

-- From a lexer on, any two bounds on the turns that are larger than the number of the characters
-- left give the same path or the same error: the loop over the tokens of a path ends by itself.
pub parse_from_fuel :
    (k m : ℕ) (l : Lexer) → length l.rest < k → length l.rest < m → parse_from k l ≡ parse_from m l
unfolding parse_from
parse_from_fuel zero m l h g = absurd (omega (arith, h))
parse_from_fuel (suc k) zero l h g = absurd (omega (arith, g))
parse_from_fuel (suc k) (suc m) l h g = elim (Result-cases (next_token l)) [
  | inr (_, bad) ↦ rw (bad, parse_from) refl
  | inl (none, e) ↦ rw (e, parse_from) refl
  | inl (some (s, after), e) ↦
      let less : length after.rest < length l.rest =
        subst (LeavesLess (length l.rest)) e (next_token-LeavesLess l) in
      parse_from-after_token k l after s e
      ∙ (ap (after_token s)
            (parse_from_fuel k m after (omega (arith, h, less)) (omega (arith, g, less)))
          ∙ sym (parse_from-after_token m l after s e))
]
