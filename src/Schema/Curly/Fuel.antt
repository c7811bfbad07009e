-- ===== src/Schema/Curly/Fuel.antt =====
-- src/nightshade-schema/src/curly.rs: the loops of the parser end on every text.
use nightshade.Shared.{
  ℕ, zero, suc, ◌<◌, ◌≤◌, List, ◌∷◌, Option, none, some, ◌≡◌, refl, arith, length, inl, inr,
  Option-cases, ◌∙◌, ap, sym,
}
use mathlib.Core.Path.{subst}
use nightshade.Shared.Text.{Text}
use nightshade.Shared.Result.{Result, Result-cases, ok, err}
use nightshade.Schema.Lex.{Spanned, Lexer, LexError, next_token}
use nightshade.Schema.Lex.Progress.{LeavesLess, next_token-LeavesLess}
use nightshade.Schema.Curly.Parse.{Parser, keep_token, peek, advance, value_on, run}

-- The characters that are left, and one for a token that was looked at.
abbrev pub sized : Option Spanned → ℕ → ℕ
sized none n = n
sized (some s) n = suc n

abbrev pub size : Parser → ℕ
size p = sized p.peeked (length p.lexer.rest)

-- A step that succeeds leaves a parser that is no larger than a number.
abbrev pub Within : {E A : Type 0} → ℕ → Result E (A × Parser) → Type 0
Within n (ok r) = size r.1 ≤ n
Within n (err e) = Unit

-- A token that was looked at is kept, and nothing is lost by it.
abbrev pub Peeked : ℕ → Result LexError (Option Spanned × Parser) → Type 0
Peeked n (ok (none, p)) = size p ≤ n
Peeked n (ok (some s, p)) = (size p ≤ n) × (p.peeked ≡ some s)
Peeked n (err e) = Unit

keep_token-Peeked :
    (l : Lexer) (m : Result LexError (Option (Spanned × Lexer)))
    → LeavesLess (length l.rest) m
    → Peeked (length l.rest) (elim m [ err e ↦ err e | ok r ↦ ok (keep_token l r) ])
keep_token-Peeked l (err e) h = tt
keep_token-Peeked l (ok none) h = omega arith
keep_token-Peeked l (ok (some (s, after))) h = (omega (arith, h), refl)

peek_of :
    (l : Lexer) (o : Option Spanned)
    → Peeked (sized o (length l.rest)) (peek (record { lexer = l; peeked = o }))
unfolding peek
peek_of l none = keep_token-Peeked l (next_token l) (next_token-LeavesLess l)
peek_of l (some s) = (omega arith, refl)

pub peek-Peeked : (p : Parser) → Peeked (size p) (peek p)
peek-Peeked p = peek_of p.lexer p.peeked

-- The parser after the token that was looked at.
abbrev pub taken : Parser → Parser
taken p = record p { peeked = none }

pub advance-peeked :
    (p : Parser) (s : Spanned) → p.peeked ≡ some s → advance p ≡ ok (some s, taken p)
unfolding advance
advance-peeked p s e = rw (e, advance) refl

pub taken-size : (p : Parser) (s : Spanned) → p.peeked ≡ some s → suc (size (taken p)) ≡ size p
taken-size p s e = ground (arith, e)

pub peek-none : (p q : Parser) → peek p ≡ ok (none, q) → size q ≤ size p
peek-none p q e = subst (Peeked (size p)) e (peek-Peeked p)

pub peek-some :
    (p q : Parser) (s : Spanned) → peek p ≡ ok (some s, q) → (size q ≤ size p) × (q.peeked ≡ some s)
peek-some p q s e = subst (Peeked (size p)) e (peek-Peeked p)

-- The parser after a value of the line, which is a token less.
value-taken :
    (line : ℕ) (p q : Parser) (s : Spanned)
    → peek p ≡ ok (some s, q)
    → suc (size (taken q)) ≤ size p
value-taken line p q s e =
    let (le, there) = peek-some p q s e in omega (arith, le, taken-size q s there)

abbrev consed : Text → Result LexError (List Text × Parser) → Result LexError (List Text × Parser)
consed v m = elim m [ err e ↦ err e | ok (vs, p) ↦ ok (v ∷ vs, p) ]

consed-Within :
    (n k : ℕ) (v : Text) (m : Result LexError (List Text × Parser))
    → n ≤ k
    → Within n m
    → Within k (consed v m)
consed-Within n k v (err e) le h = tt
consed-Within n k v (ok r) le h = omega (arith, le, h)

-- A turn of `run` on a value of the line.
run-value :
    (k line : ℕ) (p q : Parser) (s : Spanned) (v : Text)
    → peek p ≡ ok (some s, q)
    → value_on line s ≡ some v
    → run (suc k) line p ≡ consed v (run k line (taken q))
unfolding run
run-value k line p q s v e on = rw (e, run) (rw (on, advance-peeked q s (peek-some p q s e).1) refl)

pub run-Within : (k line : ℕ) (p : Parser) → Within (size p) (run k line p)
unfolding run
run-Within zero line p = omega arith
run-Within (suc k) line p = elim (Result-cases (peek p)) [
  | inr (_, bad) ↦ rw (bad, run) tt
  | inl ((none, q), e) ↦ rw (e, run) (peek-none p q e)
  | inl ((some s, q), e) ↦ elim (Option-cases (value_on line s)) [
    | inl other ↦ rw (e, run) (rw other (peek-some p q s e).0)
    | inr (v, on) ↦ subst (Within (size p)) (sym (run-value k line p q s v e on)) (
        consed-Within (size (taken q)) (size p) v (run k line (taken q))
          (omega (arith, value-taken line p q s e)) (run-Within k line (taken q)))
  ]
]

-- From a value of the line on, a token at least is taken.
pub run-Below :
    (k line : ℕ) (p : Parser) (s : Spanned) (v : Text)
    → p.peeked ≡ some s
    → value_on line s ≡ some v
    → Within (size (taken p)) (run (suc k) line p)
unfolding peek
run-Below k line p s v there on =
    subst (Within (size (taken p))) (sym (run-value k line p p s v (ground (arith, there)) on)) (
      consed-Within (size (taken p)) (size (taken p)) v (run k line (taken p)) (omega arith)
        (run-Within k line (taken p)))

pub run_fuel : (k m line : ℕ) (p : Parser) → size p < k → size p < m → run k line p ≡ run m line p
unfolding run
run_fuel zero m line p h g = absurd (omega (arith, h))
run_fuel (suc k) zero line p h g = absurd (omega (arith, g))
run_fuel (suc k) (suc m) line p h g = elim (Result-cases (peek p)) [
  | inr (_, bad) ↦ rw (bad, run) refl
  | inl ((none, q), e) ↦ rw (e, run) refl
  | inl ((some s, q), e) ↦ elim (Option-cases (value_on line s)) [
    | inl other ↦ rw (e, run) (rw other refl)
    | inr (v, on) ↦
        let less = value-taken line p q s e in
        run-value k line p q s v e on
        ∙ (ap (consed v)
              (run_fuel k m line (taken q) (omega (arith, h, less)) (omega (arith, g, less)))
            ∙ sym (run-value m line p q s v e on))
  ]
]
