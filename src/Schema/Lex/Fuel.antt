-- ===== src/Schema/Lex/Fuel.antt =====
-- src/nightshade-schema/src/lex.rs: the loop of `string` ends on every text.
use nightshade.Shared.{
  ℕ, zero, suc, ◌<◌, ◌≤◌, [], ◌∷◌, Bool, true, false, ◌≡◌, refl, ap, arith, length, Bool-cases, inl,
  inr, ◌==◌, if◌then◌else◌, Option-cases,
}
use nightshade.Shared.Text.{Text}
use nightshade.Shared.Result.{Result, Result-cases, ok, err, ◌>>=◌}
use nightshade.Schema.Lex.{
  Pos, Lexer, lexer, advance, escape, hex_escape, hex_step, string_body, push, to_digit, LexError,
}

-- What a step that succeeds leaves is shorter than some length.
abbrev pub IsShorter : ℕ → Result LexError (ℕ × Lexer) → Type 0
IsShorter n (ok r) = length r.1.rest < n
IsShorter n (err e) = Unit

hex_step-IsShorter :
    (backslash : Pos) (v : ℕ) (cs : Text) (p : Pos)
    → IsShorter (length cs) (hex_step backslash v (lexer cs p))
unfolding hex_step
hex_step-IsShorter backslash v [] p = tt
hex_step-IsShorter backslash v (c ∷ cs) p = elim (Option-cases (to_digit c)) [
  | inl e ↦ rw (e, hex_step) tt
  | inr (d, e) ↦ rw (e, hex_step) (omega arith)
]

IsShorter-bind :
    (n k : ℕ) (m : Result LexError (ℕ × Lexer)) (f : ℕ × Lexer → Result LexError (ℕ × Lexer))
    → k ≤ n
    → IsShorter k m
    → ((r : ℕ × Lexer) → IsShorter (suc (length r.1.rest)) (f r))
    → IsShorter n (m >>= f)
IsShorter-bind n k (err e) f le h g = tt
IsShorter-bind n k (ok r) f le h g = IsShorter-le (f r) (g r)
  where
    IsShorter-le :
        (m : Result LexError (ℕ × Lexer)) → IsShorter (suc (length r.1.rest)) m → IsShorter n m
    IsShorter-le (err e) s = tt
    IsShorter-le (ok q) s = omega (arith, h, le, s)

hex_escape-IsShorter :
    (backslash : Pos) (cs : Text) (p : Pos)
    → IsShorter (length cs) (hex_escape backslash (lexer cs p))
unfolding hex_escape
hex_escape-IsShorter backslash cs p =
    IsShorter-bind (length cs) (length cs) (hex_step backslash 0 (lexer cs p)) _ (omega arith)
      (hex_step-IsShorter backslash 0 cs p)
      λ r.
        IsShorter-bind (suc (length r.1.rest)) (length r.1.rest) (hex_step backslash r.0 r.1) _
          (omega arith) (hex_step-IsShorter backslash r.0 r.1.rest r.1.pos) λ q. ground arith

IsShorter-le : (n k : ℕ) (m : Result LexError (ℕ × Lexer)) → IsShorter k m → k ≤ n → IsShorter n m
IsShorter-le n k (err e) s le = tt
IsShorter-le n k (ok q) s le = omega (arith, s, le)

IsShorter-if :
    (n : ℕ) (b : Bool) (x y : Result LexError (ℕ × Lexer))
    → IsShorter n x
    → IsShorter n y
    → IsShorter n (if b then x else y)
IsShorter-if n true x y h k = h
IsShorter-if n false x y h k = k

escape-nil : (backslash p : Pos) → IsShorter 0 (escape backslash (lexer [] p))
unfolding escape
escape-nil backslash p = tt

string_body-nil :
    (n m : ℕ) (opened p : Pos)
    → string_body (suc n) opened (lexer [] p) ≡ string_body (suc m) opened (lexer [] p)
unfolding string_body
string_body-nil n m opened p = refl

string_body-cons :
    (n m : ℕ) (opened : Pos) (c : ℕ) (cs : Text) (p : Pos)
    → string_body n opened (lexer cs (advance c p)) ≡ string_body m opened (lexer cs (advance c p))
    → ((v : ℕ) (l : Lexer)
        → escape p (lexer cs (advance c p)) ≡ ok (v, l)
        → string_body n opened l ≡ string_body m opened l)
    → string_body (suc n) opened (lexer (c ∷ cs) p) ≡ string_body (suc m) opened (lexer (c ∷ cs) p)
unfolding string_body
string_body-cons n m opened c cs p plain escaped = elim (Bool-cases (c == 34)) [
  | inl e ↦ rw (e, string_body)
  | inr quote ↦ elim (Bool-cases (c == 92)) [
    | inr e ↦ rw (quote, e, string_body) (ap (push c) plain)
    | inl e ↦ elim (Result-cases (escape p (lexer cs (advance c p)))) [
      | inl ((v, l), done) ↦ rw (quote, e, done, string_body) (ap (push v) (escaped v l done))
      | inr (x, bad) ↦ rw (quote, e, bad, string_body)
    ]
  ]
]

pub escape-IsShorter :
    (backslash : Pos) (cs : Text) (p : Pos) → IsShorter (length cs) (escape backslash (lexer cs p))
unfolding escape
escape-IsShorter backslash [] p = escape-nil backslash p
escape-IsShorter backslash (c ∷ cs) p =
    let q = advance c p in
    let n = suc (length cs) in
    let deep =
      IsShorter-le n (length cs) (hex_escape backslash (lexer cs q))
        (hex_escape-IsShorter backslash cs q) (omega arith) in
    IsShorter-if n (c == 92) _ _ (omega arith) (
      IsShorter-if n (c == 34) _ _ (omega arith) (
        IsShorter-if n (c == 110) _ _ (omega arith) (
          IsShorter-if n (c == 116) _ _ (omega arith)
            (IsShorter-if n (c == 114) _ _ (omega arith) (IsShorter-if n (c == 120) _ _ deep tt)))))

-- The loop that reads a quoted string gives the same result on any two amounts of fuel that are
-- more than the characters that are left, so that its fuel never decides.
pub string_body_fuel :
    (n m : ℕ) (opened : Pos) (cs : Text) (p : Pos)
    → length cs < n
    → length cs < m
    → string_body n opened (lexer cs p) ≡ string_body m opened (lexer cs p)
string_body_fuel zero m opened cs p h k = ground (arith, h)
string_body_fuel (suc n) zero opened cs p h k = ground (arith, k)
string_body_fuel (suc n) (suc m) opened [] p h k = string_body-nil n m opened p
string_body_fuel (suc n) (suc m) opened (c ∷ cs) p h k =
    string_body-cons n m opened c cs p
      (string_body_fuel n m opened cs (advance c p) (omega (arith, h)) (omega (arith, k)))
      λ v l e.
        let short : length l.rest < length cs = rw e at (escape-IsShorter p cs (advance c p)) in
        string_body_fuel n m opened l.rest l.pos (omega (arith, h, short)) (omega (arith, k, short))
