-- ===== src/Schema/Lex/Progress.antt =====
-- src/nightshade-schema/src/lex.rs: every token takes a character at least.
use nightshade.Shared.{
  ℕ, zero, suc, ◌<◌, ◌≤◌, [], ◌∷◌, Bool, true, false, ◌&&◌, Option, none, some, ◌≡◌, refl, arith,
  length, Bool-cases, ◌==◌, if◌then◌else◌,
}
use nightshade.Shared.Text.{Text}
use nightshade.Shared.Result.{Result, ok, err, ◌>>=◌}
use nightshade.Schema.Lex.{
  Pos, Token, Spanned, Lexer, lexer, LexError, advance, escape, string_body, string, push,
  skip_whitespace, word, comment_line, block_raw, block_text, block_comment, opens_block,
  plain_token, first_token, next_token, is_whitespace, is_bare_char, bump,
}
use nightshade.Schema.Lex.Fuel.{IsShorter, escape-IsShorter}

-- A step that succeeds leaves less than some length.
abbrev pub Leaves : {A : Type 0} → ℕ → Result LexError (A × Lexer) → Type 0
Leaves n (ok r) = length r.1.rest < n
Leaves n (err e) = Unit

skip_whitespace-length : (cs : Text) (p : Pos) → length (skip_whitespace cs p).rest ≤ length cs
unfolding skip_whitespace
skip_whitespace-length [] p = omega arith
skip_whitespace-length (c ∷ cs) p =
    ground (arith, skip_whitespace-length cs (advance c p), Bool-cases (is_whitespace c))

word-length : (cs : Text) (p : Pos) → length (word cs p).1.rest ≤ length cs
unfolding word
word-length [] p = omega arith
word-length (c ∷ cs) p = ground (arith, word-length cs (advance c p), Bool-cases (is_bare_char c))

comment_line-length : (cs : Text) (p : Pos) → length (comment_line cs p).1.rest ≤ length cs
unfolding comment_line
comment_line-length [] p = omega arith
comment_line-length (c ∷ cs) p =
    ground (arith, comment_line-length cs (advance c p), Bool-cases (c == 10))

Leaves-bind :
    {A B : Type 0} (n : ℕ) (m : Result LexError (A × Lexer)) (f : A → B)
    → Leaves n m
    → Leaves n (m >>= λ r. ok (f r.0, r.1))
Leaves-bind n (err e) f h = tt
Leaves-bind n (ok r) f h = h

Leaves-le :
    {A : Type 0} (n k : ℕ) (m : Result LexError (A × Lexer)) → n ≤ k → Leaves n m → Leaves k m
Leaves-le n k (err e) le h = tt
Leaves-le n k (ok r) le h = omega (arith, le, h)

Leaves-if :
    {A : Type 0} (n : ℕ) (b : Bool) (x y : Result LexError (A × Lexer))
    → ((b ≡ true) → Leaves n x)
    → Leaves n y
    → Leaves n (if b then x else y)
Leaves-if n true x y h k = h refl
Leaves-if n false x y h k = k

block_raw-Leaves :
    (opened : Pos) (cs : Text) (p : Pos) → Leaves (suc (length cs)) (block_raw opened cs p)
unfolding block_raw
block_raw-Leaves opened [] p = tt
block_raw-Leaves opened (c ∷ []) p = tt
block_raw-Leaves opened (c ∷ d ∷ cs) p =
    Leaves-if (suc (length (c ∷ d ∷ cs))) (c == 42 && d == 47) _ _ (λ _. omega arith)
      (Leaves-le (suc (length (d ∷ cs))) (suc (length (c ∷ d ∷ cs))) _ (omega arith) (
        Leaves-bind (suc (length (d ∷ cs))) (block_raw opened (d ∷ cs) (advance c p)) (λ s. c ∷ s)
          (block_raw-Leaves opened (d ∷ cs) (advance c p))))

-- What follows an escape leaves no more than the escape did.
escaped-Leaves :
    (n : ℕ) (m : Result LexError (ℕ × Lexer)) (f : Lexer → Result LexError (Text × Lexer))
    → Leaves n m
    → ((l : Lexer) → Leaves (suc (length l.rest)) (f l))
    → Leaves n (elim m [ err e ↦ err e | ok (v, l2) ↦ push v (f l2) ])
escaped-Leaves n (err e) f h k = tt
escaped-Leaves n (ok (v, l)) f h k =
    Leaves-le (suc (length l.rest)) n _ (omega (arith, h))
      (Leaves-bind (suc (length l.rest)) (f l) (λ s. v ∷ s) (k l))

IsShorter-Leaves : (n : ℕ) (m : Result LexError (ℕ × Lexer)) → IsShorter n m → Leaves n m
IsShorter-Leaves n (err e) h = tt
IsShorter-Leaves n (ok r) h = h

string_body-Leaves :
    (fuel : ℕ) (opened : Pos) (cs : Text) (p : Pos)
    → Leaves (suc (length cs)) (string_body fuel opened (lexer cs p))
unfolding string_body bump
string_body-Leaves zero opened cs p = tt
string_body-Leaves (suc fuel) opened [] p = tt
string_body-Leaves (suc fuel) opened (c ∷ cs) p =
    Leaves-if (suc (length (c ∷ cs))) (c == 34) _ _ (λ _. omega arith)
      (Leaves-if (suc (length (c ∷ cs))) (c == 92) _ _
        (λ _. Leaves-le (length cs) (suc (length (c ∷ cs))) _ (omega arith) (
          escaped-Leaves (length cs) (escape p (lexer cs (advance c p))) (string_body fuel opened)
            (IsShorter-Leaves (length cs) (escape p (lexer cs (advance c p)))
              (escape-IsShorter p cs (advance c p)))
            (λ l. string_body-Leaves fuel opened l.rest l.pos)))
        (Leaves-le (suc (length cs)) (suc (length (c ∷ cs))) _ (omega arith) (
          Leaves-bind (suc (length cs)) (string_body fuel opened (lexer cs (advance c p)))
            (λ s. c ∷ s) (string_body-Leaves fuel opened cs (advance c p)))))

word-cons :
    (c : ℕ) (cs : Text) (p : Pos)
    → is_bare_char c ≡ true
    → length (word (c ∷ cs) p).1.rest ≤ length cs
unfolding word
word-cons c cs p bare = ground (arith, bare, word-length cs (advance c p))

plain_token-Leaves : (c : ℕ) (cs : Text) (p : Pos) → Leaves (suc (length cs)) (plain_token c cs p)
unfolding plain_token string
plain_token-Leaves c cs p =
    let n = suc (length cs) in
    Leaves-if n (c == 123) _ _ (λ _. omega arith)
      (Leaves-if n (c == 125) _ _ (λ _. omega arith)
        (Leaves-if n (c == 35) _ _ (λ _. omega (arith, comment_line-length cs (advance c p)))
          (Leaves-if n (c == 34) _ _
            (λ _.
              Leaves-bind n (string_body n p (lexer cs (advance c p))) Token.value
                (string_body-Leaves n p cs (advance c p)))
            (Leaves-if n (is_bare_char c) _ _ (λ bare. omega (arith, word-cons c cs p bare)) tt))))

block_comment-Leaves :
    (opened : Pos) (cs : Text) (p : Pos) → Leaves (suc (length cs)) (block_comment opened cs p)
unfolding block_comment
block_comment-Leaves opened cs p =
    Leaves-bind (suc (length cs)) (block_raw opened cs p) (λ s. Token.comment (block_text s))
      (block_raw-Leaves opened cs p)

-- A token that is read leaves less than there was.
abbrev pub LeavesLess : ℕ → Result LexError (Option (Spanned × Lexer)) → Type 0
LeavesLess n (ok (some r)) = length r.1.rest < n
LeavesLess n (ok none) = Unit
LeavesLess n (err e) = Unit

LeavesLess-bind :
    (n : ℕ) (m : Result LexError (Token × Lexer)) (p : Pos)
    → Leaves n m
    → LeavesLess n (m >>= λ r. ok (some (record { token = r.0; pos = p }, r.1)))
LeavesLess-bind n (err e) p h = tt
LeavesLess-bind n (ok r) p h = h

first_token-LeavesLess : (cs : Text) (p : Pos) → LeavesLess (length cs) (first_token cs p)
unfolding first_token opens_block
first_token-LeavesLess [] p = tt
first_token-LeavesLess (c ∷ []) p =
    LeavesLess-bind 1 (plain_token c [] p) p (plain_token-Leaves c [] p)
first_token-LeavesLess (c ∷ d ∷ cs) p =
    let block = block_comment p cs (advance 42 (advance c p)) in
    let plain = plain_token c (d ∷ cs) p in
    let n = suc (length (d ∷ cs)) in
    LeavesLess-bind n (if opens_block (c ∷ d ∷ cs) then block else plain) p (
      Leaves-if n (opens_block (c ∷ d ∷ cs)) block plain
        (λ _.
          Leaves-le (suc (length cs)) n block (omega arith)
            (block_comment-Leaves p cs (advance 42 (advance c p))))
        (plain_token-Leaves c (d ∷ cs) p))

LeavesLess-le :
    (n k : ℕ) (m : Result LexError (Option (Spanned × Lexer)))
    → n ≤ k
    → LeavesLess n m
    → LeavesLess k m
LeavesLess-le n k (err e) le h = tt
LeavesLess-le n k (ok none) le h = tt
LeavesLess-le n k (ok (some r)) le h = omega (arith, le, h)

pub next_token-LeavesLess : (l : Lexer) → LeavesLess (length l.rest) (next_token l)
unfolding next_token
next_token-LeavesLess l =
    let start = skip_whitespace l.rest l.pos in
    LeavesLess-le (length start.rest) (length l.rest) (first_token start.rest start.pos)
      (skip_whitespace-length l.rest l.pos) (first_token-LeavesLess start.rest start.pos)
