-- ===== src/Schema/Lex/Quoting.antt =====
-- src/nightshade-schema/src/lex.rs: what is quoted is read back.
use nightshade.Shared.{
  ℕ, ◌⊎◌, [], ◌∷◌, ◌++◌, true, false, not, ◌&&◌, some, ◌≡◌, ◌∙◌, refl, ap, arith, all, is_nil, ◌==◌,
  Bool-cases, inl, inr, &&_iff,
}
use mathlib.Core.List.{append_assoc}
use nightshade.Shared.Text.{Text}
use nightshade.Shared.Result.{ok}
use nightshade.Schema.Lex.{
  Pos, Token, value, Lexer, lexer, advance, is_bare_char, is_bare, quote_chars, quote,
  is_whitespace, skip_whitespace, word, string, opens_block, plain_token, first_token, next_token,
}
use nightshade.Schema.Lex.Words.{ends_word, bare-whitespace, after_text, word-append}
use nightshade.Schema.Lex.Strings.{after_text-append, string-quote_chars}

quote-bare : (s : Text) → is_bare s ≡ true → quote s ≡ s
unfolding quote
quote-bare s h = rw (h, quote)

quote-quoted : (s : Text) → is_bare s ≡ false → quote s ≡ 34 ∷ (quote_chars s ++ 34 ∷ [])
unfolding quote
quote-quoted s h = rw (h, quote)

skip_whitespace-eq :
    (c : ℕ) (cs : Text) (p : Pos)
    → is_whitespace c ≡ false
    → skip_whitespace (c ∷ cs) p ≡ lexer (c ∷ cs) p
unfolding skip_whitespace
skip_whitespace-eq c cs p h = rw (h, skip_whitespace)

next_token-eq :
    (c : ℕ) (cs : Text) (p : Pos) (t : Token) (l : Lexer)
    → is_whitespace c ≡ false
    → opens_block (c ∷ cs) ≡ false
    → plain_token c cs p ≡ ok (t, l)
    → next_token (lexer (c ∷ cs) p) ≡ ok (some (record { token = t; pos = p }, l))
unfolding next_token first_token
next_token-eq c cs p t l h k e = rw (skip_whitespace-eq c cs p h) (rw (first_token, k, e))

bare-special :
    (c : ℕ)
    → is_bare_char c ≡ true
    → ((c == 123) ≡ false)
      × ((c == 125) ≡ false)
      × ((c == 35) ≡ false)
      × ((c == 34) ≡ false)
      × ((c == 42) ≡ false)
unfolding is_bare_char
bare-special c h = ground (arith, h)

plain_token-word :
    (c : ℕ) (cs : Text) (p : Pos) (s : Text) (l : Lexer)
    → is_bare_char c ≡ true
    → word cs (advance c p) ≡ (s, l)
    → plain_token c cs p ≡ ok (value (c ∷ s), l)
unfolding plain_token
plain_token-word c cs p s l h e =
    let (n1, n2, n3, n4, n5) = bare-special c h in
    rw (plain_token, n1, n2, n3, n4, h) (ap (λ (r : Text × Lexer). ok (value (c ∷ r.0), r.1)) e)

plain_token-string :
    (cs : Text) (p : Pos) → plain_token 34 cs p ≡ string p (lexer cs (advance 34 p))
unfolding plain_token
plain_token-string cs p = refl

opens_block-one : (c : ℕ) → opens_block (c ∷ []) ≡ false
unfolding opens_block
opens_block-one c = refl

opens_block-two : (c d : ℕ) (cs : Text) → (d == 42) ≡ false → opens_block (c ∷ d ∷ cs) ≡ false
unfolding opens_block
opens_block-two c d cs h = ground (arith, h)

not_star : (c : ℕ) → not (is_bare_char c) && not (c == 42) ≡ true → (c == 42) ≡ false
not_star c k = elim (Bool-cases (c == 42)) [ inl y ↦ ground (arith, k, y) | inr n ↦ n ]

opens_block-word :
    (c : ℕ) (s rest : Text)
    → all is_bare_char s ≡ true
    → ends_word rest ≡ true
    → opens_block (c ∷ (s ++ rest)) ≡ false
opens_block-word c [] [] h k = opens_block-one c
opens_block-word c [] (e ∷ rest) h k = opens_block-two c e rest (not_star e k)
opens_block-word c (d ∷ s) rest h k =
    let (bare, later) = (&&_iff (is_bare_char d) (all is_bare_char s)).0 h in
    let (_, _, _, _, star) = bare-special d bare in opens_block-two c d (s ++ rest) star

is_bare-nil : is_bare [] ≡ false
unfolding is_bare
is_bare-nil = refl

is_bare-all : (s : Text) → is_bare s ≡ true → all is_bare_char s ≡ true
unfolding is_bare
is_bare-all s h = ((&&_iff (not (is_nil s)) (all is_bare_char s)).0 h).1

is_bare-cons :
    (c : ℕ) (s : Text)
    → is_bare (c ∷ s) ≡ true
    → (is_bare_char c ≡ true) × (all is_bare_char s ≡ true)
is_bare-cons c s h = (&&_iff (is_bare_char c) (all is_bare_char s)).0 (is_bare-all (c ∷ s) h)

quote_is_not_space : is_whitespace 34 ≡ false
unfolding is_whitespace
quote_is_not_space = refl

opens_block-quote : (cs : Text) → opens_block (34 ∷ cs) ≡ false
unfolding opens_block
opens_block-quote [] = refl
opens_block-quote (c ∷ cs) = refl

next_token-bare :
    (s rest : Text) (p : Pos)
    → is_bare s ≡ true
    → ends_word rest ≡ true
    → next_token (lexer (s ++ rest) p)
      ≡ ok (some (record { token = value s; pos = p }, lexer rest (after_text s p)))
next_token-bare [] rest p h k = ground (arith, h, is_bare-nil)
next_token-bare (c ∷ s) rest p h k =
    let (bare, later) = is_bare-cons c s h in
    next_token-eq c (s ++ rest) p (value (c ∷ s)) (lexer rest (after_text (c ∷ s) p))
      (bare-whitespace c bare) (opens_block-word c s rest later k)
      (plain_token-word c (s ++ rest) p s (lexer rest (after_text (c ∷ s) p)) bare
        (word-append s rest (advance c p) later k))

next_token-quoted :
    (s rest : Text) (p : Pos)
    → next_token (lexer (34 ∷ (quote_chars s ++ 34 ∷ rest)) p)
      ≡ ok (
          some (
            record { token = value s; pos = p },
            lexer rest (advance 34 (after_text (quote_chars s) (advance 34 p))),
          ))
next_token-quoted s rest p =
    let cs = quote_chars s ++ 34 ∷ rest in
    next_token-eq 34 cs p (value s)
      (lexer rest (advance 34 (after_text (quote_chars s) (advance 34 p)))) quote_is_not_space
      (opens_block-quote cs) (plain_token-string cs p ∙ string-quote_chars s rest p (advance 34 p))

-- A value that is written is read back as one token, exactly the value, at the place where it was
-- written and with what follows left over, whatever follows a quoted one, and where a bare one is
-- followed by nothing or by a character that is neither bare nor a star.
pub next_token-quote :
    (s rest : Text) (p : Pos)
    → (is_bare s ≡ false) ⊎ (ends_word rest ≡ true)
    → next_token (lexer (quote s ++ rest) p)
      ≡ ok (some (record { token = value s; pos = p }, lexer rest (after_text (quote s) p)))
next_token-quote s rest p h = elim (Bool-cases (is_bare s)) [
  | inl bare ↦ rw (quote-bare s bare) (next_token-bare s rest p bare (ground (arith, h, bare)))
  | inr quoted ↦
      rw
        (
          quote-quoted s quoted,
          append_assoc (quote_chars s) (34 ∷ []) rest,
          after_text-append (quote_chars s) (34 ∷ []) (advance 34 p),
        )
        (next_token-quoted s rest p)
]
