-- ===== src/Schema/Lex/Words.antt =====
-- src/nightshade-schema/src/lex.rs: bare words are read to their end.
use nightshade.Shared.{
  ℕ, ◌<◌, [], ◌∷◌, ◌++◌, Bool, true, false, not, ◌&&◌, some, ◌≡◌, ◌∙◌, refl, arith, all, ◌==◌,
  Bool-cases, inl, inr, &&_iff,
}
use nightshade.Shared.Text.{Text}
use nightshade.Schema.Lex.{
  Pos, lexer, advance, is_bare_char, hex_digit, is_whitespace, word, to_digit,
}

-- A text before which a bare word ends: it is at its end, or goes on with a character that is not
-- bare and cannot make a comment of a slash.
abbrev pub ends_word : Text → Bool
ends_word [] = true
ends_word (c ∷ cs) = not (is_bare_char c) && not (c == 42)

pub bare-whitespace : (c : ℕ) → is_bare_char c ≡ true → is_whitespace c ≡ false
unfolding is_bare_char is_whitespace
bare-whitespace c h = ground (arith, h)

pub to_digit-hex_digit : (n : ℕ) → n < 16 → to_digit (hex_digit n) ≡ some n
unfolding to_digit hex_digit
to_digit-hex_digit n h = ground (arith, h)

-- The positions after the characters of a text.
abbrev pub after_text : Text → Pos → Pos
after_text [] p = p
after_text (c ∷ cs) p = after_text cs (advance c p)

word-cons :
    (c : ℕ) (cs : Text) (p : Pos)
    → is_bare_char c ≡ true
    → word (c ∷ cs) p ≡ (c ∷ (word cs (advance c p)).0, (word cs (advance c p)).1)
unfolding word
word-cons c cs p h = rw (h, word)

word-stop :
    (c : ℕ) (cs : Text) (p : Pos)
    → is_bare_char c ≡ false
    → word (c ∷ cs) p ≡ ([], lexer (c ∷ cs) p)
unfolding word
word-stop c cs p h = rw (h, word)

word-nil : (p : Pos) → word [] p ≡ ([], lexer [] p)
unfolding word
word-nil p = refl

not_bare : (c : ℕ) → not (is_bare_char c) && not (c == 42) ≡ true → is_bare_char c ≡ false
not_bare c k = elim (Bool-cases (is_bare_char c)) [
  | inl y ↦ let bad : false ≡ true = rw y at k in cc
  | inr n ↦ n
]

pub word-append :
    (s rest : Text) (p : Pos)
    → all is_bare_char s ≡ true
    → ends_word rest ≡ true
    → word (s ++ rest) p ≡ (s, lexer rest (after_text s p))
word-append [] [] p h k = word-nil p
word-append [] (c ∷ rest) p h k = word-stop c rest p (not_bare c k)
word-append (c ∷ s) rest p h k =
    let (bare, later) = (&&_iff (is_bare_char c) (all is_bare_char s)).0 h in
    word-cons c (s ++ rest) p bare ∙ rw (word-append s rest (advance c p) later k)
