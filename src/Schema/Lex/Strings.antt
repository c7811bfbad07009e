-- ===== src/Schema/Lex/Strings.antt =====
-- src/nightshade-schema/src/lex.rs: the characters of a quoted string are read back.
use nightshade.Shared.{
  ℕ, zero, suc, ◌+◌, ◌*◌, ◌/◌, ◌%◌, ◌≤◌, ◌<◌, [], ◌∷◌, ◌++◌, true, false, some, ◌≡◌, ◌∙◌, refl, ap,
  arith, length, length-append, ◌==◌, ◌||◌, ltb, ==_iff, Bool-cases, inl, inr,
}
use mathlib.Core.List.{append_assoc}
use nightshade.Shared.Text.{Text}
use nightshade.Shared.Result.{ok}
use nightshade.Schema.Lex.{
  Pos, value, Lexer, lexer, advance, hex_digit, quote_char, quote_chars, to_digit, hex_step,
  hex_escape, escape, push, string_body, string, bump,
}
use nightshade.Schema.Lex.Words.{to_digit-hex_digit, after_text}

-- The turns of the loop of `string`.
string_body-plain :
    (fuel : ℕ) (opened p : Pos) (c : ℕ) (rest : Text)
    → (c == 34) ≡ false
    → (c == 92) ≡ false
    → string_body (suc fuel) opened (lexer (c ∷ rest) p)
      ≡ push c (string_body fuel opened (lexer rest (advance c p)))
unfolding string_body
string_body-plain fuel opened p c rest h k = rw (h, k, string_body)

string_body-escape :
    (fuel : ℕ) (opened p : Pos) (rest : Text) (v : ℕ) (l : Lexer)
    → escape p (lexer rest (advance 92 p)) ≡ ok (v, l)
    → string_body (suc fuel) opened (lexer (92 ∷ rest) p) ≡ push v (string_body fuel opened l)
unfolding string_body
string_body-escape fuel opened p rest v l h = rw (h, string_body)

hex_step-digit :
    (backslash p : Pos) (v c n : ℕ) (rest : Text)
    → to_digit c ≡ some n
    → hex_step backslash v (lexer (c ∷ rest) p) ≡ ok (v * 16 + n, lexer rest (advance c p))
unfolding hex_step
hex_step-digit backslash p v c n rest h = rw (h, hex_step)

hex_escape-eq :
    (backslash : Pos) (m v : ℕ) (l l1 l2 : Lexer)
    → hex_step backslash 0 l ≡ ok (m, l1)
    → hex_step backslash m l1 ≡ ok (v, l2)
    → ltb 127 v ≡ false
    → hex_escape backslash l ≡ ok (v, l2)
unfolding hex_escape
hex_escape-eq backslash m v l l1 l2 h k small = rw (hex_escape, h, k, small)

hex_escape-digits :
    (backslash p : Pos) (n : ℕ) (rest : Text)
    → n < 128
    → hex_escape backslash (lexer (hex_digit (n / 16) ∷ hex_digit (n % 16) ∷ rest) p)
      ≡ ok (n, lexer rest (advance (hex_digit (n % 16)) (advance (hex_digit (n / 16)) p)))
hex_escape-digits backslash p n rest small =
    let a = hex_digit (n / 16) in
    let b = hex_digit (n % 16) in
    let l1 = lexer (b ∷ rest) (advance a p) in
    let l2 = lexer rest (advance b (advance a p)) in
    let high =
      hex_step-digit backslash p 0 a (n / 16) (b ∷ rest)
        (to_digit-hex_digit (n / 16) (omega (arith, small))) in
    let low =
      hex_step-digit backslash (advance a p) (0 * 16 + n / 16) b (n % 16) rest
        (to_digit-hex_digit (n % 16) (omega (arith, small))) in
    let whole : (0 * 16 + n / 16) * 16 + n % 16 ≡ n = omega arith in
    hex_escape-eq backslash (0 * 16 + n / 16) ((0 * 16 + n / 16) * 16 + n % 16)
      (lexer (a ∷ b ∷ rest) p) l1 l2 high low (ground (arith, small))
    ∙ ap (λ (v : ℕ). ok (v, l2)) whole

escape-hex :
    (p q : Pos) (rest : Text)
    → escape p (lexer (120 ∷ rest) q) ≡ hex_escape p (lexer rest (advance 120 q))
unfolding escape bump
escape-hex p q rest = refl

quote_char-control :
    (c : ℕ)
    → (ltb c 32 || c == 127) ≡ true
    → (c == 10) ≡ false
    → (c == 9) ≡ false
    → (c == 13) ≡ false
    → quote_char c ≡ 92 ∷ 120 ∷ hex_digit (c / 16) ∷ hex_digit (c % 16) ∷ []
unfolding quote_char
quote_char-control c h x y z = ground (arith, h, x, y, z)

quote_char-plain :
    (c : ℕ)
    → (ltb c 32 || c == 127) ≡ false
    → (c == 34) ≡ false
    → (c == 92) ≡ false
    → quote_char c ≡ c ∷ []
unfolding quote_char
quote_char-plain c h x y = ground (arith, h, x, y)

-- One character of a quoted string, which is read back by one turn.
ReadsBack : ℕ → Type 0
ReadsBack c =
    (fuel : ℕ) (opened p : Pos) (rest : Text)
    → string_body (suc fuel) opened (lexer (quote_char c ++ rest) p)
      ≡ push c (string_body fuel opened (lexer rest (after_text (quote_char c) p)))

named-ReadsBack :
    (c e : ℕ)
    → quote_char c ≡ 92 ∷ e ∷ []
    → ((p q : Pos) (rest : Text) → escape p (lexer (e ∷ rest) q) ≡ ok (c, lexer rest (advance e q)))
    → ReadsBack c
unfolding ReadsBack
named-ReadsBack c e quoted read fuel opened p rest = rw quoted (
    string_body-escape fuel opened p (e ∷ rest) c (lexer rest (advance e (advance 92 p)))
      (read p (advance 92 p) rest))

control-ReadsBack :
    (c : ℕ)
    → c < 128
    → quote_char c ≡ 92 ∷ 120 ∷ hex_digit (c / 16) ∷ hex_digit (c % 16) ∷ []
    → ReadsBack c
unfolding ReadsBack
control-ReadsBack c small quoted fuel opened p rest =
    let tail = hex_digit (c / 16) ∷ hex_digit (c % 16) ∷ rest in
    rw quoted (
      string_body-escape fuel opened p (120 ∷ tail) c _ (
        escape-hex p (advance 92 p) tail
        ∙ hex_escape-digits p (advance 120 (advance 92 p)) c rest small))

plain-ReadsBack :
    (c : ℕ) → quote_char c ≡ c ∷ [] → (c == 34) ≡ false → (c == 92) ≡ false → ReadsBack c
unfolding ReadsBack
plain-ReadsBack c quoted h k fuel opened p rest =
    rw quoted (string_body-plain fuel opened p c rest h k)

ReadsBack-backslash : ReadsBack 92
unfolding quote_char escape bump
ReadsBack-backslash = named-ReadsBack 92 92 refl λ p q rest. refl

ReadsBack-quote : ReadsBack 34
unfolding quote_char escape bump
ReadsBack-quote = named-ReadsBack 34 34 refl λ p q rest. refl

ReadsBack-newline : ReadsBack 10
unfolding quote_char escape bump
ReadsBack-newline = named-ReadsBack 10 110 refl λ p q rest. refl

ReadsBack-tab : ReadsBack 9
unfolding quote_char escape bump
ReadsBack-tab = named-ReadsBack 9 116 refl λ p q rest. refl

ReadsBack-return : ReadsBack 13
unfolding quote_char escape bump
ReadsBack-return = named-ReadsBack 13 114 refl λ p q rest. refl

ReadsBack-any : (c : ℕ) → ReadsBack c
ReadsBack-any c = elim (Bool-cases (c == 92)) [
  | inl e ↦ rw ((==_iff c 92).0 e) ReadsBack-backslash
  | inr n1 ↦ elim (Bool-cases (c == 34)) [
    | inl e ↦ rw ((==_iff c 34).0 e) ReadsBack-quote
    | inr n2 ↦ elim (Bool-cases (c == 10)) [
      | inl e ↦ rw ((==_iff c 10).0 e) ReadsBack-newline
      | inr n3 ↦ elim (Bool-cases (c == 9)) [
        | inl e ↦ rw ((==_iff c 9).0 e) ReadsBack-tab
        | inr n4 ↦ elim (Bool-cases (c == 13)) [
          | inl e ↦ rw ((==_iff c 13).0 e) ReadsBack-return
          | inr n5 ↦ elim (Bool-cases (ltb c 32 || c == 127)) [
            | inl k ↦ control-ReadsBack c (ground (arith, k)) (quote_char-control c k n3 n4 n5)
            | inr k ↦ plain-ReadsBack c (quote_char-plain c k n2 n1) n2 n1
          ]
        ]
      ]
    ]
  ]
]

pub after_text-append :
    (s t : Text) (p : Pos) → after_text (s ++ t) p ≡ after_text t (after_text s p)
after_text-append [] t p = refl
after_text-append (c ∷ s) t p = after_text-append s t (advance c p)

string_body-close :
    (fuel : ℕ) (opened p : Pos) (rest : Text)
    → string_body (suc fuel) opened (lexer (34 ∷ rest) p) ≡ ok ([], lexer rest (advance 34 p))
unfolding string_body bump
string_body-close fuel opened p rest = refl

quote_chars-nil : quote_chars [] ≡ []
unfolding quote_chars
quote_chars-nil = refl

quote_chars-cons : (c : ℕ) (s : Text) → quote_chars (c ∷ s) ≡ quote_char c ++ quote_chars s
unfolding quote_chars
quote_chars-cons c s = refl

string_body-quote_chars :
    (s : Text) (fuel : ℕ) (opened p : Pos) (rest : Text)
    → length s < fuel
    → string_body fuel opened (lexer (quote_chars s ++ 34 ∷ rest) p)
      ≡ ok (s, lexer rest (advance 34 (after_text (quote_chars s) p)))
unfolding ReadsBack
string_body-quote_chars s zero opened p rest h = ground (arith, h)
string_body-quote_chars [] (suc fuel) opened p rest h =
    rw quote_chars-nil (string_body-close fuel opened p rest)
string_body-quote_chars (c ∷ s) (suc fuel) opened p rest h =
    let q = after_text (quote_char c) p in
    rw
      (
        quote_chars-cons c s,
        after_text-append (quote_char c) (quote_chars s) p,
        append_assoc (quote_char c) (quote_chars s) (34 ∷ rest),
      )
      (ReadsBack-any c fuel opened p (quote_chars s ++ 34 ∷ rest)
        ∙ ap (push c) (string_body-quote_chars s fuel opened q rest (omega (arith, h))))

length-quote_char : (c : ℕ) → 1 ≤ length (quote_char c)
unfolding quote_char
length-quote_char c = ground arith

length-quote_chars : (s : Text) → length s ≤ length (quote_chars s)
unfolding quote_chars
length-quote_chars [] = omega arith
length-quote_chars (c ∷ s) =
    omega (
      arith,
      length-append (quote_char c) (quote_chars s),
      length-quote_char c,
      length-quote_chars s,
    )

pub string-quote_chars :
    (s rest : Text) (opened p : Pos)
    → string opened (lexer (quote_chars s ++ 34 ∷ rest) p)
      ≡ ok (value s, lexer rest (advance 34 (after_text (quote_chars s) p)))
unfolding string
string-quote_chars s rest opened p = rw (
    string_body-quote_chars s (suc (length (quote_chars s ++ 34 ∷ rest))) opened p rest
      (omega (arith, length-append (quote_chars s) (34 ∷ rest), length-quote_chars s)))
