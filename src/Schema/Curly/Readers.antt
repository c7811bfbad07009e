-- ===== src/Schema/Curly/Readers.antt =====
-- src/nightshade-schema/src/curly.rs: what a statement comes to, where two readers of what follows
-- it do the same on every smaller parser.
use nightshade.Shared.{
  ℕ, suc, ◌<◌, ◌≤◌, List, ◌++◌, Bool, true, false, Option, none, some, ◌≡◌, refl, arith, Bool-cases,
  inl, inr, ltb, length,
}
use mathlib.Core.Path.{subst}
use nightshade.Shared.Text.{Text}
use nightshade.Shared.Result.{Result, Result-cases, ok, err}
use nightshade.Schema.Path.{ConfigPath}
use nightshade.Schema.Config.{ConfigTree, ensure_interior}
use nightshade.Schema.Lex.{Pos, Spanned, LexError, Lexer, next_token}
use nightshade.Schema.Lex.Progress.{LeavesLess, next_token-LeavesLess}
use nightshade.Schema.Curly.Parse.{
  ParseError, Parser, Reader, advance, peek, block, entering, max_depth, attach, on_next, on_names,
  then_taken, leaf, opens_on,
}
use nightshade.Schema.Curly.Fuel.{
  size, sized, Within, taken, advance-peeked, taken-size, peek-none, peek-some,
}

abbrev pub Read : Type 0
Read = Result ParseError (ConfigTree × Parser)

peek-size :
    (p : Parser) (next : Option Spanned) (q : Parser) → peek p ≡ ok (next, q) → size q ≤ size p
peek-size p none q e = peek-none p q e
peek-size p (some s) q e = (peek-some p q s e).0

-- Two results that are one, and leave a parser that is no larger than a number.
abbrev pub Same : ℕ → Read → Read → Type 0
Same n a b = (a ≡ b) × Within n a

-- Two readers do the same on parsers that are smaller than a number.
abbrev pub Alike : ℕ → Reader → Reader → Type 0
Alike n f g =
    (tree : ConfigTree) (prefix : ConfigPath) (depth : ℕ) (opened : Option Pos)
    (pending : Option Text) (previous : Option (ConfigPath × ℕ)) (p : Parser)
    → size p < n
    → Same (size p) (f tree prefix depth opened pending previous p)
        (g tree prefix depth opened pending previous p)

pub weaken : (n k : ℕ) (a b : Read) → n ≤ k → Same n a b → Same k a b
weaken n k (err e) b le (e1, w) = (e1, tt)
weaken n k (ok r) b le (e1, w) = (e1, omega (arith, le, w))

advanced :
    (l : Lexer) (m : Result LexError (Option (Spanned × Lexer)))
    → next_token l ≡ m
    → LeavesLess (length l.rest) m
    → Within (length l.rest) (advance (record { lexer = l; peeked = none }))
unfolding advance
advanced l (err e) eq h = rw (eq, advance) tt
advanced l (ok none) eq h = rw (eq, advance) (omega arith)
advanced l (ok (some (s, after))) eq h = rw (eq, advance) (omega (arith, h))

advance_of :
    (l : Lexer) (o : Option Spanned)
    → Within (sized o (length l.rest)) (advance (record { lexer = l; peeked = o }))
unfolding advance
advance_of l none = advanced l (next_token l) refl (next_token-LeavesLess l)
advance_of l (some s) = omega arith

advance-Within : (p : Parser) → Within (size p) (advance p)
advance-Within p = advance_of p.lexer p.peeked

abbrev followed : (ConfigTree → Parser → Read) → Read → Read
followed after m = elim m [ err e ↦ err e | ok (t, p) ↦ after t p ]

abbrev Follow : ℕ → (ConfigTree → Parser → Read) → (ConfigTree → Parser → Read) → Type 0
Follow n f g = (t : ConfigTree) (q : Parser) → size q ≤ n → Same (size q) (f t q) (g t q)

followed-Same :
    (n k : ℕ) (f g : ConfigTree → Parser → Read) (a b : Read)
    → k ≤ n
    → Follow n f g
    → Same k a b
    → Same n (followed f a) (followed g b)
followed-Same n k f g (err e) b le h (same, w) =
    subst (λ m. Same n (err e) (followed g m)) same (refl, tt)
followed-Same n k f g (ok (t, q)) b le h (same, w) =
    subst (λ m. Same n (f t q) (followed g m)) same
      (weaken (size q) n (f t q) (g t q) (omega (arith, le, w)) (h t q (omega (arith, le, w))))

-- A block that is made, from its opening brace on.
block_made :
    (within : ConfigTree → Pos → Parser → Read) (after : ConfigTree → Parser → Read)
    (tree : ConfigTree) (path : ConfigPath) (pending : Option Text) (pos : Pos) (p p1 : Parser)
    (brace : Spanned)
    → advance p ≡ ok (some brace, p1)
    → (ensure_interior tree path).1 ≡ ok tt
    → block within after tree path pending pos p
      ≡ followed after (within (attach (ensure_interior tree path).0 path pending) brace.pos p1)
unfolding block
block_made within after tree path pending pos p p1 brace e made = rw (e, block) (rw made refl)

block-Same :
    (within1 within2 : ConfigTree → Pos → Parser → Read) (f g : ConfigTree → Parser → Read)
    (tree : ConfigTree) (path : ConfigPath) (pending : Option Text) (pos : Pos) (p : Parser)
    → ((brace : Pos) → Follow (size p) (λ t q. within1 t brace q) (λ t q. within2 t brace q))
    → Follow (size p) f g
    → Same
        (size p)
        (block within1 f tree path pending pos p)
        (block within2 g tree path pending pos p)
unfolding block
block-Same within1 within2 f g tree path pending pos p inner outer =
    elim (Result-cases (advance p)) [
      | inr (_, bad) ↦ rw (bad, block) (refl, tt)
      | inl ((none, p1), e) ↦ rw (e, block) (refl, subst (Within (size p)) e (advance-Within p))
      | inl ((some brace, p1), e) ↦ elim (Result-cases (ensure_interior tree path).1) [
        | inr (_, bad) ↦ rw (e, block) (rw bad (refl, tt))
        | inl (_, made) ↦
            let t = attach (ensure_interior tree path).0 path pending in
            let small : size p1 ≤ size p = subst (Within (size p)) e (advance-Within p) in
            rw (block_made within1 f tree path pending pos p p1 brace e made) (
              rw (block_made within2 g tree path pending pos p p1 brace e made) (
                followed-Same (size p) (size p1) f g (within1 t brace.pos p1)
                  (within2 t brace.pos p1) small outer (inner brace.pos t p1 small)))
      ]
    ]

entering-Same :
    (n depth : ℕ) (opened : Option Pos) (a b : Read)
    → Same n a b
    → Same n (entering depth opened a) (entering depth opened b)
entering-Same n depth opened a b h = elim (Bool-cases (ltb max_depth depth)) [
  | inl e ↦ rw e (refl, tt)
  | inr e ↦ rw e h
]

on_next-Same :
    (n : ℕ) (f g : Reader)
    → Alike n f g
    → (tree : ConfigTree) (prefix : ConfigPath) (depth : ℕ) (opened : Option Pos)
      (pending : Option Text) (pos : Pos) (names : List Text) (opens : Bool) (p : Parser)
    → size p < n
    → Same
        (size p)
        (on_next f tree prefix depth opened pending pos names opens p)
        (on_next g tree prefix depth opened pending pos names opens p)
unfolding on_next
on_next-Same n f g h tree prefix depth opened pending pos names false p lt =
    elim (Result-cases (leaf tree prefix names pos)) [
      | inr (_, bad) ↦ rw (bad, on_next) (refl, tt)
      | inl ((t, path), e) ↦
          rw (e, on_next)
            (h (attach t path pending) prefix depth opened none (some (path, pos.line)) p lt)
    ]
on_next-Same n f g h tree prefix depth opened pending pos names true p lt =
    let path = prefix ++ names in
    block-Same
      (λ t brace q.
        entering (suc depth) (some brace) (f t path (suc depth) (some brace) none none q))
      (λ t brace q.
        entering (suc depth) (some brace) (g t path (suc depth) (some brace) none none q))
      (λ t q. f t prefix depth opened none none q) (λ t q. g t prefix depth opened none none q) tree
      path pending pos p
      (λ brace t q le.
        entering-Same (size q) (suc depth) (some brace)
          (f t path (suc depth) (some brace) none none q)
          (g t path (suc depth) (some brace) none none q)
          (h t path (suc depth) (some brace) none none q (omega (arith, le, lt))))
      (λ t q le. h t prefix depth opened none none q (omega (arith, le, lt)))

pub then_taken-Same :
    (p : Parser) (s : Spanned) (f g : Parser → Read)
    → p.peeked ≡ some s
    → Same (size (taken p)) (f (taken p)) (g (taken p))
    → Same (size p) (then_taken f p) (then_taken g p)
then_taken-Same p s f g e h =
    rw (advance-peeked p s e, then_taken)
      (weaken (size (taken p)) (size p) (f (taken p)) (g (taken p))
        (omega (arith, taken-size p s e)) h)

pub on_names-Same :
    (n : ℕ) (f g : Reader)
    → Alike n f g
    → (tree : ConfigTree) (prefix : ConfigPath) (depth : ℕ) (opened : Option Pos)
      (pending : Option Text) (pos : Pos) (names : List Text) (p : Parser)
    → size p < n
    → Same
        (size p)
        (on_names f tree prefix depth opened pending pos names p)
        (on_names g tree prefix depth opened pending pos names p)
unfolding on_names
on_names-Same n f g h tree prefix depth opened pending pos names p lt =
    elim (Result-cases (peek p)) [
      | inr (_, bad) ↦ rw (bad, on_names) (refl, tt)
      | inl ((next, q), e) ↦
          let le : size q ≤ size p = peek-size p next q e in
          rw (e, on_names)
            (weaken (size q) (size p)
              (on_next f tree prefix depth opened pending pos names (opens_on pos.line next) q)
              (on_next g tree prefix depth opened pending pos names (opens_on pos.line next) q) le
              (on_next-Same n f g h tree prefix depth opened pending pos names
                (opens_on pos.line next) q (omega (arith, le, lt))))
    ]
