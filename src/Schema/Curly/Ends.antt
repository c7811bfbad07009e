-- ===== src/Schema/Curly/Ends.antt =====
-- src/nightshade-schema/src/curly.rs: the loop over the statements of a body ends on every text.
use nightshade.Shared.{
  ℕ, zero, suc, ◌<◌, ◌≤◌, Option, none, some, ◌≡◌, refl, arith, inl, inr, ap, ==_iff, if◌then◌else◌,
}
use mathlib.Core.Path.{subst}
use nightshade.Shared.Text.{Text}
use nightshade.Shared.Result.{Result-cases, ok, err}
use nightshade.Schema.Path.{ConfigPath}
use nightshade.Schema.Config.{ConfigTree}
use nightshade.Schema.Lex.{Pos, Token, value, open_brace, close_brace, comment, Spanned}
use nightshade.Schema.Curly.Parse.{
  unmatched_close, unclosed, trailing, joined, Parser, Reader, peek, value_on, run, entering, body,
  on_names, on_token, statements,
}
use nightshade.Schema.Curly.Fuel.{
  size, Within, taken, taken-size, peek-none, peek-some, run_fuel, run-Below,
}
use nightshade.Schema.Curly.Readers.{Read, Same, Alike, weaken, then_taken-Same, on_names-Same}

value_on-here :
    (v : Text) (pos : Pos) → value_on pos.line (record { pos = pos; token = value v }) ≡ some v
value_on-here v pos = rw ((==_iff pos.line pos.line).1 refl) refl

closing :
    (opened : Option Pos) (tree : ConfigTree) (pos : Pos) (q : Parser)
    → Same
        (size q)
        (elim opened [ some _ ↦ ok (tree, q) | none ↦ err (unmatched_close pos) ])
        (elim opened [ some _ ↦ ok (tree, q) | none ↦ err (unmatched_close pos) ])
closing none tree pos q = (refl, tt)
closing (some _) tree pos q = (refl, omega arith)

on_token-Same :
    (f g : Reader) (k m : ℕ) (tree : ConfigTree) (prefix : ConfigPath) (depth : ℕ)
    (opened : Option Pos) (pending : Option Text) (previous : Option (ConfigPath × ℕ)) (pos : Pos)
    (token : Token) (p : Parser)
    → p.peeked ≡ some (record { pos = pos; token = token })
    → size p < suc k
    → size p < suc m
    → Alike (size p) f g
    → Same
        (size p)
        (on_token f (suc k) tree prefix depth opened pending previous pos token p)
        (on_token g (suc m) tree prefix depth opened pending previous pos token p)
unfolding on_token
on_token-Same f g k m tree prefix depth opened pending previous pos (comment text) p e hk hm h =
    let pending' : Option Text =
      if (trailing tree pending previous pos text).1 then pending else some (joined pending text) in
    let t : ConfigTree = (trailing tree pending previous pos text).0 in
    then_taken-Same p (record { pos = pos; token = comment text })
      (f t prefix depth opened pending' previous) (g t prefix depth opened pending' previous) e
      (h t prefix depth opened pending' previous (taken p)
        (omega (arith, taken-size p (record { pos = pos; token = comment text }) e)))
on_token-Same f g k m tree prefix depth opened pending previous pos close_brace p e hk hm h =
    let next : Parser → Read =
      λ q. elim opened [ some _ ↦ ok (tree, q) | none ↦ err (unmatched_close pos) ] in
    then_taken-Same p (record { pos = pos; token = close_brace }) next next e
      (closing opened tree pos (taken p))
on_token-Same f g k m tree prefix depth opened pending previous pos open_brace p e hk hm h =
    (refl, tt)
on_token-Same f g k m tree prefix depth opened pending previous pos (value v) p e hk hm h =
    let token : Spanned = record { pos = pos; token = value v } in
    let same : run (suc k) pos.line p ≡ run (suc m) pos.line p =
      run_fuel (suc k) (suc m) pos.line p hk hm in
    let less : suc (size (taken p)) ≡ size p = taken-size p token e in
    elim (Result-cases (run (suc m) pos.line p)) [
      | inr (_, bad) ↦ rw (same, bad, on_token) (refl, tt)
      | inl ((names, q), r) ↦
          let le : size q ≤ size (taken p) =
            subst (Within (size (taken p))) r
              (run-Below m pos.line p token v e (value_on-here v pos)) in
          rw (same, r, on_token)
            (weaken (size q) (size p) (on_names f tree prefix depth opened pending pos names q)
              (on_names g tree prefix depth opened pending pos names q) (omega (arith, le, less))
              (on_names-Same (size p) f g h tree prefix depth opened pending pos names q
                (omega (arith, le, less))))
    ]

finishing :
    (opened : Option Pos) (tree : ConfigTree) (n : ℕ) (q : Parser)
    → size q ≤ n
    → Same n
        (elim opened [ some pos ↦ err (unclosed pos) | none ↦ ok (tree, q) ])
        (elim opened [ some pos ↦ err (unclosed pos) | none ↦ ok (tree, q) ])
finishing none tree n q le = (refl, le)
finishing (some _) tree n q le = (refl, tt)

statements-Same : (k m : ℕ) → (n : ℕ) → n ≤ k → n ≤ m → Alike n (statements k) (statements m)
unfolding statements
statements-Same zero m n hk hm tree prefix depth opened pending previous p lt =
    absurd (omega (arith, lt, hk))
statements-Same (suc k) zero n hk hm tree prefix depth opened pending previous p lt =
    absurd (omega (arith, lt, hm))
statements-Same (suc k) (suc m) n hk hm tree prefix depth opened pending previous p lt =
    elim (Result-cases (peek p)) [
      | inr (_, bad) ↦ rw (bad, statements) (refl, tt)
      | inl ((none, q), e) ↦ rw (e, statements) (finishing opened tree (size p) q (peek-none p q e))
      | inl ((some s, q), e) ↦
          let (le, there) = peek-some p q s e in
          rw (e, statements)
            (weaken (size q) (size p)
              (on_token (statements k) (suc k) tree prefix depth opened pending previous s.pos
                s.token q)
              (on_token (statements m) (suc m) tree prefix depth opened pending previous s.pos
                s.token q)
              le
              (on_token-Same (statements k) (statements m) k m tree prefix depth opened pending
                previous s.pos s.token q there (omega (arith, le, lt, hk))
                (omega (arith, le, lt, hm))
                (statements-Same k m (size q) (omega (arith, le, lt, hk))
                  (omega (arith, le, lt, hm)))))
    ]

-- From a parser on, any two bounds on the turns that are larger than the number of the characters
-- left, a token that was looked at counted as one, give the same tree or the same error: the loops
-- that read a configuration end by themselves, nested blocks and all.
pub body_fuel :
    (k m : ℕ) (tree : ConfigTree) (prefix : ConfigPath) (depth : ℕ) (opened : Option Pos)
    (p : Parser)
    → size p < k
    → size p < m
    → body k tree prefix depth opened p ≡ body m tree prefix depth opened p
unfolding body
body_fuel k m tree prefix depth opened p hk hm =
    ap (entering depth opened)
      (statements-Same k m (suc (size p)) (omega (arith, hk)) (omega (arith, hm)) tree prefix depth
        opened none none p (omega arith)).0
