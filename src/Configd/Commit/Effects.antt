-- ===== src/Configd/Commit/Effects.antt =====
-- src/nightshade-configd/src/commit.rs: what a commit that fails has done to the machine.
use nightshade.Shared.{
  List, [], ◌∷◌, Bool, true, false, ◌≡◌, refl, arith, inl, inr, All, ◌∙◌, Option-cases,
}
use nightshade.Shared.Text.{Text}
use nightshade.Shared.Result.{Result-cases, Result, ok, err, ◌>>=◌, map_err}
use nightshade.Schema.Config.{ConfigTree}
use nightshade.Configd.Commit.{
  Renderer, Plan, CommitError, unrendered, unchecked, apply, apply_plan, prepare, apply_all,
  apply_one, fail_apply, restore, restore_one, restore_from, render_all, check_all, remember_all,
}

-- An error of the steps that come before the machine is touched.
abbrev pub is_early : CommitError → Bool
is_early (unrendered n m) = true
is_early (unchecked n m) = true
is_early _ = false

module _ {W A : Type 0} where
  pub prepare-eq-ok :
      (rs : List (Renderer W A)) (c : ConfigTree) (plan : Plan W A)
      → render_all rs c ≡ ok plan
      → check_all plan ≡ ok tt
      → prepare rs c ≡ ok plan
  unfolding prepare
  prepare-eq-ok rs c plan h k = rw (prepare, h, k)

  pub apply-eq-apply_plan :
      (rs : List (Renderer W A)) (c : ConfigTree) (w : W) (plan : Plan W A)
      → prepare rs c ≡ ok plan
      → apply rs c w ≡ apply_plan plan w
  unfolding apply
  apply-eq-apply_plan rs c w plan h = rw (h, apply)

  pub apply_plan-eq-ok :
      (plan : Plan W A) (w w' : W)
      → apply_all plan [] w ≡ (ok tt, w')
      → apply_plan plan w ≡ (ok tt, remember_all plan w')
  unfolding apply_plan
  apply_plan-eq-ok plan w w' h = ground (arith, h)

  pub apply_plan-eq-err :
      (plan : Plan W A) (w w' : W) (e : CommitError)
      → apply_all plan [] w ≡ (err e, w')
      → apply_plan plan w ≡ (err e, w')
  unfolding apply_plan
  apply_plan-eq-err plan w w' e h = ground (arith, h)

  fail_apply-late :
      (r : Renderer W A) (source : Text) (done : List (Renderer W A)) (w : W) (e : CommitError)
      → (fail_apply r source done w).0 ≡ err e
      → is_early e ≡ false
  unfolding fail_apply
  fail_apply-late r source done w e h = ground arith

  apply_all-late :
      (plan : Plan W A) (done : List (Renderer W A)) (w : W) (e : CommitError)
      → (apply_all plan done w).0 ≡ err e
      → is_early e ≡ false
  unfolding apply_all
  apply_all-late [] done w e h = cc
  apply_all-late ((r, a) ∷ plan) done w e h = elim (Result-cases (apply_one r a w).0) [
    | inl (_, good) ↦ ground (arith, good, apply_all-late plan (r ∷ done) (apply_one r a w).1 e)
    | inr (m, bad) ↦ ground (arith, bad, fail_apply-late r m (r ∷ done) (apply_one r a w).1 e)
  ]

  -- A run of the pipeline that fails while rendering or checking leaves the machine as it was.
  pub apply_early :
      (rs : List (Renderer W A)) (candidate : ConfigTree) (w : W) (e : CommitError)
      → (apply rs candidate w).0 ≡ err e
      → is_early e ≡ true
      → (apply rs candidate w).1 ≡ w
  unfolding apply apply_plan
  apply_early rs candidate w e h early = elim (Result-cases (prepare rs candidate)) [
    | inl (plan, planned) ↦ ground (arith, planned, apply_all-late plan [] w e)
    | inr (_, refused) ↦ ground (arith, refused)
  ]

module _ {W A M : Type 0} (marks : W → M) where
  -- The renderer's `apply` leaves what `marks` shows of the machine.
  abbrev pub Keeps : Renderer W A → Type 0
  Keeps r = (a : A) (w : W) → marks (r.apply a w).1 ≡ marks w

  restore_one-marks :
      (r : Renderer W A) (problems : List Text) (w : W)
      → Keeps r
      → marks (restore_one r problems w).1 ≡ marks w
  unfolding restore_one
  restore_one-marks r problems w k = elim (Option-cases (r.previous w)) [
    | inl fresh ↦ rw (fresh, restore_one)
    | inr (a, e) ↦ rw (e, restore_one) (k a w)
  ]

  restore_from-marks :
      (rs : List (Renderer W A)) (problems : List Text) (w : W)
      → All Keeps rs
      → marks (restore_from rs problems w).1 ≡ marks w
  unfolding restore_from
  restore_from-marks [] problems w h = refl
  restore_from-marks (r ∷ rs) problems w (k, h) =
      let (problems', w') = restore_one r problems w in
      restore_from-marks rs problems' w' h ∙ restore_one-marks r problems w k

  fail_apply-marks :
      (r : Renderer W A) (source : Text) (done : List (Renderer W A)) (w : W)
      → All Keeps done
      → marks (fail_apply r source done w).1 ≡ marks w
  unfolding fail_apply restore
  fail_apply-marks r source done w h = restore_from-marks done [] w h

  apply_one-marks :
      (r : Renderer W A) (a : A) (w : W) → Keeps r → marks (apply_one r a w).1 ≡ marks w
  unfolding apply_one
  apply_one-marks r a w k = k a w

  apply_all-marks :
      (plan : Plan W A) (done : List (Renderer W A)) (w : W)
      → All (λ step. Keeps step.0) plan
      → All Keeps done
      → marks (apply_all plan done w).1 ≡ marks w
  unfolding apply_all
  apply_all-marks [] done w h g = refl
  apply_all-marks ((r, a) ∷ plan) done w (k, h) g = elim (Result-cases (apply_one r a w).0) [
    | inl (_, good) ↦ ground (
      arith,
      good,
      apply_one-marks r a w k,
      apply_all-marks plan (r ∷ done) (apply_one r a w).1 h (k, g),
    )
    | inr (m, bad) ↦ ground (
      arith,
      bad,
      apply_one-marks r a w k,
      fail_apply-marks r m (r ∷ done) (apply_one r a w).1 (k, g),
    )
  ]

  Kept : Result CommitError (Plan W A) → Type 0
  Kept (ok plan) = All (λ step. Keeps step.0) plan
  Kept (err e) = Unit

  Kept-cons :
      (r : Renderer W A) (x : Result Text A) (y : Result CommitError (Plan W A))
      → Keeps r
      → Kept y
      → Kept (map_err (unrendered r.name) x >>= λ a. y >>= λ plan. ok ((r, a) ∷ plan))
  unfolding Kept
  Kept-cons r (ok a) (ok plan) k h = (k, h)
  Kept-cons r (ok a) (err e) k h = tt
  Kept-cons r (err m) y k h = tt

  render_all-Kept :
      (rs : List (Renderer W A)) (candidate : ConfigTree)
      → All Keeps rs
      → Kept (render_all rs candidate)
  unfolding render_all Kept
  render_all-Kept [] candidate h = tt
  render_all-Kept (r ∷ rs) candidate (k, h) =
      Kept-cons r (r.render candidate) (render_all rs candidate) k (render_all-Kept rs candidate h)

  Kept-check :
      (x : Result CommitError (Plan W A))
      → Kept x
      → Kept (x >>= λ plan. check_all plan >>= λ _. ok plan)
  unfolding Kept
  Kept-check (ok plan) h = go (check_all plan)
    where
      go : (c : Result CommitError (Unit {0})) → Kept (c >>= λ _. ok plan)
      go (ok _) = h
      go (err e) = tt
  Kept-check (err e) h = tt

  apply_plan-marks :
      (plan : Plan W A) (w : W) (e : CommitError)
      → All (λ step. Keeps step.0) plan
      → (apply_plan plan w).0 ≡ err e
      → marks (apply_plan plan w).1 ≡ marks w
  unfolding apply_plan
  apply_plan-marks plan w e h failed = elim (Result-cases (apply_all plan [] w).0) [
    | inl (_, good) ↦ ground (arith, good)
    | inr (m, bad) ↦ ground (arith, bad, apply_all-marks plan [] w h tt)
  ]

  -- Where no renderer's apply touches what the renderers remember, a run of the pipeline that
  -- fails, at whatever step, leaves it as it was.
  pub apply-marks :
      (rs : List (Renderer W A)) (candidate : ConfigTree) (w : W) (e : CommitError)
      → All Keeps rs
      → (apply rs candidate w).0 ≡ err e
      → marks (apply rs candidate w).1 ≡ marks w
  unfolding apply prepare Kept
  apply-marks rs candidate w e h failed = elim (Result-cases (prepare rs candidate)) [
    | inl (plan, planned) ↦
        let kept : Kept (ok plan) =
          rw planned at (Kept-check (render_all rs candidate) (render_all-Kept rs candidate h)) in
        ground (arith, planned, apply_plan-marks plan w e kept)
    | inr (_, refused) ↦ ground (arith, refused)
  ]
