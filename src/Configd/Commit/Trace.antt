-- ===== src/Configd/Commit/Trace.antt =====
-- src/nightshade-configd/src/commit.rs: the calls that the pipeline makes, in their order.
use nightshade.Shared.{
  List, [], ◌∷◌, ◌++◌, Bool, true, false, Option-cases, Bool-cases, is_nil, arith, Option, none,
  some, ◌≡◌, refl, ap, if◌then◌else◌, ◌∙◌,
}
use mathlib.Core.List.{
  append-nil, reverse, reverse_aux, reverse_aux-eq, reverse-reverse, append_assoc,
}
use nightshade.Shared.Text.{Text}
use nightshade.Shared.Result.{Result, ok, err}
use nightshade.Schema.Config.{ConfigTree}
use nightshade.Configd.Commit.{
  Renderer, Plan, CommitError, unrecovered, join, applied, apply, apply_all, apply_one, fail_apply,
  restore, restore_from, restore_one, render_all, check_all, remember_all, prepare,
}
use nightshade.Configd.Commit.Effects.{
  prepare-eq-ok, apply-eq-apply_plan, apply_plan-eq-ok, apply_plan-eq-err,
}
use nightshade.Configd.Commit.Logging.{
  Target, next, applied_to, Log, Subsystem, logging, working, calls, undone, troubles, noted,
  failure_of,
}

plan_of : List (Renderer Log Target) → Plan Log Target
plan_of [] = []
plan_of (r ∷ rs) = (r, next) ∷ plan_of rs

render_all-working :
    (ns : List Subsystem) (rs : List (Renderer Log Target)) (c : ConfigTree)
    → render_all rs c ≡ ok (plan_of rs)
    → render_all (working ns ++ rs) c ≡ ok (plan_of (working ns ++ rs))
unfolding render_all plan_of
render_all-working [] rs c h = h
render_all-working (n ∷ ns) rs c h = rw (render_all-working ns rs c h)

check_all-working :
    (ns : List Subsystem) (rs : List (Renderer Log Target))
    → check_all (plan_of rs) ≡ ok tt
    → check_all (plan_of (working ns ++ rs)) ≡ ok tt
unfolding check_all plan_of
check_all-working [] rs h = h
check_all-working (n ∷ ns) rs h = check_all-working ns rs h

working_nil : (ns : List Subsystem) → working ns ++ [] ≡ working ns
working_nil ns = append-nil (working ns)

render_all_self :
    (ns : List Subsystem) (c : ConfigTree) → render_all (working ns) c ≡ ok (plan_of (working ns))
unfolding render_all plan_of
render_all_self ns c = rw working_nil at (render_all-working ns [] c refl)

check_all_self : (ns : List Subsystem) → check_all (plan_of (working ns)) ≡ ok tt
unfolding check_all plan_of
check_all_self ns = rw working_nil at (check_all-working ns [] refl)

prepare-working :
    (ns : List Subsystem) (c : ConfigTree) → prepare (working ns) c ≡ ok (plan_of (working ns))
unfolding render_all check_all plan_of
prepare-working ns c =
    prepare-eq-ok (working ns) c (plan_of (working ns)) (render_all_self ns c) (check_all_self ns)

prepare-failing :
    (ns later : List Subsystem) (failure : Text) (bad : Subsystem) (c : ConfigTree)
    → prepare (working ns ++ logging (some failure) bad ∷ working later) c
      ≡ ok (plan_of (working ns ++ logging (some failure) bad ∷ working later))
unfolding render_all check_all plan_of
prepare-failing ns later failure bad c =
    let rs = logging (some failure) bad ∷ working later in
    prepare-eq-ok (working ns ++ rs) c (plan_of (working ns ++ rs))
      (render_all-working ns rs c (rw (render_all_self later c)))
      (check_all-working ns rs (check_all_self later))

-- Applying subsystems that work logs one call for each, in their order.
apply_all-working :
    (ns ds : List Subsystem) (rs : List (Renderer Log Target)) (w : Log)
    → apply_all (plan_of (working ns ++ rs)) (working ds) (calls ds ++ w)
      ≡ apply_all (plan_of rs) (working (reverse_aux ns ds)) (calls (reverse_aux ns ds) ++ w)
unfolding apply_all apply_one plan_of
apply_all-working [] ds rs w = refl
apply_all-working (n ∷ ns) ds rs w = apply_all-working ns (n ∷ ds) rs w

-- Putting back one subsystem, by whether it has applied anything and what it says.
restore_one_by :
    (failure : Option Text) (name : Text) (fresh : Bool) (stuck : Option Text) (ps : List Text)
    (w : Log)
    → let s : Subsystem = record { name = name; fresh = fresh; stuck = stuck } in
      restore_one (logging failure s) ps w ≡ (ps ++ troubles (s ∷ []), undone (s ∷ []) ++ w)
unfolding restore_one
restore_one_by failure name true stuck ps w = rw append-nil refl
restore_one_by failure name false none ps w = rw append-nil refl
restore_one_by failure name false (some e) ps w = refl

restore_one-logging :
    (failure : Option Text) (s : Subsystem) (ps : List Text) (w : Log)
    → restore_one (logging failure s) ps w ≡ (ps ++ troubles (s ∷ []), undone (s ∷ []) ++ w)
restore_one-logging failure s ps w = restore_one_by failure s.name s.fresh s.stuck ps w

troubles_cons :
    (s : Subsystem) (ss : List Subsystem) → troubles (s ∷ []) ++ troubles ss ≡ troubles (s ∷ ss)
troubles_cons s ss = ground (arith, Bool-cases s.fresh, Option-cases s.stuck)

undone_cons :
    (s : Subsystem) (ss : List Subsystem) (w : Log)
    → undone (s ∷ []) ++ (undone ss ++ w) ≡ undone (s ∷ ss) ++ w
undone_cons s ss w = ground (arith, Bool-cases s.fresh)

restore_from_cons :
    (failure : Option Text) (d : Subsystem) (ds es : List Subsystem) (ps : List Text) (w : Log)
    → restore_from (logging failure d ∷ working ds) ps (undone es ++ w)
      ≡ restore_from (working ds) (ps ++ troubles (d ∷ [])) (undone (d ∷ es) ++ w)
unfolding restore_from
restore_from_cons failure d ds es ps w =
    ap (λ x. restore_from (working ds) x.0 x.1) (restore_one-logging failure d ps (undone es ++ w))
    ∙ ap (restore_from (working ds) (ps ++ troubles (d ∷ []))) (undone_cons d es w)

restore_from-working :
    (ds es : List Subsystem) (ps : List Text) (w : Log)
    → restore_from (working ds) ps (undone es ++ w)
      ≡ (ps ++ troubles ds, undone (reverse_aux ds es) ++ w)
unfolding restore_from
restore_from-working [] es ps w = rw append-nil refl
restore_from-working (d ∷ ds) es ps w =
    restore_from_cons none d ds es ps w
    ∙ restore_from-working ds (d ∷ es) (ps ++ troubles (d ∷ [])) w
    ∙ ap (λ l. (l, undone (reverse_aux ds (d ∷ es)) ++ w))
        (append_assoc ps (troubles (d ∷ [])) (troubles ds) ∙ ap (λ l. ps ++ l) (troubles_cons d ds))

remember_all-working :
    (ns : List Subsystem) (es : List Subsystem) (w : Log)
    → remember_all (plan_of (working ns)) (noted es ++ w) ≡ noted (reverse_aux ns es) ++ w
unfolding remember_all plan_of
remember_all-working [] es w = refl
remember_all-working (n ∷ ns) es w = remember_all-working ns (n ∷ es) w

restored :
    (failure : Text) (bad : Subsystem) (ds : List Subsystem) (w : Log)
    → restore_from (logging (some failure) bad ∷ working ds) [] w
      ≡ (troubles (bad ∷ ds), undone (reverse_aux ds (bad ∷ [])) ++ w)
restored failure bad ds w =
    restore_from_cons (some failure) bad ds [] [] w
    ∙ restore_from-working ds (bad ∷ []) (troubles (bad ∷ [])) w
    ∙ ap (λ l. (l, undone (reverse_aux ds (bad ∷ [])) ++ w)) (troubles_cons bad ds)

abbrev failed_by : Text → Text → List Text → Result CommitError (Unit {0})
failed_by bad failure ts = elim (if is_nil ts then ok tt else err (join ts)) [
  | ok _ ↦ err (applied bad failure)
  | err problems ↦ err (unrecovered bad failure problems)
]

failed_with :
    (bad failure : Text) (ts : List Text)
    → failed_by bad failure ts ≡ err (failure_of bad failure ts)
failed_with bad failure [] = refl
failed_with bad failure (t ∷ ts) = refl

fail_apply-working :
    (failure : Text) (bad : Subsystem) (ds : List Subsystem) (w : Log)
    → fail_apply (logging (some failure) bad) failure (logging (some failure) bad ∷ working ds) w
      ≡ (
        err (failure_of bad.name failure (troubles (bad ∷ ds))),
        undone (reverse_aux ds (bad ∷ [])) ++ w,
      )
unfolding fail_apply restore restore_from restore_one
fail_apply-working failure bad ds w = rw (restored failure bad ds w) (
    ap (λ r. (r, undone (reverse_aux ds (bad ∷ [])) ++ w))
      (failed_with bad.name failure (troubles (bad ∷ ds))))

reverse_twice : (ns es : List Subsystem) → reverse_aux (reverse ns) es ≡ ns ++ es
reverse_twice ns es = reverse_aux-eq (reverse ns) es ∙ rw reverse-reverse

module _ (ns later : List Subsystem) (failure : Text) (bad : Subsystem) (c : ConfigTree)
    (w : Log) where
  -- Of subsystems that log what they are asked, of which each may have applied something before or
  -- not, and may be put back or not: where those before one work and that one cannot apply, none
  -- after it is touched; it and those before it that had applied something before are put back,
  -- the last one first; nothing is remembered; and the failure names it, with what those said that
  -- could not be put back, where there are any.
  pub apply_trace-failed : apply (working ns ++ logging (some failure) bad ∷ working later) c w ≡ (
    err (failure_of bad.name failure (troubles (bad ∷ reverse ns))),
    undone (ns ++ bad ∷ []) ++ (applied_to bad.name next ∷ (calls (reverse ns) ++ w)),
  )
  unfolding apply_all apply_one plan_of
  apply_trace-failed =
      let rs = logging (some failure) bad ∷ working later in
      let logged = calls (reverse ns) ++ w in
      apply-eq-apply_plan (working ns ++ rs) c w _ (prepare-failing ns later failure bad c)
      ∙ apply_plan-eq-err _ w _ _ (
          apply_all-working ns [] rs w
          ∙ fail_apply-working failure bad (reverse ns) (applied_to bad.name next ∷ logged))
      ∙ rw reverse_twice

-- Of subsystems that log what they are asked and work, each is applied in order, and only then is
-- each one remembered, in the same order.
pub apply_trace-done :
    (ns : List Subsystem) (c : ConfigTree) (w : Log)
    → apply (working ns) c w ≡ (ok tt, noted (reverse ns) ++ (calls (reverse ns) ++ w))
unfolding apply_all plan_of
apply_trace-done ns c w =
    apply-eq-apply_plan (working ns) c w _ (prepare-working ns c)
    ∙ apply_plan-eq-ok _ w _ (rw working_nil at (apply_all-working ns [] [] w))
    ∙ ap (λ (l : Log). (ok tt, l)) (remember_all-working ns [] (calls (reverse ns) ++ w))
