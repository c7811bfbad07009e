-- ===== src/Tests/Pipeline.antt =====
-- Examples of the commit pipeline and of the archive.
use mathlib.Core.List.{Perm}
use nightshade.Shared.{
  List, [], ◌∷◌, ◌++◌, true, false, some, ◌≡◌, ◌≤◌, ◌<◌, refl, arith, if◌then◌else◌, none, All,
  length,
}
use nightshade.Shared.Text.{Text, codes}
use nightshade.Shared.Result.{ok, err}
use nightshade.Shared.Sort.{IsChain}
use nightshade.Schema.Config.{ConfigTree}
use nightshade.Schema.Diff.{path_eq, Change, added, removed}
use nightshade.Configd.Archive.{write, read, keep, Archive, no_such_revision}
use nightshade.Configd.Archive.Prune.{length-write, read-write, read-write_lost}
use nightshade.Configd.Commit
use nightshade.Schema.Path.{ConfigPath}
use nightshade.Configd.Commit.Priority.{one_step, priority-one_step}
use nightshade.Configd.Commit.{SchemaOps, Renderer, unrendered, unrecovered, applied}
use nightshade.Configd.Commit.Effects.{apply_early, apply-marks}
use nightshade.Configd.Commit.Order.{CommitsUpTo, order_lem}
use nightshade.Configd.Commit.Trace.{apply_trace-failed, apply_trace-done}
use nightshade.Configd.Commit.Logging.{
  Subsystem, Log, Target, working, logging, plain, applied_to, remembered, next, before,
}
use nightshade.Tests.{schema, named, host_path, revision, revisions}

abbrev r2 : ConfigTree
r2 = named (codes "r2")

abbrev unable : Renderer Log Target
unable = record (logging none (plain (codes "host"))) { render = λ _. err (codes "no") }

abbrev unable_all : List (Renderer Log Target)
unable_all = working (plain (codes "net") ∷ []) ++ unable ∷ []

unable_answer : (Commit.apply unable_all r2 []).0 ≡ err (unrendered (codes "host") (codes "no"))
unfolding Commit.apply Commit.prepare Commit.render_all
unable_answer = refl

apply_early_example : (Commit.apply unable_all r2 []).1 ≡ []
apply_early_example =
    apply_early unable_all r2 [] (unrendered (codes "host") (codes "no")) unable_answer refl

-- The names of the subsystems that remembered a commit.
abbrev remembered_names : Log → List Text
remembered_names [] = []
remembered_names (applied_to n a ∷ l) = remembered_names l
remembered_names (remembered n a ∷ l) = n ∷ remembered_names l

abbrev broken : List (Renderer Log Target)
broken =
    working (plain (codes "net") ∷ []) ++ logging (some (codes "no")) (plain (codes "host")) ∷ []

abbrev earlier : Log
earlier = remembered (codes "net") next ∷ []

broken_answer : (Commit.apply broken r2 earlier).0 ≡ err (applied (codes "host") (codes "no"))
unfolding Commit.apply Commit.prepare Commit.render_all Commit.check_all Commit.apply_plan
    Commit.apply_all Commit.apply_one Commit.fail_apply Commit.restore Commit.restore_from
    Commit.restore_one
broken_answer = refl

apply-marks_example : remembered_names (Commit.apply broken r2 earlier).1 ≡ codes "net" ∷ []
apply-marks_example =
    apply-marks remembered_names broken r2 earlier (applied (codes "host") (codes "no"))
      ((λ a w. refl), ((λ a w. refl), tt)) broken_answer

-- One that has never applied anything, and one that cannot be put back.
abbrev unused : Subsystem
unused = record { name = codes "a"; fresh = true; stuck = none }

abbrev jammed : Subsystem
jammed = record { name = codes "b"; fresh = false; stuck = some (codes "jam") }

apply_trace-failed_example :
    Commit.apply
      (working (unused ∷ jammed ∷ [])
        ++ logging (some (codes "no")) (plain (codes "c")) ∷ working (plain (codes "d") ∷ []))
      r2
      []
    ≡ (
      err (unrecovered (codes "c") (codes "no") (codes "b: jam")),
      applied_to (codes "b") before
          ∷ applied_to (codes "c") before
          ∷ applied_to (codes "c") next
          ∷ applied_to (codes "b") next
          ∷ applied_to (codes "a") next
          ∷ [],
    )
unfolding Commit.join
apply_trace-failed_example =
    apply_trace-failed (unused ∷ jammed ∷ []) (plain (codes "d") ∷ []) (codes "no")
      (plain (codes "c")) r2 []

apply_trace-done_example :
    Commit.apply (working (plain (codes "a") ∷ plain (codes "b") ∷ [])) r2 [] ≡ (
      ok tt,
      remembered (codes "b") next
          ∷ remembered (codes "a") next
          ∷ applied_to (codes "b") next
          ∷ applied_to (codes "a") next
          ∷ [],
    )
apply_trace-done_example = apply_trace-done (plain (codes "a") ∷ plain (codes "b") ∷ []) r2 []

abbrev host_added : Change
host_added = record { op = added; path = host_path; value = some (codes "r2") }

abbrev host_removed : Change
host_removed = record { op = removed; path = host_path; value = some (codes "r1") }

abbrev two_changes : List Change
two_changes = host_added ∷ host_removed ∷ []

order_lem_example :
    Perm (Commit.order schema two_changes) two_changes
    × IsChain (CommitsUpTo schema) (Commit.order schema two_changes)
order_lem_example = order_lem schema two_changes

abbrev fifty : Archive
fifty = revisions 50 10

length-write_example : length (write schema (revision 60).info r2 fifty) ≤ keep
length-write_example = length-write schema (revision 60).info r2 fifty

abbrev r1 : ConfigTree
r1 = named (codes "r1")

read-write_example : read schema 12 (write schema (revision 12).info r1 (revisions 2 10)) ≡ ok r1
read-write_example =
    read-write schema (revision 12).info r1 (revisions 2 10) (omega arith, (omega arith, tt)) refl

newer : All (λ s. 1 < s.info.revision) fifty
newer = ground arith

read-write_lost_example :
    read schema 1 (write schema (revision 1).info r2 fifty) ≡ err (no_such_revision 1)
read-write_lost_example = read-write_lost schema (revision 1).info r2 fifty newer (omega arith)

-- A schema that knows the node of the host name alone.
abbrev sparse : SchemaOps
sparse = record schema { priority_at = λ p. if path_eq p host_path then some 7 else none }

abbrev under_host : ConfigPath
under_host = codes "host" ∷ codes "name" ∷ []

priority-one_step_example :
    Commit.priority sparse under_host ≡ one_step sparse (Commit.priority sparse) under_host
priority-one_step_example = priority-one_step sparse under_host
