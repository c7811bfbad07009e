-- ===== src/Configd/Committing.antt =====
-- src/nightshade-configd/src/state.rs: `commit`.
pub mod Outcome
pub mod Landing
use nightshade.Shared.{
  ℕ, zero, suc, ◌+◌, ◌-◌, ◌*◌, List, [], ◌∷◌, ◌++◌, Bool, true, false, not, ◌||◌, Option, none,
  some, if◌then◌else◌, ◌==◌, ltb, is_nil, length,
}
use nightshade.Shared.Text.{Text}
use nightshade.Shared.Assoc.{lookup, insert}
use nightshade.Shared.Result.{Result, ok, err}
use nightshade.Schema.Config
use nightshade.Schema.Config.{ConfigTree, new}
use nightshade.Schema.Diff.{Change, diff}
use nightshade.Configd.Commit
use nightshade.Schema.Validate.{Violation}
use nightshade.Configd.Commit.{
  SchemaOps, Renderer, CommitError, invalid, unrendered, unchecked, applied, unrecovered,
}
use nightshade.Configd.Archive
use nightshade.Configd.Model.{
  Actor, Session, Pending, State, Disk, Configd, Env, MarkerFile, Response, done, committed, failed,
  FailureKind, conflict, validation, internal, request, still_pending, has_changed, not_valid,
  not_applied, marker_not_armed, nothing_pending, io_failed, absent, damaged, holds,
}
use nightshade.Configd.Sessions.{with_session}
use nightshade.Configd.Steps.{
  config_of, remaining, record_revision, promote, level_session, await_confirmation,
}

-- The refusal to a session that running has moved away from, with what moved if it is known.
unfoldable pub changed_underneath : State → ℕ → ConfigTree → Response
unfolding config_of
changed_underneath state base candidate = failed conflict (
    has_changed base state.generation
      (elim (config_of base state.history) [
        | none ↦ none
        | some was ↦ some (diff was state.running)
      ])
      (diff state.running candidate))

-- What a failure of the pipeline counts as.
unfoldable pub kind_of : CommitError → FailureKind
kind_of (invalid vs) = validation
kind_of (unchecked n m) = validation
kind_of _ = internal

unfoldable pub violations_of : CommitError → List Violation
violations_of (invalid vs) = vs
violations_of _ = []

module _ {W A : Type 0} (schema : SchemaOps) (renderers : List (Renderer W A)) where
  unfoldable pub finish_commit :
      Env
      → Text
      → Actor
      → Option Text
      → Option ℕ
      → ℕ
      → List Change
      → Configd W
      → Configd W × Response
  unfolding record_revision await_confirmation
  finish_commit env id actor comment none was changes d = (
    record_revision schema env d.state.running actor comment d.state.generation changes d,
    committed d.state.generation changes none,
  )
  finish_commit env id actor comment (some minutes) was changes d =
      await_confirmation env id actor comment minutes was changes d

  -- Steps 6 to 10, with changes to make.
  unfoldable pub apply_commit :
      Env
      → Text
      → Actor
      → Option Text
      → Option ℕ
      → ConfigTree
      → List Change
      → Configd W
      → Configd W × Response
  unfolding promote level_session finish_commit kind_of
  apply_commit env id actor comment confirm_minutes candidate changes d =
      let (result, machine) = Commit.apply renderers candidate d.machine in
      elim result [
        | err e ↦ (record d { machine = machine }, failed (kind_of e) (not_applied e))
        | ok _ ↦
            let applied_d = promote env candidate (record d { machine = machine }) in
            finish_commit env id actor comment confirm_minutes d.state.generation changes
              (level_session env id applied_d)
      ]

  unfoldable pub commit_session :
      Env → Text → Actor → Option Text → Option ℕ → Session → Configd W → Configd W × Response
  unfolding Commit.validate changed_underneath violations_of apply_commit
  commit_session env id actor comment confirm_minutes s d =
      if not (s.base_generation == d.state.generation)
      then (d, changed_underneath d.state s.base_generation s.candidate)
      else elim (Commit.validate schema s.candidate) [
        | err e ↦ (d, failed validation (not_valid (violations_of e)))
        | ok _ ↦
            let changes = Commit.order schema (diff d.state.running s.candidate) in
            if is_nil changes
            then (d, committed d.state.generation changes none)
            else apply_commit env id actor comment confirm_minutes s.candidate changes d
      ]

  unfoldable pub commit_owned :
      Env → Text → Actor → Option Text → Option ℕ → Session → Configd W → Configd W × Response
  unfolding commit_session
  commit_owned env id actor comment confirm_minutes s d = elim d.state.pending [
    | some p ↦ (d, failed conflict (still_pending p.actor p.minutes (remaining env.now p)))
    | none ↦ commit_session env id actor comment confirm_minutes s d
  ]

  unfoldable pub commit :
      Env → Text → Actor → Option Text → Option ℕ → Configd W → Configd W × Response
  unfolding with_session commit_owned
  commit env id actor comment confirm_minutes =
      with_session id actor (commit_owned env id actor comment confirm_minutes)
