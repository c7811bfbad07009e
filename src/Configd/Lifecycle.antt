-- ===== src/Configd/Lifecycle.antt =====
-- src/nightshade-configd/src/state.rs: confirming, rolling back, and starting up.
pub mod Confirming
use nightshade.Shared.{
  ℕ, zero, suc, ◌+◌, ◌-◌, ◌*◌, List, [], ◌∷◌, ◌++◌, Bool, true, false, not, ◌||◌, Option, none,
  some, if◌then◌else◌, ◌==◌, ltb, is_nil, length,
}
use nightshade.Shared.Text.{Text}
use nightshade.Shared.Assoc.{lookup, insert}
use nightshade.Shared.Result.{Result, ok, err}
use nightshade.Schema.Config
use nightshade.Schema.Config.{ConfigTree, new}
use nightshade.Schema.Diff.{Change, diff}
use nightshade.Configd.Commit
use nightshade.Configd.Commit.{
  SchemaOps, Renderer, CommitError, invalid, unrendered, unchecked, applied, unrecovered,
}
use nightshade.Configd.Archive
use nightshade.Configd.Model.{
  Actor, Session, Pending, State, Disk, Configd, Env, MarkerFile, Response, done, committed, failed,
  FailureKind, conflict, validation, internal, request, still_pending, has_changed, not_valid,
  not_applied, marker_not_armed, nothing_pending, io_failed, absent, damaged, holds,
}
use nightshade.Configd.Sessions.{with_session}
use nightshade.Configd.Steps.{remaining, expired, save_running, record_revision, disarm}

module _ {W A : Type 0} (schema : SchemaOps) (renderers : List (Renderer W A)) where
  unfoldable pub confirm_owned : Env → Actor → Session → Configd W → Configd W × Response
  unfolding disarm record_revision
  confirm_owned env actor s d = elim d.state.pending [
    | none ↦ (d, failed request nothing_pending)
    | some p ↦
        let changes = Commit.order schema (diff p.previous p.committed) in
        let kept = record d { state = record d.state { pending = none; timer = none } } in
        (
          record_revision schema env p.committed actor p.comment p.generation changes
              (disarm env kept),
          committed p.generation changes none,
        )
  ]

  unfoldable pub confirm : Env → Text → Actor → Configd W → Configd W × Response
  unfolding with_session confirm_owned
  confirm env id actor = with_session id actor (confirm_owned env actor)

  -- What the rollback task does when its time has come.
  unfoldable pub roll_back : Env → Configd W → Configd W
  unfolding disarm save_running
  roll_back env d = elim d.state.pending [
    | none ↦ d
    | some p ↦
        let (result, machine) = Commit.apply renderers p.previous d.machine in
        let taken = record d {
          state = record d.state { pending = none; timer = none };
          machine = machine;
        } in
        disarm env (elim result [
          | err e ↦ taken
          | ok _ ↦ save_running env (record taken {
            state = record taken.state {
              running = p.previous;
              generation = taken.state.generation + 1;
            };
          })
        ])
  ]

  -- The daemon as it starts, over the files and the machine that it finds. A file of `running` that
  -- is not there or cannot be read is as though nothing were applied.
  unfoldable pub start : Disk → W → Configd W
  start disk machine = record {
    state = record {
      running = elim disk.running_file [ none ↦ new | some (g, c) ↦ c ];
      generation = elim disk.running_file [ none ↦ 0 | some (g, c) ↦ g ];
      history = [];
      sessions = disk.session_files;
      pending = none;
      timer = none;
    };
    disk = disk;
    machine = machine;
  }

  -- A commit that was in flight is rolled back at once if its deadline has passed, and has its timer
  -- armed for what is left of its window if not.
  unfoldable pub resume : Env → Configd W → Configd W
  unfolding roll_back expired
  resume env d = elim d.disk.marker [
    | absent ↦ d
    | damaged ↦ d
    | holds p ↦
        if expired env.now p
        then roll_back env (record d { state = record d.state { pending = some p } })
        else record d {
          state = record d.state { pending = some p; timer = some (remaining env.now_again p) };
        }
  ]

  unfoldable pub recovered_generation : Configd W → Option ℕ
  recovered_generation d =
      if ltb 0 d.state.generation || not (Config.is_empty d.state.running)
      then some d.state.generation
      else none

  -- Takes a configuration that the boot path has applied as running.
  unfoldable pub adopt : Env → ConfigTree → Configd W → Configd W
  unfolding save_running
  adopt env config d = save_running env (record d {
    state = record d.state { running = config; generation = d.state.generation + 1 };
  })
