-- ===== src/Configd/Lifecycle/Confirming.antt =====
-- src/nightshade-configd/src/state.rs: how the window of a commit ends, by its confirmation, by its
-- rollback, and over a restart.
use nightshade.Shared.{◌+◌, List, none, some, ◌≡◌, arith, if◌then◌else◌}
use nightshade.Shared.Text.{Text}
use nightshade.Shared.Assoc.{lookup}
use nightshade.Shared.Result.{ok, err}
use nightshade.Configd.Commit
use nightshade.Configd.Commit.{SchemaOps, Renderer, CommitError, order}
use nightshade.Schema.Diff.{diff}
use nightshade.Configd.Model.{Actor, Session, Pending, Configd, Env, absent, committed}
use nightshade.Configd.Sessions.Ownership.{with_session-eq}
use nightshade.Configd.Steps.{record_revision, disarm}
use nightshade.Configd.Lifecycle.{confirm, confirm_owned, roll_back}

module _ {W A : Type 0} (schema : SchemaOps) (rs : List (Renderer W A)) where
  pub roll_back-eq-ok :
      (env : Env) (d : Configd W) (p : Pending) (machine : W)
      → d.state.pending ≡ some p
      → Commit.apply rs p.previous d.machine ≡ (ok tt, machine)
      → ((roll_back schema rs env d).state ≡ record d.state {
        running = p.previous;
        generation = d.state.generation + 1;
        pending = none;
        timer = none;
      })
        × ((roll_back schema rs env d).machine ≡ machine)
        × ((roll_back schema rs env d).disk.archive ≡ d.disk.archive)
  unfolding roll_back
  roll_back-eq-ok env d p machine waits works =
      (ground (arith, waits, works), ground (arith, waits, works), ground (arith, waits, works))

  -- A rollback that a subsystem refuses leaves what was committed running and ends the window.
  pub roll_back-eq-err :
      (env : Env) (d : Configd W) (p : Pending) (e : CommitError) (machine : W)
      → d.state.pending ≡ some p
      → Commit.apply rs p.previous d.machine ≡ (err e, machine)
      → (roll_back schema rs env d).state ≡ record d.state { pending = none; timer = none }
  unfolding roll_back
  roll_back-eq-err env d p e machine waits fails = ground (arith, waits, fails)

  pub roll_back-eq-none :
      (env : Env) (d : Configd W) → d.state.pending ≡ none → roll_back schema rs env d ≡ d
  unfolding roll_back
  roll_back-eq-none env d idle = ground (arith, idle)

  pub confirm-eq :
      (env : Env) (id : Text) (actor : Actor) (d : Configd W) (s : Session) (p : Pending)
      → lookup id d.state.sessions ≡ some s
      → s.uid ≡ actor.uid
      → d.state.pending ≡ some p
      → let e = confirm schema rs env id actor d in
        (e.0.state ≡ record d.state { pending = none; timer = none })
        × (e.0.machine ≡ d.machine)
        × (e.0.disk.marker ≡ (if env.disarms_marker then absent else d.disk.marker))
        × (e.1 ≡ committed p.generation (order schema (diff p.previous p.committed)) none)
  unfolding confirm confirm_owned record_revision disarm
  confirm-eq env id actor d s p found own waits =
      let eq = with_session-eq id actor (confirm_owned schema rs env actor) d s found own in
      (
        rw eq (ground (arith, waits)),
        rw eq (ground (arith, waits)),
        rw eq (ground (arith, waits)),
        rw eq (ground (arith, waits)),
      )
