-- ===== src/Configd/System/Validity.antt =====
-- The daemon keeps to the schema: every configuration it holds validates, between any two steps.
use nightshade.Shared.{
  ℕ, ◌+◌, List, [], Option, none, some, ◌≡◌, arith, Option-cases, inl, inr, Bool-cases,
}
use nightshade.Shared.Text.{Text}
use nightshade.Shared.Result.{Result-cases}
use nightshade.Schema.Config.{ConfigTree}
use nightshade.Schema.Diff.{Change, diff}
use nightshade.Configd.Commit
use nightshade.Configd.Commit.{SchemaOps, Renderer}
use nightshade.Configd.Model.{Actor, Configd, Env, Request}
use nightshade.Configd.Sessions
use nightshade.Configd.Sessions.Ownership.{with_session-keeps}
use nightshade.Configd.Steps.Effects.{
  last_config-trim, promote-state, record_revision-state, disarm-state,
}
use nightshade.Configd.Steps.{await_confirmation, promote, level_session}
use nightshade.Configd.Committing
use nightshade.Configd.Lifecycle
use nightshade.Configd.System.{
  handle, commit_log, shell_session, Step, handled, woken, Reach, here, next,
}
use nightshade.Configd.System.Valid.{
  KeepsValid, AllValid, Valid, open_session-Valid, close-Valid, discard-Valid, edit-Valid,
  load-Valid, level_session-Valid,
}

module _ {W A : Type 0} (schema : SchemaOps) (rs : List (Renderer W A)) where
  promote-Valid :
      (env : Env) (c : ConfigTree) (d : Configd W)
      → schema.validate_tree c ≡ []
      → Valid schema d
      → Valid schema (promote env c d)
  promote-Valid env c d good h = rw (promote-state env c d) (record {
    runs = good;
    candidates = h.candidates;
    window = h.window;
    past =
        ground (arith, h.runs, last_config-trim d.state.history d.state.generation d.state.running);
  })

  finish_commit-Valid :
      (env : Env) (id : Text) (actor : Actor) (comment : Option Text) (minutes : Option ℕ) (was : ℕ)
      (changes : List Change) (d : Configd W)
      → Valid schema d
      → Valid schema
          (Committing.finish_commit schema rs env id actor comment minutes was changes d).0
  unfolding Committing.finish_commit await_confirmation
  finish_commit-Valid env id actor comment none was changes d h =
      rw
        (record_revision-state schema env d.state.running actor comment d.state.generation changes
          d)
        h
  finish_commit-Valid env id actor comment (some minutes) was changes d h =
      elim (Bool-cases env.arms_marker) [
        | inl y ↦
            rw (y, await_confirmation)
              (record {
                runs = h.runs;
                candidates = h.candidates;
                window = λ p e. ground (arith, h.past);
                past = h.past;
              })
        | inr n ↦ rw (n, await_confirmation) h
      ]

  apply_commit-Valid :
      (env : Env) (id : Text) (actor : Actor) (comment : Option Text) (minutes : Option ℕ)
      (c : ConfigTree) (changes : List Change) (d : Configd W)
      → schema.validate_tree c ≡ []
      → Valid schema d
      → Valid schema (Committing.apply_commit schema rs env id actor comment minutes c changes d).0
  unfolding Committing.apply_commit
  apply_commit-Valid env id actor comment minutes c changes d good h =
      let d' = record d { machine = (Commit.apply rs c d.machine).1 } in
      elim (Result-cases (Commit.apply rs c d.machine).0) [
        | inl (_, fine) ↦
            rw (fine, Committing.apply_commit)
              (finish_commit-Valid env id actor comment minutes d.state.generation changes
                (level_session env id (promote env c d'))
                (level_session-Valid schema env id (promote env c d')
                  (promote-Valid env c d' good h)))
        | inr (e, bad) ↦ rw (bad, Committing.apply_commit) h
      ]

  commit-Valid :
      (env : Env) (id : Text) (actor : Actor) (comment : Option Text) (minutes : Option ℕ)
      (d : Configd W)
      → Valid schema d
      → Valid schema (Committing.commit schema rs env id actor comment minutes d).0
  unfolding Committing.commit Committing.commit_session
  commit-Valid env id actor comment minutes d h =
      with_session-keeps (Valid schema) id actor
        (Committing.commit_owned schema rs env id actor comment minutes) d h
        λ s found own. elim (Option-cases d.state.pending) [
          | inl idle ↦
              rw (idle, Committing.commit_owned)
                (ground (
                  arith,
                  h,
                  apply_commit-Valid env id actor comment minutes s.candidate
                      (Commit.order schema (diff d.state.running s.candidate)) d
                      (h.candidates id s found) h,
                ))
          | inr (p, waits) ↦ rw (waits, Committing.commit_owned) h
        ]

  settled-Valid :
      (d : Configd W)
      → Valid schema d
      → AllValid schema (record d.state { pending = none; timer = none })
  settled-Valid d h = record {
    runs = h.runs;
    candidates = h.candidates;
    window = λ p e. ground arith;
    past = h.past;
  }

  confirm-Valid :
      (env : Env) (id : Text) (actor : Actor) (d : Configd W)
      → Valid schema d
      → Valid schema (Lifecycle.confirm schema rs env id actor d).0
  unfolding Lifecycle.confirm
  confirm-Valid env id actor d h =
      with_session-keeps (Valid schema) id actor (Lifecycle.confirm_owned schema rs env actor) d h
        λ s found own. elim (Option-cases d.state.pending) [
          | inl idle ↦ rw (idle, Lifecycle.confirm_owned) h
          | inr (p, waits) ↦
              rw (waits, Lifecycle.confirm_owned, record_revision-state, disarm-state)
                (settled-Valid d h)
        ]

  rolled-Valid :
      (c : ConfigTree) (d : Configd W)
      → schema.validate_tree c ≡ []
      → Valid schema d
      → AllValid schema (record d.state {
        running = c;
        generation = d.state.generation + 1;
        pending = none;
        timer = none;
      })
  rolled-Valid c d good h = record {
    runs = good;
    candidates = h.candidates;
    window = λ p e. ground arith;
    past = h.past;
  }

  roll_back-Valid :
      (env : Env) (d : Configd W)
      → Valid schema d
      → Valid schema (Lifecycle.roll_back schema rs env d)
  unfolding Lifecycle.roll_back
  roll_back-Valid env d h = elim (Option-cases d.state.pending) [
    | inl idle ↦ rw (idle, Lifecycle.roll_back) h
    | inr (p, waits) ↦ elim (Result-cases (Commit.apply rs p.previous d.machine).0) [
      | inl (_, good) ↦ ground (arith, waits, good, rolled-Valid p.previous d (h.window p waits) h)
      | inr (e, bad) ↦ ground (arith, waits, bad, settled-Valid d h)
    ]
  ]

  module _ (keeps : KeepsValid schema) where
    handle-Valid :
        (env : Env) (r : Request) (actor : Actor) (d : Configd W)
        → Valid schema d
        → Valid schema (handle schema rs env r actor d).0
    unfolding handle Sessions.show_candidate Sessions.show_running Sessions.show_saved
        Sessions.show_owned Sessions.compare Sessions.compare_owned Sessions.save commit_log
        shell_session Sessions.set Sessions.delete
    handle-Valid env Request.session_open actor d h = open_session-Valid schema env actor d h
    handle-Valid env (Request.session_close id) actor d h = close-Valid schema env id actor d h
    handle-Valid env (Request.set id path value) actor d h =
        edit-Valid schema (λ t. schema.apply_set t path value) env id actor d
          (λ t u. keeps.sets t u path value) h
    handle-Valid env (Request.delete id path value) actor d h =
        edit-Valid schema (λ t. schema.apply_delete t path value) env id actor d
          (λ t u. keeps.deletes t u path value) h
    handle-Valid env (Request.show_candidate id path) actor d h =
        with_session-keeps (Valid schema) id actor (Sessions.show_owned path) d h λ s found own. h
    handle-Valid env (Request.show_running path) actor d h = h
    handle-Valid env (Request.show_saved path) actor d h = ground (arith, h)
    handle-Valid env (Request.compare id) actor d h =
        with_session-keeps (Valid schema) id actor Sessions.compare_owned d h λ s found own. h
    handle-Valid env (Request.discard id) actor d h = discard-Valid schema env id actor d h
    handle-Valid env (Request.commit id comment minutes) actor d h =
        commit-Valid env id actor comment minutes d h
    handle-Valid env (Request.confirm id) actor d h = confirm-Valid env id actor d h
    handle-Valid env Request.save actor d h = ground (arith, h)
    handle-Valid env (Request.load id source) actor d h = load-Valid schema env id actor source d h
    handle-Valid env Request.commit_log actor d h = ground (arith, h)
    handle-Valid env (Request.shell_session entering) actor d h = h

    Step-Valid : {d e : Configd W} → Step schema rs d e → Valid schema d → Valid schema e
    Step-Valid (handled {d} env r actor eq) h = rw eq at (handle-Valid env r actor d h)
    Step-Valid (woken {d} env n armed eq) h = rw eq at (roll_back-Valid env d h)

    pub Reach-Valid : (d e : Configd W) → Reach schema rs d e → Valid schema d → Valid schema e
    Reach-Valid d _ here h = h
    Reach-Valid d e (next path step) h = Step-Valid step (Reach-Valid d _ path h)
