-- ===== src/Configd/System/Coherence.antt =====
-- What is true of the daemon's state between any two steps.
use nightshade.Shared.{
  ℕ, ◌+◌, List, [], ◌∷◌, ◌++◌, Option, none, some, ◌≡◌, refl, arith, Option-cases, inl, inr,
  Bool-cases,
}
use nightshade.Shared.Text.{Text}
use nightshade.Schema.Config.{ConfigTree}
use nightshade.Schema.Diff.{Change, diff}
use nightshade.Configd.Commit
use nightshade.Configd.Commit.{SchemaOps, Renderer}
use nightshade.Shared.Result.{Result-cases}
use nightshade.Configd.Model.{Actor, Session, Configd, Env, Request}
use nightshade.Configd.Sessions
use nightshade.Configd.Sessions.{with_session, put_session, update_session, source_config}
use nightshade.Configd.Sessions.Ownership.{with_session-keeps}
use nightshade.Configd.Steps.Effects.{
  length-trim, promote-state, record_revision-state, disarm-state,
}
use nightshade.Configd.Steps.{await_confirmation, promote, level_session}
use nightshade.Configd.Committing
use nightshade.Configd.Lifecycle
use nightshade.Configd.System.{
  handle, commit_log, shell_session, Step, handled, woken, Reach, here, next,
}
use nightshade.Configd.System.Coherent.{
  Coherent, open_session-Coherent, close-Coherent, discard-Coherent, set-Coherent, delete-Coherent,
  load-Coherent, level_session-Coherent, IsCoherent,
}

module _ {W : Type 0} where
  promote-Coherent :
      (env : Env) (c : ConfigTree) (d : Configd W)
      → d.state.pending ≡ none
      → Coherent d
      → Coherent (promote env c d)
  promote-Coherent env c d idle h = rw (promote-state env c d) (record {
    bases = λ id x e. ground (arith, h.bases id x);
    window = λ p e. ground (arith, idle);
    idle = h.idle;
    recent = length-trim (d.state.history ++ (d.state.generation, d.state.running) ∷ []);
  })

  await_confirmation-Coherent :
      (env : Env) (id : Text) (actor : Actor) (comment : Option Text) (minutes was : ℕ)
      (changes : List Change) (d : Configd W)
      → Coherent d
      → Coherent (await_confirmation env id actor comment minutes was changes d).0
  unfolding await_confirmation
  await_confirmation-Coherent env id actor comment minutes was changes d h =
      elim (Bool-cases env.arms_marker) [
        | inl y ↦
            rw (y, await_confirmation)
              (record {
                bases = h.bases;
                window = λ p e. ground arith;
                idle = λ e. ground arith;
                recent = h.recent;
              })
        | inr n ↦ rw (n, await_confirmation) h
      ]

  -- Putting an end to a window, whatever is then done with the files.
  settled-Coherent :
      (d : Configd W) → Coherent d → IsCoherent (record d.state { pending = none; timer = none })
  settled-Coherent d h = record {
    bases = h.bases;
    window = λ p e. ground arith;
    idle = λ e. refl;
    recent = h.recent;
  }

module _ {W A : Type 0} (schema : SchemaOps) (rs : List (Renderer W A)) where
  finish_commit-Coherent :
      (env : Env) (id : Text) (actor : Actor) (comment : Option Text) (minutes : Option ℕ) (was : ℕ)
      (changes : List Change) (d : Configd W)
      → Coherent d
      → Coherent (Committing.finish_commit schema rs env id actor comment minutes was changes d).0
  unfolding Committing.finish_commit
  finish_commit-Coherent env id actor comment none was changes d h =
      rw
        (record_revision-state schema env d.state.running actor comment d.state.generation changes
          d)
        h
  finish_commit-Coherent env id actor comment (some minutes) was changes d h =
      await_confirmation-Coherent env id actor comment minutes was changes d h

  apply_commit-Coherent :
      (env : Env) (id : Text) (actor : Actor) (comment : Option Text) (minutes : Option ℕ)
      (c : ConfigTree) (changes : List Change) (d : Configd W)
      → d.state.pending ≡ none
      → Coherent d
      → Coherent (Committing.apply_commit schema rs env id actor comment minutes c changes d).0
  unfolding Committing.apply_commit
  apply_commit-Coherent env id actor comment minutes c changes d idle h =
      let machine = (Commit.apply rs c d.machine).1 in
      elim (Result-cases (Commit.apply rs c d.machine).0) [
        | inl (_, good) ↦
            rw (good, Committing.apply_commit)
              (finish_commit-Coherent env id actor comment minutes d.state.generation changes
                (level_session env id (promote env c (record d { machine = machine })))
                (level_session-Coherent env id (promote env c (record d { machine = machine }))
                  (promote-Coherent env c (record d { machine = machine }) idle h)))
        | inr (e, bad) ↦ rw (bad, Committing.apply_commit) h
      ]

  commit_session-Coherent :
      (env : Env) (id : Text) (actor : Actor) (comment : Option Text) (minutes : Option ℕ)
      (s : Session) (d : Configd W)
      → d.state.pending ≡ none
      → Coherent d
      → Coherent (Committing.commit_session schema rs env id actor comment minutes s d).0
  unfolding Committing.commit_session
  commit_session-Coherent env id actor comment minutes s d idle h = ground (
    arith,
    h,
    apply_commit-Coherent env id actor comment minutes s.candidate
        (Commit.order schema (diff d.state.running s.candidate)) d idle h,
  )

  commit-Coherent :
      (env : Env) (id : Text) (actor : Actor) (comment : Option Text) (minutes : Option ℕ)
      (d : Configd W)
      → Coherent d
      → Coherent (Committing.commit schema rs env id actor comment minutes d).0
  unfolding Committing.commit
  commit-Coherent env id actor comment minutes d h =
      with_session-keeps Coherent id actor
        (Committing.commit_owned schema rs env id actor comment minutes) d h
        λ s found own. elim (Option-cases d.state.pending) [
          | inl idle ↦
              rw (idle, Committing.commit_owned)
                (commit_session-Coherent env id actor comment minutes s d idle h)
          | inr (p, waits) ↦ rw (waits, Committing.commit_owned) h
        ]

  confirm-Coherent :
      (env : Env) (id : Text) (actor : Actor) (d : Configd W)
      → Coherent d
      → Coherent (Lifecycle.confirm schema rs env id actor d).0
  unfolding Lifecycle.confirm
  confirm-Coherent env id actor d h =
      with_session-keeps Coherent id actor (Lifecycle.confirm_owned schema rs env actor) d h
        λ s found own. elim (Option-cases d.state.pending) [
          | inl idle ↦ rw (idle, Lifecycle.confirm_owned) h
          | inr (p, waits) ↦
              rw (waits, Lifecycle.confirm_owned, record_revision-state, disarm-state)
                (settled-Coherent d h)
        ]

  rolled-Coherent :
      (c : ConfigTree) (d : Configd W)
      → Coherent d
      → IsCoherent (record d.state {
        running = c;
        generation = d.state.generation + 1;
        pending = none;
        timer = none;
      })
  rolled-Coherent c d h = record {
    bases = λ id x e. ground (arith, h.bases id x);
    window = λ p e. ground arith;
    idle = λ e. refl;
    recent = h.recent;
  }

  roll_back-Coherent :
      (env : Env) (d : Configd W) → Coherent d → Coherent (Lifecycle.roll_back schema rs env d)
  unfolding Lifecycle.roll_back
  roll_back-Coherent env d h = elim (Option-cases d.state.pending) [
    | inl idle ↦ rw (idle, Lifecycle.roll_back) h
    | inr (p, waits) ↦ elim (Result-cases (Commit.apply rs p.previous d.machine).0) [
      | inl (_, good) ↦ ground (arith, waits, good, rolled-Coherent p.previous d h)
      | inr (e, bad) ↦ ground (arith, waits, bad, settled-Coherent d h)
    ]
  ]

  handle-Coherent :
      (env : Env) (r : Request) (actor : Actor) (d : Configd W)
      → Coherent d
      → Coherent (handle schema rs env r actor d).0
  unfolding handle Sessions.show_candidate Sessions.show_running Sessions.show_saved
      Sessions.show_owned Sessions.compare Sessions.compare_owned Sessions.save commit_log
      shell_session
  handle-Coherent env Request.session_open actor d h = open_session-Coherent env actor d h
  handle-Coherent env (Request.session_close id) actor d h = close-Coherent env id actor d h
  handle-Coherent env (Request.set id path value) actor d h =
      set-Coherent schema env id actor path value d h
  handle-Coherent env (Request.delete id path value) actor d h =
      delete-Coherent schema env id actor path value d h
  handle-Coherent env (Request.show_candidate id path) actor d h =
      with_session-keeps Coherent id actor (Sessions.show_owned path) d h λ s found own. h
  handle-Coherent env (Request.show_running path) actor d h = h
  handle-Coherent env (Request.show_saved path) actor d h = ground (arith, h)
  handle-Coherent env (Request.compare id) actor d h =
      with_session-keeps Coherent id actor Sessions.compare_owned d h λ s found own. h
  handle-Coherent env (Request.discard id) actor d h = discard-Coherent env id actor d h
  handle-Coherent env (Request.commit id comment minutes) actor d h =
      commit-Coherent env id actor comment minutes d h
  handle-Coherent env (Request.confirm id) actor d h = confirm-Coherent env id actor d h
  handle-Coherent env Request.save actor d h = ground (arith, h)
  handle-Coherent env (Request.load id source) actor d h =
      load-Coherent schema env id actor source d h
  handle-Coherent env Request.commit_log actor d h = ground (arith, h)
  handle-Coherent env (Request.shell_session entering) actor d h = h

  Step-IsCoherent : {d e : Configd W} → Step schema rs d e → Coherent d → Coherent e
  Step-IsCoherent (handled {d} env r actor eq) h = rw eq at (handle-Coherent env r actor d h)
  Step-IsCoherent (woken {d} env n armed eq) h = rw eq at (roll_back-Coherent env d h)

  -- Whatever requests are handled and whenever the armed rollback task wakes, a coherent daemon
  -- stays coherent: no session is ahead of running, while a commit waits what it committed is what
  -- runs under the generation it was given and its rollback is armed, no rollback is armed
  -- otherwise, and at most eight configurations are remembered.
  pub Reach-IsCoherent :
      (d e : Configd W) → Reach schema rs d e → IsCoherent d.state → IsCoherent e.state
  Reach-IsCoherent d _ here h = h
  Reach-IsCoherent d e (next path step) h = Step-IsCoherent step (Reach-IsCoherent d _ path h)
