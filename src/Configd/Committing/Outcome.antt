-- ===== src/Configd/Committing/Outcome.antt =====
-- src/nightshade-configd/src/state.rs: what a commit does, refused, failed or made.
use nightshade.Shared.{
  ℕ, List, Option, none, some, ◌≡◌, ◌≢◌, ◌⊎◌, inl, inr, arith, Option-cases, Bool-cases,
}
use nightshade.Shared.Text.{Text}
use nightshade.Shared.Assoc.{lookup, insert}
use nightshade.Schema.Diff.{diff}
use nightshade.Configd.Commit.{SchemaOps, Renderer}
use nightshade.Configd.Model.{
  Actor, Session, Pending, Configd, Env, FailureKind, Message, failed, conflict, marker_not_armed,
  still_pending, has_changed,
}
use nightshade.Configd.Sessions.{with_session}
use nightshade.Configd.Sessions.Ownership.{with_session-eq}
use nightshade.Configd.Steps.{level_session, await_confirmation, remaining, config_of}
use nightshade.Configd.Committing.{
  commit, commit_owned, commit_session, apply_commit, finish_commit, changed_underneath,
}

pub level_session-eq :
    {W : Type 0} (env : Env) (id : Text) (d : Configd W) (s : Session)
    → lookup id d.state.sessions ≡ some s
    → (level_session env id d).state ≡ record d.state {
      sessions = insert id (record s { base_generation = d.state.generation }) d.state.sessions;
    }
unfolding level_session
level_session-eq env id d s found = elim (Bool-cases env.saves_session) [
  | inl y ↦ rw (found, y, level_session)
  | inr n ↦ rw (found, n, level_session)
]

pub level_session-machine :
    {W : Type 0} (env : Env) (id : Text) (d : Configd W)
    → (level_session env id d).machine ≡ d.machine
unfolding level_session
level_session-machine env id d = ground arith

module _ {W A : Type 0} (schema : SchemaOps) (rs : List (Renderer W A)) where
  -- A commit by the owner of a session, while another commit waits to be confirmed or from a
  -- session that is not at the generation of running, is refused as a conflict and changes
  -- nothing.
  pub commit-conflict :
      (env : Env) (id : Text) (actor : Actor) (comment : Option Text) (minutes : Option ℕ)
      (d : Configd W) (s : Session)
      → lookup id d.state.sessions ≡ some s
      → s.uid ≡ actor.uid
      → ((p : Pending) × (d.state.pending ≡ some p)) ⊎ (s.base_generation ≢ d.state.generation)
      → (m : Message) × (commit schema rs env id actor comment minutes d ≡ (d, failed conflict m))
  unfolding commit commit_owned commit_session changed_underneath
  commit-conflict env id actor comment minutes d s found own h =
      let next = commit_owned schema rs env id actor comment minutes in
      let opened = with_session-eq id actor next d s found own in
      elim (Option-cases d.state.pending) [
        | inr (p, waits) ↦ (
          still_pending p.actor p.minutes (remaining env.now p),
          rw opened (ground (arith, waits)),
        )
        | inl idle ↦ (
          has_changed s.base_generation d.state.generation
              (elim (config_of s.base_generation d.state.history) [
                | none ↦ none
                | some was ↦ some (diff was d.state.running)
              ])
              (diff d.state.running s.candidate),
          rw (opened) (ground (arith, idle, h)),
        )
      ]

  -- A commit that fails, for any reason but that the rollback marker could not be written, leaves
  -- the state and the files as they were, whoever asks.
  pub commit-failed :
      (env : Env) (id : Text) (actor : Actor) (comment : Option Text) (minutes : Option ℕ)
      (d : Configd W) (k : FailureKind) (m : Message)
      → (commit schema rs env id actor comment minutes d).1 ≡ failed k m
      → m ≢ marker_not_armed
      → ((commit schema rs env id actor comment minutes d).0.state ≡ d.state)
        × ((commit schema rs env id actor comment minutes d).0.disk ≡ d.disk)
  unfolding commit with_session commit_owned commit_session changed_underneath apply_commit
      finish_commit await_confirmation
  commit-failed env id actor comment minutes d k m h other = ground arith
