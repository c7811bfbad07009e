-- ===== src/Configd/Committing/Landing.antt =====
-- src/nightshade-configd/src/state.rs: the state that a commit leads to.
use nightshade.Shared.{
  ℕ, ◌+◌, ◌-◌, List, true, false, Option, none, some, ◌≡◌, refl, ap, arith, is_nil, ◌*◌, ◌∙◌,
}
use nightshade.Shared.Text.{Text}
use nightshade.Shared.Assoc.{lookup, insert}
use nightshade.Shared.Result.{ok}
use nightshade.Schema.Diff.{Change, diff}
use nightshade.Configd.Commit
use nightshade.Configd.Commit.{SchemaOps, Renderer, CommitError}
use nightshade.Configd.Model.{
  Actor, Session, Pending, State, Configd, Env, Response, committed, holds,
}
use nightshade.Configd.Steps.{level_session, promote, await_confirmation, last_config}
use nightshade.Configd.Steps.Effects.{
  promoted, promote-state, promote-machine, record_revision-state, record_revision-machine,
  last_config-trim,
}
use nightshade.Configd.Committing.{
  commit, commit_owned, commit_session, apply_commit, finish_commit,
}
use nightshade.Configd.Sessions.Ownership.{with_session-eq}
use nightshade.Configd.Lifecycle.{roll_back}
use nightshade.Configd.Lifecycle.Confirming.{roll_back-eq-ok}
use nightshade.Configd.Committing.Outcome.{level_session-eq, level_session-machine}

-- The state once a session's candidate has been committed, and the pending commit that waits to be
-- confirmed if it was so asked.
abbrev pub landed : Text → Session → State → State
landed id s state =
    let new = state.generation + 1 in
    record (promoted s.candidate state) {
      sessions = insert id (record s { base_generation = new }) state.sessions;
    }

abbrev pub window : Env → Text → Actor → Option Text → ℕ → Session → State → Pending
window env id actor comment minutes s state = record {
  deadline = env.now + minutes * 60;
  minutes = minutes;
  session = id;
  actor_uid = actor.uid;
  actor = actor.username;
  comment = comment;
  previous = state.running;
  previous_generation = state.generation;
  committed = s.candidate;
  generation = state.generation + 1;
}

module _ {W A : Type 0} (schema : SchemaOps) (rs : List (Renderer W A)) where
  abbrev applied_to : Env → Text → Session → W → Configd W → Configd W
  applied_to env id s machine d =
      level_session env id (promote env s.candidate (record d { machine = machine }))

  applied_to-state :
      (env : Env) (id : Text) (s : Session) (machine : W) (d : Configd W)
      → lookup id d.state.sessions ≡ some s
      → (applied_to env id s machine d).state ≡ landed id s d.state
  applied_to-state env id s machine d found =
      let moved = promote env s.candidate (record d { machine = machine }) in
      let eq : moved.state ≡ promoted s.candidate d.state =
        promote-state env s.candidate (record d { machine = machine }) in
      level_session-eq env id moved s (rw eq found) ∙ rw eq refl

  commit_owned-eq :
      (env : Env) (id : Text) (actor : Actor) (comment : Option Text) (minutes : Option ℕ)
      (d : Configd W) (s : Session)
      → d.state.pending ≡ none
      → commit_owned schema rs env id actor comment minutes s d
        ≡ commit_session schema rs env id actor comment minutes s d
  unfolding commit_owned
  commit_owned-eq env id actor comment minutes d s idle = ground (arith, idle)

  commit_session-eq :
      (env : Env) (id : Text) (actor : Actor) (comment : Option Text) (minutes : Option ℕ)
      (d : Configd W) (s : Session) (machine : W)
      → s.base_generation ≡ d.state.generation
      → Commit.validate schema s.candidate ≡ ok tt
      → is_nil (Commit.order schema (diff d.state.running s.candidate)) ≡ false
      → Commit.apply rs s.candidate d.machine ≡ (ok tt, machine)
      → commit_session schema rs env id actor comment minutes s d
        ≡ finish_commit schema rs env id actor comment minutes d.state.generation
            (Commit.order schema (diff d.state.running s.candidate))
            (applied_to env id s machine d)
  unfolding commit_session apply_commit
  commit_session-eq env id actor comment minutes d s machine level valid some_changes works =
      ground (arith, level, valid, some_changes, works)

  applied_to-machine :
      (env : Env) (id : Text) (s : Session) (machine : W) (d : Configd W)
      → (applied_to env id s machine d).machine ≡ machine
  applied_to-machine env id s machine d =
      level_session-machine env id (promote env s.candidate (record d { machine = machine }))
      ∙ promote-machine env s.candidate (record d { machine = machine })

  applied_to-archive :
      (env : Env) (id : Text) (s : Session) (machine : W) (d : Configd W)
      → (applied_to env id s machine d).disk.archive ≡ d.disk.archive
  unfolding level_session promote
  applied_to-archive env id s machine d = ground arith

  await_confirmation-eq :
      (env : Env) (id : Text) (actor : Actor) (comment : Option Text) (minutes was : ℕ)
      (changes : List Change) (d : Configd W)
      → env.arms_marker ≡ true
      → (p : Pending)
      → p ≡ record {
        deadline = env.now + minutes * 60;
        minutes = minutes;
        session = id;
        actor_uid = actor.uid;
        actor = actor.username;
        comment = comment;
        previous = last_config d.state.history;
        previous_generation = was;
        committed = d.state.running;
        generation = d.state.generation;
      }
      → await_confirmation env id actor comment minutes was changes d ≡ (
        record d {
          state = record d.state { pending = some p; timer = some (p.deadline - env.now_again) };
          disk = record d.disk { marker = holds p };
        },
        committed d.state.generation changes (some (p.deadline - env.now_again)),
      )
  unfolding await_confirmation
  await_confirmation-eq env id actor comment minutes was changes d arms p eq =
      rw eq (rw (arms, await_confirmation))

  module _ (env : Env) (id : Text) (actor : Actor) (comment : Option Text) (d : Configd W)
      (s : Session) (machine : W) (found : lookup id d.state.sessions ≡ some s)
      (own : s.uid ≡ actor.uid) (idle : d.state.pending ≡ none)
      (level : s.base_generation ≡ d.state.generation)
      (valid : Commit.validate schema s.candidate ≡ ok tt)
      (some_changes : is_nil (Commit.order schema (diff d.state.running s.candidate)) ≡ false)
      (works : Commit.apply rs s.candidate d.machine ≡ (ok tt, machine)) where
    commit-eq :
        (minutes : Option ℕ)
        → commit schema rs env id actor comment minutes d
          ≡ finish_commit schema rs env id actor comment minutes d.state.generation
              (Commit.order schema (diff d.state.running s.candidate))
              (applied_to env id s machine d)
    unfolding commit commit_owned
    commit-eq minutes =
        with_session-eq id actor (commit_owned schema rs env id actor comment minutes) d s found own
        ∙ commit_owned-eq env id actor comment minutes d s idle
        ∙ commit_session-eq env id actor comment minutes d s machine level valid some_changes works

    abbrev after : Configd W
    after = applied_to env id s machine d

    abbrev reported : List Change
    reported = Commit.order schema (diff d.state.running s.candidate)

    after-state : after.state ≡ landed id s d.state
    after-state = applied_to-state env id s machine d found

    -- A commit without a window, of a valid candidate that changes something, from its owner's
    -- session that is level with running, with no other waiting and every subsystem applied, makes
    -- the candidate running under the next generation, remembers what ran, levels the session,
    -- leaves the machine as the pipeline left it, and answers with the ordered changes.
    pub commit-landed :
        ((commit schema rs env id actor comment none d).0.state ≡ landed id s d.state)
        × ((commit schema rs env id actor comment none d).0.machine ≡ machine)
        × ((commit schema rs env id actor comment none d).1
            ≡ committed
                (d.state.generation + 1)
                (Commit.order schema (diff d.state.running s.candidate))
                none)
    unfolding finish_commit
    commit-landed =
        let recorded =
          record_revision-state schema env after.state.running actor comment after.state.generation
            reported after in
        let kept =
          record_revision-machine schema env after.state.running actor comment
            after.state.generation reported after in
        (
          ap (λ (r : Configd W × Response). r.0.state) (commit-eq none) ∙ recorded ∙ after-state,
          ap (λ (r : Configd W × Response). r.0.machine) (commit-eq none)
              ∙ kept
              ∙ applied_to-machine env id s machine d,
          ap (λ (r : Configd W × Response). r.1) (commit-eq none)
              ∙ ap (λ (g : State). committed g.generation reported none) after-state,
        )

    -- A commit with a confirmation window whose marker can be written, of a valid candidate that
    -- changes something, from its owner's session that is level with running, with no other
    -- waiting and every subsystem applied, makes the candidate running under the next generation
    -- and levels the session; it waits, on disk as in memory, with the configuration that ran
    -- before it and its deadline, has its rollback armed for what is left, and is not archived.
    pub commit-waits :
        (minutes : ℕ)
        → env.arms_marker ≡ true
        → let p = window env id actor comment minutes s d.state in
          let e = commit schema rs env id actor comment (some minutes) d in
          (e.0.state ≡ record (landed id s d.state) {
            pending = some p;
            timer = some (env.now + minutes * 60 - env.now_again);
          })
          × (e.0.machine ≡ machine)
          × (e.0.disk.marker ≡ holds p)
          × (e.0.disk.archive ≡ d.disk.archive)
    unfolding finish_commit
    commit-waits minutes arms =
        let p = window env id actor comment minutes s d.state in
        let waits =
          await_confirmation-eq env id actor comment minutes d.state.generation reported after arms
            p
            (rw after-state
              (rw (last_config-trim d.state.history d.state.generation d.state.running))) in
        let eq = commit-eq (some minutes) ∙ waits in
        (
          ap (λ (r : Configd W × Response). r.0.state) eq
              ∙ ap
                  (λ (g : State). record g {
                    pending = some p;
                    timer = some (p.deadline - env.now_again);
                  })
                  after-state,
          ap (λ (r : Configd W × Response). r.0.machine) eq ∙ applied_to-machine env id s machine d,
          ap (λ (r : Configd W × Response). r.0.disk.marker) eq,
          ap (λ (r : Configd W × Response). r.0.disk.archive) eq
              ∙ applied_to-archive env id s machine d,
        )

    -- When a commit with a confirmation window is not confirmed, and the subsystems take the
    -- configuration that ran before it, the rollback task puts exactly that configuration back
    -- under a generation of its own, with the window closed, the sessions as the commit left them
    -- and nothing archived. The commit is of a valid candidate that changes something, from its
    -- owner's session that is level with running, with no other commit waiting, every subsystem
    -- applied and the marker written.
    pub commit-roll_back :
        (minutes : ℕ)
        → env.arms_marker ≡ true
        → (later : Env) (machine' : W) → Commit.apply rs d.state.running machine ≡ (ok tt, machine')
        → let e =
            roll_back schema rs later (commit schema rs env id actor comment (some minutes) d).0 in
          (e.state ≡ record (landed id s d.state) {
            running = d.state.running;
            generation = d.state.generation + 1 + 1;
            pending = none;
            timer = none;
          })
          × (e.machine ≡ machine')
          × (e.disk.archive ≡ d.disk.archive)
    commit-roll_back minutes arms later machine' back =
        let e = (commit schema rs env id actor comment (some minutes) d).0 in
        let p = window env id actor comment minutes s d.state in
        let (state, moved, marked, kept) = commit-waits minutes arms in
        let (state', moved', kept') =
          roll_back-eq-ok schema rs later e p machine' (ap (λ (x : State). x.pending) state)
            (ap (λ (m : W). Commit.apply rs d.state.running m) moved ∙ back) in
        (
          state'
              ∙ ap
                  (λ (x : State). record x {
                    running = d.state.running;
                    generation = x.generation + 1;
                    pending = none;
                    timer = none;
                  })
                  state,
          moved',
          kept' ∙ kept,
        )
