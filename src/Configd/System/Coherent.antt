-- ===== src/Configd/System/Coherent.antt =====
-- The invariant of the daemon's state, and what sessions do to it.
use nightshade.Shared.{
  ◌≤◌, true, Option, none, some, ◌≡◌, arith, Option-cases, inl, inr, Bool-cases, is_some, is_nil,
  length,
}
use nightshade.Shared.Text.{Text}
use nightshade.Shared.Assoc.{lookup, insert, remove, lookup-insert, lookup-remove}
use nightshade.Shared.Result.{Result}
use nightshade.Schema.Path.{ConfigPath}
use nightshade.Schema.Config.{ConfigTree}
use nightshade.Configd.Commit.{SchemaOps}
use nightshade.Shared.Result.{Result-cases}
use nightshade.Configd.Model.{Actor, Session, Pending, State, Configd, Env, LoadSource}
use nightshade.Configd.Sessions
use nightshade.Configd.Sessions.{with_session, put_session, update_session, source_config}
use nightshade.Configd.Sessions.Ownership.{with_session-keeps}
use nightshade.Configd.Steps.{level_session}

pub record IsCoherent (s : State) : Type 0 where
  -- No session is ahead of running.
  pub bases :
      (id : Text) (x : Session) → lookup id s.sessions ≡ some x → x.base_generation ≤ s.generation
  -- While a commit waits to be confirmed, what it committed is what runs, and its timer is armed.
  pub window :
      (p : Pending)
      → s.pending ≡ some p
      → (s.running ≡ p.committed) × (s.generation ≡ p.generation) × (is_some s.timer ≡ true)
  pub idle : s.pending ≡ none → s.timer ≡ none
  -- The history is bounded.
  pub recent : length s.history ≤ 8

-- Putting back a session that is not ahead keeps the state coherent.
IsCoherent-insert :
    (s : State) (id : Text) (x : Session)
    → IsCoherent s
    → x.base_generation ≤ s.generation
    → IsCoherent (record s { sessions = insert id x s.sessions })
IsCoherent-insert s id x h le = record {
  bases = λ j y e. ground (arith, lookup-insert id j x s.sessions, h.bases j y);
  window = h.window;
  idle = h.idle;
  recent = h.recent;
}

IsCoherent-remove :
    (s : State) (id : Text)
    → IsCoherent s
    → IsCoherent (record s { sessions = remove id s.sessions })
IsCoherent-remove s id h = record {
  bases = λ j y e. ground (arith, lookup-remove id j s.sessions, h.bases j y);
  window = h.window;
  idle = h.idle;
  recent = h.recent;
}

module _ {W : Type 0} where
  abbrev pub Coherent : Configd W → Type 0
  Coherent d = IsCoherent d.state

  update_session-Coherent :
      (env : Env) (id : Text) (x : Session) (d : Configd W)
      → Coherent d
      → x.base_generation ≤ d.state.generation
      → Coherent (update_session env id x d).0
  unfolding update_session
  update_session-Coherent env id x d h le = elim (Bool-cases env.saves_session) [
    | inl e ↦ rw e (IsCoherent-insert d.state id x h le)
    | inr e ↦ rw e (IsCoherent-insert d.state id x h le)
  ]

  pub open_session-Coherent :
      (env : Env) (actor : Actor) (d : Configd W)
      → Coherent d
      → Coherent (Sessions.open_session env actor d).0
  unfolding Sessions.open_session
  open_session-Coherent env actor d h = elim (Option-cases env.random_id) [
    | inl e ↦ rw (e, Sessions.open_session) h
    | inr (id, e) ↦ elim (Bool-cases env.saves_session) [
      | inl y ↦
          rw (e, Sessions.open_session) (rw y (IsCoherent-insert d.state id _ h (omega arith)))
      | inr n ↦ rw (e, Sessions.open_session) (rw n h)
    ]
  ]

  pub close-Coherent :
      (env : Env) (id : Text) (actor : Actor) (d : Configd W)
      → Coherent d
      → Coherent (Sessions.close env id actor d).0
  unfolding Sessions.close Sessions.close_owned
  close-Coherent env id actor d h =
      with_session-keeps Coherent id actor (Sessions.close_owned env id) d h λ s found own.
        elim (Bool-cases env.forgets_session) [
          | inl y ↦ rw y (IsCoherent-remove d.state id h)
          | inr n ↦ rw n (IsCoherent-remove d.state id h)
        ]

  pub discard-Coherent :
      (env : Env) (id : Text) (actor : Actor) (d : Configd W)
      → Coherent d
      → Coherent (Sessions.discard env id actor d).0
  unfolding Sessions.discard Sessions.discard_owned
  discard-Coherent env id actor d h =
      with_session-keeps Coherent id actor (Sessions.discard_owned env id) d h λ s found own.
        update_session-Coherent env id
          (record s { candidate = d.state.running; base_generation = d.state.generation }) d h
          (omega arith)

  edit_owned-Coherent :
      (change : ConfigTree → Result Text ConfigTree) (env : Env) (id : Text) (s : Session)
      (d : Configd W)
      → Coherent d
      → s.base_generation ≤ d.state.generation
      → Coherent (Sessions.edit_owned change env id s d).0
  unfolding Sessions.edit_owned
  edit_owned-Coherent change env id s d h le = elim (Result-cases (change s.candidate)) [
    | inl (c, e) ↦
        rw (e, Sessions.edit_owned)
          (update_session-Coherent env id (record s { candidate = c }) d h le)
    | inr (m, e) ↦ rw (e, Sessions.edit_owned) h
  ]

  pub set-Coherent :
      (schema : SchemaOps) (env : Env) (id : Text) (actor : Actor) (path : ConfigPath)
      (value : Option Text) (d : Configd W)
      → Coherent d
      → Coherent (Sessions.set schema env id actor path value d).0
  unfolding Sessions.set
  set-Coherent schema env id actor path value d h =
      let change : ConfigTree → Result Text ConfigTree = λ t. schema.apply_set t path value in
      with_session-keeps Coherent id actor (Sessions.edit_owned change env id) d h
        λ s found own. edit_owned-Coherent change env id s d h (h.bases id s found)

  pub delete-Coherent :
      (schema : SchemaOps) (env : Env) (id : Text) (actor : Actor) (path : ConfigPath)
      (value : Option Text) (d : Configd W)
      → Coherent d
      → Coherent (Sessions.delete schema env id actor path value d).0
  unfolding Sessions.delete
  delete-Coherent schema env id actor path value d h =
      let change : ConfigTree → Result Text ConfigTree = λ t. schema.apply_delete t path value in
      with_session-keeps Coherent id actor (Sessions.edit_owned change env id) d h
        λ s found own. edit_owned-Coherent change env id s d h (h.bases id s found)

  pub load-Coherent :
      (schema : SchemaOps) (env : Env) (id : Text) (actor : Actor) (source : LoadSource)
      (d : Configd W)
      → Coherent d
      → Coherent (Sessions.load schema env id actor source d).0
  unfolding Sessions.load Sessions.load_owned
  load-Coherent schema env id actor source d h =
      with_session-keeps Coherent id actor (Sessions.load_owned schema env id source) d h
        λ s found own. elim (Result-cases (source_config schema env source d)) [
          | inl (c, e) ↦ elim (Bool-cases (is_nil (schema.validate_tree c))) [
            | inl y ↦
                rw (e, Sessions.load_owned)
                  (rw y (
                    update_session-Coherent env id (record s { candidate = c }) d h
                      (h.bases id s found)))
            | inr n ↦ rw (e, Sessions.load_owned) (rw n h)
          ]
          | inr (m, e) ↦ rw (e, Sessions.load_owned) h
        ]

  pub level_session-Coherent :
      (env : Env) (id : Text) (d : Configd W) → Coherent d → Coherent (level_session env id d)
  unfolding level_session
  level_session-Coherent env id d h = elim (Option-cases (lookup id d.state.sessions)) [
    | inl e ↦ rw (e, level_session) h
    | inr (s, e) ↦ elim (Bool-cases env.saves_session) [
      | inl y ↦ rw (e, level_session) (rw y (IsCoherent-insert d.state id _ h (omega arith)))
      | inr n ↦ rw (e, level_session) (rw n (IsCoherent-insert d.state id _ h (omega arith)))
    ]
  ]
