-- ===== src/Configd/System/Valid.antt =====
-- Whether every configuration that the daemon keeps is one that the schema describes, and what
-- sessions do to that.
use nightshade.Shared.{[], Option, some, ◌≡◌, arith, Option-cases, inl, inr, Bool-cases, is_nil}
use nightshade.Shared.Text.{Text}
use nightshade.Shared.Assoc.{lookup, insert, remove, lookup-insert, lookup-remove}
use nightshade.Shared.Result.{Result, ok, Result-cases}
use nightshade.Schema.Path.{ConfigPath}
use nightshade.Schema.Config.{ConfigTree}
use nightshade.Configd.Commit.{SchemaOps}
use nightshade.Configd.Model.{Actor, Session, Pending, State, Configd, Env, LoadSource}
use nightshade.Configd.Sessions
use nightshade.Configd.Sessions.{with_session, update_session, source_config}
use nightshade.Configd.Sessions.Ownership.{with_session-keeps}
use nightshade.Configd.Steps.{level_session, last_config}

-- What the daemon relies on of a schema: its edits keep what it has nothing against so.
pub record KeepsValid (schema : SchemaOps) : Type 0 where
  pub sets :
      (t u : ConfigTree) (path : ConfigPath) (v : Option Text)
      → schema.apply_set t path v ≡ ok u
      → schema.validate_tree t ≡ []
      → schema.validate_tree u ≡ []
  pub deletes :
      (t u : ConfigTree) (path : ConfigPath) (v : Option Text)
      → schema.apply_delete t path v ≡ ok u
      → schema.validate_tree t ≡ []
      → schema.validate_tree u ≡ []

pub record AllValid (schema : SchemaOps) (s : State) : Type 0 where
  pub runs : schema.validate_tree s.running ≡ []
  -- What every session has made of it.
  pub candidates :
      (id : Text) (x : Session)
      → lookup id s.sessions ≡ some x
      → schema.validate_tree x.candidate ≡ []
  -- What a commit that waits goes back to.
  pub window : (p : Pending) → s.pending ≡ some p → schema.validate_tree p.previous ≡ []
  -- What ran last before.
  pub past : schema.validate_tree (last_config s.history) ≡ []

module _ (schema : SchemaOps) where
  pub AllValid-insert :
      (s : State) (id : Text) (x : Session)
      → AllValid schema s
      → schema.validate_tree x.candidate ≡ []
      → AllValid schema (record s { sessions = insert id x s.sessions })
  AllValid-insert s id x h good = record {
    runs = h.runs;
    candidates = λ j y e. ground (arith, good, lookup-insert id j x s.sessions, h.candidates j y);
    window = h.window;
    past = h.past;
  }

  AllValid-remove :
      (s : State) (id : Text)
      → AllValid schema s
      → AllValid schema (record s { sessions = remove id s.sessions })
  AllValid-remove s id h = record {
    runs = h.runs;
    candidates = λ j y e. ground (arith, lookup-remove id j s.sessions, h.candidates j y);
    window = h.window;
    past = h.past;
  }

  module _ {W : Type 0} where
    abbrev pub Valid : Configd W → Type 0
    Valid d = AllValid schema d.state

    update_session-Valid :
        (env : Env) (id : Text) (x : Session) (d : Configd W)
        → Valid d
        → schema.validate_tree x.candidate ≡ []
        → Valid (update_session env id x d).0
    unfolding update_session
    update_session-Valid env id x d h good = elim (Bool-cases env.saves_session) [
      | inl e ↦ rw e (AllValid-insert d.state id x h good)
      | inr e ↦ rw e (AllValid-insert d.state id x h good)
    ]

    pub open_session-Valid :
        (env : Env) (actor : Actor) (d : Configd W)
        → Valid d
        → Valid (Sessions.open_session env actor d).0
    unfolding Sessions.open_session
    open_session-Valid env actor d h = elim (Option-cases env.random_id) [
      | inl e ↦ rw (e, Sessions.open_session) h
      | inr (id, e) ↦ elim (Bool-cases env.saves_session) [
        | inl y ↦ rw (e, Sessions.open_session) (rw y (AllValid-insert d.state id _ h h.runs))
        | inr n ↦ rw (e, Sessions.open_session) (rw n h)
      ]
    ]

    pub close-Valid :
        (env : Env) (id : Text) (actor : Actor) (d : Configd W)
        → Valid d
        → Valid (Sessions.close env id actor d).0
    unfolding Sessions.close Sessions.close_owned
    close-Valid env id actor d h =
        with_session-keeps Valid id actor (Sessions.close_owned env id) d h λ s found own.
          elim (Bool-cases env.forgets_session) [
            | inl y ↦ rw y (AllValid-remove d.state id h)
            | inr n ↦ rw n (AllValid-remove d.state id h)
          ]

    pub discard-Valid :
        (env : Env) (id : Text) (actor : Actor) (d : Configd W)
        → Valid d
        → Valid (Sessions.discard env id actor d).0
    unfolding Sessions.discard Sessions.discard_owned
    discard-Valid env id actor d h =
        with_session-keeps Valid id actor (Sessions.discard_owned env id) d h λ s found own.
          update_session-Valid env id
            (record s { candidate = d.state.running; base_generation = d.state.generation }) d h
            h.runs

    -- An edit that keeps the candidate of the session valid.
    pub edit-Valid :
        (change : ConfigTree → Result Text ConfigTree) (env : Env) (id : Text) (actor : Actor)
        (d : Configd W)
        → ((t u : ConfigTree)
            → change t ≡ ok u
            → schema.validate_tree t ≡ []
            → schema.validate_tree u ≡ [])
        → Valid d
        → Valid (with_session id actor (Sessions.edit_owned change env id) d).0
    unfolding Sessions.edit_owned
    edit-Valid change env id actor d keep h =
        with_session-keeps Valid id actor (Sessions.edit_owned change env id) d h λ s found own.
          elim (Result-cases (change s.candidate)) [
            | inl (c, e) ↦
                rw (e, Sessions.edit_owned)
                  (update_session-Valid env id (record s { candidate = c }) d h
                    (keep s.candidate c e (h.candidates id s found)))
            | inr (m, e) ↦ rw (e, Sessions.edit_owned) h
          ]

    pub load-Valid :
        (env : Env) (id : Text) (actor : Actor) (source : LoadSource) (d : Configd W)
        → Valid d
        → Valid (Sessions.load schema env id actor source d).0
    unfolding Sessions.load Sessions.load_owned
    load-Valid env id actor source d h =
        with_session-keeps Valid id actor (Sessions.load_owned schema env id source) d h
          λ s found own. elim (Result-cases (source_config schema env source d)) [
            | inl (c, e) ↦ elim (Bool-cases (is_nil (schema.validate_tree c))) [
              | inl y ↦
                  rw (e, Sessions.load_owned)
                    (rw y (
                      update_session-Valid env id (record s { candidate = c }) d h
                        (ground (arith, y))))
              | inr n ↦ rw (e, Sessions.load_owned) (rw n h)
            ]
            | inr (m, e) ↦ rw (e, Sessions.load_owned) h
          ]

    pub level_session-Valid :
        (env : Env) (id : Text) (d : Configd W) → Valid d → Valid (level_session env id d)
    unfolding level_session
    level_session-Valid env id d h = elim (Option-cases (lookup id d.state.sessions)) [
      | inl e ↦ rw (e, level_session) h
      | inr (s, e) ↦
          let kept =
            AllValid-insert d.state id (record s { base_generation = d.state.generation }) h
              (h.candidates id s e) in
          elim (Bool-cases env.saves_session) [
            | inl y ↦ rw (e, level_session) (rw y kept)
            | inr n ↦ rw (e, level_session) (rw n kept)
          ]
    ]
