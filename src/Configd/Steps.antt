-- ===== src/Configd/Steps.antt =====
-- src/nightshade-configd/src/state.rs: the steps that commits, confirmations and rollbacks are made
-- of; src/nightshade-configd/src/confirm.rs: the marker and the deadline.
pub mod Effects
use nightshade.Shared.{
  ℕ, ◌+◌, ◌-◌, ◌*◌, List, [], ◌∷◌, ◌++◌, Bool, Option, none, some, if◌then◌else◌, ◌==◌, ltb, length,
}
use nightshade.Shared.Text.{Text}
use nightshade.Shared.Assoc.{lookup}
use nightshade.Schema.Config.{ConfigTree, new}
use nightshade.Schema.Diff.{Change}
use nightshade.Configd.Commit.{SchemaOps}
use nightshade.Configd.Archive
use nightshade.Configd.Model.{
  Actor, Pending, Configd, Env, Response, committed, failed, internal, marker_not_armed, absent,
  holds,
}
use nightshade.Configd.Sessions.{store_session, put_session}

-- How many running configurations are kept for sessions that have fallen behind.
abbrev pub history_size : ℕ
history_size = 8

-- `deadline_in`, and `remaining`, which stops at zero.
abbrev pub deadline_in : ℕ → ℕ → ℕ
deadline_in now minutes = now + minutes * 60

abbrev pub remaining : ℕ → Pending → ℕ
remaining now p = p.deadline - now

unfoldable pub expired : ℕ → Pending → Bool
expired now p = remaining now p == 0

-- `while history.len() > HISTORY { pop_front }`.
unfoldable pub trim : List (ℕ × ConfigTree) → List (ℕ × ConfigTree)
trim [] = []
trim (x ∷ xs) = let rest = trim xs in if ltb history_size (length (x ∷ xs)) then rest else x ∷ xs

unfoldable pub last_config : List (ℕ × ConfigTree) → ConfigTree
last_config [] = new
last_config ((g, c) ∷ []) = c
last_config (x ∷ y ∷ xs) = last_config (y ∷ xs)

unfoldable pub config_of : ℕ → List (ℕ × ConfigTree) → Option ConfigTree
config_of base [] = none
config_of base ((g, c) ∷ xs) = if g == base then some c else config_of base xs

module _ {W : Type 0} where
  -- `save_running`.
  unfoldable pub save_running : Env → Configd W → Configd W
  save_running env d =
      if env.saves_running
      then record d {
        disk = record d.disk { running_file = some (d.state.generation, d.state.running) };
      }
      else d

  -- A revision in the archive. That it cannot be written does not fail the commit.
  unfoldable pub record_revision :
      SchemaOps → Env → ConfigTree → Actor → Option Text → ℕ → List Change → Configd W → Configd W
  record_revision schema env config actor comment revision changes d =
      if env.writes_archive
      then record d {
        disk = record d.disk {
          archive =
              Archive.write schema
                (record {
                  revision = revision;
                  timestamp = env.stamp;
                  actor = actor.username;
                  actor_uid = actor.uid;
                  comment = comment;
                  changes = changes;
                })
                config d.disk.archive;
        };
      }
      else d

  -- Step 10: the candidate becomes running, and what ran goes into the history.
  unfoldable pub promote : Env → ConfigTree → Configd W → Configd W
  unfolding trim save_running
  promote env candidate d = save_running env (record d {
    state = record d.state {
      running = candidate;
      generation = d.state.generation + 1;
      history = trim (d.state.history ++ (d.state.generation, d.state.running) ∷ []);
    };
  })

  -- The committing session is level with running, and is stored.
  unfoldable pub level_session : Env → Text → Configd W → Configd W
  unfolding store_session
  level_session env id d = elim (lookup id d.state.sessions) [
    | none ↦ d
    | some s ↦
        let s' = record s { base_generation = d.state.generation } in
        store_session env s' (put_session id s' d)
  ]

  -- A commit that is to be confirmed: the marker goes down before the timer is armed.
  unfoldable pub await_confirmation :
      Env → Text → Actor → Option Text → ℕ → ℕ → List Change → Configd W → Configd W × Response
  unfolding last_config
  await_confirmation env id actor comment minutes was changes d =
      let pending : Pending = record {
        deadline = deadline_in env.now minutes;
        minutes = minutes;
        session = id;
        actor_uid = actor.uid;
        actor = actor.username;
        comment = comment;
        previous = last_config d.state.history;
        previous_generation = was;
        committed = d.state.running;
        generation = d.state.generation;
      } in
      let seconds = remaining env.now_again pending in
      if env.arms_marker
      then (
        record d {
          state = record d.state { pending = some pending; timer = some seconds };
          disk = record d.disk { marker = holds pending };
        },
        committed d.state.generation changes (some seconds),
      )
      else (d, failed internal marker_not_armed)

  -- `marker.disarm`.
  unfoldable pub disarm : Env → Configd W → Configd W
  disarm env d =
      if env.disarms_marker then record d { disk = record d.disk { marker = absent } } else d
