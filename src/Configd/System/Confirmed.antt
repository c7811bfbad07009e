-- ===== src/Configd/System/Confirmed.antt =====
-- src/nightshade-configd/src/state.rs: what runs once a commit is confirmed.
use nightshade.Shared.{List, none, some, ◌≡◌, ap, ◌∙◌, if◌then◌else◌}
use nightshade.Shared.Text.{Text}
use nightshade.Shared.Assoc.{lookup}
use nightshade.Schema.Diff.{diff}
use nightshade.Configd.Commit.{SchemaOps, Renderer, order}
use nightshade.Configd.Model.{Actor, Session, Pending, State, Configd, Env, absent, committed}
use nightshade.Configd.Lifecycle.{confirm, roll_back}
use nightshade.Configd.Lifecycle.Confirming.{confirm-eq, roll_back-eq-none}
use nightshade.Configd.System.Coherent.{IsCoherent}

module _ {W A : Type 0} (schema : SchemaOps) (rs : List (Renderer W A)) where
  -- When the owner of a session confirms the commit that waits in a coherent daemon, what it
  -- committed runs, under the generation that it was committed with; the machine is as it was, the
  -- marker is gone if it can be removed, the answer names that generation and the ordered changes,
  -- and the rollback task, should it wake after all, changes nothing.
  pub confirm-roll_back :
      (env later : Env) (id : Text) (actor : Actor) (d : Configd W) (s : Session) (p : Pending)
      → IsCoherent d.state
      → lookup id d.state.sessions ≡ some s
      → s.uid ≡ actor.uid
      → d.state.pending ≡ some p
      → let e = confirm schema rs env id actor d in
        (e.0.state ≡ record d.state {
          running = p.committed;
          generation = p.generation;
          pending = none;
          timer = none;
        })
        × (e.0.machine ≡ d.machine)
        × (e.0.disk.marker ≡ (if env.disarms_marker then absent else d.disk.marker))
        × (e.1 ≡ committed p.generation (order schema (diff p.previous p.committed)) none)
        × (roll_back schema rs later e.0 ≡ e.0)
  confirm-roll_back env later id actor d s p coherent found own waits =
      let (state, machine, marker, answer) =
        confirm-eq schema rs env id actor d s p found own waits in
      let (runs, generation, _) = coherent.window p waits in
      (
        state
            ∙ ap (λ c. record d.state { running = c; pending = none; timer = none }) runs
            ∙ ap
                (λ g. record d.state {
                  running = p.committed;
                  generation = g;
                  pending = none;
                  timer = none;
                })
                generation,
        machine,
        marker,
        answer,
        roll_back-eq-none schema rs later (confirm schema rs env id actor d).0
            (ap (λ (x : State). x.pending) state),
      )
