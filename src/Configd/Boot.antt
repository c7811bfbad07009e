-- ===== src/Configd/Boot.antt =====
-- src/nightshade-configd/src/boot.rs: the saved configuration at startup, or the defaults.
--
-- The reason of a failure is a constructor over what it names.
pub mod Safe
use nightshade.Shared.{
  ℕ, List, [], ◌∷◌, ◌++◌, Bool, true, false, Option, none, some, if◌then◌else◌, is_nil, length,
}
use nightshade.Shared.Text.{Text}
use nightshade.Shared.Result.{Result, ok, err}
use nightshade.Schema.Config.{ConfigTree, new}
use nightshade.Schema.Diff.{diff}
use nightshade.Schema.Validate.{Violation}
use nightshade.Configd.Commit
use nightshade.Configd.Commit.{SchemaOps, Renderer, CommitError}
use nightshade.Configd.Model.{Configd, Env}
use nightshade.Configd.Lifecycle.{recovered_generation, adopt}

pub data Reason : Type 0 where
  unreadable : Reason
  unparsed : Text → Reason
  not_a_configuration : List Violation → Reason
  not_applied : CommitError → Reason

pub data Outcome : Type 0 where
  already_running : ℕ → Outcome
  applied : ℕ → Outcome
  nothing_saved : Outcome
  defaulted : Reason → Outcome

unfoldable pub failed : Outcome → Option Reason
failed (defaulted reason) = some reason
failed _ = none

-- The daemon after startup, what startup did, and what the file of the boot failure holds.
pub record Booted (W : Type 0) : Type 0 where
  pub daemon : Configd W
  pub outcome : Outcome
  pub marker : Option Reason

module _ {W A : Type 0} (schema : SchemaOps) (renderers : List (Renderer W A)) where
  -- What `config.boot` comes to.
  unfoldable pub saved : Env → Configd W → Result Reason (Option ConfigTree)
  saved env d =
      if env.reads_boot
      then elim d.disk.config_boot [
        | none ↦ ok none
        | some text ↦ elim (schema.parse_curly text) [
          | err e ↦ err (unparsed e)
          | ok config ↦
              let violations = schema.validate_tree config ++ schema.check_constraints config in
              if is_nil violations then ok (some config) else err (not_a_configuration violations)
        ]
      ]
      else err unreadable

  -- The machine after the renderers were given a configuration.
  abbrev pub machine_after : ConfigTree → Configd W → Configd W
  machine_after config d = record d { machine = (Commit.apply renderers config d.machine).1 }

  unfoldable pub fall_back : Env → Reason → Configd W → Configd W × Outcome
  unfolding Commit.apply adopt
  fall_back env reason d = (
    adopt schema renderers env schema.defaults (machine_after schema.defaults d),
    defaulted reason,
  )

  unfoldable pub apply_at_boot : Env → ConfigTree → Configd W → Configd W × Outcome
  unfolding Commit.apply adopt fall_back
  apply_at_boot env config d = elim (Commit.apply renderers config d.machine).0 [
    | ok _ ↦ (
      adopt schema renderers env config (machine_after config d),
      applied (length (diff new config)),
    )
    | err e ↦ fall_back env (not_applied e) (machine_after config d)
  ]

  -- `marker` is what the file of the boot failure holds.
  unfoldable pub boot : Env → Option Reason → Configd W → Booted W
  unfolding recovered_generation saved apply_at_boot fall_back failed
  boot env marker d = elim (recovered_generation schema renderers d) [
    | some generation ↦ record { daemon = d; outcome = already_running generation; marker = marker }
    | none ↦
        let (d', outcome) : Configd W × Outcome = elim (saved env d) [
          | ok (some config) ↦ apply_at_boot env config d
          | ok none ↦ (d, nothing_saved)
          | err reason ↦ fall_back env reason d
        ] in
        record { daemon = d'; outcome = outcome; marker = failed outcome }
  ]
