-- ===== src/Configd/Boot/Safe.antt =====
-- src/nightshade-configd/src/boot.rs: what runs after startup.
use nightshade.Shared.{
  ◌+◌, List, Bool, true, false, ◌&&◌, Option, none, some, ◌≡◌, length, is_nil, if◌then◌else◌,
}
use nightshade.Shared.Text.{Text}
use nightshade.Schema.Diff.{diff}
use nightshade.Shared.Result.{Result, ok, err}
use nightshade.Schema.Config.{ConfigTree, new}
use nightshade.Configd.Commit
use nightshade.Configd.Commit.{SchemaOps, Renderer}
use nightshade.Configd.Model.{Configd, Env}
use nightshade.Configd.Boot.{
  Outcome, already_running, applied, nothing_saved, defaulted, Reason, Booted, failed, fall_back,
  apply_at_boot,
}

module _ {W A : Type 0} (schema : SchemaOps) (renderers : List (Renderer W A)) where
  -- The configuration that a text says, where it is valid and the subsystems take it.
  abbrev pub usable : W → Text → Option ConfigTree
  usable machine text = elim (schema.parse_curly text) [
    | err _ ↦ none
    | ok config ↦
        if is_nil (schema.validate_tree config) && is_nil (schema.check_constraints config)
        then elim (Commit.apply renderers config machine).0 [ ok _ ↦ some config | err _ ↦ none ]
        else none
  ]

  -- A configuration runs, under a new generation.
  abbrev pub Runs : ConfigTree → Configd W → Configd W → Type 0
  Runs config before after =
      (after.state
        ≡ record before.state { running = config; generation = before.state.generation + 1 })

  -- What startup comes to, by what the saved text is good for.
  abbrev pub StartsWith : Configd W → Option ConfigTree → Booted W → Type 0
  StartsWith d (some config) b =
      Runs config d b.daemon × (b.outcome ≡ applied (length (diff new config))) × (b.marker ≡ none)
  StartsWith d none b =
      Runs schema.defaults d b.daemon
      × ((reason : Reason) × (b.outcome ≡ defaulted reason) × (b.marker ≡ some reason))

  -- What startup comes to, by whether the file could be read and what it holds.
  abbrev pub StartsFrom : Configd W → Bool → Option Text → Booted W → Type 0
  StartsFrom d false file b = StartsWith d none b
  StartsFrom d true none b = b ≡ record { daemon = d; outcome = nothing_saved; marker = none }
  StartsFrom d true (some text) b = StartsWith d (usable d.machine text) b

  -- What startup comes to, by whether the daemon has recovered something.
  abbrev pub Starts : Configd W → Env → Option Reason → Bool → Booted W → Type 0
  Starts d env marker true b =
      b ≡ record { daemon = d; outcome = already_running d.state.generation; marker = marker }
  Starts d env marker false b = StartsFrom d env.reads_boot d.disk.config_boot b

  module _ (env : Env) (marker : Option Reason) (d : Configd W) where
    abbrev finished : Configd W × Outcome → Booted W
    finished x = record { daemon = x.0; outcome = x.1; marker = failed x.1 }

    abbrev reached : Result Reason (Option ConfigTree) → Booted W
    reached (ok (some config)) = finished (apply_at_boot schema renderers env config d)
    reached (ok none) = finished (d, nothing_saved)
    reached (err reason) = finished (fall_back schema renderers env reason d)
