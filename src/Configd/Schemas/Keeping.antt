-- ===== src/Configd/Schemas/Keeping.antt =====
-- The daemon over the schema itself: what operators do cannot make it hold a configuration that the
-- schema does not describe.
use nightshade.Shared.{List, ◌≡◌, ◌∙◌, arith, sym, ap}
use nightshade.Shared.Text.{Text}
use nightshade.Shared.Result.{Result, ok, err}
use nightshade.Schema.Config.{ConfigTree}
use nightshade.Schema.Model.{Schema, kind_of, container}
use nightshade.Schema.Validate.{Platform}
use nightshade.Schema.Validate.Setting.{apply_set, apply_delete}
use nightshade.Schema.Validate.Types.{validate_tree}
use nightshade.Schema.Validate.Valid.{validate_tree-apply_set}
use nightshade.Schema.Validate.Deletes.{validate_tree-apply_delete}
use nightshade.Schema.Wording.{set_error_text, delete_error_text}
use nightshade.Configd.Commit.{Renderer}
use nightshade.Configd.Model.{Configd}
use nightshade.Configd.System.{Reach}
use nightshade.Configd.System.Valid.{KeepsValid, AllValid}
use nightshade.Configd.System.Validity.{Reach-Valid}
use nightshade.Configd.Schemas.{edited, ops_of}

edited-ok :
    {E : Type 0} (text : E → Text) (r : ConfigTree × Result E (Unit {0})) (u : ConfigTree)
    → edited text r ≡ ok u
    → r.0 ≡ u
edited-ok text (t, ok _) u h = ground arith
edited-ok text (t, err e) u h = cc

module _ (platform : Platform) (schema : Schema) (top : kind_of schema.root ≡ container) where
  ops_of-KeepsValid : KeepsValid (ops_of platform schema)
  unfolding ops_of
  ops_of-KeepsValid = record {
    sets = λ t u path v e valid.
        ap (validate_tree platform schema)
          (sym (edited-ok (set_error_text platform) (apply_set platform.zones schema t path v) u e))
        ∙ validate_tree-apply_set platform schema t path valid v;
    deletes = λ t u path v e valid.
        ap (validate_tree platform schema)
          (sym (edited-ok (delete_error_text platform) (apply_delete schema t path v) u e))
        ∙ validate_tree-apply_delete platform schema t path top valid v;
  }

  -- Over a schema whose root is a container, with the schema's own operations in the daemon,
  -- whatever requests are handled and whenever the armed rollback task wakes: where the
  -- configuration that runs, every session's candidate, what a waiting commit goes back to and
  -- what ran last validate, they still do.
  pub Reach-AllValid :
      {W A : Type 0} (rs : List (Renderer W A)) (d e : Configd W)
      → Reach (ops_of platform schema) rs d e
      → AllValid (ops_of platform schema) d.state
      → AllValid (ops_of platform schema) e.state
  Reach-AllValid rs d e path h =
      Reach-Valid (ops_of platform schema) rs ops_of-KeepsValid d e path h
