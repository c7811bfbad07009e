-- ===== src/Configd/Schemas.antt =====
-- What configd asks of the schema, of src/nightshade-configd/src/{state,commit,archive}.rs, answered
-- by the schema itself.
pub mod Keeping
use nightshade.Shared.{ℕ, Option, none, some}
use nightshade.Shared.Text.{Text}
use nightshade.Shared.Result.{Result, ok, err, map_err}
use nightshade.Schema.Path.{ConfigPath}
use nightshade.Schema.Config.{ConfigTree}
use nightshade.Schema.Model.{Schema, node_at, traits_of, is_tag_node}
use nightshade.Schema.Validate.{Platform}
use nightshade.Schema.Validate.Setting
use nightshade.Schema.Validate.Types
use nightshade.Schema.Validate.Global
use nightshade.Schema.Curly.Parse.{parse}
use nightshade.Schema.Curly.Render.{render}
use nightshade.Schema.Wording.{set_error_text, delete_error_text, parse_error_text}
use nightshade.Configd.Commit.{SchemaOps}

-- The new tree, or the text of the error.
abbrev pub edited :
    {E : Type 0} → (E → Text) → ConfigTree × Result E (Unit {0}) → Result Text ConfigTree
edited text (t, ok _) = ok t
edited text (t, err e) = err (text e)

unfoldable pub ops_of : Platform → Schema → SchemaOps
unfolding Setting.apply_set Setting.apply_delete Setting.defaults Types.validate_tree
    Global.check_constraints node_at parse render set_error_text delete_error_text parse_error_text
ops_of platform schema = record {
  validate_tree = Types.validate_tree platform schema;
  check_constraints = Global.check_constraints schema;
  apply_set =
      λ t p v. edited (set_error_text platform) (Setting.apply_set platform.zones schema t p v);
  apply_delete = λ t p v. edited (delete_error_text platform) (Setting.apply_delete schema t p v);
  priority_at = λ p. elim (node_at schema p) [ none ↦ none | some n ↦ some (traits_of n).priority ];
  render_curly = render (is_tag_node schema);
  parse_curly = λ s. map_err (parse_error_text platform) (parse s);
  defaults = Setting.defaults schema;
}
