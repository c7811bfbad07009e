-- ===== src/Schema/Wording.antt =====
-- The errors of src/nightshade-schema/src/lex.rs, config.rs, validate.rs and curly.rs as the text
-- that operators read.
use nightshade.Shared.{◌∷◌, ◌++◌}
use nightshade.Shared.Text.{Text, codes}
use nightshade.Shared.Pieces.{decimal}
use nightshade.Schema.PathText.{display}
use nightshade.Schema.Lex.{
  Pos, LexError, unterminated_string, unterminated_comment, bad_hex_escape, unknown_escape,
  unexpected_char,
}
use nightshade.Schema.Config.{TreeError, not_interior, not_a_container, not_a_leaf}
use nightshade.Schema.Path.{ConfigPath}
use nightshade.Schema.Validate.{Platform, error_text}
use nightshade.Schema.Validate.Setting.{
  SetError, DeleteError, value_required, unexpected_value, bad_value, bad_name, not_settable,
  rejected, not_configured, no_such_value,
}
use nightshade.Schema.Curly.Parse.{
  ParseError, bad_token, unexpected_open, unmatched_close, unclosed, too_deep, too_many_values,
  bad_tree, max_depth,
}

-- A path between back quotes.
abbrev pub quoted_path : ConfigPath → Text
quoted_path p = codes "`" ++ (display p ++ codes "`")

unfoldable pub pos_text : Pos → Text
pos_text p = codes "line " ++ (decimal p.line ++ (codes ", column " ++ decimal p.column))

-- A message at a place of the text.
abbrev pub at_pos : Pos → Text → Text
at_pos p message = pos_text p ++ (codes ": " ++ message)

unfoldable pub tree_error_text : TreeError → Text
unfolding display
tree_error_text (not_interior p full) =
    quoted_path p
    ++ (codes " holds a value, so " ++ (quoted_path full ++ codes " cannot exist below it"))
tree_error_text (not_a_container p) =
    quoted_path p ++ codes " holds a value, so it cannot also have child nodes"
tree_error_text (not_a_leaf p) =
    quoted_path p ++ codes " has child nodes, so it cannot hold a value"

unfoldable pub delete_error_text : Platform → DeleteError → Text
unfolding display
delete_error_text platform (DeleteError.unknown_path p) =
    quoted_path p ++ codes " is not a configuration path"
delete_error_text platform (not_configured p) = quoted_path p ++ codes " is not configured"
delete_error_text platform (no_such_value p v) =
    quoted_path p ++ (codes " does not have the value " ++ platform.debug v)

unfoldable pub set_error_text : Platform → SetError → Text
unfolding display tree_error_text
set_error_text platform (SetError.unknown_path p) =
    quoted_path p ++ codes " is not a configuration path"
set_error_text platform (value_required p expected) =
    quoted_path p ++ (codes " takes a value: " ++ expected)
set_error_text platform (unexpected_value p) = quoted_path p ++ codes " takes no value"
set_error_text platform (bad_value p e) = quoted_path p ++ (codes ": " ++ error_text platform e)
set_error_text platform (bad_name p e) = quoted_path p ++ (codes ": " ++ error_text platform e)
set_error_text platform (not_settable p) =
    quoted_path p ++ codes " groups other settings; set one of them instead"
set_error_text platform (rejected p e) = quoted_path p ++ (codes ": " ++ tree_error_text e)

unfoldable pub lex_error_text : Platform → LexError → Text
unfolding pos_text
lex_error_text platform (unterminated_string p) =
    at_pos p (codes "unterminated quoted value (opened here)")
lex_error_text platform (unterminated_comment p) =
    at_pos p (codes "unterminated comment -- no closing `*/`")
lex_error_text platform (unknown_escape p c) =
    at_pos p
      (codes "unknown escape `\\" ++ c ∷ codes "`; valid escapes are \\\\ \\\" \\n \\t \\r \\xNN")
lex_error_text platform (bad_hex_escape p) =
    at_pos p (codes "`\\x` must be followed by two hex digits in the range 00-7f")
lex_error_text platform (unexpected_char p c) = at_pos p (
    codes "unexpected character "
    ++ (platform.debug_char c ++ codes "; quote it if it is part of a value"))

unfoldable pub parse_error_text : Platform → ParseError → Text
unfolding lex_error_text pos_text tree_error_text
parse_error_text platform (bad_token e) = lex_error_text platform e
parse_error_text platform (unexpected_open p) =
    at_pos p (codes "`{` must follow a node name on the same line")
parse_error_text platform (unmatched_close p) = at_pos p (codes "`}` here closes nothing")
parse_error_text platform (unclosed p) = at_pos p (codes "`{` opened here is never closed")
parse_error_text platform (too_many_values p name count) = at_pos p (
    codes "`"
    ++ (name
        ++ (codes "` was given "
            ++ (decimal count
                ++ codes
                    " values on one line; a leaf takes at most one, and a nested node needs braces"))))
parse_error_text platform (too_deep p) =
    at_pos p (codes "nested more than " ++ (decimal max_depth ++ codes " levels deep"))
parse_error_text platform (bad_tree p e) = at_pos p (tree_error_text e)
