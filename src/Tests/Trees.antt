-- ===== src/Tests/Trees.antt =====
-- Examples over configuration trees, their differences and their text.
use nightshade.Shared.{
  [], ◌∷◌, ◌++◌, true, false, not, ◌&&◌, ◌||◌, none, some, is_some, ◌≡◌, refl, arith, inl,
}
use nightshade.Shared.Text.{Text, codes, text_eq}
use nightshade.Shared.Sort.{IsChain}
use nightshade.Shared.Result.{ok, err}
use nightshade.Schema.Entries.{node, values, find}
use nightshade.Schema.ValueSet.{has_value, Values}
use nightshade.Schema.Path.{ConfigPath}
use nightshade.Schema.Config.{ConfigTree, get, get_node, set, add, not_interior}
use nightshade.Schema.Config.Edits.{diverges}
use nightshade.Schema.Config.Leaves.{
  get-set, run_edit_err, has_value-add, run_edit, to_value, noted, held,
}
use nightshade.Schema.Diff.{Change, added, diff}
use nightshade.Schema.Diff.Lines.{IsKeyed, holds_line}
use nightshade.Schema.Diff.Order.{ChangeUpTo}
use nightshade.Schema.Diff.Changes.{
  has_change-diff, container_at, diff-IsChain, has_change, line_of,
}
use nightshade.Schema.Lex.{Pos, next_token, quote, lexer, string_body, is_bare, value}
use nightshade.Schema.Lex.Fuel.{string_body_fuel}
use nightshade.Schema.Lex.Words.{after_text}
use nightshade.Schema.Lex.Quoting.{next_token-quote}
use nightshade.Tests.{named, host_path, zone_path}

abbrev r1 : ConfigTree
r1 = named (codes "r1")

abbrev r2 : ConfigTree
r2 = named (codes "r2")

set_done : (set r1 host_path (codes "r2")).1 ≡ ok tt
unfolding set find text_eq
set_done = refl

get-set_example :
    (get (set r1 host_path (codes "r2")).0 host_path ≡ some (node none (values (codes "r2" ∷ []))))
    × (diverges host_path zone_path ≡ true
        → get (set r1 host_path (codes "r2")).0 zone_path ≡ get r1 zone_path)
unfolding get get_node find text_eq
get-set_example = get-set r1 host_path (codes "r2") zone_path set_done

-- A leaf has nothing under it.
abbrev below : ConfigPath
below = codes "host" ∷ codes "name" ∷ []

set_refused : (run_edit (to_value (codes "x")) r1 below).1 ≡ err (not_interior host_path below)
unfolding set find text_eq
set_refused = refl

run_edit_err_example : (run_edit (to_value (codes "x")) r1 below).0 ≡ r1
run_edit_err_example =
    run_edit_err (to_value (codes "x")) r1 below (not_interior host_path below) set_refused

add_done : (add r1 host_path (codes "r2")).1 ≡ ok tt
unfolding add find text_eq
add_done = refl

has_value-add_example :
    (vs : Values) × (get (add r1 host_path (codes "r2")).0 host_path
      ≡ some (node (noted (get r1 host_path)) (values vs)))
    × (has_value (codes "r1") vs
        ≡ (text_eq (codes "r2") (codes "r1") || has_value (codes "r1") (held (get r1 host_path))))
has_value-add_example = has_value-add r1 host_path (codes "r2") (codes "r1") add_done

abbrev host_added : Change
host_added = record { op = added; path = host_path; value = some (codes "r2") }

r1-IsKeyed : IsKeyed r1.root
unfolding find
r1-IsKeyed = (refl, tt, tt)

r2-IsKeyed : IsKeyed r2.root
unfolding find
r2-IsKeyed = (refl, tt, tt)

has_change-diff_example : has_change host_added (diff r1 r2) ≡ (
    (holds_line (line_of host_added) r2 && not (holds_line (line_of host_added) r1))
    && (is_some host_added.value
        || not (container_at r1 host_added.path && container_at r2 host_added.path)))
has_change-diff_example = has_change-diff r1 r2 host_added r1-IsKeyed r2-IsKeyed

diff-IsChain_example : IsChain ChangeUpTo (diff r1 r2)
diff-IsChain_example = diff-IsChain r1 r2

abbrev start : Pos
start = record { line = 1; column = 1 }

-- A value with a space, a quote, a newline and a control character.
abbrev odd : Text
odd = 97 ∷ 32 ∷ 34 ∷ 10 ∷ 27 ∷ []

odd_is_quoted : is_bare odd ≡ false
unfolding is_bare
odd_is_quoted = refl

next_token-quote_example :
    next_token (lexer (quote odd ++ codes "x") start)
    ≡ ok (
        some (
          record { token = value odd; pos = start },
          lexer (codes "x") (after_text (quote odd) start),
        ))
next_token-quote_example = next_token-quote odd (codes "x") start (inl odd_is_quoted)

string_body_fuel_example :
    string_body 5 start (lexer (codes "ab\"c") start)
    ≡ string_body 9 start (lexer (codes "ab\"c") start)
string_body_fuel_example =
    string_body_fuel 5 9 start (codes "ab\"c") start (omega arith) (omega arith)
