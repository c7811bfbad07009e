-- ===== src/Schema/Curly/Parse.antt =====
-- src/nightshade-schema/src/curly.rs: reading a configuration.
--
-- The parser is a lexer and the token that was looked at. A loop runs on fuel: each of its turns
-- but the last takes a token, and a token takes a character at least.
use nightshade.Shared.{
  ℕ, zero, suc, List, [], ◌∷◌, ◌++◌, Bool, true, false, Option, none, some, if◌then◌else◌, ◌==◌,
  ltb, length,
}
use nightshade.Shared.Text.{Text}
use nightshade.Shared.Result.{Result, ok, err}
use nightshade.Schema.Path.{ConfigPath, child}
use nightshade.Schema.Entries.{Node, node}
use nightshade.Schema.Config.{
  TreeError, ConfigTree, Outcome, new, get_mut, add, declare_leaf, ensure_interior,
}
use nightshade.Schema.Lex.{
  Pos, Token, value, open_brace, close_brace, comment, Spanned, LexError, Lexer, lexer, next_token,
}

pub data ParseError : Type 0 where
  bad_token : LexError → ParseError
  unexpected_open unmatched_close unclosed too_deep : Pos → ParseError
  too_many_values : Pos → Text → ℕ → ParseError
  bad_tree : Pos → TreeError → ParseError

abbrev pub max_depth : ℕ
max_depth = 64

pub record Parser : Type 0 where
  pub lexer : Lexer
  pub peeked : Option Spanned

-- A token and the lexer after it, as the parser keeps them.
abbrev pub keep_token : Lexer → Option (Spanned × Lexer) → Option Spanned × Parser
keep_token l none = (none, record { lexer = l; peeked = none })
keep_token l (some (s, after)) = (some s, record { lexer = after; peeked = some s })

unfoldable pub peek : Parser → Result LexError (Option Spanned × Parser)
unfolding next_token
peek p = elim p.peeked [
  | some s ↦ ok (some s, p)
  | none ↦ elim (next_token p.lexer) [ err e ↦ err e | ok r ↦ ok (keep_token p.lexer r) ]
]

-- The parser after its next token.
unfoldable pub advance : Parser → Result LexError (Option Spanned × Parser)
unfolding next_token
advance p = elim p.peeked [
  | some s ↦ ok (some s, record p { peeked = none })
  | none ↦ elim (next_token p.lexer) [
    | err e ↦ err e
    | ok none ↦ ok (none, p)
    | ok (some (s, after)) ↦ ok (some s, record { lexer = after; peeked = none })
  ]
]

-- `node.comment = Some(..)` where the node at a path has no comment yet, and whether it had none.
comment_on : Text → Node → Node × Bool
comment_on text (node none b) = (node (some text) b, true)
comment_on text (node (some old) b) = (node (some old) b, false)

unfoldable pub attach_to : ConfigTree → ConfigPath → Text → ConfigTree × Bool
unfolding get_mut comment_on
attach_to tree path text =
    let (n, done) = get_mut path (comment_on text) tree.root in (record { root = n }, done)

unfoldable pub attach : ConfigTree → ConfigPath → Option Text → ConfigTree
unfolding attach_to
attach tree path none = tree
attach tree path (some text) = (attach_to tree path text).0

-- A token's value, where it is one on the line.
abbrev pub value_on : ℕ → Spanned → Option Text
value_on line s = elim s.token [ value v ↦ if s.pos.line == line then some v else none | _ ↦ none ]

-- The values that follow one another on a line.
unfoldable pub run : ℕ → ℕ → Parser → Result LexError (List Text × Parser)
unfolding peek advance
run zero line p = ok ([], p)
run (suc fuel) line p = elim (peek p) [
  | err e ↦ err e
  | ok (none, p1) ↦ ok ([], p1)
  | ok (some s, p1) ↦ elim (value_on line s) [
    | none ↦ ok ([], p1)
    | some v ↦ elim (advance p1) [
      | err e ↦ err e
      | ok (_, p2) ↦ elim (run fuel line p2) [ err e ↦ err e | ok (vs, p3) ↦ ok (v ∷ vs, p3) ]
    ]
  ]
]

-- What a leaf's edit comes to at the place of its statement.
abbrev placed :
    Pos → ConfigPath → ConfigTree × Outcome → Result ParseError (ConfigTree × ConfigPath)
placed pos path (t, ok _) = ok (t, path)
placed pos path (t, err e) = err (bad_tree pos e)

-- The statement of a leaf, from the name and the values of its line.
unfoldable pub leaf :
    ConfigTree → ConfigPath → List Text → Pos → Result ParseError (ConfigTree × ConfigPath)
unfolding child add declare_leaf
leaf tree prefix [] pos = ok (tree, prefix)
leaf tree prefix (name ∷ []) pos =
    placed pos (child prefix name) (declare_leaf tree (child prefix name))
leaf tree prefix (name ∷ v ∷ []) pos =
    placed pos (child prefix name) (add tree (child prefix name) v)
leaf tree prefix (name ∷ v ∷ w ∷ vs) pos = err (too_many_values pos name (length (v ∷ w ∷ vs)))

abbrev pub joined : Option Text → Text → Text
joined none text = text
joined (some before) text = before ++ 10 ∷ text

-- A comment that stands after a statement on its line is that statement's, if it has none yet.
unfoldable pub trailing :
    ConfigTree → Option Text → Option (ConfigPath × ℕ) → Pos → Text → ConfigTree × Bool
unfolding attach_to
trailing tree (some _) previous pos text = (tree, false)
trailing tree none none pos text = (tree, false)
trailing tree none (some (path, line)) pos text =
    if line == pos.line then attach_to tree path text else (tree, false)

-- Whether the next token opens a block on the line.
abbrev pub opens_on : ℕ → Option Spanned → Bool
opens_on line none = false
opens_on line (some s) = elim s.token [ open_brace ↦ s.pos.line == line | _ ↦ false ]

abbrev pub start : Pos
start = record { line = 1; column = 1 }

-- The check of the depth that `body` begins with.
abbrev pub entering :
    ℕ
    → Option Pos
    → Result ParseError (ConfigTree × Parser)
    → Result ParseError (ConfigTree × Parser)
entering depth opened result =
    if ltb max_depth depth
    then err (too_deep (elim opened [ none ↦ start | some pos ↦ pos ]))
    else result

-- A block from its opening brace on, whose body is read in one way, and what follows in another.
unfoldable pub block :
    (ConfigTree → Pos → Parser → Result ParseError (ConfigTree × Parser))
    → (ConfigTree → Parser → Result ParseError (ConfigTree × Parser))
    → ConfigTree
    → ConfigPath
    → Option Text
    → Pos
    → Parser
    → Result ParseError (ConfigTree × Parser)
unfolding advance attach ensure_interior
block within after tree path pending pos p = elim (advance p) [
  | err e ↦ err (bad_token e)
  | ok (none, p1) ↦ ok (tree, p1)
  | ok (some brace, p1) ↦
      let (tree', made) = ensure_interior tree path in
      elim made [
        | err e ↦ err (bad_tree pos e)
        | ok _ ↦ elim (within (attach tree' path pending) brace.pos p1) [
          | err e ↦ err e
          | ok (tree2, p2) ↦ after tree2 p2
        ]
      ]
]

-- A reader of the statements of a body: the tree, the path and the depth of the body, where it was
-- opened, the comments that wait for a statement, and the statement before with its line.
abbrev pub Reader : Type 0
Reader =
    ConfigTree
    → ConfigPath
    → ℕ
    → Option Pos
    → Option Text
    → Option (ConfigPath × ℕ)
    → Parser
    → Result ParseError (ConfigTree × Parser)

-- A statement from the token after its names on; the flag says that the token opens a block.
unfoldable pub on_next :
    Reader
    → ConfigTree
    → ConfigPath
    → ℕ
    → Option Pos
    → Option Text
    → Pos
    → List Text
    → Bool
    → Parser
    → Result ParseError (ConfigTree × Parser)
unfolding attach leaf block
on_next again tree prefix depth opened pending pos names false p =
    elim (leaf tree prefix names pos) [
      | err e ↦ err e
      | ok (tree', path) ↦
          again (attach tree' path pending) prefix depth opened none (some (path, pos.line)) p
    ]
on_next again tree prefix depth opened pending pos names true p =
    let path = prefix ++ names in
    block
      (λ tree' brace q.
        entering (suc depth) (some brace) (again tree' path (suc depth) (some brace) none none q))
      (λ tree' q. again tree' prefix depth opened none none q) tree path pending pos p

-- A statement from the token after its names on.
unfoldable pub on_names :
    Reader
    → ConfigTree
    → ConfigPath
    → ℕ
    → Option Pos
    → Option Text
    → Pos
    → List Text
    → Parser
    → Result ParseError (ConfigTree × Parser)
unfolding peek on_next
on_names again tree prefix depth opened pending pos names p = elim (peek p) [
  | err e ↦ err (bad_token e)
  | ok (next, q) ↦
      on_next again tree prefix depth opened pending pos names (opens_on pos.line next) q
]

-- The token that was looked at, taken; it cannot fail.
abbrev pub then_taken :
    (Parser → Result ParseError (ConfigTree × Parser))
    → Parser
    → Result ParseError (ConfigTree × Parser)
then_taken next p = elim (advance p) [ err e ↦ err (bad_token e) | ok (_, q) ↦ next q ]

-- A turn of the loop of `body`, on the token that was looked at. The number is the fuel of `run`.
unfoldable pub on_token :
    Reader
    → ℕ
    → ConfigTree
    → ConfigPath
    → ℕ
    → Option Pos
    → Option Text
    → Option (ConfigPath × ℕ)
    → Pos
    → Token
    → Parser
    → Result ParseError (ConfigTree × Parser)
unfolding advance run trailing on_names
on_token again fuel tree prefix depth opened pending previous pos (comment text) p =
    let (tree', done) = trailing tree pending previous pos text in
    let pending' : Option Text = if done then pending else some (joined pending text) in
    then_taken (again tree' prefix depth opened pending' previous) p
on_token again fuel tree prefix depth opened pending previous pos close_brace p =
    then_taken (λ q. elim opened [ some _ ↦ ok (tree, q) | none ↦ err (unmatched_close pos) ]) p
on_token again fuel tree prefix depth opened pending previous pos open_brace p =
    err (unexpected_open pos)
on_token again fuel tree prefix depth opened pending previous pos (value _) p =
    elim (run fuel pos.line p) [
      | err e ↦ err (bad_token e)
      | ok (names, q) ↦ on_names again tree prefix depth opened pending pos names q
    ]

-- The loop of `body`.
unfoldable pub statements : ℕ → Reader
unfolding peek on_token
statements zero tree prefix depth opened pending previous p = ok (tree, p)
statements (suc fuel) tree prefix depth opened pending previous p = elim (peek p) [
  | err e ↦ err (bad_token e)
  | ok (none, q) ↦ elim opened [ some pos ↦ err (unclosed pos) | none ↦ ok (tree, q) ]
  | ok (some s, q) ↦
      on_token (statements fuel) (suc fuel) tree prefix depth opened pending previous s.pos s.token
        q
]

unfoldable pub body :
    ℕ → ConfigTree → ConfigPath → ℕ → Option Pos → Parser → Result ParseError (ConfigTree × Parser)
unfolding statements
body fuel tree prefix depth opened p =
    entering depth opened (statements fuel tree prefix depth opened none none p)

unfoldable pub parse : Text → Result ParseError ConfigTree
unfolding body
parse src =
    elim (body (suc (length src)) new [] 0 none
      (record { lexer = lexer src start; peeked = none })) [
        | err e ↦ err e
        | ok (tree, _) ↦ ok tree
      ]
