-- ===== src/Schema/Curly/Render.antt =====
-- src/nightshade-schema/src/curly.rs: writing a configuration.
use nightshade.Shared.{
  ℕ, zero, suc, List, [], ◌∷◌, ◌++◌, Bool, true, false, ◌&&◌, Option, none, some, if◌then◌else◌,
  is_nil,
}
use nightshade.Shared.Text.{Text, codes}
use nightshade.Shared.Pieces.{split}
use nightshade.Schema.Path.{ConfigPath, child}
use nightshade.Schema.Entries.{Node, Body, Children, node, interior, values, nil, entry}
use nightshade.Schema.ValueSet.{Values}
use nightshade.Schema.Config.{ConfigTree, is_interior}
use nightshade.Schema.Lex.{quote}

unfoldable pub indent : ℕ → Text
indent zero = []
indent (suc depth) = codes "    " ++ indent depth

unfoldable pub comment_lines : ℕ → List Text → Text
unfolding indent
comment_lines depth [] = []
comment_lines depth (l ∷ ls) =
    (indent depth ++ (if is_nil l then codes "#\n" else codes "# " ++ (l ++ codes "\n")))
    ++ comment_lines depth ls

unfoldable pub comment_text : ℕ → Option Text → Text
unfolding comment_lines split
comment_text depth none = []
comment_text depth (some c) = comment_lines depth (split 10 c)

unfoldable pub value_lines : ℕ → Text → Values → Text
unfolding indent quote
value_lines depth name [] = []
value_lines depth name (v ∷ vs) =
    (indent depth ++ (quote name ++ (codes " " ++ (quote v ++ codes "\n"))))
    ++ value_lines depth name vs

unfoldable pub leaf_text : ℕ → Text → Values → Text
unfolding indent quote value_lines
leaf_text depth name [] = indent depth ++ (quote name ++ codes "\n")
leaf_text depth name (v ∷ vs) = value_lines depth name (v ∷ vs)

abbrev pub all_interior : Children → Bool
all_interior nil = true
all_interior (entry k n m) = is_interior n && all_interior m

abbrev pub has_entry : Children → Bool
has_entry nil = false
has_entry (entry k n m) = true

module _ (is_tag_node : ConfigPath → Bool) where
  unfoldable pub compact : Option Text → Children → ConfigPath → Bool
  compact (some c) m path = false
  compact none m path = is_tag_node path && has_entry m && all_interior m

  unfoldable mutual
    unfolding indent comment_text leaf_text compact quote child

    pub children_text : Children → ConfigPath → ℕ → Text
    children_text nil at depth = []
    children_text (entry name n m) at depth =
        entry_text name n (child at name) depth ++ children_text m at depth

    pub entry_text : Text → Node → ConfigPath → ℕ → Text
    entry_text name (node c (values vs)) path depth =
        comment_text depth c ++ leaf_text depth name vs
    entry_text name (node c (interior m)) path depth = elim (compact c m path) [
      | true ↦ instances_text name m path depth
      | false ↦
          comment_text depth c
          ++ (indent depth
              ++ (quote name
                  ++ (codes " {\n"
                      ++ (children_text m path (suc depth) ++ (indent depth ++ codes "}\n")))))
    ]

    -- One block for each instance of a tag node.
    pub instances_text : Text → Children → ConfigPath → ℕ → Text
    instances_text name nil path depth = []
    instances_text name (entry key n m) path depth =
        instance_text name key n (child path key) depth ++ instances_text name m path depth

    pub instance_text : Text → Text → Node → ConfigPath → ℕ → Text
    instance_text name key (node c b) path depth =
        comment_text depth c
        ++ (indent depth
            ++ (quote name
                ++ (codes " "
                    ++ (quote key
                        ++ (codes " {\n"
                            ++ (body_text b path (suc depth) ++ (indent depth ++ codes "}\n")))))))

    pub body_text : Body → ConfigPath → ℕ → Text
    body_text (values vs) at depth = []
    body_text (interior m) at depth = children_text m at depth

  unfoldable pub render : ConfigTree → Text
  unfolding body_text
  render tree = elim tree.root [ node c b ↦ body_text b [] 0 ]

-- The oracle that knows no tag node.
abbrev pub nested : ConfigPath → Bool
nested path = false
