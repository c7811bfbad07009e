-- ===== src/Schema/Validate/Expand.antt =====
-- src/nightshade-schema/src/validate.rs: the patterns of constraints against a configuration.
use nightshade.Shared.{
  ℕ, zero, suc, List, [], ◌∷◌, ◌++◌, Bool, true, false, ◌&&◌, Option, none, some, if◌then◌else◌,
  ◌==◌, length, ◌-◌,
}
use nightshade.Shared.Text.{Text}
use nightshade.Schema.Path.{ConfigPath, child, last, parent}
use nightshade.Schema.PathText.{display}
use nightshade.Schema.Entries.{Children, nil, entry}
use nightshade.Schema.Config.{ConfigTree, get, contains, children_of, value_set}
use nightshade.Schema.Model.{PatternSegment, literal, any_key, current_key, PathPattern}

-- `flat_map`, into a list.
abbrev pub flat_map {ℓ} : {A B : Type ℓ} → (A → List B) → List A → List B
flat_map f [] = []
flat_map f (x ∷ xs) = f x ++ flat_map f xs

unfoldable pub key_paths : ConfigPath → Children → List ConfigPath
unfolding child
key_paths path nil = []
key_paths path (entry k n m) = child path k ∷ key_paths path m

-- The path, where something is there.
abbrev pub if_there : ConfigTree → ConfigPath → List ConfigPath
if_there tree path = if contains tree path then path ∷ [] else []

-- The paths under one that a segment of a pattern names; `@` is the key of the instance at hand.
unfoldable pub expand_step :
    ConfigTree → Option Text → PatternSegment → ConfigPath → List ConfigPath
unfolding child contains get children_of key_paths
expand_step tree current (literal name) path = if_there tree (child path name)
expand_step tree none current_key path = []
expand_step tree (some key) current_key path = if_there tree (child path key)
expand_step tree current any_key path = elim (get tree path) [
  | none ↦ []
  | some n ↦ elim (children_of n) [ none ↦ [] | some m ↦ key_paths path m ]
]

-- The paths from those found so far. Where there are none, none come of them.
unfoldable pub expand_from :
    ConfigTree → Option Text → PathPattern → List ConfigPath → List ConfigPath
unfolding expand_step
expand_from tree current [] here = here
expand_from tree current (s ∷ pattern) here =
    expand_from tree current pattern (flat_map (expand_step tree current s) here)

unfoldable pub expand : ConfigTree → PathPattern → Option Text → List ConfigPath
unfolding expand_from
expand tree pattern current = expand_from tree current pattern ([] ∷ [])

-- What a path contributes to a set of values: a leaf its values, another its last segment.
unfoldable pub contributed : ConfigTree → ConfigPath → List Text
unfolding get value_set last
contributed tree path =
    let name : List Text = elim (last path) [ none ↦ [] | some s ↦ s ∷ [] ] in
    elim (get tree path) [
      | none ↦ name
      | some n ↦ elim (value_set n) [ none ↦ name | some vs ↦ vs ]
    ]

unfoldable pub values_matching : ConfigTree → PathPattern → Option Text → List Text
unfolding expand contributed
values_matching tree pattern current = flat_map (contributed tree) (expand tree pattern current)

unfoldable pub owner_name : ConfigPath → Text
unfolding parent last display
owner_name path = elim (parent path) [
  | none ↦ display path
  | some p ↦ elim (last p) [ none ↦ display path | some s ↦ s ]
]

-- Whether a text begins with another.
unfoldable pub begins : Text → Text → Bool
begins [] s = true
begins (c ∷ pattern) [] = false
begins (c ∷ pattern) (d ∷ s) = c == d && begins pattern s

-- `out.replace(pattern, with)` of a pattern that is not empty. The number is of the characters
-- still to leave out, of an occurrence that was replaced.
unfoldable pub replace_from : ℕ → Text → Text → Text → Text
unfolding begins
replace_from left pattern by [] = []
replace_from (suc left) pattern by (c ∷ s) = replace_from left pattern by s
replace_from zero pattern by (c ∷ s) =
    let kept = replace_from zero pattern by s in
    let left_out = replace_from (length pattern - 1) pattern by s in
    if begins pattern (c ∷ s) then by ++ left_out else c ∷ kept

-- The values put for the names in braces, one name after the other.
unfoldable pub fill : Text → List (Text × Text) → Text
unfolding replace_from
fill template [] = template
fill template ((name, value) ∷ pairs) =
    fill (replace_from zero (123 ∷ (name ++ 125 ∷ [])) value template) pairs
