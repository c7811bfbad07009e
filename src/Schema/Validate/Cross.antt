-- ===== src/Schema/Validate/Cross.antt =====
-- src/nightshade-schema/src/validate.rs: the constraints that nodes place on others.
use nightshade.Shared.{
  List, [], ◌∷◌, ◌++◌, Bool, true, false, not, ◌&&◌, ◌||◌, Option, none, some, if◌then◌else◌, ltb,
  length, is_some,
}
use nightshade.Shared.Text.{Text, codes}
use nightshade.Shared.Pieces.{is_member, join}
use nightshade.Schema.Path.{ConfigPath, child}
use nightshade.Schema.PathText.{display}
use nightshade.Schema.Entries.{Node, Body, Children, node, interior, values, nil, entry, find}
use nightshade.Schema.ValueSet.{Values, has_value}
use nightshade.Schema.Config.{ConfigTree, children_of, value_set, value, values_at}
use nightshade.Schema.Diff.{path_eq}
use nightshade.Schema.Model.{
  SchemaNode, SchemaChildren, childless, with_child, schema_children, traits_of, Constraint,
  value_in_path_set, path_exists, path_has_value, show_pattern, Location, node_of, instance_of,
  value_of, child_named, is_tag,
}
use nightshade.Schema.Validate.{Violation, violation}
use nightshade.Schema.Validate.Expand.{flat_map, expand, values_matching, fill}

unfoldable pub check_required : SchemaChildren → Children → ConfigPath → List Violation
unfolding find child
check_required childless k at = []
check_required (with_child name n m) k at =
    (if (traits_of n).required && not (is_some (find name k))
      then violation (child at name) (codes "is required but is not set")
      else [])
    ++ check_required m k at

-- The names of a group under which something is set.
unfoldable pub set_names : Children → List Text → List Text
unfolding find
set_names k [] = []
set_names k (name ∷ group) =
    let rest = set_names k group in if is_some (find name k) then name ∷ rest else rest

unfoldable pub check_exclusive : List (List Text) → Children → ConfigPath → List Violation
unfolding set_names
check_exclusive [] k at = []
check_exclusive (group ∷ groups) k at =
    (if ltb 1 (length (set_names k group))
      then violation at (join (codes " and ") (set_names k group) ++ codes " cannot both be set")
      else [])
    ++ check_exclusive groups k at

-- The single values of the named children of an instance; none where one of them has not one.
unfoldable pub tuple_of : Node → List Text → Option (List Text)
unfolding children_of find value
tuple_of n [] = some []
tuple_of n (name ∷ names) =
    let rest = tuple_of n names in
    elim (children_of n) [
      | none ↦ none
      | some m ↦ elim (find name m) [
        | none ↦ none
        | some k ↦ elim (value k) [
          | none ↦ none
          | some v ↦ elim rest [ none ↦ none | some vs ↦ some (v ∷ vs) ]
        ]
      ]
    ]

-- A map from tuples to the keys that had them first.
unfoldable pub seen_with : List Text → List (List Text × Text) → Option Text
unfolding path_eq
seen_with vs [] = none
seen_with vs ((ws, key) ∷ seen) = if path_eq ws vs then some key else seen_with vs seen

abbrev pub same_as : List Text → Text → List Text → Text
same_as tuple other vs =
    codes "has the same "
    ++ (join (codes " and ") tuple
        ++ (codes " as " ++ (other ++ (codes " (" ++ (join (codes ", ") vs ++ codes ")")))))

unfoldable pub unique_from :
    List Text → Children → ConfigPath → List (List Text × Text) → List Violation
unfolding tuple_of seen_with child
unique_from tuple nil at seen = []
unique_from tuple (entry key n k) at seen = elim (tuple_of n tuple) [
  | none ↦ unique_from tuple k at seen
  | some vs ↦ elim (seen_with vs seen) [
    | some other ↦ violation (child at key) (same_as tuple other vs) ++ unique_from tuple k at seen
    | none ↦ unique_from tuple k at ((vs, key) ∷ seen)
  ]
]

unfoldable pub check_unique : List (List Text) → Children → ConfigPath → List Violation
unfolding unique_from
check_unique [] k at = []
check_unique (tuple ∷ tuples) k at = unique_from tuple k at [] ++ check_unique tuples k at

module _ (tree : ConfigTree) where
  unfoldable pub outside : Text → List Text → ConfigPath → Values → List Violation
  unfolding fill display
  outside message allowed at [] = []
  outside message allowed at (v ∷ vs) =
      (if is_member v allowed
        then []
        else violation at (fill message ((codes "value", v) ∷ (codes "path", display at) ∷ [])))
      ++ outside message allowed at vs

  -- Whether some path that the pattern names holds the value.
  unfoldable pub holds_at : Text → List ConfigPath → Bool
  unfolding values_at has_value
  holds_at v [] = false
  holds_at v (p ∷ ps) =
      (elim (values_at tree p) [ none ↦ false | some vs ↦ has_value v vs ]) || holds_at v ps

  unfoldable pub check_constraint : Constraint → Node → ConfigPath → Option Text → List Violation
  unfolding value_set expand values_matching outside holds_at fill show_pattern
  check_constraint (value_in_path_set paths message) config at current = elim (value_set config) [
    | none ↦ []
    | some vs ↦ outside message (flat_map (λ p. values_matching tree p current) paths) at vs
  ]
  check_constraint (path_exists path message) config at current = elim (expand tree path current) [
    | [] ↦ violation at (fill message ((codes "path", show_pattern path) ∷ []))
    | ◌∷◌ _ _ ↦ []
  ]
  check_constraint (path_has_value path v message) config at current =
      if holds_at v (expand tree path current)
      then []
      else violation at (fill message ((codes "path", show_pattern path) ∷ (codes "value", v) ∷ []))

  abbrev pub own_constraints : SchemaNode → Node → ConfigPath → Option Text → List Violation
  own_constraints s config at current =
      flat_map (λ c. check_constraint c config at current) (traits_of s).constraints

  unfoldable mutual
    unfolding child child_named check_required check_exclusive check_unique check_constraint is_tag

    pub check_cross : Location → Node → ConfigPath → Option Text → List Violation
    check_cross (value_of s) config at current = []
    check_cross (node_of s) (node c b) at current =
        own_constraints s (node c b) at current ++ cross_below (is_tag s) s b at current
    check_cross (instance_of s) (node c b) at current =
        own_constraints s (node c b) at current ++ cross_below false s b at current

    -- The flag says that the children are the instances of a tag node.
    pub cross_below : Bool → SchemaNode → Body → ConfigPath → Option Text → List Violation
    cross_below over_keys s (values v) at current = []
    cross_below true s (interior k) at current =
        check_unique (traits_of s).unique k at ++ cross_keys s k at
    cross_below false s (interior k) at current =
        check_required (schema_children s) k at
        ++ (check_exclusive (traits_of s).exclusive k at
            ++ cross_children (schema_children s) k at current)

    pub cross_keys : SchemaNode → Children → ConfigPath → List Violation
    cross_keys s nil at = []
    cross_keys s (entry key n k) at =
        check_cross (instance_of s) n (child at key) (some key) ++ cross_keys s k at

    pub cross_children : SchemaChildren → Children → ConfigPath → Option Text → List Violation
    cross_children m nil at current = []
    cross_children m (entry name n k) at current =
        (elim (child_named name m) [
          | none ↦ []
          | some s ↦ check_cross (node_of s) n (child at name) current
        ])
        ++ cross_children m k at current
