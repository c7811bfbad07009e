-- ===== src/Schema/Model.antt =====
-- src/nightshade-schema/src/model.rs: what the schema is, and where a path leads in it.
pub mod Completion
use nightshade.Shared.{
  ℕ, List, [], ◌∷◌, ◌++◌, Bool, true, false, not, ◌&&◌, ◌||◌, Option, none, some, if◌then◌else◌,
  ◌==◌, all, is_nil,
}
use nightshade.Shared.Text.{Text, codes, text_eq}
use nightshade.Shared.Result.{Result, ok, err}
use nightshade.Shared.Pieces.{is_alphanumeric, join}
use nightshade.Schema.Path.{ConfigPath}
use nightshade.Schema.Lex.{is_whitespace}
use nightshade.Schema.Value.{ValueSpec, placeholder}

pub record TagSpec : Type 0 where
  pub value : ValueSpec
  pub help : Text

pub data NodeKind : Type 0 where
  container : NodeKind
  tag : TagSpec → NodeKind
  leaf multi_leaf : ValueSpec → NodeKind
  flag : NodeKind

-- A segment of a pattern: a name, `*`, or `@`.
pub data PatternSegment : Type 0 where
  literal : Text → PatternSegment
  any_key current_key : PatternSegment

abbrev pub PathPattern : Type 0
PathPattern = List PatternSegment

pub data Constraint : Type 0 where
  value_in_path_set : List PathPattern → Text → Constraint
  path_exists : PathPattern → Text → Constraint
  path_has_value : PathPattern → Text → Text → Constraint

pub data GlobalConstraint : Type 0 where
  unique_across : List PathPattern → Text → GlobalConstraint
  forbid_child_on_referenced : List PathPattern → List PathPattern → Text → Text → GlobalConstraint

-- The fields of a node beside its kind and its children.
pub record Traits : Type 0 where
  pub help : Text
  pub default : Option Text
  pub secret : Bool
  pub required : Bool
  pub priority : ℕ
  pub constraints : List Constraint
  pub unique : List (List Text)
  pub exclusive : List (List Text)

mutual
  pub data SchemaNode : Type 0 where
    schema_node : NodeKind → Traits → SchemaChildren → SchemaNode

  pub data SchemaChildren : Type 0 where
    childless : SchemaChildren
    with_child : Text → SchemaNode → SchemaChildren → SchemaChildren

abbrev pub kind_of : SchemaNode → NodeKind
kind_of (schema_node k t m) = k

abbrev pub traits_of : SchemaNode → Traits
traits_of (schema_node k t m) = t

abbrev pub schema_children : SchemaNode → SchemaChildren
schema_children (schema_node k t m) = m

unfoldable pub value_spec : SchemaNode → Option ValueSpec
value_spec (schema_node (leaf spec) t m) = some spec
value_spec (schema_node (multi_leaf spec) t m) = some spec
value_spec _ = none

unfoldable pub is_tag : SchemaNode → Bool
is_tag (schema_node (tag spec) t m) = true
is_tag _ = false

unfoldable pub takes_children : SchemaNode → Bool
takes_children (schema_node container t m) = true
takes_children (schema_node (tag spec) t m) = true
takes_children _ = false

-- `s.split_whitespace()`.
extend_word : ℕ → List Text → List Text
extend_word c [] = (c ∷ []) ∷ []
extend_word c (w ∷ ws) = (c ∷ w) ∷ ws

begins_word : Text → Bool
begins_word [] = false
begins_word (c ∷ s) = not (is_whitespace c)

unfoldable pub split_whitespace : Text → List Text
unfolding extend_word begins_word
split_whitespace [] = []
split_whitespace (c ∷ s) =
    let rest = split_whitespace s in
    if is_whitespace c then rest else if begins_word s then extend_word c rest else (c ∷ []) ∷ rest

abbrev pub is_node_char : ℕ → Bool
is_node_char c = is_alphanumeric c || c == 45 || c == 95 || c == 46

unfoldable pub pattern_segment : Text → Result Text PatternSegment
pattern_segment token =
    if text_eq token (codes "*")
    then ok any_key
    else if text_eq token (codes "@")
    then ok current_key
    else if all is_node_char token
    then ok (literal token)
    else err (codes "`" ++ (token ++ codes "` is not a node name"))

unfoldable pub pattern_of : List Text → Result Text PathPattern
unfolding pattern_segment
pattern_of [] = ok []
pattern_of (token ∷ tokens) = elim (pattern_segment token) [
  | err e ↦ err e
  | ok s ↦ elim (pattern_of tokens) [ err e ↦ err e | ok p ↦ ok (s ∷ p) ]
]

unfoldable pub parse_pattern : Text → Result Text PathPattern
unfolding split_whitespace pattern_of
parse_pattern s = elim (pattern_of (split_whitespace s)) [
  | err e ↦ err e
  | ok p ↦ if is_nil p then err (codes "a path pattern cannot be empty") else ok p
]

unfoldable pub literal_prefix : PathPattern → ConfigPath
literal_prefix [] = []
literal_prefix (literal l ∷ p) = l ∷ literal_prefix p
literal_prefix (any_key ∷ p) = []
literal_prefix (current_key ∷ p) = []

unfoldable pub show_segment : PatternSegment → Text
show_segment (literal l) = l
show_segment any_key = codes "*"
show_segment current_key = codes "@"

unfoldable pub show_pattern : PathPattern → Text
unfolding show_segment
show_pattern [] = []
show_pattern (s ∷ []) = show_segment s
show_pattern (s ∷ t ∷ p) = show_segment s ++ 32 ∷ show_pattern (t ∷ p)

pub record Schema : Type 0 where
  pub root : SchemaNode
  pub globals : List GlobalConstraint

-- Where a path leads: to a node, to an instance of a tag node, or to a value of a leaf.
pub data Location : Type 0 where
  node_of instance_of value_of : SchemaNode → Location

-- `children.get(name)`.
unfoldable pub child_named : Text → SchemaChildren → Option SchemaNode
child_named name childless = none
child_named name (with_child k n m) = if text_eq k name then some n else child_named name m

-- One turn of the loop of `resolve`.
unfoldable pub step_to : Text → Location → Option Location
unfolding child_named
step_to s (node_of (schema_node container t m)) = elim (child_named s m) [
  | none ↦ none
  | some n ↦ some (node_of n)
]
step_to s (node_of (schema_node (tag spec) t m)) = some (instance_of (schema_node (tag spec) t m))
step_to s (node_of (schema_node (leaf spec) t m)) = some (value_of (schema_node (leaf spec) t m))
step_to s (node_of (schema_node (multi_leaf spec) t m)) =
    some (value_of (schema_node (multi_leaf spec) t m))
step_to s (node_of (schema_node flag t m)) = none
step_to s (instance_of n) = elim (child_named s (schema_children n)) [
  | none ↦ none
  | some k ↦ some (node_of k)
]
step_to s (value_of n) = none

unfoldable pub resolve_from : Location → ConfigPath → Option Location
unfolding step_to
resolve_from l [] = some l
resolve_from l (s ∷ p) = elim (step_to s l) [ none ↦ none | some k ↦ resolve_from k p ]

unfoldable pub resolve : Schema → ConfigPath → Option Location
unfolding resolve_from
resolve schema p = resolve_from (node_of schema.root) p

unfoldable pub node_at : Schema → ConfigPath → Option SchemaNode
unfolding resolve
node_at schema p = elim (resolve schema p) [
  | none ↦ none
  | some (node_of n) ↦ some n
  | some (instance_of n) ↦ some n
  | some (value_of n) ↦ some n
]

unfoldable pub is_tag_node : Schema → ConfigPath → Bool
unfolding resolve is_tag
is_tag_node schema p = elim (resolve schema p) [ some (node_of n) ↦ is_tag n | _ ↦ false ]

-- `split_value` from a location, with the segments before it and the whole line.
unfoldable pub split_from :
    Location → ConfigPath → ConfigPath → ConfigPath → ConfigPath × Option Text
unfolding child_named
split_from l before typed [] = (typed, none)
split_from (node_of (schema_node container t m)) before typed (s ∷ p) = elim (child_named s m) [
  | none ↦ (typed, none)
  | some n ↦ split_from (node_of n) (before ++ s ∷ []) typed p
]
split_from (node_of (schema_node (tag spec) t m)) before typed (s ∷ p) =
    split_from (instance_of (schema_node (tag spec) t m)) (before ++ s ∷ []) typed p
split_from (node_of (schema_node (leaf spec) t m)) before typed (s ∷ p) = (before, some s)
split_from (node_of (schema_node (multi_leaf spec) t m)) before typed (s ∷ p) = (before, some s)
split_from (node_of (schema_node flag t m)) before typed (s ∷ p) = (typed, none)
split_from (instance_of n) before typed (s ∷ p) = elim (child_named s (schema_children n)) [
  | none ↦ (typed, none)
  | some k ↦ split_from (node_of k) (before ++ s ∷ []) typed p
]
split_from (value_of n) before typed (s ∷ p) = (typed, none)

unfoldable pub split_value : Schema → ConfigPath → ConfigPath × Option Text
unfolding split_from
split_value schema typed = split_from (node_of schema.root) [] typed typed

unfoldable pub default_for : Schema → ConfigPath → Option Text
unfolding resolve
default_for schema p = elim (resolve schema p) [
  | some (node_of n) ↦ (traits_of n).default
  | _ ↦ none
]
