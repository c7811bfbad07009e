-- ===== src/Schema/Path.antt =====
-- src/nightshade-schema/src/path.rs: the location of a node, as its segments from the root.
use nightshade.Shared.{
  List, [], ◌∷◌, ◌++◌, Bool, true, false, ◌&&◌, Option, none, some, is_nil, Option-cases, inl, inr,
  ◌≡◌, arith,
}
use nightshade.Shared.Text.{Text, text_eq}

abbrev pub ConfigPath : Type 0
ConfigPath = List Text

abbrev pub root : ConfigPath
root = []

abbrev pub is_empty : ConfigPath → Bool
is_empty p = is_nil p

-- `segments.split_last()`: everything but the last segment, and the last segment.
unfoldable pub split_last : ConfigPath → Option (ConfigPath × Text)
split_last [] = none
split_last (s ∷ []) = some ([], s)
split_last (s ∷ t ∷ p) = elim (split_last (t ∷ p)) [
  | none ↦ none
  | some (head, last) ↦ some (s ∷ head, last)
]

unfoldable pub last : ConfigPath → Option Text
last [] = none
last (s ∷ []) = some s
last (s ∷ t ∷ p) = last (t ∷ p)

unfoldable pub child : ConfigPath → Text → ConfigPath
child p s = p ++ s ∷ []

unfoldable pub parent : ConfigPath → Option ConfigPath
parent [] = none
parent (s ∷ []) = some []
parent (s ∷ t ∷ p) = elim (parent (t ∷ p)) [ none ↦ none | some q ↦ some (s ∷ q) ]

-- `segments.starts_with(&prefix.segments)`.
unfoldable pub starts_with : ConfigPath → ConfigPath → Bool
starts_with p [] = true
starts_with [] (s ∷ q) = false
starts_with (t ∷ p) (s ∷ q) = text_eq t s && starts_with p q

-- A path is its parent with its last segment appended.
pub split_last-append :
    (p : ConfigPath) (head : ConfigPath) (l : Text)
    → split_last p ≡ some (head, l)
    → p ≡ head ++ l ∷ []
unfolding split_last
split_last-append [] head l h = cc
split_last-append (s ∷ []) head l h = ground arith
split_last-append (s ∷ t ∷ p) head l h = elim (Option-cases (split_last (t ∷ p))) [
  | inl e ↦ absurd (ground (arith, e))
  | inr ((q, k), e) ↦ ground (arith, e, split_last-append (t ∷ p) q k e)
]
