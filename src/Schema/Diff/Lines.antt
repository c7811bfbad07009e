-- ===== src/Schema/Diff/Lines.antt =====
-- src/nightshade-schema/src/diff.rs: which lines a configuration has, read off its nodes.
use nightshade.Shared.{
  List, [], ◌∷◌, ◌++◌, Bool, true, false, not, ◌&&◌, ◌||◌, Option, none, some, ◌≡◌, refl, ap, sym,
  ◌∙◌, is_nil, if◌then◌else◌, arith, Bool-cases, Option-cases, inl, inr,
}
use mathlib.Core.Path.{subst}
use nightshade.Shared.Text.{Text, text_eq, text_eq_iff}
use nightshade.Schema.Path.{ConfigPath, child}
use nightshade.Schema.Entries.{Node, Children, node, interior, values, nil, entry, find}
use nightshade.Schema.ValueSet.{Values, has_value}
use nightshade.Schema.Config.{ConfigTree, get, get_node}
use nightshade.Schema.Diff.{
  Line, path_eq, value_eq, line_eq, has_line, add_line, add_values, close, collect,
  collect_children, lines,
}
use nightshade.Schema.Diff.Order.{line_eq_iff, path_eq_iff}

-- Whether a node, that stands somewhere below the root or at it, is one that holds a value, or, of no
-- value, one that holds nothing.
abbrev pub shows : Option Text → Bool → Node → Bool
shows (some v) below (node c (values vs)) = has_value v vs
shows (some v) below (node c (interior m)) = false
shows none below (node c (values vs)) = is_nil vs
shows none below (node c (interior nil)) = below
shows none below (node c (interior (entry name n m))) = false

-- A line of a configuration: its node holds the value, or nothing at all.
abbrev pub holds_line : Line → ConfigTree → Bool
holds_line l t = elim (get t l.0) [ none ↦ false | some n ↦ shows l.1 (not (is_nil l.0)) n ]

abbrev mutual
  -- No two children of a node have the same name, as in a `BTreeMap`.
  pub IsKeyed : Node → Type 0
  IsKeyed (node c (values vs)) = Unit {0}
  IsKeyed (node c (interior m)) = AreKeyed m

  pub AreKeyed : Children → Type 0
  AreKeyed nil = Unit {0}
  AreKeyed (entry name n m) = (find name m ≡ none) × IsKeyed n × AreKeyed m

-- What is left of a path after another that it begins with.
unfoldable rest_after : ConfigPath → ConfigPath → Option ConfigPath
rest_after [] q = some q
rest_after (s ∷ p) [] = none
rest_after (s ∷ p) (t ∷ q) = if text_eq s t then rest_after p q else none

abbrev shown_at : Option Text → Bool → Option Node → Bool
shown_at v below none = false
shown_at v below (some n) = shows v below n

-- The line of a node below the one at a path.
abbrev found : Line → ConfigPath → Node → Bool
found l at n = elim (rest_after at l.0) [
  | none ↦ false
  | some r ↦ shown_at l.1 (not (is_nil l.0)) (get_node r n)
]

abbrev found_in : Line → ConfigPath → Children → Bool
found_in l at m = elim (rest_after at l.0) [
  | none ↦ false
  | some [] ↦ false
  | some (s ∷ r) ↦ elim (find s m) [
    | none ↦ false
    | some n ↦ shown_at l.1 (not (is_nil l.0)) (get_node r n)
  ]
]

has_line-append :
    (l k : Line) (ks : List Line) → has_line l (ks ++ k ∷ []) ≡ (has_line l ks || line_eq k l)
unfolding has_line
has_line-append l k [] = ground arith
has_line-append l k (j ∷ ks) = ground (arith, has_line-append l k ks)

has_line-add_line :
    (l k : Line) (ks : List Line) → has_line l (add_line k ks) ≡ (line_eq k l || has_line l ks)
unfolding has_line add_line
has_line-add_line l k ks = ground (arith, has_line-append l k ks, line_eq_iff k l)

has_line-add_values :
    (l : Line) (at : ConfigPath) (vs : Values) (out : List Line)
    → has_line l (add_values at vs out)
      ≡ (has_line l out || (path_eq at l.0 && elim l.1 [ none ↦ false | some v ↦ has_value v vs ]))
unfolding add_values has_value line_eq value_eq
has_line-add_values l at [] out = ground (arith, Option-cases l.1)
has_line-add_values l at (v ∷ vs) out = ground (
  arith,
  has_line-add_values l at vs (add_line (at, some v) out),
  has_line-add_line l (at, some v) out,
  Option-cases l.1,
)

path_eq-rest_after :
    (p q : ConfigPath) → path_eq p q ≡ (elim (rest_after p q) [ some [] ↦ true | _ ↦ false ])
unfolding path_eq rest_after
path_eq-rest_after [] [] = refl
path_eq-rest_after [] (t ∷ q) = refl
path_eq-rest_after (s ∷ p) [] = refl
path_eq-rest_after (s ∷ p) (t ∷ q) = ground (arith, path_eq-rest_after p q)

rest_after-child :
    (p q : ConfigPath) (name : Text)
    → rest_after (child p name) q ≡ (elim (rest_after p q) [
      | none ↦ none
      | some [] ↦ none
      | some (s ∷ r) ↦ if text_eq name s then some r else none
    ])
unfolding rest_after child
rest_after-child [] [] name = refl
rest_after-child [] (t ∷ q) name = refl
rest_after-child (s ∷ p) [] name = refl
rest_after-child (s ∷ p) (t ∷ q) name = ground (arith, rest_after-child p q name)

-- A child of a node is found under its name, and no other under that name.
found-entry :
    (l : Line) (at : ConfigPath) (name : Text) (n : Node) (m : Children)
    → find name m ≡ none
    → (found l (child at name) n || found_in l at m) ≡ found_in l at (entry name n m)
unfolding find
found-entry l at name n m gone = elim (Option-cases (rest_after at l.0)) [
  | inl e ↦ ground (arith, e, rest_after-child at l.0 name)
  | inr ([], e) ↦ ground (arith, e, rest_after-child at l.0 name)
  | inr (s ∷ r, e) ↦ elim (Bool-cases (text_eq name s)) [
    | inl same ↦
        let there : name ≡ s = (text_eq_iff name s).0 same in
        let none_there : find s m ≡ none = subst (λ x. find x m ≡ none) there gone in
        ground (
          arith,
          e,
          same,
          none_there,
          rest_after-child at l.0 name,
          Bool-cases (shown_at l.1 (not (is_nil l.0)) (get_node r n)),
        )
    | inr other ↦ ground (arith, e, other, rest_after-child at l.0 name)
  ]
]

child_is_not_root : (at : ConfigPath) (name : Text) → is_nil (child at name) ≡ false
unfolding child
child_is_not_root [] name = refl
child_is_not_root (s ∷ at) name = refl

abbrev has_children : Children → Bool
has_children nil = false
has_children (entry name n m) = true

mutual
  unfolding collect collect_children close

  collect-any :
      (n : Node) (at : ConfigPath) (out : List Line)
      → is_nil at ≡ false
      → (collect n at out).0 ≡ true
  collect-any (node c (values [])) at out below = refl
  collect-any (node c (values (v ∷ vs))) at out below = refl
  collect-any (node c (interior m)) at out below =
      ground (arith, below, Bool-cases (collect_children m at false out).0)

  collect_children-any :
      (m : Children) (at : ConfigPath) (any : Bool) (out : List Line)
      → (collect_children m at any out).0 ≡ (any || has_children m)
  collect_children-any nil at any out = ground arith
  collect_children-any (entry name n m) at any out =
      let one = collect-any n (child at name) out (child_is_not_root at name) in
      collect_children-any m at (any || (collect n (child at name) out).0)
        (collect n (child at name) out).1
      ∙ ground (arith, one)

here : (at q : ConfigPath) → rest_after at q ≡ some [] → at ≡ q
here at q e =
    (path_eq_iff at q).0
      (path_eq-rest_after at q ∙ ap (λ r. elim r [ some [] ↦ true | _ ↦ false ]) e)

-- The lines of a leaf.
has_line-leaf :
    (c : Option Text) (vs : Values) (at : ConfigPath) (out : List Line) (l : Line)
    → has_line l (collect (node c (values vs)) at out).1
      ≡ (has_line l out || found l at (node c (values vs)))
unfolding collect get_node line_eq value_eq has_value
has_line-leaf c [] at out l =
    ground (arith, has_line-add_line l (at, none) out, path_eq-rest_after at l.0, Option-cases l.1)
has_line-leaf c (v ∷ vs) at out l =
    ground
      (arith, has_line-add_values l at (v ∷ vs) out, path_eq-rest_after at l.0, Option-cases l.1)

-- The line of a node without children.
has_line-close :
    (c : Option Text) (at : ConfigPath) (out : List Line) (l : Line)
    → has_line l (close at (false, out)).1 ≡ (has_line l out || found l at (node c (interior nil)))
unfolding close get_node find line_eq value_eq
has_line-close c at out l = elim (Option-cases (rest_after at l.0)) [
  | inl e ↦ ground (
    arith,
    e,
    has_line-add_line l (at, none) out,
    path_eq-rest_after at l.0,
    Bool-cases (is_nil at),
  )
  | inr ([], e) ↦
      let same = ap (λ (p : ConfigPath). is_nil p) (here at l.0 e) in
      ground (
        arith,
        e,
        same,
        has_line-add_line l (at, none) out,
        path_eq-rest_after at l.0,
        Bool-cases (is_nil at),
        Bool-cases (is_nil l.0),
        Option-cases l.1,
      )
  | inr (s ∷ r, e) ↦ ground (
    arith,
    e,
    has_line-add_line l (at, none) out,
    path_eq-rest_after at l.0,
    Bool-cases (is_nil at),
  )
]

found_below :
    (l : Line) (s : Text) (r : ConfigPath) (name : Text) (n : Node) (m : Children) (c : Option Text)
    → shown_at l.1 (not (is_nil l.0)) (get_node (s ∷ r) (node c (interior (entry name n m))))
      ≡ (elim (find s (entry name n m)) [
        | none ↦ false
        | some x ↦ shown_at l.1 (not (is_nil l.0)) (get_node r x)
      ])
unfolding get_node
found_below l s r name n m c = elim (Option-cases (find s (entry name n m))) [
  | inl e ↦ rw (get_node, e) refl
  | inr (_, e) ↦ rw (get_node, e) refl
]

found-interior :
    (c : Option Text) (name : Text) (n : Node) (m : Children) (at : ConfigPath) (l : Line)
    → found l at (node c (interior (entry name n m))) ≡ found_in l at (entry name n m)
unfolding get_node
found-interior c name n m at l = elim (Option-cases (rest_after at l.0)) [
  | inl e ↦ ground (arith, e)
  | inr ([], e) ↦ ground (arith, e, Option-cases l.1)
  | inr (s ∷ r, e) ↦ rw (found, found_in, e) (found_below l s r name n m c)
]

found_in-nil : (l : Line) (at : ConfigPath) → found_in l at nil ≡ false
unfolding find
found_in-nil l at = elim (Option-cases (rest_after at l.0)) [
  | inl e ↦ ground (arith, e)
  | inr ([], e) ↦ ground (arith, e)
  | inr (s ∷ r, e) ↦ ground (arith, e)
]

close_any : (at : ConfigPath) (x : Bool × List Line) → x.0 ≡ true → (close at x).1 ≡ x.1
unfolding close
close_any at (any, out) e = ground (arith, e)

mutual
  unfolding collect collect_children

  -- Collecting the lines of a node adds those that are found below it.
  has_line-collect :
      (n : Node) (at : ConfigPath) (out : List Line) (l : Line)
      → IsKeyed n
      → has_line l (collect n at out).1 ≡ (has_line l out || found l at n)
  has_line-collect (node c (values vs)) at out l h = has_line-leaf c vs at out l
  has_line-collect (node c (interior nil)) at out l h = has_line-close c at out l
  has_line-collect (node c (interior (entry name n m))) at out l h =
      let one = collect-any n (child at name) out (child_is_not_root at name) in
      let any = collect_children-any (entry name n m) at false out in
      ap (has_line l) (close_any at (collect_children (entry name n m) at false out) any)
      ∙ has_line-collect_children (entry name n m) at false out l h
      ∙ ap (λ b. has_line l out || b) (sym (found-interior c name n m at l))

  has_line-collect_children :
      (m : Children) (at : ConfigPath) (any : Bool) (out : List Line) (l : Line)
      → AreKeyed m
      → has_line l (collect_children m at any out).1 ≡ (has_line l out || found_in l at m)
  has_line-collect_children nil at any out l h = ground (arith, found_in-nil l at)
  has_line-collect_children (entry name n m) at any out l (gone, hn, hm) =
      let (one, out') = collect n (child at name) out in
      has_line-collect_children m at (any || one) out' l hm
      ∙ ground
          (arith, has_line-collect n (child at name) out l hn, sym (found-entry l at name n m gone))

-- The lines of a configuration are those that its nodes hold.
pub has_line-lines :
    (l : Line) (t : ConfigTree) → IsKeyed t.root → has_line l (lines t) ≡ holds_line l t
unfolding lines get has_line rest_after
has_line-lines l t h = has_line-collect t.root [] [] l h
