-- ===== src/Schema/Validate/Global.antt =====
-- src/nightshade-schema/src/validate.rs: the constraints on a configuration as a whole.
use nightshade.Shared.{
  List, [], ◌∷◌, ◌++◌, Bool, ◌&&◌, none, if◌then◌else◌, ltb, length, Ordering, map,
}
use nightshade.Shared.Text.{Text, codes, text_eq, text_compare}
use nightshade.Shared.Pieces.{join}
use nightshade.Shared.Sort.{then_compare, sort_by}
use nightshade.Schema.Path.{ConfigPath, child}
use nightshade.Schema.PathText.{display}
use nightshade.Schema.Config.{ConfigTree, contains}
use nightshade.Schema.Diff.{path_eq, path_compare}
use nightshade.Schema.Model.{
  PathPattern, GlobalConstraint, unique_across, forbid_child_on_referenced, Schema, node_of,
}
use nightshade.Schema.Validate.{Violation, violation}
use nightshade.Schema.Validate.Expand.{flat_map, expand, contributed, owner_name, fill}
use nightshade.Schema.Validate.Cross.{check_cross}

abbrev pub Claims : Type 0
Claims = List (Text × List ConfigPath)

-- `claims.entry(value).or_default().push(path)`, on a map in the order of its keys.
unfoldable pub claim : Text → ConfigPath → Claims → Claims
claim v path [] = (v, path ∷ []) ∷ []
claim v path ((w, paths) ∷ claims) =
    let rest = claim v path claims in
    elim (text_compare v w) [
      | Ordering.lt ↦ (v, path ∷ []) ∷ (w, paths) ∷ claims
      | Ordering.eq ↦ (w, paths ++ path ∷ []) ∷ claims
      | Ordering.gt ↦ (w, paths) ∷ rest
    ]

unfoldable pub claim_values : List Text → ConfigPath → Claims → Claims
unfolding claim
claim_values [] path claims = claims
claim_values (v ∷ vs) path claims = claim_values vs path (claim v path claims)

unfoldable pub claim_paths : ConfigTree → List ConfigPath → Claims → Claims
unfolding claim_values contributed
claim_paths tree [] claims = claims
claim_paths tree (p ∷ ps) claims = claim_paths tree ps (claim_values (contributed tree p) p claims)

unfoldable pub contested : Text → Claims → List Violation
unfolding owner_name fill path_compare
contested message [] = []
contested message ((v, paths) ∷ claims) =
    let referrers = sort_by path_compare paths in
    let names = join (codes ", ") (map owner_name referrers) in
    let text = fill message ((codes "value", v) ∷ (codes "referrers", names) ∷ []) in
    (if ltb (length paths) 2 then [] else map (λ p. record { path = p; message = text }) referrers)
    ++ contested message claims

module _ (tree : ConfigTree) where
  -- The child that is forbidden, under each place where what the value names is found.
  abbrev pub forbidden : List PathPattern → Text → Text → ConfigPath → Text → List Violation
  forbidden search forbid message referrer v =
      flat_map
        (λ base.
          flat_map
            (λ base_path.
              let target = child (child base_path v) forbid in
              if contains tree target
              then violation target (
                  fill message (
                    (codes "value", v)
                    ∷ (codes "referrer", owner_name referrer)
                    ∷ (codes "referrer-path", display referrer)
                    ∷ []))
              else [])
            (expand tree base none))
        search

  unfoldable pub check_global : GlobalConstraint → List Violation
  unfolding claim_paths contested expand contributed owner_name fill contains display child
  check_global (unique_across paths message) =
      contested message (claim_paths tree (flat_map (λ p. expand tree p none) paths) [])
  check_global (forbid_child_on_referenced references search forbid message) =
      flat_map
        (λ p.
          flat_map
            (λ referrer.
              flat_map (forbidden search forbid message referrer) (contributed tree referrer))
            (expand tree p none))
        references

unfoldable pub violation_compare : Violation → Violation → Ordering
unfolding path_compare
violation_compare a b = then_compare (path_compare a.path b.path) (text_compare a.message b.message)

unfoldable pub violation_eq : Violation → Violation → Bool
unfolding path_eq
violation_eq a b = path_eq a.path b.path && text_eq a.message b.message

-- `dedup`: of equal neighbours the first.
unfoldable pub dedup : List Violation → List Violation
unfolding violation_eq
dedup [] = []
dedup (v ∷ []) = v ∷ []
dedup (v ∷ w ∷ vs) =
    let rest = dedup (w ∷ vs) in
    elim rest [ [] ↦ v ∷ [] | ◌∷◌ x xs ↦ if violation_eq v x then v ∷ xs else v ∷ x ∷ xs ]

unfoldable pub check_constraints : Schema → ConfigTree → List Violation
unfolding check_cross check_global violation_compare dedup
check_constraints schema config = dedup (
    sort_by violation_compare (
      check_cross config (node_of schema.root) config.root [] none
      ++ flat_map (check_global config) schema.globals))
