-- ===== src/Schema/Validate/Keeps.antt =====
-- src/nightshade-schema/src/validate.rs: what a `set` keeps of a valid configuration.
use nightshade.Shared.{[], ◌∷◌, ◌++◌, Option, none, ◌≡◌, arith, Option-cases, inl, inr}
use nightshade.Shared.Text.{Text}
use nightshade.Shared.Result.{ok, Result-cases}
use nightshade.Schema.Path.{ConfigPath, child}
use nightshade.Schema.Entries.{Node, Children, node, interior, values, nil, find, insert, replace}
use nightshade.Schema.Config.{Outcome, interior_node, parent_of}
use nightshade.Schema.Model.{Location}
use nightshade.Schema.Validate.{Platform}
use nightshade.Schema.Validate.Setting.{enter, walk}
use nightshade.Schema.Validate.Types.{check_types}
use nightshade.Schema.Validate.Fits.{
  Every, Every-find, Every-insert, Every-replace, IsFitting, check_types_fits, enter-place,
  enter-takes_names, fits-check_types,
}

module _ (platform : Platform) (full : ConfigPath) (edit : Children → Children × Outcome) where
  module _ (last : Text) (out : Location)
      (keep : (at : ConfigPath) (l : Location) (m : Children)
        → enter platform.zones (child at last) last l ≡ ok out
        → Every (IsFitting platform l at) m
        → Every (IsFitting platform l at) (edit m).0) where
    -- Whatever leads anywhere takes children, and no child is wrong.
    interior_node-fits :
        (ps at : ConfigPath) (l : Location)
        → walk platform.zones at (ps ++ last ∷ []) l ≡ ok out
        → check_types platform l interior_node at ≡ []
    unfolding walk child
    interior_node-fits [] at l h =
        elim (Result-cases (enter platform.zones (child at last) last l)) [
          | inr (e, stuck) ↦ absurd (ground (arith, stuck))
          | inl (k, led) ↦
              fits-check_types platform none nil at l
                (enter-takes_names platform (child at last) last l k led) tt
        ]
    interior_node-fits (s ∷ ps) at l h =
        elim (Result-cases (enter platform.zones (child at s) s l)) [
          | inr (e, stuck) ↦ absurd (ground (arith, stuck))
          | inl (k, led) ↦
              fits-check_types platform none nil at l
                (enter-takes_names platform (child at s) s l k led) tt
        ]

    -- One step down: the node that is there, or one that is made, is replaced by a valid one.
    step_keeps :
        (s : Text) (ps at w : ConfigPath) (l : Location) (c : Option Text) (m : Children)
        (k : Location)
        → enter platform.zones (child at s) s l ≡ ok k
        → walk platform.zones (child at s) (ps ++ last ∷ []) k ≡ ok out
        → Every (IsFitting platform l at) m
        → ((n : Node)
            → check_types platform k n (child at s) ≡ []
            → check_types platform k (parent_of ps (w ++ s ∷ []) full edit n).0 (child at s) ≡ [])
        → check_types platform l (parent_of (s ∷ ps) w full edit (node c (interior m))).0 at ≡ []
    unfolding parent_of
    step_keeps s ps at w l c m k led later fit below = elim (Option-cases (find s m)) [
      | inl gone ↦
          let made = (parent_of ps (w ++ s ∷ []) full edit interior_node).0 in
          let good : check_types platform k made (child at s) ≡ [] =
            below interior_node (interior_node-fits ps (child at s) k later) in
          rw (gone, parent_of)
            (fits-check_types platform c (insert s made m) at l
              (enter-takes_names platform (child at s) s l k led)
              (Every-insert (IsFitting platform l at) s made m (k, led, good) fit))
      | inr (n, there) ↦
          let (k', led', good) = Every-find (IsFitting platform l at) s n m fit there in
          let made = (parent_of ps (w ++ s ∷ []) full edit n).0 in
          let kept : check_types platform k made (child at s) ≡ [] =
            below n (ground (arith, led, led', good)) in
          rw (there, parent_of)
            (fits-check_types platform c (replace s made m) at l
              (enter-takes_names platform (child at s) s l k led)
              (Every-replace (IsFitting platform l at) s made m (k, led, kept) fit))
    ]

    -- An edit under the parent of a path that the schema knows keeps a tree that is valid, where
    -- it keeps the entries of the parent valid.
    pub parent_of_keeps :
        (ps at w : ConfigPath) (l : Location) (n : Node)
        → walk platform.zones at (ps ++ last ∷ []) l ≡ ok out
        → check_types platform l n at ≡ []
        → check_types platform l (parent_of ps w full edit n).0 at ≡ []
    unfolding walk child parent_of
    parent_of_keeps ps at w l (node c (values v)) h good = good
    parent_of_keeps [] at w l (node c (interior m)) h good =
        elim (Result-cases (enter platform.zones (child at last) last l)) [
          | inr (e, stuck) ↦ absurd (ground (arith, stuck))
          | inl (k, led) ↦
              let there : enter platform.zones (child at last) last l ≡ ok out =
                ground (arith, led, h) in
              fits-check_types platform c (edit m).0 at l
                (enter-takes_names platform (child at last) last l k led)
                (keep at l m there (
                  check_types_fits platform c m at l
                    (enter-place platform (child at last) last l k led).0 good))
        ]
    parent_of_keeps (s ∷ ps) at w l (node c (interior m)) h good =
        elim (Result-cases (enter platform.zones (child at s) s l)) [
          | inr (e, stuck) ↦ absurd (ground (arith, stuck))
          | inl (k, led) ↦
              let later : walk platform.zones (child at s) (ps ++ last ∷ []) k ≡ ok out =
                ground (arith, led, h) in
              let fit =
                check_types_fits platform c m at l (enter-place platform (child at s) s l k led).0
                  good in
              step_keeps s ps at w l c m k led later fit
                (λ n'. parent_of_keeps ps (child at s) (w ++ s ∷ []) k n' later)
        ]
