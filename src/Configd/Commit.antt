-- ===== src/Configd/Commit.antt =====
-- src/nightshade-configd/src/commit.rs: the commit pipeline, and the `Renderer` trait of
-- src/nightshade-render/src/artifacts.rs that it drives.
--
-- A renderer is a record of its methods over the state `W` of the machine. A message that a
-- failure carries is a text; `subsystem` is the renderer's name.
pub mod Order
pub mod Priority
pub mod Effects
pub mod Logging
pub mod Trace
use nightshade.Shared.{
  ℕ, List, [], ◌∷◌, ◌++◌, Bool, true, false, Option, none, some, if◌then◌else◌, is_nil, Ordering,
  compare, length,
}
use nightshade.Shared.Text.{Text, codes}
use nightshade.Shared.Result.{Result, ok, err, ◌>>=◌, ◌>>◌, map_err}
use nightshade.Shared.Sort.{then_compare, sort_by}
use nightshade.Schema.Path.{ConfigPath, parent}
use nightshade.Schema.Config.{ConfigTree}
use nightshade.Schema.Diff.{Change, path_compare, op_compare}
use nightshade.Schema.Validate.{Violation}

-- What configd asks of the schema, of src/nightshade-schema/src/{model,validate,curly}.rs. The
-- edits return the new tree, or the message of their error.
pub record SchemaOps : Type 0 where
  pub validate_tree : ConfigTree → List Violation
  pub check_constraints : ConfigTree → List Violation
  pub apply_set : ConfigTree → ConfigPath → Option Text → Result Text ConfigTree
  pub apply_delete : ConfigTree → ConfigPath → Option Text → Result Text ConfigTree
  pub priority_at : ConfigPath → Option ℕ
  pub render_curly : ConfigTree → Text
  pub parse_curly : Text → Result Text ConfigTree
  pub defaults : ConfigTree

abbrev pub Done : Type 0
Done = Result Text (Unit {0})

pub record Renderer (W A : Type 0) : Type 0 where
  pub name : Text
  pub render : ConfigTree → Result Text A
  pub check : A → Done
  pub apply : A → W → Done × W
  pub verify : A → W → Done
  pub previous : W → Option A
  pub remember : A → W → Done × W

pub data CommitError : Type 0 where
  invalid : List Violation → CommitError
  unrendered : Text → Text → CommitError
  unchecked : Text → Text → CommitError
  applied : Text → Text → CommitError
  unrecovered : Text → Text → Text → CommitError

unfoldable pub validate : SchemaOps → ConfigTree → Result CommitError (Unit {0})
validate schema candidate =
    let structure = schema.validate_tree candidate in
    let violations = if is_nil structure then schema.check_constraints candidate else structure in
    if is_nil violations then ok tt else err (invalid violations)

-- The priority of the nearest node above a path that the schema knows; `u32::MAX` if there is
-- none. The walk goes up one segment at a time, so as many steps as the path has are enough.
abbrev pub u32_max : ℕ
u32_max = 4294967295

priority_from : SchemaOps → ℕ → ConfigPath → ℕ
priority_from schema ℕ.zero path = elim (schema.priority_at path) [ some p ↦ p | none ↦ u32_max ]
priority_from schema (ℕ.suc fuel) path = elim (schema.priority_at path) [
  | some p ↦ p
  | none ↦ elim (parent path) [ none ↦ u32_max | some up ↦ priority_from schema fuel up ]
]

unfoldable pub priority : SchemaOps → ConfigPath → ℕ
unfolding priority_from parent
priority schema path = priority_from schema (length path) path

unfoldable pub order_compare : SchemaOps → Change → Change → Ordering
order_compare schema a b =
    then_compare (compare (priority schema a.path) (priority schema b.path))
      (then_compare (path_compare a.path b.path) (op_compare a.op b.op))

unfoldable pub order : SchemaOps → List Change → List Change
order schema changes = sort_by (order_compare schema) changes

-- `problems.join("; ")`.
unfoldable pub join : List Text → Text
join [] = []
join (t ∷ []) = t
join (t ∷ u ∷ ts) = t ++ (codes "; " ++ join (u ∷ ts))

abbrev pub Plan : Type 0 → Type 0 → Type 0
Plan W A = List (Renderer W A × A)

module _ {W A : Type 0} where
  -- Step 6, every renderer.
  unfoldable pub render_all : List (Renderer W A) → ConfigTree → Result CommitError (Plan W A)
  render_all [] candidate = ok []
  render_all (r ∷ rs) candidate = do
    artifacts ← map_err (unrendered r.name) (r.render candidate)
    plan ← render_all rs candidate
    ok ((r, artifacts) ∷ plan)

  -- Step 7, every renderer.
  unfoldable pub check_all : Plan W A → Result CommitError (Unit {0})
  check_all [] = ok tt
  check_all ((r, artifacts) ∷ plan) =
      map_err (unchecked r.name) (r.check artifacts) >> check_all plan

  -- Steps 8 and 9 for one renderer.
  unfoldable pub apply_one : Renderer W A → A → W → Done × W
  apply_one r artifacts w =
      let (result, w') = r.apply artifacts w in ((result >> r.verify artifacts w'), w')

  -- Puts one renderer back; a problem is added to those met so far. A renderer that has never
  -- applied anything has nothing to go back to.
  unfoldable pub restore_one : Renderer W A → List Text → W → List Text × W
  restore_one r problems w = elim (r.previous w) [
    | none ↦ (problems, w)
    | some artifacts ↦
        let (result, w') = r.apply artifacts w in
        (
          (elim result [
            | ok _ ↦ problems
            | err e ↦ problems ++ (r.name ++ (codes ": " ++ e)) ∷ []
          ]),
          w',
        )
  ]

  -- The renderers to restore, most recently applied first.
  unfoldable pub restore_from : List (Renderer W A) → List Text → W → List Text × W
  unfolding restore_one
  restore_from [] problems w = (problems, w)
  restore_from (r ∷ rs) problems w =
      let (problems', w') = restore_one r problems w in restore_from rs problems' w'

  -- `applied` holds the renderers applied, most recent first.
  unfoldable pub restore : List (Renderer W A) → W → Done × W
  unfolding restore_from
  restore applied_last_first w =
      let (problems, w') = restore_from applied_last_first [] w in
      ((if is_nil problems then ok tt else err (join problems)), w')

  unfoldable pub fail_apply :
      Renderer W A → Text → List (Renderer W A) → W → Result CommitError (Unit {0}) × W
  fail_apply r source applied_last_first w =
      let (result, w') = restore applied_last_first w in
      (
        (elim result [
          | ok _ ↦ err (applied r.name source)
          | err problems ↦ err (unrecovered r.name source problems)
        ]),
        w',
      )

  unfoldable pub apply_all : Plan W A → List (Renderer W A) → W → Result CommitError (Unit {0}) × W
  apply_all [] done w = (ok tt, w)
  apply_all ((r, artifacts) ∷ plan) done w =
      let (result, w') = apply_one r artifacts w in
      elim result [
        | ok _ ↦ apply_all plan (r ∷ done) w'
        | err source ↦ fail_apply r source (r ∷ done) w'
      ]

  unfoldable pub remember_all : Plan W A → W → W
  remember_all [] w = w
  remember_all ((r, artifacts) ∷ plan) w = remember_all plan (r.remember artifacts w).1

  unfoldable pub apply_plan : Plan W A → W → Result CommitError (Unit {0}) × W
  apply_plan plan w =
      let (result, w') = apply_all plan [] w in
      elim result [ ok _ ↦ (ok tt, remember_all plan w') | err e ↦ (err e, w') ]

  -- Steps 6 and 7.
  unfoldable pub prepare : List (Renderer W A) → ConfigTree → Result CommitError (Plan W A)
  prepare renderers candidate = do plan ← render_all renderers candidate; check_all plan; ok plan

  unfoldable pub apply : List (Renderer W A) → ConfigTree → W → Result CommitError (Unit {0}) × W
  apply renderers candidate w = elim (prepare renderers candidate) [
    | ok plan ↦ apply_plan plan w
    | err e ↦ (err e, w)
  ]
