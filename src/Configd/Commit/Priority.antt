-- ===== src/Configd/Commit/Priority.antt =====
-- src/nightshade-configd/src/commit.rs: the walk up a path for a priority.
use nightshade.Shared.{ℕ, suc, [], ◌∷◌, none, some, ◌≡◌, ap, arith, length, Option-cases, inl, inr}
use nightshade.Schema.Path.{ConfigPath, parent}
use nightshade.Configd.Commit.{SchemaOps, priority, priority_from, u32_max}

length-parent : (p q : ConfigPath) → parent p ≡ some q → length p ≡ suc (length q)
unfolding parent
length-parent [] q h = cc
length-parent (s ∷ []) q h = ground (arith, h)
length-parent (s ∷ t ∷ p) q h = elim (Option-cases (parent (t ∷ p))) [
  | inl e ↦ ground (arith, h, e)
  | inr (r, e) ↦ ground (arith, h, e, length-parent (t ∷ p) r e)
]

-- What the walk does at one node, with the walk from its parent.
abbrev pub one_step : SchemaOps → (ConfigPath → ℕ) → ConfigPath → ℕ
one_step schema above path = elim (schema.priority_at path) [
  | some p ↦ p
  | none ↦ elim (parent path) [ none ↦ u32_max | some up ↦ above up ]
]

-- The priority of a path is that of its node where the schema knows it, else that of its parent,
-- and the largest 32-bit number where the root is not known either: the bound on the walk up never
-- cuts it short.
pub priority-one_step :
    (schema : SchemaOps) (path : ConfigPath)
    → priority schema path ≡ one_step schema (priority schema) path
unfolding priority priority_from
priority-one_step schema [] = elim (Option-cases (schema.priority_at [])) [
  | inl e ↦ ground (arith, e)
  | inr (p, e) ↦ ground (arith, e)
]
priority-one_step schema (s ∷ path) = elim (Option-cases (schema.priority_at (s ∷ path))) [
  | inl e ↦ elim (Option-cases (parent (s ∷ path))) [
    | inl top ↦ ground (arith, e, top)
    | inr (up, there) ↦
        let same : length path ≡ length up = omega (arith, length-parent (s ∷ path) up there) in
        ground (arith, e, there, ap (λ (n : ℕ). priority_from schema n up) same)
  ]
  | inr (p, e) ↦ ground (arith, e)
]
