-- ===== src/DeepCopy.antt =====
-- The generated deep copies, zz_generated.deepcopy.go under apis/common/driftdetection, apis/namespaced/v1alpha1 and
-- apis/cluster/v1alpha1, over memory. A type of Go is copied by its shape: a value without pointers, fields
-- side by side, a pointer, the elements of an array. The types of other repositories are parameters.
use provider_k3s.Base.{ℕ, suc, Option, none, some, List, [], ◌∷◌, map, ◌==◌, nat_eq, if◌then◌else◌}
pub mod Apart
pub mod Types
pub mod Scoped
pub mod Resources

-- The cells of one type that were allocated.
pub record Arena (T : Type 0) : Type 0 where
  pub size : ℕ
  pub cell : ℕ → T

-- A new cell, at the end.
abbrev pub push : {T : Type 0} → Arena T → T → Arena T
push a t = record { size = suc a.size; cell = λ i. if i == a.size then t else a.cell i }

-- How values `T` with pointers into the memory `H` are read, as `V`, and copied.
pub record Copier (H T V : Type 0) : Type 0 where
  pub view : H → T → V
  pub copy : H → T → T × H

-- *out = *in
abbrev pub plain_copier : (T : Type 0) → Copier (Unit {0}) T T
plain_copier T = record { view = λ _ t. t; copy = λ h t. (t, h) }

module _ {H T V : Type 0} (c : Copier H T V) where
  -- Two fields, whose pointers are of different types.
  abbrev pub fields : {K U Z : Type 0} → Copier K U Z → Copier (H × K) (T × U) (V × Z)
  fields d = record {
    view = λ m x. (c.view m.0 x.0, d.view m.1 x.1);
    copy = λ m x. let (t, h) = c.copy m.0 x.0 in let (u, k) = d.copy m.1 x.1 in ((t, u), (h, k));
  }

  unfoldable pub view_pointer : H × Arena T → Option ℕ → Option V
  view_pointer m none = none
  view_pointer (h, a) (some p) = some (c.view h (a.cell p))

  -- DeepCopy on a pointer: nil, or a new cell with the copy of what it points to.
  unfoldable pub copy_pointer : H × Arena T → Option ℕ → Option ℕ × (H × Arena T)
  copy_pointer m none = (none, m)
  copy_pointer (h, a) (some p) = let (t, h') = c.copy h (a.cell p) in (some a.size, (h', push a t))

  abbrev pub pointer : Copier (H × Arena T) (Option ℕ) (Option V)
  pointer = record { view = view_pointer; copy = copy_pointer }

  -- The loop over an array.
  unfoldable pub copy_each : H → List T → List T × H
  copy_each h [] = ([], h)
  copy_each h (t ∷ ts) =
      let (t', h₁) = c.copy h t in let (ts', h₂) = copy_each h₁ ts in (t' ∷ ts', h₂)

  abbrev pub each : Copier H (List T) (List V)
  each = record { view = λ h ts. map (c.view h) ts; copy = copy_each }
