-- ===== src/Expense/Columns.antt =====
-- The sum of two amounts that a column has rounded against the rounded sum.
use native.Mathlib.Nat.{mul-le-mul_right}
use biz_saathi.Prelude.{
  ℕ, zero, suc, ◌+◌, ◌*◌, ◌≤◌, ◌<◌, ◌≡◌, refl, arith, ℤ, pos, negsuc, negate, pos_part, neg_part,
  leb, Bool-cases, inl, inr, ◌+ℤ◌, ◌≤ℤ◌, +ℤ_parts, int_laws,
}
use biz_saathi.Rounding.{Rounding, IsRounding}
use biz_saathi.Expense.{to_column}

-- At most one paisa apart.
abbrev pub IsNear : ℤ → ℤ → Type 0
IsNear a b = (a ≤ℤ b +ℤ pos 1) × (b ≤ℤ a +ℤ pos 1)

negate_parts : (k : ℕ) → (pos_part (negate k) ≡ 0) × (neg_part (negate k) ≡ k)
negate_parts zero = (refl, refl)
negate_parts (suc k) = (refl, refl)

scaled_near : (u v m : ℕ) → 0 < m → 2 * (u * m) ≤ 2 * (v * m) + 3 * m → u ≤ v + 1
scaled_near u v m h le = elim (Bool-cases (leb u (v + 1))) [
  | inl e ↦ ground arith
  | inr e ↦
      let apart : v + 2 ≤ u = ground arith in
      let scaled : (v + 2) * m ≤ u * m = mul-le-mul_right m apart in absurd (grind arith)
]

module _ (column : Rounding) (laws : IsRounding column) (m : ℕ) (h : 0 < m) where
  -- The rounded amount lies within half a paisa.
  to_column-parts :
      (x : ℤ)
      → let q = to_column column m x in
        (2 * (pos_part q * m) + 2 * neg_part x ≤ 2 * pos_part x + 2 * (neg_part q * m) + m)
        × (2 * pos_part x + 2 * (neg_part q * m) ≤ 2 * (pos_part q * m) + 2 * neg_part x + m)
  to_column-parts (pos k) = let near = laws.up_nearest k m h in (omega arith, omega arith)
  to_column-parts (negsuc k) =
      let near = laws.up_nearest (suc k) m h in
      let (p, q) = negate_parts (column.half_up (suc k) m) in rw (p, q) (omega arith, omega arith)

  pub to_column-sum :
      (x y : ℤ)
      → IsNear (to_column column m (x +ℤ y)) (to_column column m x +ℤ to_column column m y)
  to_column-sum x y =
      let t = to_column column m (x +ℤ y) in
      let a = to_column column m x in
      let b = to_column column m y in
      let tn = to_column-parts (x +ℤ y) in
      let an = to_column-parts x in
      let bn = to_column-parts y in
      let parts = +ℤ_parts x y in
      let above : pos_part t + neg_part a + neg_part b ≤ neg_part t + pos_part a + pos_part b + 1 =
        scaled_near _ _ m h (grind arith) in
      let below : neg_part t + pos_part a + pos_part b ≤ pos_part t + neg_part a + neg_part b + 1 =
        scaled_near _ _ m h (grind arith) in
      (omega (int_laws, above, below), omega (int_laws, above, below))
