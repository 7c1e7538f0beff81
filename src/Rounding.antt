-- ===== src/Rounding.antt =====
-- `toDecimalPlaces` of decimal.js, a parameter of the services.
--
-- Amounts are whole numbers of paise, and a product or sum of them is an exact whole number of a
-- smaller unit, as `Decimal` keeps it (20 significant digits). What is left to the package is the
-- rounding to a whole number of paise.
pub mod Exact
use biz_saathi.Prelude.{ℕ, suc, ◌+◌, ◌*◌, ◌%◌, ◌≤◌, ◌<◌, ◌≡◌, ◌⊎◌, ℤ, pos, negsuc, negate}

-- `half_even n m` is n / m rounded to a whole number under `ROUND_HALF_EVEN`, and `half_up n m` is
-- n / m rounded under `ROUND_HALF_UP`, the default. Both are given magnitudes: the package rounds
-- a negative value to the opposite of its magnitude's rounding.
pub record Rounding : Type 0 where
  pub half_even : ℕ → ℕ → ℕ
  pub half_up : ℕ → ℕ → ℕ

-- r is a whole number nearest to n / m.
abbrev pub IsNearest : ℕ → ℕ → ℕ → Type 0
IsNearest n m r = (2 * (r * m) ≤ 2 * n + m) × (2 * n ≤ 2 * (r * m) + m)

-- The documentation of the two modes: nearest, and at a tie the even neighbour, or the upper one.
pub record IsRounding (d : Rounding) : Type 0 where
  pub even_nearest : (n m : ℕ) → 0 < m → IsNearest n m (d.half_even n m)
  pub even_tie :
      (n m : ℕ)
      → 0 < m
      → (2 * (d.half_even n m * m) ≡ 2 * n + m) ⊎ (2 * n ≡ 2 * (d.half_even n m * m) + m)
      → d.half_even n m % 2 ≡ 0
  pub up_nearest : (n m : ℕ) → 0 < m → IsNearest n m (d.half_up n m)
  pub up_tie : (n m : ℕ) → 0 < m → 2 * n < 2 * (d.half_up n m * m) + m

-- A rounding of magnitudes, at a value of either sign.
abbrev pub signed : (ℕ → ℕ → ℕ) → ℤ → ℕ → ℤ
signed f (pos n) m = pos (f n m)
signed f (negsuc n) m = negate (f (suc n) m)
