-- ===== src/Payroll/Division.antt =====
-- Division of decimal.js, which keeps 20 significant digits, a parameter of the payroll.
pub mod Exact
use biz_saathi.Prelude.{ℕ, zero, suc, ◌+◌, ◌*◌, ◌≤◌, ◌<◌, ◌≡◌}

-- A quotient, and what the services do with it until `toDecimalPlaces(2)`.
pub record Division : Type 1 where
  pub Quotient : Type 0
  -- `x.div(y)`
  pub div : ℕ → ℕ → Quotient
  -- `q.div(y)`
  pub div_by : Quotient → ℕ → Quotient
  -- `q.mul(c * 10 ^ -s)`, by the coefficient c and the scale s
  pub mul : Quotient → ℕ → ℕ → Quotient
  -- `q.toDecimalPlaces(2)`, of a quotient in paise
  pub to_paise : Quotient → ℕ

-- `amount.mul(part.div(whole)).toDecimalPlaces(2)`.
abbrev pub share : Division → ℕ → ℕ → ℕ → ℕ
share v part whole amount = v.to_paise (v.mul (v.div part whole) amount 0)

-- A quotient of equal numbers is 1, a quotient of 0 is 0, rounding keeps the order, and the two
-- roundings of a share of an amount below 10 ^ 12 paise stay within a paisa.
pub record IsDivision (v : Division) : Type 0 where
  pub share_all : (w a : ℕ) → 0 < w → share v w w a ≡ a
  pub share_nothing : (w a : ℕ) → 0 < w → share v 0 w a ≡ 0
  pub share_mono : (p q w a : ℕ) → 0 < w → p ≤ q → share v p w a ≤ share v q w a
  pub share_near :
      (p w a : ℕ)
      → 0 < w
      → p ≤ w
      → a < 1_000_000_000_000
      → (share v p w a * w ≤ a * p + w) × (a * p ≤ share v p w a * w + w)
  -- nothing times a quotient
  pub mul_nothing : (q : v.Quotient) (s : ℕ) (c t : ℕ) → v.to_paise (v.mul (v.mul q 0 s) c t) ≡ 0
  -- a quotient of a whole number of paise by a small number, rounded half up
  pub div_half_up :
      (n m : ℕ)
      → 0 < m
      → m ≤ 100
      → n < 1_000_000_000_000_000
      → (2 * (v.to_paise (v.div n m) * m) ≤ 2 * n + m)
        × (2 * n < 2 * (v.to_paise (v.div n m) * m) + m)
