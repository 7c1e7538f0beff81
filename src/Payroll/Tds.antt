-- ===== src/Payroll/Tds.antt =====
-- `calculateTDS` against the slabs as marginal rates.
use native.Mathlib.Nat.{lt_of_mul-lt-mul_right}
use biz_saathi.Prelude.{
  ℕ, suc, ◌+◌, ◌-◌, ◌*◌, ◌≤◌, ◌<◌, ◌≡◌, refl, ◌∙◌, List, [], ◌∷◌, arith, min, leb, Bool-cases, inl,
  inr, ap,
}
use biz_saathi.Rounding.{Rounding, IsRounding, IsNearest}
use biz_saathi.Payroll.Calculator.{top_rate, slabs, tax_slabs, calculate_tds}

-- The tax in hundredths of a paisa: each lakh above a threshold adds the difference of the rates,
-- 5% above 3, 7, 10 and 12 lakh each, and 10% above 15.
abbrev pub marginal_tax : ℕ → ℕ
marginal_tax income =
    5 * (income - 30_000_000)
    + 5 * (income - 70_000_000)
    + 5 * (income - 100_000_000)
    + 5 * (income - 120_000_000)
    + 10 * (income - 150_000_000)

tax_slabs-zero : (s : List (ℕ × ℕ)) (tax : ℕ) → tax_slabs s 0 tax ≡ (0, tax)
unfolding tax_slabs
tax_slabs-zero [] tax = refl
tax_slabs-zero ((limit, rate) ∷ rest) tax = refl

-- One round, whether or not it breaks.
tax_slabs-step :
    (limit rate : ℕ) (rest : List (ℕ × ℕ)) (remaining tax : ℕ)
    → tax_slabs ((limit, rate) ∷ rest) remaining tax
      ≡ tax_slabs rest (remaining - limit) (tax + min remaining limit * rate)
tax_slabs-step limit rate rest remaining tax = elim (Bool-cases (leb remaining 0)) [
  | inl e ↦
      let none_left : remaining ≡ 0 = ground arith in
      let same : tax + min remaining limit * rate ≡ tax =
        rw none_left (let m : min 0 limit ≡ 0 = omega arith in rw m (omega arith)) in
      let gone : remaining - limit ≡ 0 = omega arith in
      rw (gone, same) (rw tax_slabs-zero (rw none_left (tax_slabs-zero _ tax)))
  | inr e ↦
      let left : remaining - min remaining limit ≡ remaining - limit = omega arith in
      unfold tax_slabs in rw e (rw left)
]

top_rate-eq : (p : ℕ × ℕ) → top_rate p ≡ p.1 + p.0 * 30
top_rate-eq p = ground arith

tax_slabs-slabs :
    (income : ℕ)
    → let (remaining, tax) = tax_slabs slabs income 0 in
      (remaining ≡ income - 150_000_000) × (tax + remaining * 30 ≡ marginal_tax income)
tax_slabs-slabs income = rw tax_slabs-step (
    rw tax_slabs-step (
      rw tax_slabs-step
        (rw tax_slabs-step (rw tax_slabs-step (unfold tax_slabs in (omega arith, omega arith))))))

-- The tax on an annual income is the marginal tax, rounded half up to whole paise.
pub calculate_tds-eq :
    (d : Rounding) (income : ℕ) → calculate_tds d income ≡ d.half_up (marginal_tax income) 100
unfolding calculate_tds
calculate_tds-eq d income =
    ap (λ t. d.half_up t 100) (top_rate-eq (tax_slabs slabs income 0) ∙ (tax_slabs-slabs income).1)

nearer : (x y a b m : ℕ) → a ≤ b → 2 * (x * m) ≤ 2 * a + m → 2 * b < 2 * (y * m) + m → x ≤ y
nearer x y a b m le up low =
    let below : x * m < suc y * m = grind arith in
    let less : x < suc y = lt_of_mul-lt-mul_right m below in omega arith

-- A greater value rounds half up to no less.
pub half_up_mono :
    (d : Rounding) → IsRounding d → (a b m : ℕ) → 0 < m → a ≤ b → d.half_up a m ≤ d.half_up b m
half_up_mono d laws a b m h le =
    nearer (d.half_up a m) (d.half_up b m) a b m le (laws.up_nearest a m h).0 (laws.up_tie b m h)

module _ (d : Rounding) (laws : IsRounding d) where
  -- The tax of `calculateTDS` is the nearest whole number of paise to the tax by marginal rates.
  -- It is 0 up to 3 lakh, grows with the income, and takes at most 30% of what is earned more,
  -- rounded up to a paisa.
  pub calculate_tds_marginal :
      (a b : ℕ)
      → a ≤ b
      → IsNearest (marginal_tax a) 100 (calculate_tds d a)
        × (calculate_tds d (min a 30_000_000) ≡ 0)
        × (calculate_tds d a ≤ calculate_tds d b)
        × (100 * calculate_tds d b ≤ 100 * calculate_tds d a + 30 * (b - a) + 100)
  calculate_tds_marginal a b h =
      rw (calculate_tds-eq d a, calculate_tds-eq d b, calculate_tds-eq d (min a 30_000_000))
        (let low = laws.up_nearest (marginal_tax a) 100 (omega arith) in
          let none : marginal_tax (min a 30_000_000) ≡ 0 = omega arith in
          let untaxed : d.half_up (marginal_tax (min a 30_000_000)) 100 ≡ 0 =
            rw none (let zero_up = laws.up_nearest 0 100 (omega arith) in omega arith) in
          let high = laws.up_nearest (marginal_tax b) 100 (omega arith) in
          (
            low,
            untaxed,
            half_up_mono d laws (marginal_tax a) (marginal_tax b) 100 (omega arith) (omega arith),
            omega arith,
          ))
