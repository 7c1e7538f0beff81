-- ===== src/Payroll/Payslip.antt =====
-- What `calculate` pays and deducts.
use biz_saathi.Prelude.{
  ℕ, ◌+◌, ◌-◌, ◌*◌, ◌≤◌, ◌<◌, ◌≡◌, refl, true, arith, min, ltb, Bool-cases, inl, inr, pos, negsuc,
  sub_ℕ, ◌+ℤ◌, ◌≤ℤ◌,
}
use biz_saathi.Rounding.{Rounding, IsRounding}
use biz_saathi.Payroll.Division.{Division, IsDivision}
use biz_saathi.Payroll.Calculator.{
  Config, PayrollCalculationInput, proportional, overtime, calculate,
}

-- The payable half days of an input: those present, and the leave.
abbrev pub payable : PayrollCalculationInput → ℕ
payable input = input.present_half_days + 2 * input.leave_days

-- The month at another attendance.
abbrev pub attended : PayrollCalculationInput → ℕ → PayrollCalculationInput
attended input half_days = record input { present_half_days = half_days }

sub_ℕ-back : (a b : ℕ) → sub_ℕ a b +ℤ pos b ≡ pos a
unfolding ◌+ℤ◌
sub_ℕ-back a b = ground arith

sub_ℕ-low : (b : ℕ) → 0 < b → sub_ℕ 0 b ≤ℤ negsuc 0
sub_ℕ-low b h = ground arith

module _ (d : Rounding) (v : Division) (config : Config) (laws : IsDivision v) where
  proportional-le :
      (input : PayrollCalculationInput) (amount : ℕ)
      → 0 < input.working_days
      → payable input ≤ 2 * input.working_days
      → proportional d v config input amount ≤ amount
  proportional-le input amount days le =
      let w = 2 * input.working_days in
      let all = laws.share_all w amount (omega arith) in
      let less = laws.share_mono (payable input) w w amount (omega arith) le in
      ground (arith, all, less)

  proportional_all :
      (input : PayrollCalculationInput) (amount : ℕ)
      → 0 < input.working_days
      → payable input ≡ 2 * input.working_days
      → proportional d v config input amount ≡ amount
  proportional_all input amount days all =
      let w = 2 * input.working_days in
      let whole = laws.share_all w amount (omega arith) in
      let some_days : ltb 0 input.working_days ≡ true = ground arith in rw (some_days, all) whole

  proportional_mono :
      (a b : PayrollCalculationInput) (amount : ℕ)
      → a.working_days ≡ b.working_days
      → payable a ≤ payable b
      → proportional d v config a amount ≤ proportional d v config b amount
  proportional_mono a b amount days le = elim (Bool-cases (ltb 0 b.working_days)) [
    | inl e ↦
        let some_days : 0 < b.working_days = ground arith in
        rw (days, e)
          (laws.share_mono (payable a) (payable b) (2 * b.working_days) amount (omega arith) le)
    | inr e ↦ rw (days, e) (omega arith)
  ]

  proportional_none :
      (input : PayrollCalculationInput) (amount : ℕ)
      → payable input ≡ 0
      → proportional d v config input amount ≡ 0
  proportional_none input amount none = elim (Bool-cases (ltb 0 input.working_days)) [
    | inl e ↦
        let some_days : 0 < input.working_days = ground arith in
        rw (e, none) (laws.share_nothing (2 * input.working_days) amount (omega arith))
    | inr e ↦ rw e
  ]

  -- In a month with working days, if the days present and on leave are at most the working days,
  -- the gross salary is at most the full salary with the overtime and the bonus, it is equal to
  -- that at full attendance, and the payable and the absent days make up the month.
  pub gross_salary_within :
      (input : PayrollCalculationInput)
      → 0 < input.working_days
      → payable input ≤ 2 * input.working_days
      → let slip = calculate d v config input in
        let whole =
          calculate d v config (attended input (2 * input.working_days - 2 * input.leave_days)) in
        let salary =
          input.basic_salary + input.hra + input.allowances + slip.overtime_pay + input.bonus in
        (slip.gross_salary ≤ salary)
        × (whole.gross_salary ≡ salary)
        × (slip.payable_half_days + slip.absent_half_days ≡ 2 * input.working_days)
  unfolding calculate
  gross_salary_within input days le =
      let full = attended input (2 * input.working_days - 2 * input.leave_days) in
      let all : payable full ≡ 2 * full.working_days = omega arith in
      let basic = proportional-le input input.basic_salary days le in
      let hra = proportional-le input input.hra days le in
      let allowances = proportional-le input input.allowances days le in
      (
        omega arith,
        rw (
          proportional_all full input.basic_salary days all,
          proportional_all full input.hra days all,
          proportional_all full input.allowances days all,
        ),
        omega arith,
      )

  -- More days present never lower the gross salary.
  pub gross_salary_mono :
      (input : PayrollCalculationInput) (p q : ℕ)
      → p ≤ q
      → (calculate d v config (attended input p)).gross_salary
        ≤ (calculate d v config (attended input q)).gross_salary
  unfolding calculate
  gross_salary_mono input p q le =
      let part = λ (amount : ℕ).
        proportional_mono (attended input p) (attended input q) amount refl (omega arith) in
      let basic = part input.basic_salary in
      let hra = part input.hra in let allowances = part input.allowances in omega arith

  -- A month with nobody present, no leave, no overtime and no bonus earns nothing, but the
  -- provident fund is still taken from the full basic salary: the net salary is negative.
  pub absent_month_owes :
      (rounding : IsRounding d) (input : PayrollCalculationInput)
      → payable input ≡ 0
      → input.overtime_hours ≡ 0
      → input.bonus ≡ 0
      → input.pf_enabled ≡ true
      → 5 ≤ input.basic_salary
      → 5 ≤ config.pf_wage_ceiling
      → let slip = calculate d v config input in
        (slip.gross_salary ≡ 0) × (slip.net_salary ≤ℤ negsuc 0)
  unfolding calculate
  absent_month_owes rounding input nobody overtime bonus pf basic ceiling =
      let charged =
        (rounding.up_nearest (min input.basic_salary config.pf_wage_ceiling * 12) 100
          (omega arith)).1 in
      rw
        (
          proportional_none input input.basic_salary nobody,
          proportional_none input input.hra nobody,
          proportional_none input input.allowances nobody,
          overtime,
          laws.mul_nothing,
          bonus,
          pf,
        )
        (refl, sub_ℕ-low _ (ground (arith, charged)))

module _ (d : Rounding) (v : Division) (config : Config) where
  -- Every slip adds up.
  pub calculate-net :
      (input : PayrollCalculationInput)
      → let slip = calculate d v config input in
        slip.net_salary +ℤ pos slip.total_deductions ≡ pos slip.gross_salary
  unfolding calculate
  calculate-net input = sub_ℕ-back _ _

  -- What is taken from the salary is the sum of the deductions and the net salary is the rest. The
  -- provident fund takes at most 12% of its wage ceiling and the state insurance at most 0.75% of
  -- its own, both to the nearest paisa, however high the salary.
  pub deductions_capped :
      (rounding : IsRounding d) (input : PayrollCalculationInput)
      → let slip = calculate d v config input in
        (slip.total_deductions
          ≡ slip.pf_employee + slip.esic_employee + slip.tds + slip.other_deductions)
        × (slip.net_salary +ℤ pos slip.total_deductions ≡ pos slip.gross_salary)
        × (200 * slip.pf_employee ≤ 24 * config.pf_wage_ceiling + 100)
        × (20_000 * slip.esic_employee ≤ 150 * config.esic_wage_ceiling + 10_000)
  unfolding calculate
  deductions_capped rounding input =
      let gross = (calculate d v config input).gross_salary in
      let pf =
        (rounding.up_nearest (min input.basic_salary config.pf_wage_ceiling * 12) 100
          (omega arith)).0 in
      let esic = (rounding.up_nearest (gross * 75) 10_000 (omega arith)).0 in
      (refl, sub_ℕ-back _ _, ground (arith, pf), ground (arith, esic))
