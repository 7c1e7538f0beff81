-- ===== src/Payroll/Calculator.antt =====
-- payroll-calculator.service.ts.
--
-- Amounts are in paise, days in half days and overtime in hundredths of an hour, as the columns
-- and the half days of the attendance give them. The ceilings, the overtime multiplier and the
-- hours of a day come from the environment, as whole numbers.
use biz_saathi.Prelude.{
  ℕ, ◌+◌, ◌-◌, ◌*◌, min, Bool, ◌&&◌, List, [], ◌∷◌, if◌then◌else◌, ltb, leb, ℤ, sub_ℕ,
}
use biz_saathi.Rounding.{Rounding}
use biz_saathi.Payroll.Division.{Division}

pub record Config : Type 0 where
  pub pf_wage_ceiling : ℕ
  pub esic_wage_ceiling : ℕ
  pub overtime_multiplier : ℕ
  pub working_hours_per_day : ℕ

-- The values used where the environment has none: 15000 and 21000 rupees, double rate, 8 hours.
abbrev pub default_config : Config
default_config = record {
  pf_wage_ceiling = 1_500_000;
  esic_wage_ceiling = 2_100_000;
  overtime_multiplier = 2;
  working_hours_per_day = 8;
}

-- `PayrollCalculationInput`; a missing bonus or deduction is 0.
pub record PayrollCalculationInput : Type 0 where
  pub basic_salary : ℕ
  pub hra : ℕ
  pub allowances : ℕ
  pub working_days : ℕ
  pub present_half_days : ℕ
  pub leave_days : ℕ
  pub overtime_hours : ℕ
  pub pf_enabled : Bool
  pub esic_enabled : Bool
  pub tds_enabled : Bool
  pub bonus : ℕ
  pub other_deductions : ℕ

-- `PayrollCalculationResult`, the days in half days.
pub record PayrollCalculationResult : Type 0 where
  pub payable_half_days : ℕ
  pub absent_half_days : ℕ
  pub proportional_basic : ℕ
  pub proportional_hra : ℕ
  pub proportional_allowances : ℕ
  pub overtime_pay : ℕ
  pub bonus : ℕ
  pub gross_salary : ℕ
  pub pf_employee : ℕ
  pub pf_employer : ℕ
  pub esic_employee : ℕ
  pub esic_employer : ℕ
  pub tds : ℕ
  pub other_deductions : ℕ
  pub total_deductions : ℕ
  pub net_salary : ℤ

-- The slabs of `calculateTDS`: how wide, and the rate in percent.
abbrev pub slabs : List (ℕ × ℕ)
slabs =
    (30_000_000, 0) ∷ (40_000_000, 5) ∷ (30_000_000, 10) ∷ (20_000_000, 15) ∷ (30_000_000, 20) ∷ []

-- The loop over the slabs, with what remains and the tax so far, in hundredths of a paisa; it
-- breaks when nothing remains.
unfoldable pub tax_slabs : List (ℕ × ℕ) → ℕ → ℕ → ℕ × ℕ
tax_slabs [] remaining tax = (remaining, tax)
tax_slabs ((limit, rate) ∷ rest) remaining tax =
    let taxable = min remaining limit in
    let later = tax_slabs rest (remaining - taxable) (tax + taxable * rate) in
    if leb remaining 0 then (remaining, tax) else later

-- Above the last slab the rate is 30%.
abbrev pub top_rate : ℕ × ℕ → ℕ
top_rate (remaining, tax) = if ltb 0 remaining then tax + remaining * 30 else tax

-- `calculateTDS`.
unfoldable pub calculate_tds : Rounding → ℕ → ℕ
calculate_tds d annual_income = d.half_up (top_rate (tax_slabs slabs annual_income 0)) 100

module _ (d : Rounding) (v : Division) (config : Config) where
  open config use {pf_wage_ceiling, esic_wage_ceiling, overtime_multiplier, working_hours_per_day}

  -- A component of the salary in proportion to the payable days.
  abbrev pub proportional : PayrollCalculationInput → ℕ → ℕ
  proportional input amount =
      let payable = input.present_half_days + 2 * input.leave_days in
      if ltb 0 input.working_days
      then v.to_paise (v.mul (v.div payable (2 * input.working_days)) amount 0)
      else 0

  -- basic / 26 / hours of a day, times the overtime hours, times the multiplier.
  abbrev pub overtime : PayrollCalculationInput → ℕ
  overtime input =
      let per_hour = v.div_by (v.div input.basic_salary 26) working_hours_per_day in
      v.to_paise (v.mul (v.mul per_hour input.overtime_hours 2) overtime_multiplier 0)

  -- `calculate`.
  unfoldable pub calculate : PayrollCalculationInput → PayrollCalculationResult
  calculate input =
      let payable = input.present_half_days + 2 * input.leave_days in
      let basic = proportional input input.basic_salary in
      let hra = proportional input input.hra in
      let allowances = proportional input input.allowances in
      let overtime_pay = overtime input in
      let gross = basic + hra + allowances + overtime_pay + input.bonus in
      let pf_wage = min input.basic_salary pf_wage_ceiling in
      let pf_employee = if input.pf_enabled then d.half_up (pf_wage * 12) 100 else 0 in
      let pf_employer = if input.pf_enabled then d.half_up (pf_wage * 13) 100 else 0 in
      let esic = input.esic_enabled && leb gross esic_wage_ceiling in
      let esic_employee = if esic then d.half_up (gross * 75) 10_000 else 0 in
      let esic_employer = if esic then d.half_up (gross * 325) 10_000 else 0 in
      let tds =
        if input.tds_enabled then v.to_paise (v.div (calculate_tds d (gross * 12)) 12) else 0 in
      let total = pf_employee + esic_employee + tds + input.other_deductions in
      record {
        payable_half_days = payable;
        absent_half_days = 2 * input.working_days - payable;
        proportional_basic = basic;
        proportional_hra = hra;
        proportional_allowances = allowances;
        overtime_pay = overtime_pay;
        bonus = input.bonus;
        gross_salary = gross;
        pf_employee = pf_employee;
        pf_employer = pf_employer;
        esic_employee = esic_employee;
        esic_employer = esic_employer;
        tds = tds;
        other_deductions = input.other_deductions;
        total_deductions = total;
        net_salary = sub_ℕ gross total;
      }
