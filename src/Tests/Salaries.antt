-- ===== src/Tests/Salaries.antt =====
-- Salaries and taxes of a month.
use biz_saathi.Prelude.{◌+◌, ◌*◌, ◌-◌, ◌≤◌, ◌≡◌, refl, true, arith, min, pos, negsuc, ◌+ℤ◌, ◌≤ℤ◌}
use biz_saathi.Rounding.{IsNearest}
use biz_saathi.Rounding.Exact.{exact, exact-IsRounding}
use biz_saathi.Payroll.Division.Exact.{exact as division, exact-IsDivision}
use biz_saathi.Payroll.Calculator.{
  PayrollCalculationInput, default_config, calculate, calculate_tds,
}
use biz_saathi.Payroll.Tds.{marginal_tax, calculate_tds_marginal}
use biz_saathi.Payroll.Payslip.{attended, gross_salary_within, deductions_capped, absent_month_owes}

calculate_tds_marginal_example :
    IsNearest (marginal_tax 75_000_000) 100 (calculate_tds exact 75_000_000)
    × (calculate_tds exact (min 75_000_000 30_000_000) ≡ 0)
    × (calculate_tds exact 75_000_000 ≤ calculate_tds exact 160_000_000)
    × (100 * calculate_tds exact 160_000_000
        ≤ 100 * calculate_tds exact 75_000_000 + 30 * (160_000_000 - 75_000_000) + 100)
calculate_tds_marginal_example =
    calculate_tds_marginal exact exact-IsRounding 75_000_000 160_000_000 (omega arith)

-- 20000 rupees basic, 20 of 26 days present and 2 on leave.
abbrev staff : PayrollCalculationInput
staff = record {
  basic_salary = 2_000_000;
  hra = 500_000;
  allowances = 100_000;
  working_days = 26;
  present_half_days = 40;
  leave_days = 2;
  overtime_hours = 450;
  pf_enabled = true;
  esic_enabled = true;
  tds_enabled = true;
  bonus = 0;
  other_deductions = 0;
}

abbrev absent : PayrollCalculationInput
absent = record staff { present_half_days = 0; leave_days = 0; overtime_hours = 0 }

gross_salary_within_example :
    let slip = calculate exact division default_config staff in
    let whole = calculate exact division default_config (attended staff 48) in
    let salary = 2_000_000 + 500_000 + 100_000 + slip.overtime_pay + 0 in
    (slip.gross_salary ≤ salary)
    × (whole.gross_salary ≡ salary)
    × (slip.payable_half_days + slip.absent_half_days ≡ 52)
gross_salary_within_example =
    gross_salary_within exact division default_config exact-IsDivision staff (omega arith)
      (omega arith)

absent_month_owes_example :
    let slip = calculate exact division default_config absent in
    (slip.gross_salary ≡ 0) × (slip.net_salary ≤ℤ negsuc 0)
absent_month_owes_example =
    absent_month_owes exact division default_config exact-IsDivision exact-IsRounding absent refl
      refl refl refl (omega arith) (omega arith)

deductions_capped_example :
    let slip = calculate exact division default_config staff in
    (slip.total_deductions
      ≡ slip.pf_employee + slip.esic_employee + slip.tds + slip.other_deductions)
    × (slip.net_salary +ℤ pos slip.total_deductions ≡ pos slip.gross_salary)
    × (200 * slip.pf_employee ≤ 24 * 1_500_000 + 100)
    × (20_000 * slip.esic_employee ≤ 150 * 2_100_000 + 10_000)
deductions_capped_example = deductions_capped exact division default_config exact-IsRounding staff

-- The provident fund is charged on the ceiling.
staff_fund : (calculate exact division default_config staff).pf_employee ≡ 180_000
unfolding calculate
staff_fund = refl
