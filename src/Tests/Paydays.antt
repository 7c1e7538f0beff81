-- ===== src/Tests/Paydays.antt =====
-- The payroll of May 2025.
use biz_saathi.Prelude.{
  ℕ, suc, ◌≤◌, ◌≡◌, ◌≢◌, refl, true, false, none, some, List, [], ◌∷◌, arith, All, All-imp, pos,
  ◌+ℤ◌, sum_of,
}
use biz_saathi.Rounding.Exact.{exact}
use biz_saathi.Payroll.Division.Exact.{exact as division}
use biz_saathi.Payroll.Calculator.{default_config}
use biz_saathi.Table.{find_first}
use biz_saathi.Table.Keys.{named}
use biz_saathi.Records.{PaymentMethod}
use biz_saathi.Workforce.{
  AttendanceStatus, Staff, StaffStatus, Attendance, PayrollStatus, Payroll, StaffDb,
}
use biz_saathi.Workforce.Payrolls.{Period, ProcessPayrollDto, PaySalaryDto}
use biz_saathi.Workforce.Payrolls.Processing.{process}
use biz_saathi.Workforce.Payrolls.Settling.{pay_all}
use biz_saathi.Workforce.Payrolls.Upkeep.{payroll_id, but_slip, IsUpkept}
use biz_saathi.Workforce.Payrolls.Runs.{
  processes, pays_all, opened, followed, PayrollRequests, PayrollRequests-IsUpkept,
  paid_payroll_final,
}

abbrev meena : Staff
meena = record {
  id = 4;
  tenant_id = 1;
  name = "Meena";
  email = none;
  status = StaffStatus.active;
  basic_salary = 2_000_000;
  hra = 500_000;
  allowances = 100_000;
  pf_enabled = true;
  esic_enabled = false;
  tds_enabled = false;
}

abbrev day : ℕ → AttendanceStatus → Attendance
day date status = record {
  tenant_id = 1;
  staff_id = 4;
  date = date;
  status = status;
  check_in = none;
  check_out = none;
  hours_worked = none;
  overtime = none;
  note = none;
  marked_by = 9;
}

-- The salary of April, paid.
abbrev april_slip : Payroll
april_slip = record {
  id = 3;
  tenant_id = 1;
  staff_id = 4;
  month = 4;
  working_days = 26;
  present_days = 26;
  absent_days = 0;
  leave_days = 0;
  overtime_hours = 0;
  basic_salary = 2_000_000;
  hra = 500_000;
  allowances = 100_000;
  overtime_pay = 0;
  bonus = 0;
  gross_salary = 2_600_000;
  pf_employee = 180_000;
  pf_employer = 195_000;
  esic_employee = 0;
  esic_employer = 0;
  tds = 0;
  other_deductions = 0;
  total_deductions = 180_000;
  net_salary = pos 2_420_000;
  status = PayrollStatus.paid;
  payment_method = PaymentMethod.upi;
  paid_at = some 1;
  slip_url = none;
  note = none;
}

abbrev firm : StaffDb
firm = record {
  staff = meena ∷ [];
  attendances = day 20_210 AttendanceStatus.present ∷ day 20_211 AttendanceStatus.half_day ∷ [];
  leaves = [];
  payrolls = april_slip ∷ [];
  slip_urls = [];
  jobs = [];
}

-- An id above all others.
next_id : List Payroll → ℕ
next_id rows = suc (sum_of (λ p. p.id) rows)

below-sum : (rows : List Payroll) → All (λ p. p.id ≤ sum_of (λ q. q.id) rows) rows
below-sum [] = tt
below-sum (p ∷ ps) = (omega arith, All-imp _ _ (λ q h. omega arith) ps (below-sum ps))

next_id-unused : (rows : List Payroll) → All (λ p. p.id ≢ next_id rows) rows
unfolding next_id
next_id-unused rows = All-imp _ _ (λ p h e. omega arith) rows (below-sum rows)

abbrev may : Period
may = record { month = 5; start_date = 20_209; end_date = 20_239 }

abbrev all_staff : ProcessPayrollDto
all_staff = record { staff_ids = []; bonus = none; other_deductions = none }

abbrev by_upi : PaySalaryDto
by_upi = record { payment_method = PaymentMethod.upi; paid_at = 30 }

abbrev paid_out : StaffDb
paid_out =
    (pay_all 1 5 by_upi (process exact division default_config next_id 1 may all_staff firm).1).1

payday : PayrollRequests exact division default_config next_id firm paid_out
payday = followed (followed opened (processes may all_staff)) (pays_all 5 by_upi)

firm-IsUpkept : IsUpkept firm.payrolls
unfolding ◌+ℤ◌
firm-IsUpkept = record { slips = (refl, tt); ids = (tt, tt); months = (tt, tt) }

PayrollRequests-IsUpkept_example : IsUpkept paid_out.payrolls
PayrollRequests-IsUpkept_example =
    PayrollRequests-IsUpkept exact division default_config next_id next_id-unused firm-IsUpkept
      payday

paid_payroll_final_example :
    (q : Payroll) × (find_first (named payroll_id 3) paid_out.payrolls ≡ some q)
    × (but_slip q ≡ but_slip april_slip)
paid_payroll_final_example =
    paid_payroll_final exact division default_config next_id next_id-unused 3 april_slip
      firm-IsUpkept payday refl refl
