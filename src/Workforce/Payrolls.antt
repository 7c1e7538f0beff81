-- ===== src/Workforce/Payrolls.antt =====
-- backend/src/payroll/payroll.service.ts, except its list of rows.
pub mod Processing
pub mod Settling
pub mod Upkeep
pub mod Writing
pub mod Runs
pub mod Edits
use Prim.Native.String.{String}
use text.Mathlib.Text.{◌==◌ as str_eq}
use biz_saathi.Prelude.{
  ℕ, zero, suc, ◌+◌, ◌*◌, ◌/◌, Bool, true, false, not, ◌&&◌, ◌||◌, Option, none, some, List, [],
  ◌∷◌, ◌++◌, leb, ltb, ◌==◌, if◌then◌else◌, sum_of, length, ℤ, pos, ◌+ℤ◌,
}
use biz_saathi.Rounding.{Rounding}
use biz_saathi.Payroll.Division.{Division}
use biz_saathi.Payroll.Calculator.{
  Config, PayrollCalculationInput, PayrollCalculationResult, calculate,
}
use biz_saathi.Action.{
  Action, not_found, bad_request, forbidden, pure, gets, or_throw, throw_if, modify, ◌>>=◌, ◌>>◌,
}
use biz_saathi.Table.{find_first, find_many, count_where, update_where}
use biz_saathi.Records.{PaymentMethod, bank_transfer}
use biz_saathi.Invoice.{or_default, or_keep, or_text}
use biz_saathi.Workforce.{
  AttendanceStatus, Attendance, StaffStatus, PayrollStatus, Staff, Payroll, StaffJob,
  generate_salary_slip, send_payslip_email, payroll_processed, payroll_paid, payroll_paid_single,
  StaffDb,
}
use biz_saathi.Workforce.Days.{calculate_days_excluding_sundays}

-- A month, with its first and last date as `Date` gives them.
pub record Period : Type 0 where
  pub month : ℕ
  pub start_date : ℕ
  pub end_date : ℕ

-- dto/process-payroll.dto.ts; no ids stand for a missing list, which an empty one equals.
pub record ProcessPayrollDto : Type 0 where
  pub staff_ids : List ℕ
  pub bonus : Option ℕ
  pub other_deductions : Option ℕ

-- dto/pay-salary.dto.ts, but for the month.
pub record PaySalaryDto : Type 0 where
  pub payment_method : PaymentMethod
  pub paid_at : ℕ

-- The data of `updateOne`.
pub record UpdatePayroll : Type 0 where
  pub bonus : Option ℕ
  pub other_deductions : Option ℕ
  pub note : Option String

pub record PayrollRun : Type 0 where
  pub processed_count : ℕ
  pub total_net_salary : ℤ
  pub details : List (ℕ × ℤ)

abbrev pub status_index : AttendanceStatus → ℕ
status_index AttendanceStatus.present = 0
status_index AttendanceStatus.absent = 1
status_index AttendanceStatus.half_day = 2
status_index AttendanceStatus.holiday = 3
status_index AttendanceStatus.weekly_off = 4
status_index AttendanceStatus.on_leave = 5

-- `attendances.filter((a) => a.status === …).length`.
abbrev pub count_status : AttendanceStatus → List Attendance → ℕ
count_status status rows = count_where (λ a. status_index a.status == status_index status) rows

abbrev pub is_active : StaffStatus → Bool
is_active StaffStatus.active = true
is_active _ = false

abbrev pub is_draft_payroll : PayrollStatus → Bool
is_draft_payroll PayrollStatus.draft = true
is_draft_payroll _ = false

abbrev pub is_settled : PayrollStatus → Bool
is_settled PayrollStatus.paid = true
is_settled _ = false

abbrev pub contains : ℕ → List ℕ → Bool
contains k [] = false
contains k (x ∷ xs) = x == k || contains k xs

abbrev pub is_empty {ℓ} : {A : Type ℓ} → List A → Bool
is_empty [] = true
is_empty _ = false

-- `staffWhere`.
abbrev pub selected : (tenant : ℕ) → List ℕ → Staff → Bool
selected tenant ids s =
    s.tenant_id == tenant && is_active s.status && (is_empty ids || contains s.id ids)

-- The key that the payrolls of a staff member and month share.
abbrev pub of_month : (tenant staff month : ℕ) → Payroll → Bool
of_month tenant staff month p = p.tenant_id == tenant && p.staff_id == staff && p.month == month

abbrev pub during : (staff start_date end_date : ℕ) → Attendance → Bool
during staff start_date end_date a =
    a.staff_id == staff && leb start_date a.date && leb a.date end_date

-- What the attendance of the period gives the calculator; half days count as 0.5.
unfoldable pub attendance_input :
    Staff
    → (working_days : ℕ) → List Attendance
    → (bonus other_deductions : ℕ) → PayrollCalculationInput
attendance_input s working_days attendances bonus other_deductions = record {
  basic_salary = s.basic_salary;
  hra = s.hra;
  allowances = s.allowances;
  working_days = working_days;
  present_half_days =
      2 * count_status AttendanceStatus.present attendances
      + count_status AttendanceStatus.half_day attendances;
  leave_days = count_status AttendanceStatus.on_leave attendances;
  overtime_hours = sum_of (λ a. or_default a.overtime 0) attendances;
  pf_enabled = s.pf_enabled;
  esic_enabled = s.esic_enabled;
  tds_enabled = s.tds_enabled;
  bonus = bonus;
  other_deductions = other_deductions;
}

-- The row that `process` stores; the whole days present are `Math.floor`.
unfoldable pub new_payroll :
    (id tenant month absent_days : ℕ)
    → Staff
    → PayrollCalculationInput
    → PayrollCalculationResult
    → Payroll
new_payroll id tenant month absent_days s input result = record {
  id = id;
  tenant_id = tenant;
  staff_id = s.id;
  month = month;
  working_days = input.working_days;
  present_days = input.present_half_days / 2;
  absent_days = absent_days;
  leave_days = input.leave_days;
  overtime_hours = input.overtime_hours;
  basic_salary = result.proportional_basic;
  hra = result.proportional_hra;
  allowances = result.proportional_allowances;
  overtime_pay = result.overtime_pay;
  bonus = result.bonus;
  gross_salary = result.gross_salary;
  pf_employee = result.pf_employee;
  pf_employer = result.pf_employer;
  esic_employee = result.esic_employee;
  esic_employer = result.esic_employer;
  tds = result.tds;
  other_deductions = result.other_deductions;
  total_deductions = result.total_deductions;
  net_salary = result.net_salary;
  status = PayrollStatus.draft;
  payment_method = bank_transfer;
  paid_at = none;
  slip_url = none;
  note = none;
}

unfoldable pub push_job : StaffJob → Action StaffDb (Unit {0})
push_job job = modify (λ db. record db { jobs = db.jobs ++ job ∷ [] })

abbrev pub push_payslip : Option String → (id tenant : ℕ) → Action StaffDb (Unit {0})
push_payslip none id tenant = pure tt
push_payslip (some email) id tenant =
    if str_eq email "" then pure tt else push_job (send_payslip_email id tenant email)

-- Slips for several payrolls.
abbrev pub push_slips : (tenant : ℕ) → List Payroll → Action StaffDb (Unit {0})
push_slips tenant [] = pure tt
push_slips tenant (p ∷ ps) =
    push_job (generate_salary_slip p.id tenant p.staff_id p.month) >> push_slips tenant ps

abbrev pub total_net : List (ℕ × ℤ) → ℤ
total_net [] = pos 0
total_net ((s, net) ∷ rest) = net +ℤ total_net rest

-- `payroll.findFirst({ where: { id, tenantId } })`, and its 404.
unfoldable pub find_payroll : (tenant id : ℕ) → Action StaffDb Payroll
find_payroll tenant id = do
  found ← gets (λ db. find_first (λ (p : Payroll). p.id == id && p.tenant_id == tenant) db.payrolls)
  or_throw found (not_found "Payroll record not found")

-- An update of one row; the row it returns is the one found, as updated: ids are unique.
unfoldable pub update_payroll : (id : ℕ) → (Payroll → Payroll) → Action StaffDb (Unit {0})
update_payroll id f =
    modify (λ db. record db { payrolls = update_where (λ p. p.id == id) f db.payrolls })
