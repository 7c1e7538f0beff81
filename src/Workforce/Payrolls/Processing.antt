-- ===== src/Workforce/Payrolls/Processing.antt =====
-- `process` of payroll.service.ts.
use biz_saathi.Prelude.{ℕ, Option, none, some, List, [], ◌∷◌, ◌++◌, length, ℤ}
use biz_saathi.Rounding.{Rounding}
use biz_saathi.Payroll.Division.{Division}
use biz_saathi.Payroll.Calculator.{Config, calculate}
use biz_saathi.Action.{Action, bad_request, pure, gets, throw_if, modify, ◌>>=◌, ◌>>◌}
use biz_saathi.Table.{find_first, find_many}
use biz_saathi.Invoice.{or_default}
use biz_saathi.Workforce.{
  AttendanceStatus, Staff, Payroll, generate_salary_slip, payroll_processed, StaffDb,
}
use biz_saathi.Workforce.Days.{calculate_days_excluding_sundays}
use biz_saathi.Workforce.Payrolls.{
  Period, ProcessPayrollDto, PayrollRun, count_status, is_empty, selected, of_month, during,
  attendance_input, new_payroll, push_job, push_payslip, total_net,
}

module _ (d : Rounding) (v : Division) (config : Config) (fresh_id : List Payroll → ℕ) where
  -- One round of the loop of `process`, for a staff member without a payroll of the month; `fresh_id`
  -- chooses the new id.
  unfoldable pub process_new :
      (tenant : ℕ) → Period → ProcessPayrollDto → Staff → Action StaffDb (List (ℕ × ℤ))
  process_new tenant period dto s = do
    attendances ←
        gets (λ db. find_many (during s.id period.start_date period.end_date) db.attendances)
    let working_days = calculate_days_excluding_sundays period.start_date period.end_date
    let input =
        attendance_input s working_days attendances (or_default dto.bonus 0)
          (or_default dto.other_deductions 0)
    let result = calculate d v config input
    id ← gets (λ db. fresh_id db.payrolls)
    modify (λ db. record db {
      payrolls =
          db.payrolls
          ++ new_payroll id tenant period.month (count_status AttendanceStatus.absent attendances) s
              input result
            ∷ [];
    })
    push_job (generate_salary_slip id tenant s.id period.month)
    push_payslip s.email id tenant
    pure ((s.id, result.net_salary) ∷ [])

  -- A staff member who has a payroll of the month is skipped.
  abbrev pub process_unless :
      Option Payroll
      → (tenant : ℕ) → Period
      → ProcessPayrollDto
      → Staff
      → Action StaffDb (List (ℕ × ℤ))
  process_unless none tenant period dto s = process_new tenant period dto s
  process_unless (some p) tenant period dto s = pure []

  unfoldable pub process_staff :
      (tenant : ℕ) → Period → ProcessPayrollDto → List Staff → Action StaffDb (List (ℕ × ℤ))
  process_staff tenant period dto [] = pure []
  process_staff tenant period dto (s ∷ staff) = do
    existing ← gets (λ db. find_first (of_month tenant s.id period.month) db.payrolls)
    result ← process_unless existing tenant period dto s
    results ← process_staff tenant period dto staff
    pure (result ++ results)

  -- `process`.
  unfoldable pub process : (tenant : ℕ) → Period → ProcessPayrollDto → Action StaffDb PayrollRun
  process tenant period dto = do
    staff ← gets (λ db. find_many (selected tenant dto.staff_ids) db.staff)
    throw_if (is_empty staff) (bad_request "No active staff found to process")
    results ← process_staff tenant period dto staff
    push_job (payroll_processed tenant period.month (length results))
    pure (record {
      processed_count = length results;
      total_net_salary = total_net results;
      details = results;
    })
