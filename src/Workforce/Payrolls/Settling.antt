-- ===== src/Workforce/Payrolls/Settling.antt =====
-- `updateOne`, `payAll`, `paySingle` and `getSlip` of payroll.service.ts.
use Prim.Native.String.{String}
use text.Mathlib.Text.{◌==◌ as str_eq}
use biz_saathi.Prelude.{
  ℕ, ◌*◌, Bool, true, false, not, ◌&&◌, some, List, [], ◌∷◌, ◌==◌, if◌then◌else◌, length,
}
use biz_saathi.Rounding.{Rounding}
use biz_saathi.Payroll.Division.{Division}
use biz_saathi.Payroll.Calculator.{Config, PayrollCalculationResult, calculate}
use biz_saathi.Action.{
  Action, not_found, bad_request, forbidden, pure, gets, or_throw, throw_if, modify, ◌>>=◌, ◌>>◌,
}
use biz_saathi.Table.{find_first, find_many, update_where}
use biz_saathi.Invoice.{or_default, or_keep, or_text}
use biz_saathi.Workforce.{
  PayrollStatus, Staff, Payroll, generate_salary_slip, payroll_paid, payroll_paid_single, StaffDb,
}
use biz_saathi.Workforce.Payrolls.{
  PaySalaryDto, UpdatePayroll, is_draft_payroll, is_settled, is_empty, push_job, push_slips,
  find_payroll, update_payroll,
}

abbrev pub updated : PayrollCalculationResult → UpdatePayroll → Payroll → Payroll
updated result data' p = record p {
  bonus = result.bonus;
  other_deductions = result.other_deductions;
  gross_salary = result.gross_salary;
  total_deductions = result.total_deductions;
  net_salary = result.net_salary;
  note = or_keep data'.note p.note;
}

module _ (d : Rounding) (v : Division) (config : Config) where
  -- What `updateOne` calculates from a payroll and its staff member.
  abbrev pub recalculated : Staff → Payroll → UpdatePayroll → PayrollCalculationResult
  recalculated s p data' = calculate d v config (record {
    basic_salary = s.basic_salary;
    hra = s.hra;
    allowances = s.allowances;
    working_days = p.working_days;
    present_half_days = 2 * p.present_days;
    leave_days = p.leave_days;
    overtime_hours = p.overtime_hours;
    pf_enabled = s.pf_enabled;
    esic_enabled = s.esic_enabled;
    tds_enabled = s.tds_enabled;
    bonus = or_default data'.bonus p.bonus;
    other_deductions = or_default data'.other_deductions p.other_deductions;
  })

  -- `updateOne`. The staff member of a payroll exists: it is a foreign key.
  unfoldable pub update_one : (tenant id : ℕ) → UpdatePayroll → Action StaffDb Payroll
  update_one tenant id data' = do
    p ← find_payroll tenant id
    member ← gets (λ db. find_first (λ (s : Staff). s.id == p.staff_id) db.staff)
    s ← or_throw member (not_found "Payroll record not found")
    throw_if (not (is_draft_payroll p.status)) (forbidden "Only DRAFT payrolls can be edited")
    let result = recalculated s p data'
    update_payroll id (updated result data')
    pure (updated result data' p)

abbrev pub drafts_of : (tenant month : ℕ) → Payroll → Bool
drafts_of tenant month p = p.tenant_id == tenant && p.month == month && is_draft_payroll p.status

abbrev pub pay_by : PaySalaryDto → Payroll → Payroll
pay_by dto p = record p {
  status = PayrollStatus.paid;
  payment_method = dto.payment_method;
  paid_at = some dto.paid_at;
}

-- `payAll`; the count of the payrolls.
unfoldable pub pay_all : (tenant month : ℕ) → PaySalaryDto → Action StaffDb ℕ
pay_all tenant month dto = do
  draft_payrolls ← gets (λ db. find_many (drafts_of tenant month) db.payrolls)
  throw_if (is_empty draft_payrolls) (bad_request "No DRAFT payrolls found for this month")
  modify (λ db. record db {
    payrolls = update_where (drafts_of tenant month) (pay_by dto) db.payrolls;
  })
  push_slips tenant draft_payrolls
  push_job (payroll_paid tenant month (length draft_payrolls))
  pure (length draft_payrolls)

abbrev pub pay_now : (now : ℕ) → Payroll → Payroll
pay_now now p = record p { status = PayrollStatus.paid; paid_at = some now }

-- `paySingle`.
unfoldable pub pay_single : (now tenant id : ℕ) → Action StaffDb Payroll
pay_single now tenant id = do
  p ← find_payroll tenant id
  throw_if (is_settled p.status) (forbidden "Payroll already paid")
  update_payroll id (pay_now now)
  push_job (generate_salary_slip p.id tenant p.staff_id p.month)
  push_job (payroll_paid_single tenant p.id p.staff_id p.month)
  pure (pay_now now p)

-- The keys `slip:<payroll>`.
abbrev pub cached_slip : ℕ → List (ℕ × String) → String
cached_slip id [] = ""
cached_slip id ((k, url) ∷ rest) = if k == id then url else cached_slip id rest

unfoldable pub cache_slip : ℕ → String → Action StaffDb (Unit {0})
cache_slip id url = modify (λ db. record db { slip_urls = (id, url) ∷ db.slip_urls })

abbrev pub with_slip : String → Payroll → Payroll
with_slip url p = record p { slip_url = some url }

-- `getSlip`: the address, and whether it came from the cache. `generate` is the PDF service.
unfoldable pub get_slip :
    (generate : Payroll → String) (tenant id : ℕ) → Action StaffDb (String × Bool)
get_slip generate tenant id = do
  p ← find_payroll tenant id
  cached ← gets (λ db. cached_slip id db.slip_urls)
  let stored = or_text p.slip_url ""
  let url = generate p
  if not (str_eq cached "")
      then pure (cached, true)
      else (if not (str_eq stored "")
          then cache_slip id stored >> pure (stored, false)
          else update_payroll id (with_slip url) >> cache_slip id url >> pure (url, false))
