-- ===== src/Workforce/Payrolls/Runs.antt =====
-- Any sequence of requests to the payroll service.
use Prim.Native.String.{String}
use biz_saathi.Prelude.{ℕ, ◌≡◌, ◌≢◌, refl, ap, ◌∙◌, some, List, All}
use biz_saathi.Rounding.{Rounding}
use biz_saathi.Payroll.Division.{Division}
use biz_saathi.Payroll.Calculator.{Config}
use biz_saathi.Table.{find_first}
use biz_saathi.Table.Keys.{DistinctKeys, named}
use biz_saathi.Workforce.{PayrollStatus, Payroll, StaffDb}
use biz_saathi.Workforce.Payrolls.{Period, ProcessPayrollDto, PaySalaryDto, UpdatePayroll}
use biz_saathi.Workforce.Payrolls.Processing.{process}
use biz_saathi.Workforce.Payrolls.Settling.{update_one, pay_all, pay_single, get_slip}
use biz_saathi.Workforce.Payrolls.Upkeep.{
  payroll_id, but_slip, IsUpkept, Writes, Writes-IsUpkept, Writes-settled,
}
use biz_saathi.Workforce.Payrolls.Writing.{
  process-Writes, update_one-Writes, pay_all-Writes, pay_single-Writes, get_slip-Writes,
}

module _ (d : Rounding) (v : Division) (config : Config) (fresh_id : List Payroll → ℕ) where
  -- One request of a tenant.
  pub data PayrollRequest (tenant : ℕ) (db : StaffDb) : StaffDb → Type 0 where
    processes :
        (period : Period) (dto : ProcessPayrollDto)
        → PayrollRequest tenant db (process d v config fresh_id tenant period dto db).1
    edits :
        (id : ℕ) (data' : UpdatePayroll)
        → PayrollRequest tenant db (update_one d v config tenant id data' db).1
    pays_all :
        (month : ℕ) (dto : PaySalaryDto) → PayrollRequest tenant db (pay_all tenant month dto db).1
    pays_single : (now id : ℕ) → PayrollRequest tenant db (pay_single now tenant id db).1
    gets_slip :
        (generate : Payroll → String) (id : ℕ)
        → PayrollRequest tenant db (get_slip generate tenant id db).1

  pub data PayrollRequests (db : StaffDb) : StaffDb → Type 0 where
    opened : PayrollRequests db db
    followed :
        {tenant : ℕ} {a b : StaffDb}
        → PayrollRequests db a
        → PayrollRequest tenant a b
        → PayrollRequests db b

  module _ (unused : (rows : List Payroll) → All (λ x. x.id ≢ fresh_id rows) rows) where
    PayrollRequest-Writes :
        {tenant : ℕ} {a b : StaffDb}
        → DistinctKeys payroll_id a.payrolls
        → PayrollRequest tenant a b
        → Writes a.payrolls b.payrolls
    PayrollRequest-Writes {tenant} {a} ids (processes period dto) =
        process-Writes d v config fresh_id unused tenant period dto a
    PayrollRequest-Writes {tenant} {a} ids (edits id data') =
        update_one-Writes d v config tenant id data' a ids
    PayrollRequest-Writes {tenant} {a} ids (pays_all month dto) = pay_all-Writes tenant month dto a
    PayrollRequest-Writes {tenant} {a} ids (pays_single now id) =
        pay_single-Writes now tenant id a ids
    PayrollRequest-Writes {tenant} {a} ids (gets_slip generate id) =
        get_slip-Writes generate tenant id a ids

    -- After any sequence of the requests process, updateOne, payAll, paySingle and getSlip, accepted or
    -- refused, net salary and deductions of every payroll make up its gross salary, no staff member of
    -- a tenant has two payrolls of a month, and ids are distinct, if that holds at first and a new id
    -- is never in use.
    pub PayrollRequests-IsUpkept :
        {a b : StaffDb} → IsUpkept a.payrolls → PayrollRequests a b → IsUpkept b.payrolls
    PayrollRequests-IsUpkept u opened = u
    PayrollRequests-IsUpkept u (followed rs r) =
        let before = PayrollRequests-IsUpkept u rs in
        Writes-IsUpkept (PayrollRequest-Writes before.ids r) before

    -- A payroll that is PAID stays in the table as it is, but for the address of its slip, after any
    -- sequence of requests.
    pub paid_payroll_final :
        {a b : StaffDb} (j : ℕ) (p : Payroll)
        → IsUpkept a.payrolls
        → PayrollRequests a b
        → find_first (named payroll_id j) a.payrolls ≡ some p
        → p.status ≡ PayrollStatus.paid
        → (q : Payroll) × (find_first (named payroll_id j) b.payrolls ≡ some q)
          × (but_slip q ≡ but_slip p)
    paid_payroll_final j p u opened h paid = (p, h, refl)
    paid_payroll_final j p u (followed rs r) h paid =
        let (q, found, same) = paid_payroll_final j p u rs h paid in
        let writes = PayrollRequest-Writes (PayrollRequests-IsUpkept u rs).ids r in
        let (x, found', same') =
          Writes-settled j q writes found (ap (λ (y : Payroll). y.status) same ∙ paid) in
        (x, found', same' ∙ same)
