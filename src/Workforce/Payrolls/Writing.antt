-- ===== src/Workforce/Payrolls/Writing.antt =====
-- The writes that each request of payroll.service.ts makes, on every branch.
use Prim.Native.String.{String}
use text.Mathlib.Text.{◌==◌ as str_eq}
use mathlib.Core.Path.{subst}
use biz_saathi.Prelude.{
  ℕ, ◌≡◌, ◌≢◌, refl, sym, true, ◌&&◌, Option, none, some, List, [], ◌∷◌, arith, ◌==◌, All, All-imp,
  Bool-cases, Option-cases, inl, inr,
}
use biz_saathi.Rounding.{Rounding}
use biz_saathi.Payroll.Division.{Division}
use biz_saathi.Payroll.Calculator.{Config}
use biz_saathi.Payroll.Payslip.{calculate-net}
use biz_saathi.Action.{Action, Result, ok, err, continue, ◌>>=◌}
use biz_saathi.Invoice.{or_text}
use biz_saathi.Table.{find_first, find_first_sound, find_many}
use biz_saathi.Table.Keys.{DistinctKeys, named, found_alone}
use biz_saathi.Workforce.{Staff, Payroll, StaffDb}
use biz_saathi.Workforce.Payrolls.{
  Period, ProcessPayrollDto, PaySalaryDto, UpdatePayroll, is_draft_payroll, is_settled, is_empty,
  selected, attendance_input, of_month, new_payroll, push_job, push_payslip, push_slips,
  find_payroll, update_payroll,
}
use biz_saathi.Workforce.Payrolls.Processing.{process_new, process_unless, process_staff, process}
use biz_saathi.Workforce.Payrolls.Settling.{
  recalculated, updated, update_one, drafts_of, pay_by, pay_all, pay_now, pay_single, cached_slip,
  cache_slip, with_slip, get_slip,
}
use biz_saathi.Workforce.Payrolls.Upkeep.{
  payroll_id, IsKept, added, rewrote, Write, unwritten, then_, Writes, Writes-trans,
}

-- A request that does not write the payrolls, or writes them once.
pub same-Writes : (a b : List Payroll) → b ≡ a → Writes a b
same-Writes a b e = rw e unwritten

pub one-Writes : {a b : List Payroll} → Write a b → Writes a b
one-Writes w = then_ unwritten w

pub continue-Writes :
    {A B : Type 0} (r : Result A) (k : A → Action StaffDb B) (a : List Payroll) (db : StaffDb)
    → Writes a db.payrolls
    → ((x : A) → Writes db.payrolls (k x db).1.payrolls)
    → Writes a (continue r k db).1.payrolls
continue-Writes (ok x) k a db w next = Writes-trans w (next x)
continue-Writes (err e) k a db w next = w

-- The writes of two actions, one after the other.
pub bind-Writes :
    {A B : Type 0} (m : Action StaffDb A) (k : A → Action StaffDb B) (db : StaffDb)
    → Writes db.payrolls (m db).1.payrolls
    → ((x : A) → Writes (m db).1.payrolls (k x (m db).1).1.payrolls)
    → Writes db.payrolls ((m >>= k) db).1.payrolls
bind-Writes m k db w next = continue-Writes (m db).0 k db.payrolls (m db).1 w next

push_payslip-payrolls :
    (email : Option String) (id tenant : ℕ) (db : StaffDb)
    → (push_payslip email id tenant db).1.payrolls ≡ db.payrolls
unfolding push_job
push_payslip-payrolls none id tenant db = refl
push_payslip-payrolls (some email) id tenant db = elim (Bool-cases (str_eq email "")) [
  | inl e ↦ rw e refl
  | inr e ↦ rw e refl
]

push_slips-payrolls :
    (tenant : ℕ) (ps : List Payroll) (db : StaffDb)
    → ((push_slips tenant ps db).0 ≡ ok tt) × ((push_slips tenant ps db).1.payrolls ≡ db.payrolls)
unfolding push_job
push_slips-payrolls tenant [] db = (refl, refl)
push_slips-payrolls tenant (p ∷ ps) db = push_slips-payrolls tenant ps _

-- A row that is found by its id is the only one that a write to that id changes.
found-AllKept :
    (tenant id : ℕ) (f : Payroll → Payroll) (rows : List Payroll) {p : Payroll}
    → DistinctKeys payroll_id rows
    → find_first (λ (x : Payroll). x.id == id && x.tenant_id == tenant) rows ≡ some p
    → IsKept p (f p)
    → All (λ x. named payroll_id id x ≡ true → IsKept x (f x)) rows
found-AllKept tenant id f rows {p} d h k =
    let at : (p.id == id && p.tenant_id == tenant) ≡ true =
      find_first_sound (λ (x : Payroll). x.id == id && x.tenant_id == tenant) rows h in
    All-imp (λ x. named payroll_id p.id x ≡ true → x ≡ p) _
      (λ x alone here.
        let same : x ≡ p = alone (ground arith) in subst (λ y. IsKept y (f y)) (sym same) k)
      rows (found_alone payroll_id (λ (x : Payroll). x.id == id && x.tenant_id == tenant) rows d h)

module _ (d : Rounding) (v : Division) (config : Config) (fresh_id : List Payroll → ℕ) where
  module _ (unused : (rows : List Payroll) → All (λ x. x.id ≢ fresh_id rows) rows) where
    pub process_new-Writes :
        (tenant : ℕ) (period : Period) (dto : ProcessPayrollDto) (s : Staff) (db : StaffDb)
        → find_first (of_month tenant s.id period.month) db.payrolls ≡ none
        → Writes db.payrolls (process_new d v config fresh_id tenant period dto s db).1.payrolls
    unfolding process_new push_job new_payroll attendance_input
    process_new-Writes tenant period dto s db free =
        let w = one-Writes (added _ (unused db.payrolls) free (calculate-net d v config _)) in
        elim (Option-cases s.email) [
          | inl e ↦ rw e w
          | inr (email, e) ↦
              rw e (elim (Bool-cases (str_eq email "")) [ inl k ↦ rw k w | inr k ↦ rw k w ])
        ]

    pub process_unless-Writes :
        (tenant : ℕ) (period : Period) (dto : ProcessPayrollDto) (s : Staff) (db : StaffDb)
        → Writes db.payrolls
            (process_unless d v config fresh_id
              (find_first (of_month tenant s.id period.month) db.payrolls)
              tenant
              period
              dto
              s
              db).1.payrolls
    process_unless-Writes tenant period dto s db =
        elim (Option-cases (find_first (of_month tenant s.id period.month) db.payrolls)) [
          | inl e ↦ rw e (process_new-Writes tenant period dto s db e)
          | inr (p, e) ↦ rw e unwritten
        ]

    pub process_staff-Writes :
        (tenant : ℕ) (period : Period) (dto : ProcessPayrollDto) (staff : List Staff) (db : StaffDb)
        → Writes db.payrolls
            (process_staff d v config fresh_id tenant period dto staff db).1.payrolls
    unfolding process_staff
    process_staff-Writes tenant period dto [] db = unwritten
    process_staff-Writes tenant period dto (s ∷ staff) db =
        let existing = find_first (of_month tenant s.id period.month) db.payrolls in
        continue-Writes (process_unless d v config fresh_id existing tenant period dto s db).0 _
          db.payrolls (process_unless d v config fresh_id existing tenant period dto s db).1
          (process_unless-Writes tenant period dto s db)
          (λ result.
            continue-Writes (process_staff d v config fresh_id tenant period dto staff _).0 _ _ _
              (process_staff-Writes tenant period dto staff _) (λ results. unwritten))

    pub process-Writes :
        (tenant : ℕ) (period : Period) (dto : ProcessPayrollDto) (db : StaffDb)
        → Writes db.payrolls (process d v config fresh_id tenant period dto db).1.payrolls
    unfolding process push_job
    process-Writes tenant period dto db =
        elim (Bool-cases (is_empty (find_many (selected tenant dto.staff_ids) db.staff))) [
          | inl e ↦ rw e unwritten
          | inr e ↦ rw e (
              continue-Writes (process_staff d v config fresh_id tenant period dto _ db).0 _
                db.payrolls _ (process_staff-Writes tenant period dto _ db) (λ results. unwritten))
        ]

module _ (d : Rounding) (v : Division) (config : Config) where
  pub update_one-Writes :
      (tenant id : ℕ) (data' : UpdatePayroll) (db : StaffDb)
      → DistinctKeys payroll_id db.payrolls
      → Writes db.payrolls (update_one d v config tenant id data' db).1.payrolls
  unfolding update_one find_payroll update_payroll
  update_one-Writes tenant id data' db ids =
      elim (Option-cases
        (find_first (λ (x : Payroll). x.id == id && x.tenant_id == tenant) db.payrolls)) [
          | inl e ↦ rw e unwritten
          | inr (p, e) ↦
              elim (Option-cases (find_first (λ (s : Staff). s.id == p.staff_id) db.staff)) [
                | inl none_ ↦ rw e (rw none_ unwritten)
                | inr (s, m) ↦ elim (Bool-cases (is_draft_payroll p.status)) [
                  | inr c ↦ rw e (rw m (rw c unwritten))
                  | inl o ↦
                      let result = recalculated d v config s p data' in
                      let f = updated result data' in
                      let kept : IsKept p (f p) = record {
                        id = refl;
                        tenant = refl;
                        staff = refl;
                        month = refl;
                        slip = λ _. calculate-net d v config _;
                        settled = λ paid. absurd (ground arith);
                      } in
                      rw e (
                        rw m (
                          rw o (
                            one-Writes (
                              rewrote (named payroll_id id) f
                                (found-AllKept tenant id f db.payrolls ids e kept)))))
                ]
              ]
        ]

drafts-AllKept :
    (tenant month : ℕ) (dto : PaySalaryDto) (rows : List Payroll)
    → All (λ p. drafts_of tenant month p ≡ true → IsKept p (pay_by dto p)) rows
drafts-AllKept tenant month dto [] = tt
drafts-AllKept tenant month dto (p ∷ ps) = (
  (λ e. record {
    id = refl;
    tenant = refl;
    staff = refl;
    month = refl;
    slip = λ h. h;
    settled = λ paid. absurd (ground arith);
  }),
  drafts-AllKept tenant month dto ps,
)

pub pay_all-Writes :
    (tenant month : ℕ) (dto : PaySalaryDto) (db : StaffDb)
    → Writes db.payrolls (pay_all tenant month dto db).1.payrolls
unfolding pay_all push_job
pay_all-Writes tenant month dto db =
    elim (Bool-cases (is_empty (find_many (drafts_of tenant month) db.payrolls))) [
      | inl e ↦ rw e unwritten
      | inr e ↦ rw e (
          continue-Writes (push_slips tenant (find_many (drafts_of tenant month) db.payrolls) _).0 _
            db.payrolls _
            (rw (push_slips-payrolls tenant (find_many (drafts_of tenant month) db.payrolls) _).1 (
              one-Writes (
                rewrote (drafts_of tenant month) (pay_by dto)
                  (drafts-AllKept tenant month dto db.payrolls))))
            (λ _. unwritten))
    ]

pub pay_single-Writes :
    (now tenant id : ℕ) (db : StaffDb)
    → DistinctKeys payroll_id db.payrolls
    → Writes db.payrolls (pay_single now tenant id db).1.payrolls
unfolding pay_single find_payroll update_payroll push_job
pay_single-Writes now tenant id db ids =
    elim (Option-cases
      (find_first (λ (x : Payroll). x.id == id && x.tenant_id == tenant) db.payrolls)) [
        | inl e ↦ rw e unwritten
        | inr (p, e) ↦ elim (Bool-cases (is_settled p.status)) [
          | inl c ↦ rw e (rw c unwritten)
          | inr o ↦
              let kept : IsKept p (pay_now now p) = record {
                id = refl;
                tenant = refl;
                staff = refl;
                month = refl;
                slip = λ h. h;
                settled = λ paid. absurd (ground arith);
              } in
              rw e (
                rw o (
                  one-Writes (
                    rewrote (named payroll_id id) (pay_now now)
                      (found-AllKept tenant id (pay_now now) db.payrolls ids e kept))))
        ]
      ]

pub get_slip-Writes :
    (generate : Payroll → String) (tenant id : ℕ) (db : StaffDb)
    → DistinctKeys payroll_id db.payrolls
    → Writes db.payrolls (get_slip generate tenant id db).1.payrolls
unfolding get_slip find_payroll update_payroll cache_slip
get_slip-Writes generate tenant id db ids =
    elim (Option-cases
      (find_first (λ (x : Payroll). x.id == id && x.tenant_id == tenant) db.payrolls)) [
        | inl e ↦ rw e unwritten
        | inr (p, e) ↦ elim (Bool-cases (str_eq (cached_slip id db.slip_urls) "")) [
          | inr c ↦ rw e (rw c unwritten)
          | inl c ↦ elim (Bool-cases (str_eq (or_text p.slip_url "") "")) [
            | inr o ↦ rw e (rw c (rw o unwritten))
            | inl o ↦
                let f = with_slip (generate p) in
                let kept : IsKept p (f p) = record {
                  id = refl;
                  tenant = refl;
                  staff = refl;
                  month = refl;
                  slip = λ h. h;
                  settled = λ paid. refl;
                } in
                rw e (
                  rw c (
                    rw o (
                      one-Writes (
                        rewrote (named payroll_id id) f
                          (found-AllKept tenant id f db.payrolls ids e kept)))))
          ]
        ]
      ]
