-- ===== src/Workforce/Payrolls/Upkeep.antt =====
-- What the requests of payroll.service.ts make of the payrolls.
use mathlib.Core.Path.{subst}
use mathlib.Core.Option.{some-injective}
use biz_saathi.Prelude.{
  ℕ, ◌≡◌, ◌≢◌, refl, sym, ap, ◌∙◌, Bool, true, false, none, some, List, [], ◌∷◌, ◌++◌, arith, All,
  All-append, if◌then◌else◌, Bool-cases, inl, inr, pos, ◌+ℤ◌,
}
use biz_saathi.Table.{find_first, update_where}
use biz_saathi.Table.Keys.{DistinctKeys, named, DistinctKeys-snoc, find_first-snoc}
use biz_saathi.Workforce.{PayrollStatus, Payroll}
use biz_saathi.Workforce.Payrolls.{of_month}

abbrev pub payroll_id : Payroll → ℕ
payroll_id p = p.id

-- A slip that adds up.
abbrev pub IsPayslip : Payroll → Type 0
IsPayslip p = p.net_salary +ℤ pos p.total_deductions ≡ pos p.gross_salary

-- A payroll but for the address of its slip.
abbrev pub but_slip : Payroll → Payroll
but_slip p = record p { slip_url = none }

abbrev pub SameMonth : Payroll → Payroll → Type 0
SameMonth p q = of_month p.tenant_id p.staff_id p.month q ≡ true

-- No staff member of a tenant has two payrolls of a month.
abbrev pub DistinctMonths : List Payroll → Type 0
DistinctMonths [] = Unit
DistinctMonths (p ∷ ps) =
    All (λ q. of_month p.tenant_id p.staff_id p.month q ≡ false) ps × DistinctMonths ps

pub record IsUpkept (rows : List Payroll) : Type 0 where
  pub slips : All IsPayslip rows
  pub ids : DistinctKeys payroll_id rows
  pub months : DistinctMonths rows

-- What a rewriting keeps of a row.
pub record IsKept (p q : Payroll) : Type 0 where
  pub id : q.id ≡ p.id
  pub tenant : q.tenant_id ≡ p.tenant_id
  pub staff : q.staff_id ≡ p.staff_id
  pub month : q.month ≡ p.month
  pub slip : IsPayslip p → IsPayslip q
  pub settled : p.status ≡ PayrollStatus.paid → but_slip q ≡ but_slip p

-- One write.
pub data Write (before : List Payroll) : List Payroll → Type 0 where
  added :
      (p : Payroll)
      → All (λ x. x.id ≢ p.id) before
      → find_first (of_month p.tenant_id p.staff_id p.month) before ≡ none
      → IsPayslip p
      → Write before (before ++ p ∷ [])
  rewrote :
      (test : Payroll → Bool) (f : Payroll → Payroll)
      → All (λ p. test p ≡ true → IsKept p (f p)) before
      → Write before (update_where test f before)

-- The writes of a request, or of several.
pub data Writes (before : List Payroll) : List Payroll → Type 0 where
  unwritten : Writes before before
  then_ : {a b : List Payroll} → Writes before a → Write a b → Writes before b

-- One row of a rewriting.
abbrev rewritten : (Payroll → Bool) → (Payroll → Payroll) → Payroll → Payroll
rewritten test f p = if test p then f p else p

rewritten-IsKept :
    (test : Payroll → Bool) (f : Payroll → Payroll) (p : Payroll)
    → (test p ≡ true → IsKept p (f p))
    → IsKept p (rewritten test f p)
rewritten-IsKept test f p k = elim (Bool-cases (test p)) [
  | inl e ↦ rw e (k e)
  | inr e ↦ rw e (record {
    id = refl;
    tenant = refl;
    staff = refl;
    month = refl;
    slip = λ s. s;
    settled = λ s. refl;
  })
]

module _ (test : Payroll → Bool) (f : Payroll → Payroll) where
  abbrev AllKept : List Payroll → Type 0
  AllKept rows = All (λ p. test p ≡ true → IsKept p (f p)) rows

  slips-rewrite :
      (rows : List Payroll)
      → AllKept rows
      → All IsPayslip rows
      → All IsPayslip (update_where test f rows)
  slips-rewrite [] k h = tt
  slips-rewrite (p ∷ ps) k h = ((rewritten-IsKept test f p k.0).slip h.0, slips-rewrite ps k.1 h.1)

  away-rewrite :
      (i : ℕ) (rows : List Payroll)
      → AllKept rows
      → All (λ x. x.id ≢ i) rows
      → All (λ x. x.id ≢ i) (update_where test f rows)
  away-rewrite i [] k h = tt
  away-rewrite i (p ∷ ps) k h =
      ((λ e. h.0 (sym (rewritten-IsKept test f p k.0).id ∙ e)), away-rewrite i ps k.1 h.1)

  ids-rewrite :
      (rows : List Payroll)
      → AllKept rows
      → DistinctKeys payroll_id rows
      → DistinctKeys payroll_id (update_where test f rows)
  ids-rewrite [] k h = tt
  ids-rewrite (p ∷ ps) k h = (
    subst (λ i. All (λ x. x.id ≢ i) (update_where test f ps))
        (sym (rewritten-IsKept test f p k.0).id) (away-rewrite p.id ps k.1 h.0),
    ids-rewrite ps k.1 h.1,
  )

  other_months-rewrite :
      (t s m : ℕ) (rows : List Payroll)
      → AllKept rows
      → All (λ q. of_month t s m q ≡ false) rows
      → All (λ q. of_month t s m q ≡ false) (update_where test f rows)
  other_months-rewrite t s m [] k h = tt
  other_months-rewrite t s m (p ∷ ps) k h =
      let kept = rewritten-IsKept test f p k.0 in
      ((rw (kept.tenant, kept.staff, kept.month) h.0), other_months-rewrite t s m ps k.1 h.1)

  months-rewrite :
      (rows : List Payroll)
      → AllKept rows
      → DistinctMonths rows
      → DistinctMonths (update_where test f rows)
  months-rewrite [] k h = tt
  months-rewrite (p ∷ ps) k h =
      let kept = rewritten-IsKept test f p k.0 in
      (
        rw (kept.tenant, kept.staff, kept.month)
            (other_months-rewrite p.tenant_id p.staff_id p.month ps k.1 h.0),
        months-rewrite ps k.1 h.1,
      )

  find_first-rewrite :
      (j : ℕ) (rows : List Payroll) {p : Payroll}
      → AllKept rows
      → find_first (named payroll_id j) rows ≡ some p
      → (q : Payroll) × (find_first (named payroll_id j) (update_where test f rows) ≡ some q)
        × IsKept p q
  find_first-rewrite j [] k h = cc
  find_first-rewrite j (x ∷ xs) {p} k h =
      let kept = rewritten-IsKept test f x k.0 in
      elim (Bool-cases (named payroll_id j x)) [
        | inl e ↦
            let new : named payroll_id j (rewritten test f x) ≡ true = rw kept.id e in
            let is_p : x ≡ p = some-injective _ _ (rw e at h) in
            (rewritten test f x, rw new refl, subst (λ y. IsKept y (rewritten test f x)) is_p kept)
        | inr e ↦
            let new : named payroll_id j (rewritten test f x) ≡ false = rw kept.id e in
            let (q, found, keeps) = find_first-rewrite j xs k.1 (rw e at h) in
            (q, rw new found, keeps)
      ]

months-none :
    (t s m : ℕ) (rows : List Payroll)
    → find_first (of_month t s m) rows ≡ none
    → All (λ q. of_month t s m q ≡ false) rows
months-none t s m [] h = tt
months-none t s m (q ∷ qs) h = elim (Bool-cases (of_month t s m q)) [
  | inl e ↦ let k : some q ≡ none = rw e at h in cc
  | inr e ↦ (e, months-none t s m qs (rw e at h))
]

months-snoc :
    (rows : List Payroll) (p : Payroll)
    → All (λ q. of_month p.tenant_id p.staff_id p.month q ≡ false) rows
    → DistinctMonths rows
    → DistinctMonths (rows ++ p ∷ [])
months-snoc [] p h d = (tt, tt)
months-snoc (q ∷ qs) p h d =
    let other : of_month q.tenant_id q.staff_id q.month p ≡ false = let h0 = h.0 in ground arith in
    (
      All-append (λ x. of_month q.tenant_id q.staff_id q.month x ≡ false) qs (p ∷ []) d.0
          (other, tt),
      months-snoc qs p h.1 d.1,
    )

Write-IsUpkept : {a b : List Payroll} → Write a b → IsUpkept a → IsUpkept b
Write-IsUpkept {a} (added p fresh free slip) u = record {
  slips = All-append IsPayslip a (p ∷ []) u.slips (slip, tt);
  ids = DistinctKeys-snoc payroll_id a p fresh u.ids;
  months = months-snoc a p (months-none p.tenant_id p.staff_id p.month a free) u.months;
}
Write-IsUpkept {a} (rewrote test f k) u = record {
  slips = slips-rewrite test f a k u.slips;
  ids = ids-rewrite test f a k u.ids;
  months = months-rewrite test f a k u.months;
}

-- A payroll that is paid is found again, but for the address of its slip.
Write-settled :
    {a b : List Payroll} (j : ℕ) (p : Payroll)
    → Write a b
    → find_first (named payroll_id j) a ≡ some p
    → p.status ≡ PayrollStatus.paid
    → (q : Payroll) × (find_first (named payroll_id j) b ≡ some q) × (but_slip q ≡ but_slip p)
Write-settled {a} j p (added new fresh free slip) h paid =
    (p, find_first-snoc payroll_id (named payroll_id j) a new h, refl)
Write-settled {a} j p (rewrote test f k) h paid =
    let (q, found, kept) = find_first-rewrite test f j a k h in (q, found, kept.settled paid)

pub Writes-IsUpkept : {a b : List Payroll} → Writes a b → IsUpkept a → IsUpkept b
Writes-IsUpkept unwritten u = u
Writes-IsUpkept (then_ ws w) u = Write-IsUpkept w (Writes-IsUpkept ws u)

pub Writes-settled :
    {a b : List Payroll} (j : ℕ) (p : Payroll)
    → Writes a b
    → find_first (named payroll_id j) a ≡ some p
    → p.status ≡ PayrollStatus.paid
    → (q : Payroll) × (find_first (named payroll_id j) b ≡ some q) × (but_slip q ≡ but_slip p)
Writes-settled j p unwritten h paid = (p, h, refl)
Writes-settled j p (then_ ws w) h paid =
    let (q, found, same) = Writes-settled j p ws h paid in
    let (r, found', same') =
      Write-settled j q w found (ap (λ (x : Payroll). x.status) same ∙ paid) in
    (r, found', same' ∙ same)

pub Writes-trans : {a b c : List Payroll} → Writes a b → Writes b c → Writes a c
Writes-trans ws unwritten = ws
Writes-trans ws (then_ vs w) = then_ (Writes-trans ws vs) w
