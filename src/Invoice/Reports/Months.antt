-- ===== src/Invoice/Reports/Months.antt =====
-- The invoices that `getGstSummary` and `getGstr1` read, without their tests.
use biz_saathi.Prelude.{ℕ, ◌%◌, ◌<◌, ◌≡◌, ◌≢◌, ◌⊎◌, true, false, arith, Bool-cases, inl, inr}
use biz_saathi.Records.{Date, InvoiceStatus, Invoice}
use biz_saathi.Invoice.Reports.{last_day, in_month, is_booked, is_reported}

abbrev pub IsLeap : ℕ → Type 0
IsLeap year = ((year % 4 ≡ 0) × (year % 100 ≢ 0)) ⊎ (year % 400 ≡ 0)

-- January, March, May, July, August, October, December.
abbrev pub IsLong : ℕ → Type 0
IsLong m = (m ≡ 0) ⊎ ((m ≡ 2) ⊎ ((m ≡ 4) ⊎ ((m ≡ 6) ⊎ ((m ≡ 7) ⊎ ((m ≡ 9) ⊎ (m ≡ 11))))))

-- April, June, September, November.
abbrev pub IsShort : ℕ → Type 0
IsShort m = (m ≡ 3) ⊎ ((m ≡ 5) ⊎ ((m ≡ 8) ⊎ (m ≡ 10)))

-- The last day of a month, counted from 0, of the calendar.
abbrev pub IsLastDay : (year month last : ℕ) → Type 0
IsLastDay year month last =
    (IsLong month × (last ≡ 31))
    ⊎ ((IsShort month × (last ≡ 30))
        ⊎ (((month ≡ 1) × (IsLeap year × (last ≡ 29)))
            ⊎ ((month ≡ 1) × (¬ IsLeap year × (last ≡ 28)))))

-- Before the last day of the month begins, or at the midnight at which it does.
abbrev pub IsInMonth : (year month last : ℕ) → Date → Type 0
IsInMonth year month last date =
    (date.year ≡ year)
    × ((date.month ≡ month) × ((date.day < last) ⊎ ((date.day ≡ last) × (date.time ≡ 0))))

-- Sent, partially or fully paid.
abbrev pub IsBooked : InvoiceStatus → Type 0
IsBooked s = (s ≡ InvoiceStatus.sent) ⊎ ((s ≡ InvoiceStatus.partial) ⊎ (s ≡ InvoiceStatus.paid))

pub record IsReported (tenant year month last : ℕ) (inv : Invoice) : Type 0 where
  pub own : inv.tenant_id ≡ tenant
  pub booked : IsBooked inv.status
  pub dated : IsInMonth year month last inv.invoice_date

last_day-IsLastDay : (year month last : ℕ) → IsLastDay year month last → last_day year month ≡ last
last_day-IsLastDay year month last h = ground arith

is_booked-IsBooked : (s : InvoiceStatus) → is_booked s ≡ true → IsBooked s
is_booked-IsBooked s h = ground arith

unbooked : (s : InvoiceStatus) → is_booked s ≡ false → ¬ IsBooked s
unbooked s h k = ground arith

module _ (tenant year month last : ℕ) (calendar : IsLastDay year month last) where
  in_month-IsInMonth :
      (date : Date) → in_month year month date ≡ true → IsInMonth year month last date
  in_month-IsInMonth date h =
      let e = last_day-IsLastDay year month last calendar in let k = rw e at h in ground (arith, k)

  out_of_month : (date : Date) → in_month year month date ≡ false → ¬ IsInMonth year month last date
  out_of_month date h m =
      let e = last_day-IsLastDay year month last calendar in let k = rw e at h in ground (arith, k)

  pub is_reported-IsReported :
      (inv : Invoice)
      → is_reported tenant year month inv ≡ true
      → IsReported tenant year month last inv
  is_reported-IsReported inv h = record {
    own = ground (arith, h);
    booked = is_booked-IsBooked inv.status (ground (arith, h));
    dated = in_month-IsInMonth inv.invoice_date (ground (arith, h));
  }

  pub unreported :
      (inv : Invoice)
      → is_reported tenant year month inv ≡ false
      → ¬ IsReported tenant year month last inv
  unreported inv h r =
      let own = r.own in
      elim (Bool-cases (is_booked inv.status)) [
        | inr e ↦ unbooked inv.status e r.booked
        | inl e ↦ elim (Bool-cases (in_month year month inv.invoice_date)) [
          | inr f ↦ out_of_month inv.invoice_date f r.dated
          | inl f ↦ let k = rw (e, f) at h in ground (arith, k, own)
        ]
      ]
