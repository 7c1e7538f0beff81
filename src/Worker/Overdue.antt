-- ===== src/Worker/Overdue.antt =====
-- The job `invoice:overdue:check` of backend/worker-service/src/processors/invoice.processor.ts,
-- which runs at the time `now`.
use Prim.Native.String.{String}
use text.Mathlib.Text.{◌==◌ as str_eq}
use mathlib.Core.List.{foldl}
use biz_saathi.Prelude.{
  ℕ, suc, ◌<◌, ◌⊎◌, Option-cases, ◌+◌, ◌≡◌, ◌≢◌, refl, ap, ◌∙◌, Bool, true, false, ◌&&◌, ◌||◌,
  Option, none, some, List, [], ◌∷◌, ◌++◌, map, arith, ltb, ◌==◌, ==_refl, if◌then◌else◌, All,
  length, Bool-cases, inl, inr,
}
use biz_saathi.Table.{find_many, find_many-All, update_where}
use biz_saathi.Records.{Date, InvoiceStatus, Customer, Invoice, Db}
use biz_saathi.Invoice.Draft.{has_id, find_customer}
use biz_saathi.Invoice.Rows.{DistinctIds}

-- The payloads are left out but for the ids and the phone.
pub data SweepJob : Type 0 where
  whatsapp_reminder : (invoice_id tenant_id : ℕ) (phone : String) → SweepJob
  realtime_push : (tenant_id invoice_id : ℕ) → SweepJob

-- One time comes before another.
abbrev pub is_before : Date → Date → Bool
is_before a b =
    ltb a.year b.year
    || (a.year == b.year
        && (ltb a.month b.month
            || (a.month == b.month && (ltb a.day b.day || (a.day == b.day && ltb a.time b.time)))))

-- `dueDate < NOW()`.
abbrev pub past_due : (now : Date) → Option Date → Bool
past_due now none = false
past_due now (some date) = is_before date now

abbrev pub is_open_status : InvoiceStatus → Bool
is_open_status InvoiceStatus.sent = true
is_open_status InvoiceStatus.partial = true
is_open_status _ = false

abbrev pub is_there : Option Customer → Bool
is_there none = false
is_there (some c) = true

-- The rows of the query, which joins the customer.
abbrev pub is_swept : (now : Date) → (Invoice → Option Customer) → Invoice → Bool
is_swept now customer inv =
    is_there (customer inv) && is_open_status inv.status && past_due now inv.due_date

abbrev pub mark_overdue : Invoice → Invoice
mark_overdue inv = record inv { status = InvoiceStatus.overdue }

pub record Sweep : Type 0 where
  pub invoices : List Invoice
  pub jobs : List SweepJob
  pub overdue_count : ℕ

abbrev pub reminder_jobs : Invoice → Option Customer → List SweepJob
reminder_jobs inv none = []
reminder_jobs inv (some c) = elim c.phone [
  | none ↦ []
  | some phone ↦ if str_eq phone "" then [] else whatsapp_reminder inv.id inv.tenant_id phone ∷ []
]

-- One round of the loop.
abbrev pub sweep_invoice : (Invoice → Option Customer) → Sweep → Invoice → Sweep
sweep_invoice customer s inv = record {
  invoices = update_where (has_id inv.id) mark_overdue s.invoices;
  jobs = s.jobs ++ reminder_jobs inv (customer inv) ++ realtime_push inv.tenant_id inv.id ∷ [];
  overdue_count = s.overdue_count + 1;
}

-- The sweep, where no query fails.
unfoldable pub sweep_overdue : (now : Date) → Db → Sweep
sweep_overdue now db =
    let customer : Invoice → Option Customer = λ inv. find_customer inv.customer_id db in
    foldl (sweep_invoice customer) (record { invoices = db.invoices; jobs = []; overdue_count = 0 })
      (find_many (is_swept now customer) db.invoices)

-- What the sweep makes of an invoice.
abbrev pub swept : (now : Date) → Db → Invoice → Invoice
swept now db inv =
    if is_swept now (λ i. find_customer i.customer_id db) inv then mark_overdue inv else inv

-- The rows that are left when some invoices have been marked.
abbrev marked_rows : List Invoice → List Invoice → List Invoice
marked_rows rows [] = rows
marked_rows rows (inv ∷ invs) = marked_rows (update_where (has_id inv.id) mark_overdue rows) invs

module _ (customer : Invoice → Option Customer) where
  sweep_invoice-rows :
      (invs : List Invoice) (s : Sweep)
      → let out = foldl (sweep_invoice customer) s invs in
        (out.invoices ≡ marked_rows s.invoices invs)
        × (out.overdue_count ≡ s.overdue_count + length invs)
  sweep_invoice-rows [] s = (refl, omega arith)
  sweep_invoice-rows (inv ∷ invs) s =
      let (a, b) = sweep_invoice-rows invs (sweep_invoice customer s inv) in (a, omega (arith, b))

-- A row whose id is not among the marked ones stays.
marked_rows-other :
    (x : Invoice) (xs invs : List Invoice)
    → All (λ (i : Invoice). i.id ≢ x.id) invs
    → marked_rows (x ∷ xs) invs ≡ x ∷ marked_rows xs invs
marked_rows-other x xs [] a = refl
marked_rows-other x xs (inv ∷ invs) a =
    let other : has_id inv.id x ≡ false = let ne = a.0 in ground (arith, ne) in
    rw other (marked_rows-other x (update_where (has_id inv.id) mark_overdue xs) invs a.1)

unmarked :
    (id : ℕ) (rows : List Invoice)
    → All (λ (y : Invoice). y.id ≢ id) rows
    → update_where (has_id id) mark_overdue rows ≡ rows
unmarked id [] a = refl
unmarked id (x ∷ xs) a =
    let other : has_id id x ≡ false = let ne = a.0 in ground (arith, ne) in
    rw other (ap (λ ys. x ∷ ys) (unmarked id xs a.1))

-- Marking the rows that pass, one by one by their ids, is marking them where they stand.
marked_rows-map :
    (p : Invoice → Bool) (rows : List Invoice)
    → DistinctIds rows
    → marked_rows rows (find_many p rows) ≡ map (λ x. if p x then mark_overdue x else x) rows
marked_rows-map p [] d = refl
marked_rows-map p (x ∷ xs) d =
    let away = find_many-All (λ (y : Invoice). y.id ≢ x.id) p xs d.0 in
    elim (Bool-cases (p x)) [
      | inl e ↦
          let head : update_where (has_id x.id) mark_overdue (x ∷ xs) ≡ mark_overdue x ∷ xs =
            rw (==_refl x.id) (ap (λ ys. mark_overdue x ∷ ys) (unmarked x.id xs d.0)) in
          rw e (
            ap (λ ys. marked_rows ys (find_many p xs)) head
            ∙ marked_rows-other (mark_overdue x) xs (find_many p xs) away
            ∙ ap (λ ys. mark_overdue x ∷ ys) (marked_rows-map p xs d.1))
      | inr e ↦ rw e (
          marked_rows-other x xs (find_many p xs) away
          ∙ ap (λ ys. x ∷ ys) (marked_rows-map p xs d.1))
    ]

-- In time, from the year down.
abbrev pub Before : Date → Date → Type 0
Before a b =
    a.year < b.year
    ⊎ ((a.year ≡ b.year)
        × (a.month < b.month
            ⊎ ((a.month ≡ b.month) × (a.day < b.day ⊎ ((a.day ≡ b.day) × (a.time < b.time))))))

-- Sent or partially paid, with a due date before now, and with a customer.
pub record IsDue (now : Date) (db : Db) (inv : Invoice) : Type 0 where
  pub due : Date
  pub buyer : Customer
  pub open_status : (inv.status ≡ InvoiceStatus.sent) ⊎ (inv.status ≡ InvoiceStatus.partial)
  pub has_due : inv.due_date ≡ some due
  pub late : Before due now
  pub bought : find_customer inv.customer_id db ≡ some buyer

-- The invoices that are due become OVERDUE and are counted, and every other one stays.
pub data Marking (Due : Invoice → Type 0) : List Invoice → List Invoice → ℕ → Type 0 where
  ended : Marking Due [] [] 0
  marked :
      {x : Invoice} {xs ys : List Invoice} {n : ℕ}
      → Due x
      → Marking Due xs ys n
      → Marking Due (x ∷ xs) (record x { status = InvoiceStatus.overdue } ∷ ys) (suc n)
  left :
      {x : Invoice} {xs ys : List Invoice} {n : ℕ}
      → ¬ Due x
      → Marking Due xs ys n
      → Marking Due (x ∷ xs) (x ∷ ys) n

is_before-Before : (a b : Date) → is_before a b ≡ true → Before a b
is_before-Before a b h = ground arith

not-Before : (a b : Date) → is_before a b ≡ false → ¬ Before a b
not-Before a b h k = ground arith

is_open :
    (s : InvoiceStatus)
    → is_open_status s ≡ true
    → (s ≡ InvoiceStatus.sent) ⊎ (s ≡ InvoiceStatus.partial)
is_open s h = ground arith

open_is :
    (s : InvoiceStatus)
    → (s ≡ InvoiceStatus.sent) ⊎ (s ≡ InvoiceStatus.partial)
    → is_open_status s ≡ true
open_is s h = ground arith

module _ (now : Date) (db : Db) where
  abbrev buyer_of : Invoice → Option Customer
  buyer_of inv = find_customer inv.customer_id db

  swept-IsDue : (x : Invoice) → is_swept now buyer_of x ≡ true → IsDue now db x
  swept-IsDue x h = elim (Option-cases (buyer_of x)) [
    | inl e ↦ let k = rw e at h in cc
    | inr (c, e) ↦ elim (Option-cases x.due_date) [
      | inl f ↦ let k = rw (e, f) at h in ground (arith, k)
      | inr (date, f) ↦
          let k = rw (e, f) at h in
          record {
            due = date;
            buyer = c;
            open_status = is_open x.status (ground (arith, k));
            has_due = f;
            late = is_before-Before date now (ground (arith, k));
            bought = e;
          }
    ]
  ]

  unswept : (x : Invoice) → is_swept now buyer_of x ≡ false → ¬ IsDue now db x
  unswept x h d =
      let bought = d.bought in
      let has_due = d.has_due in
      let open_status = open_is x.status d.open_status in
      let k = rw (bought, has_due, open_status) at h in not-Before d.due now k d.late

  sweep-Marking :
      (rows : List Invoice)
      → Marking
          (IsDue now db)
          rows
          (map (swept now db) rows)
          (length (find_many (is_swept now buyer_of) rows))
  sweep-Marking [] = ended
  sweep-Marking (x ∷ xs) = elim (Bool-cases (is_swept now buyer_of x)) [
    | inl e ↦ rw e (marked (swept-IsDue x e) (sweep-Marking xs))
    | inr e ↦ rw e (left (unswept x e) (sweep-Marking xs))
  ]

-- Where no two invoices have one id and no query fails, the sweep makes exactly the invoices OVERDUE
-- whose status is SENT or PARTIAL, which have a due date before the time of the sweep, and a
-- customer; of those it changes nothing but the status, every other invoice stays as it is, and its
-- count is the number of those.
pub sweep_overdue-swept :
    (now : Date) (db : Db)
    → DistinctIds db.invoices
    → let out = sweep_overdue now db in
      Marking (IsDue now db) db.invoices out.invoices out.overdue_count
unfolding sweep_overdue
sweep_overdue-swept now db d =
    let customer : Invoice → Option Customer = buyer_of now db in
    let (rows, count) =
      sweep_invoice-rows customer (find_many (is_swept now customer) db.invoices)
        (record { invoices = db.invoices; jobs = []; overdue_count = 0 }) in
    let marked_rows = rows ∙ marked_rows-map (is_swept now customer) db.invoices d in
    let due = find_many (is_swept now customer) db.invoices in
    let counted : (sweep_overdue now db).overdue_count ≡ length due = omega (arith, count) in
    rw (marked_rows, counted) (sweep-Marking now db db.invoices)
