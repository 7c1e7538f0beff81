-- ===== src/Invoice/Reports.antt =====
-- The methods of invoice.service.ts that read: `getGstSummary`, `getGstr1`, the figures of
-- `getDashboard`. They add up JavaScript's numbers, in any arithmetic (`Double`).
pub mod ByRate
pub mod Months
pub mod Gstr1
use Prim.Native.String.{String}
use text.Mathlib.Text.{◌==◌ as str_eq}
use mathlib.Core.List.{foldl}
use biz_saathi.Prelude.{
  ℕ, Bool, true, false, not, ◌&&◌, ◌||◌, Option, none, some, List, [], ◌∷◌, ◌++◌, if◌then◌else◌,
  ◌==◌, ◌%◌, leb, ltb, length, ℤ, pos, eqb_ℤ,
}
use biz_saathi.Double.{Double}
use biz_saathi.Table.{find_many, count_where}
use biz_saathi.Records.{Date, InvoiceStatus, Customer, InvoiceItem, Invoice, Db}
use biz_saathi.Invoice.{or_text, is_paid}
use biz_saathi.Invoice.Draft.{find_customer}

-- `new Date(year, month + 1, 0).getDate()`.
abbrev pub last_day : (year month : ℕ) → ℕ
last_day year month =
    if month == 1
    then (if year % 4 == 0 && (not (year % 100 == 0) || year % 400 == 0) then 29 else 28)
    else if month == 3 || month == 5 || month == 8 || month == 10
    then 30
    else 31

-- From the midnight at which the first day of a month begins to the one at which its last day does.
abbrev pub in_month : (year month : ℕ) → Date → Bool
in_month year month date =
    date.year == year
    && (date.month == month
        && (ltb date.day (last_day year month)
            || (date.day == last_day year month && date.time == 0)))

-- SENT, PARTIAL and PAID.
abbrev pub is_booked : InvoiceStatus → Bool
is_booked InvoiceStatus.sent = true
is_booked InvoiceStatus.partial = true
is_booked InvoiceStatus.paid = true
is_booked _ = false

abbrev pub is_reported : (tenant year month : ℕ) → Invoice → Bool
is_reported tenant year month inv =
    inv.tenant_id == tenant && is_booked inv.status && in_month year month inv.invoice_date

module _ (n : Double) where
  open n use {Num, number, add, sub}

  -- A bucket under its key, `Number(item.gstRate)`: different rates of the column `Decimal(5, 2)` are
  -- different numbers, so the rate stands for its number.
  pub record Bucket : Type 0 where
    pub rate : ℤ
    pub taxable : Num
    pub cgst : Num
    pub sgst : Num
    pub igst : Num

  abbrev pub empty_bucket : ℤ → Bucket
  empty_bucket rate = record {
    rate = rate;
    taxable = number (pos 0);
    cgst = number (pos 0);
    sgst = number (pos 0);
    igst = number (pos 0);
  }

  abbrev pub into_bucket : InvoiceItem → Bucket → Bucket
  into_bucket item b = record b {
    taxable = add b.taxable (number item.amount);
    cgst = add b.cgst (number item.cgst);
    sgst = add b.sgst (number item.sgst);
    igst = add b.igst (number item.igst);
  }

  -- The map of the buckets, in the order in which their rates came.
  unfoldable pub bucket_item : List Bucket → InvoiceItem → List Bucket
  bucket_item [] item = into_bucket item (empty_bucket item.gst_rate) ∷ []
  bucket_item (b ∷ bs) item =
      let rest = bucket_item bs item in
      if eqb_ℤ b.rate item.gst_rate then into_bucket item b ∷ bs else b ∷ rest

  -- The accumulators of `getGstSummary`.
  pub record GstTotals : Type 0 where
    pub taxable_amount : Num
    pub total_cgst : Num
    pub total_sgst : Num
    pub total_igst : Num
    pub total_with_tax : Num
    pub by_rate : List Bucket

  pub record GstSummary : Type 0 where
    pub totals : GstTotals
    pub total_tax : Num
    pub invoice_count : ℕ

  abbrev pub no_totals : GstTotals
  no_totals = record {
    taxable_amount = number (pos 0);
    total_cgst = number (pos 0);
    total_sgst = number (pos 0);
    total_igst = number (pos 0);
    total_with_tax = number (pos 0);
    by_rate = [];
  }

  abbrev pub add_invoice : GstTotals → Invoice → GstTotals
  add_invoice t inv = record {
    taxable_amount = add t.taxable_amount (number inv.subtotal);
    total_cgst = add t.total_cgst (number inv.total_cgst);
    total_sgst = add t.total_sgst (number inv.total_sgst);
    total_igst = add t.total_igst (number inv.total_igst);
    total_with_tax = add t.total_with_tax (number inv.total_amount);
    by_rate = foldl bucket_item t.by_rate inv.items;
  }

  -- `getGstSummary`.
  unfoldable pub get_gst_summary : (tenant year month : ℕ) → Db → GstSummary
  get_gst_summary tenant year month db =
      let invoices = find_many (is_reported tenant year month) db.invoices in
      let t = foldl add_invoice no_totals invoices in
      record {
        totals = t;
        total_tax = add (add t.total_cgst t.total_sgst) t.total_igst;
        invoice_count = length invoices;
      }

abbrev pub gstin_of : Option Customer → String
gstin_of none = ""
gstin_of (some c) = or_text c.gstin ""

-- The object `b2b`, in the order in which its keys came.
unfoldable pub push_b2b :
    String → Invoice → List (String × List Invoice) → List (String × List Invoice)
push_b2b gstin inv [] = (gstin, inv ∷ []) ∷ []
push_b2b gstin inv ((key, group) ∷ rest) =
    let more = push_b2b gstin inv rest in
    if str_eq key gstin then (key, group ++ inv ∷ []) ∷ rest else (key, group) ∷ more

-- One round of the loop of `getGstr1`, for the GSTIN of the invoice's customer, if there is one.
unfoldable pub add_b2b :
    (Invoice → String) → List (String × List Invoice) → Invoice → List (String × List Invoice)
add_b2b gstin b2b inv = if str_eq (gstin inv) "" then b2b else push_b2b (gstin inv) inv b2b

-- `getGstr1`.
unfoldable pub get_gstr1 : (tenant year month : ℕ) → Db → List (String × List Invoice)
get_gstr1 tenant year month db =
    foldl (add_b2b (λ inv. gstin_of (find_customer inv.customer_id db))) []
      (find_many (is_reported tenant year month) db.invoices)

-- `status: { not: 'CANCELLED' }` and `status: 'OVERDUE'`.
abbrev pub is_cancelled : InvoiceStatus → Bool
is_cancelled InvoiceStatus.cancelled = true
is_cancelled _ = false

abbrev pub is_overdue : InvoiceStatus → Bool
is_overdue InvoiceStatus.overdue = true
is_overdue _ = false

-- On or after the first day of a month.
abbrev pub from_month : (year month : ℕ) → Date → Bool
from_month year month date = ltb year date.year || (date.year == year && leb month date.month)

abbrev pub of_this_month : (tenant year month : ℕ) → Invoice → Bool
of_this_month tenant year month inv =
    inv.tenant_id == tenant
    && from_month year month inv.invoice_date
    && not (is_cancelled inv.status)

module _ (n : Double) where
  open n use {Num, number, add, sub}

  -- `reduce((sum, inv) => sum + f(inv), 0)`.
  abbrev pub reduce_sum : (Invoice → Num) → List Invoice → Num
  reduce_sum f invoices = foldl (λ sum inv. add sum (f inv)) (number (pos 0)) invoices

  pub record Dashboard : Type 0 where
    pub revenue : Num
    pub invoice_count : ℕ
    pub paid_count : ℕ
    pub pending_amount : Num
    pub overdue_count : ℕ
    pub overdue_amount : Num

  -- `Number(inv.totalAmount) - Number(inv.paidAmount)`.
  abbrev pub unpaid_amount : Invoice → Num
  unpaid_amount inv = sub (number inv.total_amount) (number inv.paid_amount)

  -- The figures of `getDashboard` that it computes when nothing is cached.
  unfoldable pub dashboard_figures : (tenant year month : ℕ) → Db → Dashboard
  dashboard_figures tenant year month db =
      let this_month = find_many (of_this_month tenant year month) db.invoices in
      let late =
        find_many (λ (inv : Invoice). inv.tenant_id == tenant && is_overdue inv.status)
          db.invoices in
      record {
        revenue = reduce_sum (λ inv. number inv.total_amount) this_month;
        invoice_count = length this_month;
        paid_count = count_where (λ inv. is_paid inv.status) this_month;
        pending_amount =
            reduce_sum unpaid_amount (find_many (λ inv. not (is_paid inv.status)) this_month);
        overdue_count = length late;
        overdue_amount = reduce_sum unpaid_amount late;
      }
