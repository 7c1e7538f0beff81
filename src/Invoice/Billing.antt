-- ===== src/Invoice/Billing.antt =====
-- The totals that `create` and `update` store for a request's items.
use biz_saathi.Prelude.{
  ℕ, ◌≤◌, ◌≡◌, Bool, true, false, List, [], ◌∷◌, map, arith, All, pos, ◌≤ℤ◌, ◌+ℤ◌, +ℤ_pos, int_laws,
}
use biz_saathi.Rounding.{Rounding, IsRounding}
use biz_saathi.Double.{InColumn}
use biz_saathi.Gst.{Summary, summarize_invoice}
use biz_saathi.Gst.Taxable.{calculate_item_gst-eq}
use biz_saathi.Gst.Totals.{total_of, item_total, summarize_invoice_sums}
use biz_saathi.Invoice.{InvoiceItemDto, or_default, or_standard_rate, process_item, amounts_of}

-- An item with a discount of at most 100% and a tax rate that is not negative.
abbrev pub IsBillable : InvoiceItemDto → Type 0
IsBillable item =
    (or_default item.discount 0 ≤ 10_000) × ((g : ℕ) × (or_standard_rate item.gst_rate ≡ pos g))

abbrev pub billed : Rounding → Bool → List InvoiceItemDto → Summary
billed d inter items = summarize_invoice d (map amounts_of (map (process_item d inter) items))

-- The total that the items get fits in its column, in and between states.
abbrev pub Fits : Rounding → List InvoiceItemDto → Type 0
Fits d items = (inter : Bool) → InColumn (billed d inter items).total_amount

-- What the totals need of the items of a request. The API asks for neither.
abbrev pub IsPriced : Rounding → List InvoiceItemDto → Type 0
IsPriced d items = All IsBillable items × Fits d items

-- Nothing is asked of the items.
abbrev pub AnyItems : List InvoiceItemDto → Type 0
AnyItems items = Unit

item_nonneg :
    (d : Rounding) (inter : Bool) (item : InvoiceItemDto)
    → IsBillable item
    → pos 0 ≤ℤ item_total (amounts_of (process_item d inter item))
unfolding process_item
item_nonneg d true item (h, (g, e)) =
    rw e
      (rw (calculate_item_gst-eq d item.quantity item.rate _ g true h) (simp +ℤ_pos (omega arith)))
item_nonneg d false item (h, (g, e)) =
    rw e
      (rw (calculate_item_gst-eq d item.quantity item.rate _ g false h) (simp +ℤ_pos (omega arith)))

items_nonneg :
    (d : Rounding) (inter : Bool) (items : List InvoiceItemDto)
    → All IsBillable items
    → pos 0 ≤ℤ total_of item_total (map amounts_of (map (process_item d inter) items))
items_nonneg d inter [] h = omega arith
items_nonneg d inter (i ∷ items) h =
    let x = item_total (amounts_of (process_item d inter i)) in
    let xs = total_of item_total (map amounts_of (map (process_item d inter) items)) in
    let a : pos 0 ≤ℤ x = item_nonneg d inter i h.0 in
    let b : pos 0 ≤ℤ xs = items_nonneg d inter items h.1 in
    let c : pos 0 ≤ℤ x +ℤ xs = omega int_laws in c

-- The total of billable items is not negative.
pub billed_nonneg :
    (d : Rounding)
    → IsRounding d
    → (inter : Bool) (items : List InvoiceItemDto) → All IsBillable items
    → pos 0 ≤ℤ (billed d inter items).total_amount
billed_nonneg d laws inter items h =
    rw (summarize_invoice_sums d laws (map amounts_of (map (process_item d inter) items))).4
      (items_nonneg d inter items h)
