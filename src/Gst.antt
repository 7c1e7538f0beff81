-- ===== src/Gst.antt =====
-- backend/src/invoice/gst.service.ts.
--
-- Units: a quantity is in thousandths, a rate in paise, a discount and a tax rate in hundredths of
-- a percent, as the columns of an invoice item store them. The DTO refuses a quantity, rate or
-- discount below zero; a tax rate has no such check, and a discount may exceed 100%, so the amounts
-- are integers.
pub mod Taxable
pub mod Taxes
pub mod Totals
use mathlib.Core.List.{foldl}
use biz_saathi.Prelude.{ℕ, ◌*◌, Bool, List, if◌then◌else◌, ℤ, pos, sub_ℕ, ◌+ℤ◌, ◌*ℤ◌}
use biz_saathi.Rounding.{Rounding, signed}

-- What `calculateItemGst` returns, in paise.
pub record ItemGst : Type 0 where
  pub taxable_amount : ℤ
  pub cgst : ℤ
  pub sgst : ℤ
  pub igst : ℤ
  pub total_amount : ℤ

-- quantity * rate, in units of 10 ^ -5 rupees.
abbrev pub gross_amount : ℕ → ℕ → ℕ
gross_amount quantity rate = quantity * rate

-- (quantity * rate) * (1 - discount / 100), in units of 10 ^ -9 rupees, which is 10 ^ -7 paise.
abbrev pub net_amount : ℕ → ℕ → ℕ → ℤ
net_amount quantity rate discount =
    sub_ℕ (gross_amount quantity rate * 10_000) (gross_amount quantity rate * discount)

-- A tax of `amount` paise at a rate; the half rate is exact and so is its product with the amount.
abbrev full_tax : Rounding → ℤ → ℤ → ℤ
full_tax d amount gst_rate = signed d.half_even (amount *ℤ gst_rate) 10_000

abbrev half_tax : Rounding → ℤ → ℤ → ℤ
half_tax d amount gst_rate = signed d.half_even (amount *ℤ gst_rate) 20_000

-- `calculateItemGst`.
unfoldable pub calculate_item_gst : Rounding → ℕ → ℕ → ℕ → ℤ → Bool → ItemGst
calculate_item_gst d quantity rate discount gst_rate is_inter_state =
    let taxable = signed d.half_even (net_amount quantity rate discount) 10_000_000 in
    let cgst = if is_inter_state then pos 0 else half_tax d taxable gst_rate in
    let sgst = if is_inter_state then pos 0 else half_tax d taxable gst_rate in
    let igst = if is_inter_state then full_tax d taxable gst_rate else pos 0 in
    record {
      taxable_amount = taxable;
      cgst = cgst;
      sgst = sgst;
      igst = igst;
      total_amount = taxable +ℤ (cgst +ℤ sgst +ℤ igst);
    }

-- What `summarizeInvoice` reads of an item; the callers always set the four fields.
pub record TaxedAmounts : Type 0 where
  pub amount : ℤ
  pub cgst : ℤ
  pub sgst : ℤ
  pub igst : ℤ

pub record Summary : Type 0 where
  pub subtotal : ℤ
  pub total_cgst : ℤ
  pub total_sgst : ℤ
  pub total_igst : ℤ
  pub total_amount : ℤ

-- The four accumulators of the loop.
unfoldable pub add_item : TaxedAmounts → TaxedAmounts → TaxedAmounts
add_item acc item = record {
  amount = acc.amount +ℤ item.amount;
  cgst = acc.cgst +ℤ item.cgst;
  sgst = acc.sgst +ℤ item.sgst;
  igst = acc.igst +ℤ item.igst;
}

abbrev pub no_amounts : TaxedAmounts
no_amounts = record { amount = pos 0; cgst = pos 0; sgst = pos 0; igst = pos 0 }

-- `summarizeInvoice`.
unfoldable pub summarize_invoice : Rounding → List TaxedAmounts → Summary
unfolding add_item
summarize_invoice d items =
    let acc = foldl add_item no_amounts items in
    record {
      subtotal = acc.amount;
      total_cgst = acc.cgst;
      total_sgst = acc.sgst;
      total_igst = acc.igst;
      total_amount = signed d.half_even (acc.amount +ℤ acc.cgst +ℤ acc.sgst +ℤ acc.igst) 1;
    }
