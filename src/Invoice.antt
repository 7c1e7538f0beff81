-- ===== src/Invoice.antt =====
-- backend/src/invoice/invoice.service.ts: the requests' data, and what the methods compute before
-- they write. The methods themselves are in the children.
pub mod Draft
pub mod Payments
pub mod Rows
pub mod Billing
pub mod Outcomes
pub mod DraftOutcomes
pub mod Invariant
pub mod DraftInvariant
pub mod Effects
pub mod History
pub mod Totalled
pub mod Reports
pub mod Pdf
pub mod Ledger
use Prim.Native.String.{String}
use text.Mathlib.Text.{◌==◌ as str_eq}
use biz_saathi.Prelude.{
  ℕ, zero, suc, Bool, true, false, not, ◌&&◌, Option, none, some, List, map, if◌then◌else◌, ℤ, pos,
  negsuc,
}
use biz_saathi.Rounding.{Rounding}
use biz_saathi.Gst.{TaxedAmounts, ItemGst, calculate_item_gst}
use biz_saathi.Records.{Date, InvoiceStatus, PaymentMethod, Tenant, InvoiceItem, draft}

-- dto/create-invoice.dto.ts.
pub record InvoiceItemDto : Type 0 where
  pub product_id : Option ℕ
  pub name : String
  pub hsn_code : Option String
  pub quantity : ℕ
  pub unit : Option String
  pub rate : ℕ
  pub discount : Option ℕ
  pub gst_rate : Option ℤ

pub record CreateInvoiceDto : Type 0 where
  pub customer_id : ℕ
  pub invoice_date : Date
  pub due_date : Option Date
  pub is_gst_invoice : Option Bool
  pub place_of_supply : Option String
  pub items : List InvoiceItemDto
  pub notes : Option String
  pub terms_conditions : Option String

-- dto/update-invoice.dto.ts: every field may be missing. The customer is not read.
pub record UpdateInvoiceDto : Type 0 where
  pub invoice_date : Option Date
  pub due_date : Option Date
  pub is_gst_invoice : Option Bool
  pub place_of_supply : Option String
  pub items : List InvoiceItemDto
  pub notes : Option String
  pub terms_conditions : Option String

-- A value, or what `??` and an assignment of `undefined` leave.
abbrev pub or_default {ℓ} : {A : Type ℓ} → Option A → A → A
or_default none d = d
or_default (some a) d = a

-- A value that `update` writes where it is given.
abbrev pub or_keep {ℓ} : {A : Type ℓ} → Option A → Option A → Option A
or_keep none old = old
or_keep (some a) old = some a

-- `text || other`: the empty text counts as missing.
abbrev pub or_text : Option String → String → String
or_text none d = d
or_text (some s) d = if str_eq s "" then d else s

-- `gstRate || 18`: a rate of 0 counts as missing.
abbrev pub or_standard_rate : Option ℤ → ℤ
or_standard_rate (some (pos (suc r))) = pos (suc r)
or_standard_rate (some (negsuc r)) = negsuc r
or_standard_rate _ = pos 1800

-- `isInterState`: there is a place of supply, and it is not the seller's address.
pub is_inter_state : Option String → Option String → Bool
is_inter_state place_of_supply address =
    let place = or_text place_of_supply "" in
    not (str_eq place "") && not (str_eq (or_text address "") place)

-- One item of a request with its taxes, as `create` and `update` store it.
unfoldable pub process_item : Rounding → Bool → InvoiceItemDto → InvoiceItem
process_item d inter item =
    let discount = or_default item.discount 0 in
    let gst_rate = or_standard_rate item.gst_rate in
    let gst = calculate_item_gst d item.quantity item.rate discount gst_rate inter in
    record {
      product_id = item.product_id;
      name = item.name;
      hsn_code = item.hsn_code;
      quantity = item.quantity;
      unit = or_text item.unit "pcs";
      rate = item.rate;
      discount = discount;
      gst_rate = gst_rate;
      cgst = gst.cgst;
      sgst = gst.sgst;
      igst = gst.igst;
      amount = gst.taxable_amount;
    }

abbrev pub amounts_of : InvoiceItem → TaxedAmounts
amounts_of item = record {
  amount = item.amount;
  cgst = item.cgst;
  sgst = item.sgst;
  igst = item.igst;
}

abbrev pub is_draft : InvoiceStatus → Bool
is_draft InvoiceStatus.draft = true
is_draft _ = false

abbrev pub is_paid : InvoiceStatus → Bool
is_paid InvoiceStatus.paid = true
is_paid _ = false
