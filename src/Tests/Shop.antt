-- ===== src/Tests/Shop.antt =====
-- Two tenants with their invoices.
use biz_saathi.Prelude.{ℕ, true, none, some, [], ◌∷◌, ℤ, pos}
use biz_saathi.Records.{InvoiceStatus, Date, InvoiceItem, Invoice, Payment, cash, Db}
use biz_saathi.Invoice.{InvoiceItemDto, CreateInvoiceDto}

abbrev pub june : Date
june = record { year = 2025; month = 5; day = 12; time = 0 }

abbrev pub january : Date
january = record { year = 2026; month = 0; day = 3; time = 0 }

-- 10 pieces at 100 rupees, with 18% tax.
abbrev pub sugar : InvoiceItemDto
sugar = record {
  product_id = none;
  name = "Sugar";
  hsn_code = some "1701";
  quantity = 10_000;
  unit = none;
  rate = 10_000;
  discount = none;
  gst_rate = some (pos 1800);
}

abbrev pub order : CreateInvoiceDto
order = record {
  customer_id = 7;
  invoice_date = june;
  due_date = none;
  is_gst_invoice = none;
  place_of_supply = none;
  items = sugar ∷ [];
  notes = none;
  terms_conditions = none;
}

-- What the sugar is billed at.
abbrev billed_sugar : InvoiceItem
billed_sugar = record {
  product_id = none;
  name = "Sugar";
  hsn_code = some "1701";
  quantity = 10_000;
  unit = "pcs";
  rate = 10_000;
  discount = 0;
  gst_rate = pos 1800;
  cgst = pos 9_000;
  sgst = pos 9_000;
  igst = pos 0;
  amount = pos 100_000;
}

abbrev invoice : (id tenant : ℕ) → InvoiceStatus → ℤ → Invoice
invoice id tenant status paid = record {
  id = id;
  tenant_id = tenant;
  invoice_number = [];
  customer_id = 7;
  invoice_date = june;
  due_date = none;
  status = status;
  subtotal = pos 100_000;
  total_cgst = pos 9_000;
  total_sgst = pos 9_000;
  total_igst = pos 0;
  total_amount = pos 118_000;
  paid_amount = paid;
  notes = none;
  terms_conditions = none;
  is_gst_invoice = true;
  place_of_supply = none;
  pdf_url = none;
  items = billed_sugar ∷ [];
}

-- Part of it is paid.
abbrev pub open_invoice : Invoice
open_invoice = invoice 5 1 InvoiceStatus.partial (pos 18_000)

abbrev pub paid_invoice : Invoice
paid_invoice = invoice 6 2 InvoiceStatus.paid (pos 118_000)

abbrev pub cancelled_invoice : Invoice
cancelled_invoice = invoice 8 1 InvoiceStatus.cancelled (pos 0)

abbrev payment : (id tenant invoice_id amount : ℕ) → Payment
payment id tenant invoice_id amount = record {
  id = id;
  tenant_id = tenant;
  invoice_id = invoice_id;
  amount = pos amount;
  method = cash;
  reference = none;
  note = none;
  paid_at = 0;
}

abbrev pub shop : Db
shop = record {
  tenants =
      record {
        id = 1;
        name = "Gupta Stores";
        gst_number = none;
        address = some "MG Road, Pune, Maharashtra";
      }
      ∷ record { id = 2; name = "Rao Traders"; gst_number = none; address = none }
      ∷ [];
  customers =
      record {
        id = 7;
        tenant_id = 1;
        name = "Asha";
        phone = some "9800000000";
        email = none;
        gstin = some "27AAPFU0939F1ZV";
        is_active = true;
      }
      ∷ [];
  invoices = open_invoice ∷ paid_invoice ∷ cancelled_invoice ∷ [];
  payments = payment 1 1 5 18_000 ∷ payment 2 2 6 118_000 ∷ [];
  sequences = [];
  dashboards = 1 ∷ [];
  pdf_urls = [];
  jobs = [];
}
