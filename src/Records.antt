-- ===== src/Records.antt =====
-- The rows of backend/prisma/schema.prisma that the billing services read and write, and the state
-- that they share: the tables, the counters and caches in Redis, and the queue of jobs.
--
-- Identifiers are opaque, so numbers stand for them. Amounts are integers of paise, as the columns
-- `Decimal(10, 2)` store them; a time is a number that only grows.
use Prim.Native.String.{String}
use biz_saathi.Prelude.{ℕ, Bool, Option, List, ℤ}

-- `enum InvoiceStatus`.
pub data InvoiceStatus : Type 0 where
  draft sent partial paid overdue cancelled : InvoiceStatus

-- `enum PaymentMethod`.
pub data PaymentMethod : Type 0 where
  cash upi bank_transfer cheque card other : PaymentMethod

-- A calendar date, its month from 0 to 11 as `getMonth` counts, with the milliseconds of the day.
pub record Date : Type 0 where
  pub year : ℕ
  pub month : ℕ
  pub day : ℕ
  pub time : ℕ

pub record Tenant : Type 0 where
  pub id : ℕ
  pub name : String
  pub gst_number : Option String
  pub address : Option String

pub record Customer : Type 0 where
  pub id : ℕ
  pub tenant_id : ℕ
  pub name : String
  pub phone : Option String
  pub email : Option String
  pub gstin : Option String
  pub is_active : Bool

-- Quantity in thousandths, rate and amounts in paise, discount and tax rate in hundredths of a
-- percent.
pub record InvoiceItem : Type 0 where
  pub product_id : Option ℕ
  pub name : String
  pub hsn_code : Option String
  pub quantity : ℕ
  pub unit : String
  pub rate : ℕ
  pub discount : ℕ
  pub gst_rate : ℤ
  pub cgst : ℤ
  pub sgst : ℤ
  pub igst : ℤ
  pub amount : ℤ

pub record Invoice : Type 0 where
  pub id : ℕ
  pub tenant_id : ℕ
  pub invoice_number : List ℕ
  pub customer_id : ℕ
  pub invoice_date : Date
  pub due_date : Option Date
  pub status : InvoiceStatus
  pub subtotal : ℤ
  pub total_cgst : ℤ
  pub total_sgst : ℤ
  pub total_igst : ℤ
  pub total_amount : ℤ
  pub paid_amount : ℤ
  pub notes : Option String
  pub terms_conditions : Option String
  pub is_gst_invoice : Bool
  pub place_of_supply : Option String
  pub pdf_url : Option String
  pub items : List InvoiceItem

pub record Payment : Type 0 where
  pub id : ℕ
  pub tenant_id : ℕ
  pub invoice_id : ℕ
  pub amount : ℤ
  pub method : PaymentMethod
  pub reference : Option String
  pub note : Option String
  pub paid_at : ℕ

-- The jobs that the billing services add to the queues. The amounts in the payloads of the last two
-- are left out.
pub data Job : Type 0 where
  generate_invoice_pdf : (invoice_id tenant_id : ℕ) → Job
  index_invoice : (tenant_id invoice_id : ℕ) → Job
  send_invoice_whatsapp : (invoice_id tenant_id : ℕ) (phone : String) → Job
  send_invoice_email : (invoice_id tenant_id : ℕ) (email : String) → Job
  invoice_created : (tenant_id invoice_id : ℕ) → Job
  invoice_sent : (tenant_id invoice_id : ℕ) → Job
  payment_received : (tenant_id invoice_id : ℕ) → Job
  invoice_paid : (tenant_id invoice_id : ℕ) → Job

-- `dashboards` holds the tenants whose key `dashboard:<tenant>` is set, and `pdf_urls` the values
-- of the keys `invoice_pdf:<tenant>:<invoice>`.
pub record Db : Type 0 where
  pub tenants : List Tenant
  pub customers : List Customer
  pub invoices : List Invoice
  pub payments : List Payment
  pub sequences : List (ℕ × ℕ × ℕ)
  pub dashboards : List ℕ
  pub pdf_urls : List (ℕ × ℕ × String)
  pub jobs : List Job
