-- ===== src/WhatsApp/Sending.antt =====
-- `sendInvoice`, `sendReminder`, `sendSalarySlip` and `sendDirectText` of whatsapp.service.ts.
use Prim.Native.String.{String}
use text.Mathlib.Text.{◌==◌ as str_eq, starts_with}
use biz_saathi.Prelude.{
  ℕ, Bool, true, false, ◌&&◌, ◌||◌, Option, none, some, List, [], ◌==◌, if◌then◌else◌,
}
use biz_saathi.Text.{codes}
use biz_saathi.Table.{find_first, update_where}
use biz_saathi.Action.{
  Action, Result, bad_request, pure, gets, or_throw, throw_if, modify, ◌>>=◌, ◌>>◌,
}
use biz_saathi.Records.{Invoice}
use biz_saathi.Workforce.{Payroll}
use biz_saathi.Invoice.{or_text}
use biz_saathi.Invoice.Draft.{has_id, find_tenant, find_customer}
use biz_saathi.WhatsApp.{
  WaContent, invoice_template, reminder_template, reminder_text, salary_slip_template, plain_text,
  WaDb, format_phone, check_rate_limits, deliver,
}

abbrev pub no_text : List ℕ → Bool
no_text [] = true
no_text _ = false

abbrev pub find_wa_invoice : (tenant id : ℕ) → WaDb → Option Invoice
find_wa_invoice tenant id db =
    find_first (λ i. has_id id i && i.tenant_id == tenant) db.billing.invoices

-- `invoice.pdfUrl` is missing, or a file of the server.
abbrev pub needs_pdf : (includes_pdf : Bool) → Option String → Bool
needs_pdf includes_pdf url =
    includes_pdf && (str_eq (or_text url "") "" || starts_with (or_text url "") "file://")

-- The PDF of `sendInvoice`: `pdf` is the address that the PDF service gives, if it does not fail. A
-- failure is only logged.
abbrev pub store_pdf : (wanted : Bool) → ℕ → Option String → Action WaDb (Unit {0})
store_pdf wanted id none = pure tt
store_pdf wanted id (some url) =
    if wanted
    then modify (λ db. record db {
      billing = record db.billing {
        invoices =
            update_where (has_id id) (λ i. record i { pdf_url = some url }) db.billing.invoices;
      };
    })
    else pure tt

-- `phoneOverride || customer.phone || ''`.
abbrev pub recipient : Option String → Option String → List ℕ
recipient override phone = format_phone (codes (or_text override (or_text phone "")))

-- `sendInvoice`.
unfoldable pub send_invoice :
    (now tenant id : ℕ)
    → Option String
    → (includes_pdf : Bool) → Option String
    → Result ℕ
    → Action WaDb ℕ
send_invoice now tenant id phone_override includes_pdf pdf reply = do
  found ← gets (find_wa_invoice tenant id)
  inv ← or_throw found (bad_request "Invoice not found or unauthorized")
  buyer ← gets (λ db. find_customer inv.customer_id db.billing)
  customer ← or_throw buyer (bad_request "Customer not found")
  owner ← gets (λ db. find_tenant tenant db.billing)
  or_throw owner (bad_request "Tenant not found")
  let phone = recipient phone_override customer.phone
  throw_if (no_text phone) (bad_request "Recipient phone number is missing")
  check_rate_limits now tenant phone false
  store_pdf (needs_pdf includes_pdf inv.pdf_url) id pdf
  deliver now tenant phone (invoice_template id) false reply

-- The text or the template of `sendReminder`.
abbrev pub reminder_content : (id : ℕ) → Option String → WaContent
reminder_content id none = reminder_template id
reminder_content id (some text) =
    if str_eq text "" then reminder_template id else reminder_text id text

-- `sendReminder`.
unfoldable pub send_reminder : (now tenant id : ℕ) → Option String → Result ℕ → Action WaDb ℕ
send_reminder now tenant id custom_message reply = do
  found ← gets (find_wa_invoice tenant id)
  inv ← or_throw found (bad_request "Invoice not found or unauthorized")
  buyer ← gets (λ db. find_customer inv.customer_id db.billing)
  customer ← or_throw buyer (bad_request "Customer not found")
  let phone = recipient none customer.phone
  throw_if (no_text phone) (bad_request "Customer phone number is missing")
  check_rate_limits now tenant phone true
  deliver now tenant phone (reminder_content id custom_message) true reply

-- `sendSalarySlip`; the staff member of a payroll exists, by the foreign key, and `phone_of` gives
-- the phone.
unfoldable pub send_salary_slip :
    (phone_of : ℕ → String) → (now tenant id : ℕ) → Result ℕ → Action WaDb ℕ
send_salary_slip phone_of now tenant id reply = do
  found ←
      gets (λ db.
        find_first (λ (p : Payroll). p.id == id && p.tenant_id == tenant) db.payroll.payrolls)
  payroll ← or_throw found (bad_request "Payroll record not found or unauthorized")
  let phone = format_phone (codes (phone_of payroll.staff_id))
  throw_if (no_text phone) (bad_request "Staff phone number is missing")
  check_rate_limits now tenant phone false
  deliver now tenant phone (salary_slip_template id) false reply

-- `sendDirectText`.
unfoldable pub send_direct_text :
    (now tenant : ℕ) → (phone message : String) → Result ℕ → Action WaDb ℕ
send_direct_text now tenant phone message reply = do
  let to = format_phone (codes phone)
  check_rate_limits now tenant to false
  deliver now tenant to (plain_text message) false reply
