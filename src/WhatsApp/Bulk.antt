-- ===== src/WhatsApp/Bulk.antt =====
-- `sendBulkReminders` of whatsapp.service.ts.
use Prim.Native.String.{String}
use text.Mathlib.Text.{◌==◌ as str_eq}
use biz_saathi.Prelude.{
  ℕ, ◌+◌, Bool, true, false, ◌&&◌, ◌||◌, Option, none, some, List, [], ◌∷◌, ◌++◌, ◌==◌,
  if◌then◌else◌,
}
use biz_saathi.Text.{codes}
use biz_saathi.Table.{find_many}
use biz_saathi.Action.{Result, Error, ok, err}
use biz_saathi.Records.{Date, InvoiceStatus, Customer, Invoice}
use biz_saathi.Invoice.{or_text}
use biz_saathi.Invoice.Draft.{find_customer}
use biz_saathi.WhatsApp.{WaDb, format_phone, reminded_until, is_live_key}
use biz_saathi.WhatsApp.Sending.{send_reminder}

pub data BulkStatus : Type 0 where
  sent : (message_id : ℕ) → BulkStatus
  skipped : (reason : String) → BulkStatus
  failed : (reason : Error) → BulkStatus

-- The counters and the details, with the id of the invoice that each is about.
pub record BulkReminders : Type 0 where
  pub sent_count : ℕ
  pub skipped_count : ℕ
  pub failed_count : ℕ
  pub details : List (ℕ × BulkStatus)

abbrev pub no_reminders : BulkReminders
no_reminders = record { sent_count = 0; skipped_count = 0; failed_count = 0; details = [] }

abbrev pub is_pending : InvoiceStatus → Bool
is_pending InvoiceStatus.sent = true
is_pending InvoiceStatus.partial = true
is_pending InvoiceStatus.overdue = true
is_pending _ = false

abbrev pub is_listed : ℕ → List ℕ → Bool
is_listed id [] = false
is_listed id (i ∷ ids) = i == id || is_listed id ids

-- The invoices that are asked for: the listed ones, or those due before a time, which `late` tests.
abbrev pub is_asked : List ℕ → (late : Option Date → Bool) → Invoice → Bool
is_asked [] late inv = late inv.due_date
is_asked (i ∷ ids) late inv = is_listed inv.id (i ∷ ids)

abbrev pub skip : Invoice → String → BulkReminders → BulkReminders
skip inv reason out = record out {
  skipped_count = out.skipped_count + 1;
  details = out.details ++ (inv.id, skipped reason) ∷ [];
}

-- What the `try` block or its `catch` counts.
abbrev pub note_result : Invoice → Result ℕ → BulkReminders → BulkReminders
note_result inv (ok message_id) out = record out {
  sent_count = out.sent_count + 1;
  details = out.details ++ (inv.id, sent message_id) ∷ [];
}
note_result inv (err reason) out = record out {
  failed_count = out.failed_count + 1;
  details = out.details ++ (inv.id, failed reason) ∷ [];
}

abbrev pub phone_text : Option Customer → String
phone_text none = ""
phone_text (some c) = or_text c.phone ""

-- One round of the loop, with the time and the answer of Meta's API.
unfoldable pub remind_one :
    (tenant now : ℕ) → Result ℕ → Invoice → BulkReminders × WaDb → BulkReminders × WaDb
remind_one tenant now reply inv (out, db) =
    let text = phone_text (find_customer inv.customer_id db.billing) in
    let phone = format_phone (codes text) in
    let run = send_reminder now tenant inv.id none reply db in
    if str_eq text ""
    then (skip inv "Customer phone number missing" out, db)
    else if is_live_key now (reminded_until tenant phone db.reminded)
    then (skip inv "Rate limit: Already sent a reminder to this phone within last 24h" out, db)
    else (note_result inv run.0 out, run.1)

-- The loop; `turn` gives the time and the answer for an invoice.
unfoldable pub remind_each :
    (tenant : ℕ)
    → (turn : Invoice → ℕ × Result ℕ) → List Invoice
    → BulkReminders × WaDb
    → BulkReminders × WaDb
remind_each tenant turn [] state = state
remind_each tenant turn (inv ∷ invs) state =
    remind_each tenant turn invs (remind_one tenant (turn inv).0 (turn inv).1 inv state)

-- `sendBulkReminders`.
unfoldable pub send_bulk_reminders :
    (tenant : ℕ)
    → List ℕ
    → (late : Option Date → Bool) → (turn : Invoice → ℕ × Result ℕ) → WaDb
    → BulkReminders × WaDb
send_bulk_reminders tenant invoice_ids late turn db =
    remind_each tenant turn
      (find_many
        (λ (i : Invoice).
          i.tenant_id == tenant && is_pending i.status && is_asked invoice_ids late i)
        db.billing.invoices)
      (no_reminders, db)
