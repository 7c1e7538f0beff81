-- ===== src/WhatsApp/History.antt =====
-- Any sequence of requests to whatsapp.service.ts, as the messages that they send.
use Prim.Native.String.{String}
use text.Mathlib.Text.{◌==◌ as str_eq}
use biz_saathi.Prelude.{ℕ, Bool, Option, none, List, [], ◌∷◌, Bool-cases, inl, inr}
use biz_saathi.Text.{codes}
use biz_saathi.Action.{Result}
use biz_saathi.Records.{Date, Invoice}
use biz_saathi.Invoice.Draft.{find_customer}
use biz_saathi.WhatsApp.{WaDb, format_phone, reminded_until, is_live_key}
use biz_saathi.WhatsApp.Sending.{send_invoice, send_reminder, send_salary_slip, send_direct_text}
use biz_saathi.WhatsApp.Bulk.{
  BulkReminders, no_reminders, phone_text, remind_one, remind_each, send_bulk_reminders,
}
use biz_saathi.WhatsApp.Effects.{WaEffect, silent, same_db}
use biz_saathi.WhatsApp.SendingEffects.{
  send_invoice-Effect, send_reminder-Effect, send_salary_slip-Effect, send_direct_text-Effect,
}

-- One request, with its time, what the PDF service and Meta's API answer, and the phones of the
-- staff.
pub data WaRequest (db : WaDb) : WaDb → Type 0 where
  invoices :
      (now tenant id : ℕ) (override : Option String) (includes_pdf : Bool) (pdf : Option String)
      (reply : Result ℕ)
      → WaRequest db (send_invoice now tenant id override includes_pdf pdf reply db).1
  reminds :
      (now tenant id : ℕ) (text : Option String) (reply : Result ℕ)
      → WaRequest db (send_reminder now tenant id text reply db).1
  slips :
      (phone_of : ℕ → String) (now tenant id : ℕ) (reply : Result ℕ)
      → WaRequest db (send_salary_slip phone_of now tenant id reply db).1
  texts :
      (now tenant : ℕ) (phone message : String) (reply : Result ℕ)
      → WaRequest db (send_direct_text now tenant phone message reply db).1
  bulk :
      (tenant : ℕ) (ids : List ℕ) (late : Option Date → Bool) (turn : Invoice → ℕ × Result ℕ)
      → WaRequest db (send_bulk_reminders tenant ids late turn db).1

pub data WaRequests (db : WaDb) : WaDb → Type 0 where
  begun : WaRequests db db
  more : {a b : WaDb} → WaRequests db a → WaRequest a b → WaRequests db b

-- A sequence of effects.
pub data Deliveries (db : WaDb) : WaDb → Type 0 where
  no_more : Deliveries db db
  one_more : {a b : WaDb} {now : ℕ} → Deliveries db a → WaEffect now a b → Deliveries db b

remind_one-Effect :
    (tenant now : ℕ) (reply : Result ℕ) (inv : Invoice) (out : BulkReminders) (db : WaDb)
    → WaEffect now db (remind_one tenant now reply inv (out, db)).1
unfolding remind_one
remind_one-Effect tenant now reply inv out db =
    let text = phone_text (find_customer inv.customer_id db.billing) in
    elim (Bool-cases (str_eq text "")) [
      | inl e ↦ rw e (silent (same_db db))
      | inr e ↦
          elim (Bool-cases
            (is_live_key now (reminded_until tenant (format_phone (codes text)) db.reminded))) [
              | inl k ↦ rw e (rw k (silent (same_db db)))
              | inr k ↦ rw e (rw k (send_reminder-Effect now tenant inv.id none reply db))
            ]
    ]

remind_each-Deliveries :
    (tenant : ℕ) (turn : Invoice → ℕ × Result ℕ) (invs : List Invoice) (db : WaDb)
    (state : BulkReminders × WaDb)
    → Deliveries db state.1
    → Deliveries db (remind_each tenant turn invs state).1
unfolding remind_each
remind_each-Deliveries tenant turn [] db state ds = ds
remind_each-Deliveries tenant turn (inv ∷ invs) db state ds =
    remind_each-Deliveries tenant turn invs db
      (remind_one tenant (turn inv).0 (turn inv).1 inv state)
      (one_more ds (remind_one-Effect tenant (turn inv).0 (turn inv).1 inv state.0 state.1))

one_request : {db a b : WaDb} → Deliveries db a → WaRequest a b → Deliveries db b
unfolding send_bulk_reminders
one_request {db} {a} ds (invoices now tenant id override includes_pdf pdf reply) =
    one_more ds (send_invoice-Effect now tenant id override includes_pdf pdf reply a)
one_request {db} {a} ds (reminds now tenant id text reply) =
    one_more ds (send_reminder-Effect now tenant id text reply a)
one_request {db} {a} ds (slips phone_of now tenant id reply) =
    one_more ds (send_salary_slip-Effect phone_of now tenant id reply a)
one_request {db} {a} ds (texts now tenant phone message reply) =
    one_more ds (send_direct_text-Effect now tenant phone message reply a)
one_request {db} {a} ds (bulk tenant ids late turn) =
    remind_each-Deliveries tenant turn _ db (no_reminders, a) ds

pub WaRequests-Deliveries : {db after : WaDb} → WaRequests db after → Deliveries db after
WaRequests-Deliveries begun = no_more
WaRequests-Deliveries (more rs r) = one_request (WaRequests-Deliveries rs) r
