-- ===== src/WhatsApp/SendingEffects.antt =====
-- The effect of each method of whatsapp.service.ts that sends one message.
use Prim.Native.String.{String}
use text.Mathlib.Text.{◌==◌ as str_eq}
use biz_saathi.Prelude.{
  ℕ, ◌≡◌, refl, inl, inr, Bool, true, false, ◌&&◌, Option, none, some, ◌==◌, Bool-cases,
  Option-cases,
}
use biz_saathi.Table.{find_first}
use biz_saathi.Action.{Result}
use biz_saathi.Workforce.{Payroll}
use biz_saathi.Text.{codes}
use biz_saathi.Invoice.Draft.{find_tenant, find_customer}
use biz_saathi.WhatsApp.{invoice_template, salary_slip_template, plain_text, WaDb, format_phone}
use biz_saathi.WhatsApp.Sending.{
  no_text, find_wa_invoice, needs_pdf, recipient, send_invoice, reminder_content, send_reminder,
  send_salary_slip, send_direct_text,
}
use biz_saathi.WhatsApp.Effects.{
  WaEffect, check-cases, deliver-Effect, is_about_reminder, same_db, store_pdf-ok, silent,
}

pub send_direct_text-Effect :
    (now tenant : ℕ) (phone message : String) (reply : Result ℕ) (db : WaDb)
    → WaEffect now db (send_direct_text now tenant phone message reply db).1
unfolding send_direct_text
send_direct_text-Effect now tenant phone message reply db =
    let to = format_phone (codes phone) in
    elim (check-cases now tenant to false db) [
      | inl (e, refused) ↦ rw refused (silent (same_db db))
      | inr (allowed, fine) ↦
          rw fine
            (deliver-Effect now tenant to (plain_text message) db db (same_db db) reply allowed)
    ]

pub send_salary_slip-Effect :
    (phone_of : ℕ → String) (now tenant id : ℕ) (reply : Result ℕ) (db : WaDb)
    → WaEffect now db (send_salary_slip phone_of now tenant id reply db).1
unfolding send_salary_slip
send_salary_slip-Effect phone_of now tenant id reply db =
    elim (Option-cases
      (find_first (λ (p : Payroll). p.id == id && p.tenant_id == tenant) db.payroll.payrolls)) [
        | inl e ↦ rw e (silent (same_db db))
        | inr (p, e) ↦
            let to = format_phone (codes (phone_of p.staff_id)) in
            elim (Bool-cases (no_text to)) [
              | inl k ↦ rw e (rw k (silent (same_db db)))
              | inr k ↦ elim (check-cases now tenant to false db) [
                | inl (x, refused) ↦ rw e (rw k (rw refused (silent (same_db db))))
                | inr (allowed, fine) ↦ rw e (
                    rw k (
                      rw fine (
                        deliver-Effect now tenant to (salary_slip_template id) db db (same_db db)
                          reply allowed)))
              ]
            ]
      ]

reminder_content-reminds :
    (id : ℕ) (text : Option String) → is_about_reminder (reminder_content id text) ≡ true
reminder_content-reminds id none = refl
reminder_content-reminds id (some text) = elim (Bool-cases (str_eq text "")) [
  | inl e ↦ rw e refl
  | inr e ↦ rw e refl
]

pub send_reminder-Effect :
    (now tenant id : ℕ) (text : Option String) (reply : Result ℕ) (db : WaDb)
    → WaEffect now db (send_reminder now tenant id text reply db).1
unfolding send_reminder
send_reminder-Effect now tenant id text reply db =
    elim (Option-cases (find_wa_invoice tenant id db)) [
      | inl e ↦ rw e (silent (same_db db))
      | inr (inv, e) ↦ elim (Option-cases (find_customer inv.customer_id db.billing)) [
        | inl f ↦ rw e (rw f (silent (same_db db)))
        | inr (c, f) ↦
            let to = recipient none c.phone in
            elim (Bool-cases (no_text to)) [
              | inl k ↦ rw e (rw f (rw k (silent (same_db db))))
              | inr k ↦ elim (check-cases now tenant to true db) [
                | inl (x, refused) ↦ rw e (rw f (rw k (rw refused (silent (same_db db)))))
                | inr (allowed, fine) ↦
                    let reminds = reminder_content-reminds id text in
                    rw e (
                      rw f (
                        rw k (
                          rw fine (
                            rw reminds at (
                              deliver-Effect now tenant to (reminder_content id text) db db
                                (same_db db) reply (rw reminds allowed))))))
              ]
            ]
      ]
    ]

pub send_invoice-Effect :
    (now tenant id : ℕ) (override : Option String) (includes_pdf : Bool) (pdf : Option String)
    (reply : Result ℕ) (db : WaDb)
    → WaEffect now db (send_invoice now tenant id override includes_pdf pdf reply db).1
unfolding send_invoice
send_invoice-Effect now tenant id override includes_pdf pdf reply db =
    elim (Option-cases (find_wa_invoice tenant id db)) [
      | inl e ↦ rw e (silent (same_db db))
      | inr (inv, e) ↦ elim (Option-cases (find_customer inv.customer_id db.billing)) [
        | inl f ↦ rw e (rw f (silent (same_db db)))
        | inr (c, f) ↦ elim (Option-cases (find_tenant tenant db.billing)) [
          | inl g ↦ rw e (rw f (rw g (silent (same_db db))))
          | inr (t, g) ↦
              let to = recipient override c.phone in
              elim (Bool-cases (no_text to)) [
                | inl k ↦ rw e (rw f (rw g (rw k (silent (same_db db)))))
                | inr k ↦ elim (check-cases now tenant to false db) [
                  | inl (x, refused) ↦ rw e (rw f (rw g (rw k (rw refused (silent (same_db db))))))
                  | inr (allowed, fine) ↦
                      let (stored, same) =
                        store_pdf-ok (needs_pdf includes_pdf inv.pdf_url) id pdf db in
                      rw e (
                        rw f (
                          rw g (
                            rw k (
                              rw fine (
                                rw stored (
                                  deliver-Effect now tenant to (invoice_template id) db _ same reply
                                    allowed))))))
                ]
              ]
        ]
      ]
    ]
