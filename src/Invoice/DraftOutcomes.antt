-- ===== src/Invoice/DraftOutcomes.antt =====
-- What `create`, `update`, `send` and `remove` return and leave behind, on every branch.
use Prim.Native.String.{String}
use text.Mathlib.Text.{◌==◌ as str_eq}
use biz_saathi.Prelude.{
  ℕ, ◌≡◌, refl, Bool, true, false, ◌&&◌, ◌==◌, Option, none, some, List, [], ◌∷◌, ◌++◌, arith,
  if◌then◌else◌, Bool-cases, inl, inr,
}
use biz_saathi.Rounding.{Rounding}
use biz_saathi.Action.{ok, err, not_found, forbidden}
use biz_saathi.Table.{find_first, update_where}
use biz_saathi.Records.{
  InvoiceStatus, Customer, Tenant, Invoice, Db, Job, generate_invoice_pdf, index_invoice,
  invoice_created, send_invoice_whatsapp, send_invoice_email, invoice_sent,
}
use biz_saathi.InvoiceNumber.{next_number, generate_next_invoice_number}
use biz_saathi.Invoice.{CreateInvoiceDto, UpdateInvoiceDto, is_draft}
use biz_saathi.Invoice.Draft.{
  has_id, without, clear_dashboard, push, push_whatsapp, push_email, contacts, find_customer,
  find_tenant, address_of, create, new_invoice, update, send, remove, edited,
}
use biz_saathi.Invoice.Rows.{
  DistinctIds, at_tenant, find_invoice-none, find_invoice-some, update_invoice-found,
}

-- One more job, if there is a contact to send to.
abbrev pub told_by : Option String → (String → Job) → List Job → List Job
told_by none job jobs = jobs
told_by (some s) job jobs = if str_eq s "" then jobs else jobs ++ job s ∷ []

push_whatsapp-told :
    (o : Option String) (id tenant : ℕ) (db : Db)
    → push_whatsapp o id tenant db
      ≡ (ok tt, record db { jobs = told_by o (λ s. send_invoice_whatsapp id tenant s) db.jobs })
unfolding push
push_whatsapp-told none id tenant db = refl
push_whatsapp-told (some s) id tenant db = elim (Bool-cases (str_eq s "")) [
  | inl e ↦ rw e
  | inr e ↦ rw e
]

push_email-told :
    (o : Option String) (id tenant : ℕ) (db : Db)
    → push_email o id tenant db
      ≡ (ok tt, record db { jobs = told_by o (λ s. send_invoice_email id tenant s) db.jobs })
unfolding push
push_email-told none id tenant db = refl
push_email-told (some s) id tenant db = elim (Bool-cases (str_eq s "")) [
  | inl e ↦ rw e
  | inr e ↦ rw e
]

pub edited-id :
    (d : Rounding) (address : Option String) (dto : UpdateInvoiceDto) (old inv : Invoice)
    → (edited d address dto old inv).id ≡ inv.id
unfolding edited
edited-id d address dto old inv = ground arith

-- A draft's methods: they refuse what is missing and what is no draft, and write otherwise.
module _ (tenant id : ℕ) (db : Db) where
  pub remove-missing :
      find_first (at_tenant tenant id) db.invoices ≡ none
      → remove tenant id db ≡ (err (not_found "Invoice not found"), db)
  unfolding remove
  remove-missing h = rw (find_invoice-none tenant id db h)

  pub send-missing :
      find_first (at_tenant tenant id) db.invoices ≡ none
      → send tenant id db ≡ (err (not_found "Invoice not found"), db)
  unfolding send
  send-missing h = rw (find_invoice-none tenant id db h)

  pub update-missing :
      (d : Rounding) (dto : UpdateInvoiceDto)
      → find_first (at_tenant tenant id) db.invoices ≡ none
      → update d tenant id dto db ≡ (err (not_found "Invoice not found"), db)
  unfolding update
  update-missing d dto h = rw (find_invoice-none tenant id db h)

  module _ {inv : Invoice} (found : find_first (at_tenant tenant id) db.invoices ≡ some inv) where
    pub remove-refused :
        is_draft inv.status ≡ false
        → remove tenant id db ≡ (err (forbidden "Only DRAFT invoices can be deleted"), db)
    unfolding remove
    remove-refused h = rw (find_invoice-some tenant id db found) (rw h)

    pub send-refused :
        is_draft inv.status ≡ false
        → send tenant id db ≡ (err (forbidden "Only DRAFT invoices can be sent"), db)
    unfolding send
    send-refused h = rw (find_invoice-some tenant id db found) (rw h)

    pub update-refused :
        (d : Rounding) (dto : UpdateInvoiceDto)
        → is_draft inv.status ≡ false
        → update d tenant id dto db ≡ (err (forbidden "Only DRAFT invoices can be edited"), db)
    unfolding update
    update-refused d dto h = rw (find_invoice-some tenant id db found) (rw h)

    module _ (distinct : DistinctIds db.invoices) (drafted : is_draft inv.status ≡ true) where
      pub remove-ok :
          let f : Invoice → Invoice = λ i. record i { status = InvoiceStatus.cancelled } in
          remove tenant id db ≡ (
            ok tt,
            record db {
              invoices = update_where (has_id id) f db.invoices;
              dashboards = without tenant db.dashboards;
            },
          )
      unfolding remove clear_dashboard
      remove-ok =
          let f : Invoice → Invoice = λ i. record i { status = InvoiceStatus.cancelled } in
          rw (find_invoice-some tenant id db found)
            (rw drafted (rw (update_invoice-found tenant id db f distinct (λ x. refl) found)))

      -- The jobs of `send` for a customer's contacts.
      pub send-ok :
          let f : Invoice → Invoice = λ i. record i { status = InvoiceStatus.sent } in
          let (phone, email) = contacts (find_customer inv.customer_id db) in
          send tenant id db ≡ (
            ok (f inv),
            record db {
              invoices = update_where (has_id id) f db.invoices;
              jobs =
                  told_by email
                    (λ s. send_invoice_email inv.id tenant s)
                    (told_by phone (λ s. send_invoice_whatsapp inv.id tenant s) db.jobs)
                  ++ invoice_sent tenant inv.id ∷ [];
            },
          )
      unfolding send push
      send-ok =
          let f : Invoice → Invoice = λ i. record i { status = InvoiceStatus.sent } in
          rw (find_invoice-some tenant id db found) (
            rw drafted (
              rw (update_invoice-found tenant id db f distinct (λ x. refl) found)
                (rw push_whatsapp-told (rw push_email-told))))

      pub update-ok :
          (d : Rounding) (dto : UpdateInvoiceDto)
          → let f = edited d (address_of (find_tenant tenant db)) dto inv in
            update d tenant id dto db ≡ (
              ok (f inv),
              record db {
                invoices = update_where (has_id id) f db.invoices;
                dashboards = without tenant db.dashboards;
              },
            )
      unfolding update clear_dashboard
      update-ok d dto =
          let f = edited d (address_of (find_tenant tenant db)) dto inv in
          rw (find_invoice-some tenant id db found) (
            rw drafted
              (rw (update_invoice-found tenant id db f distinct (edited-id d _ dto inv) found)))

-- `create` on its three branches.
module _ (d : Rounding) (id tenant : ℕ) (dto : CreateInvoiceDto) (db : Db) where
  abbrev pub is_buyer : Customer → Bool
  is_buyer c = c.id == dto.customer_id && c.tenant_id == tenant && c.is_active

  -- The state after `create` has stored an invoice.
  abbrev pub after_create : Invoice → Db
  after_create inv = record db {
    sequences = (next_number tenant dto.invoice_date db.sequences).1;
    invoices = db.invoices ++ inv ∷ [];
    dashboards = without tenant db.dashboards;
    jobs =
        db.jobs
        ++ generate_invoice_pdf id tenant ∷ []
        ++ index_invoice tenant id ∷ []
        ++ invoice_created tenant id ∷ [];
  }

  pub create-no_customer :
      find_first is_buyer db.customers ≡ none
      → create d id tenant dto db ≡ (err (not_found "Customer not found"), db)
  unfolding create
  create-no_customer h = rw h

  module _ {c : Customer} (buyer : find_first is_buyer db.customers ≡ some c) where
    pub create-no_tenant :
        find_tenant tenant db ≡ none
        → create d id tenant dto db ≡ (err (not_found "Tenant not found"), db)
    unfolding create
    create-no_tenant h = rw buyer (rw h)

    pub create-ok :
        {t : Tenant}
        → find_tenant tenant db ≡ some t
        → let number = (next_number tenant dto.invoice_date db.sequences).0 in
          let inv = new_invoice d id tenant t.address number dto in
          create d id tenant dto db ≡ (ok inv, after_create inv)
    unfolding create generate_next_invoice_number clear_dashboard push
    create-ok h = rw buyer (rw h)
