-- ===== src/Invoice/Outcomes.antt =====
-- What `addPayment` returns and leaves behind, on every branch.
use biz_saathi.Prelude.{
  ℕ, ◌≡◌, refl, true, false, none, some, List, [], ◌∷◌, ◌++◌, arith, if◌then◌else◌,
}
use biz_saathi.Double.{Double}
use biz_saathi.Action.{ok, err, not_found, forbidden, bad_request}
use biz_saathi.Table.{find_first, update_where}
use biz_saathi.Records.{Invoice, Payment, Db, Job, index_invoice, payment_received, invoice_paid}
use biz_saathi.Invoice.{is_paid}
use biz_saathi.Invoice.Draft.{has_id, without, clear_dashboard, push}
use biz_saathi.Invoice.Payments.{AddPaymentDto, new_status, new_payment, add_payment}
use biz_saathi.Invoice.Rows.{
  DistinctIds, at_tenant, find_invoice-none, find_invoice-some, update_invoice-found,
}

module _ (n : Double) (tenant id : ℕ) where
  open n use {number, add, gt, to_paise}

  -- The row after an accepted payment.
  abbrev pub credited : Invoice → AddPaymentDto n → Invoice → Invoice
  credited inv dto i =
      let new_paid = add (number inv.paid_amount) dto.amount in
      record i { paid_amount = to_paise new_paid; status = new_status n inv new_paid }

  -- The jobs of an accepted payment, by the invoice as it is then.
  abbrev pub payment_jobs : Invoice → List Job → List Job
  payment_jobs inv jobs =
      let told = jobs ++ payment_received tenant inv.id ∷ [] ++ index_invoice tenant inv.id ∷ [] in
      if is_paid inv.status then told ++ invoice_paid tenant inv.id ∷ [] else told

  -- The state after an accepted payment.
  abbrev pub after_payment : Invoice → AddPaymentDto n → Payment → Db → Db
  after_payment inv dto payment db =
      let inv' = credited inv dto inv in
      record db {
        payments = db.payments ++ payment ∷ [];
        invoices = update_where (has_id id) (credited inv dto) db.invoices;
        dashboards = without tenant db.dashboards;
        jobs = payment_jobs inv' db.jobs;
      }

  module _ (pid now : ℕ) (dto : AddPaymentDto n) (db : Db) where
    pub add_payment-missing :
        find_first (at_tenant tenant id) db.invoices ≡ none
        → add_payment n pid now tenant id dto db ≡ (err (not_found "Invoice not found"), db)
    unfolding add_payment
    add_payment-missing h = rw (find_invoice-none tenant id db h)

    module _ {inv : Invoice} (found : find_first (at_tenant tenant id) db.invoices ≡ some inv) where
      pub add_payment-paid :
          is_paid inv.status ≡ true
          → add_payment n pid now tenant id dto db
            ≡ (err (forbidden "Invoice is already fully paid"), db)
      unfolding add_payment
      add_payment-paid h = rw (find_invoice-some tenant id db found) (rw h)

      pub add_payment-over :
          is_paid inv.status ≡ false
          → gt (add (number inv.paid_amount) dto.amount) (number inv.total_amount) ≡ true
          → add_payment n pid now tenant id dto db
            ≡ (err (bad_request "Overpayment not allowed"), db)
      unfolding add_payment
      add_payment-over h k = rw (find_invoice-some tenant id db found) (rw h (rw k))

      pub add_payment-ok :
          DistinctIds db.invoices
          → is_paid inv.status ≡ false
          → gt (add (number inv.paid_amount) dto.amount) (number inv.total_amount) ≡ false
          → let payment = new_payment n pid now tenant id dto in
            add_payment n pid now tenant id dto db
            ≡ (ok (payment, credited inv dto inv), after_payment inv dto payment db)
      unfolding add_payment clear_dashboard push
      add_payment-ok d h k = rw (find_invoice-some tenant id db found) (
          rw h (
            rw k (
              rw
                (update_invoice-found tenant id
                  (record db { payments = db.payments ++ new_payment n pid now tenant id dto ∷ [] })
                  (credited inv dto) d (λ x. refl) found)
                (ground arith))))
