-- ===== src/Invoice/Effects.antt =====
-- The rows that a method of invoice.service.ts may change: one that it finds by id and tenant and
-- that is not paid, or a new one.
use Prim.Native.String.{String}
use biz_saathi.Prelude.{
  Option, ℕ, ◌≡◌, ◌≢◌, All, refl, true, false, some, List, [], ◌∷◌, ◌++◌, arith, Bool-cases,
  Option-cases, inl, inr,
}
use biz_saathi.Rounding.{Rounding}
use biz_saathi.Double.{Double}
use biz_saathi.Table.{find_first, update_where}
use biz_saathi.Records.{InvoiceStatus, Invoice, Db}
use biz_saathi.Invoice.{CreateInvoiceDto, UpdateInvoiceDto, is_draft, is_paid}
use biz_saathi.Invoice.Draft.{
  has_id, create, new_invoice, update, edited, send, remove, find_tenant, address_of,
}
use biz_saathi.Invoice.Payments.{AddPaymentDto, add_payment}
use biz_saathi.InvoiceNumber.{next_number}
use biz_saathi.Invoice.Rows.{DistinctIds, at_tenant, DistinctIds-update, DistinctIds-snoc}
use biz_saathi.Invoice.Outcomes.{
  credited, add_payment-missing, add_payment-paid, add_payment-over, add_payment-ok,
}
use biz_saathi.Invoice.DraftOutcomes.{
  remove-missing, remove-refused, remove-ok, send-missing, send-refused, send-ok, update-missing,
  update-refused, update-ok, edited-id, is_buyer, create-no_customer, create-no_tenant, create-ok,
}

pub data Effect (tenant : ℕ) (before after : List Invoice) : Type 0 where
  unchanged : after ≡ before → Effect tenant before after
  added :
      (inv : Invoice)
      → All (λ x. x.id ≢ inv.id) before
      → after ≡ before ++ inv ∷ []
      → Effect tenant before after
  rewrote :
      (id : ℕ) (f : Invoice → Invoice) (inv : Invoice)
      → find_first (at_tenant tenant id) before ≡ some inv
      → is_paid inv.status ≡ false
      → ((x : Invoice) → (f x).id ≡ x.id)
      → after ≡ update_where (has_id id) f before
      → Effect tenant before after

-- Ids stay distinct.
pub Effect-DistinctIds :
    {tenant : ℕ} {before after : List Invoice}
    → Effect tenant before after
    → DistinctIds before
    → DistinctIds after
Effect-DistinctIds (unchanged e) d = rw e d
Effect-DistinctIds {tenant} {before} (added inv fresh e) d =
    rw e (DistinctIds-snoc before inv fresh d)
Effect-DistinctIds {tenant} {before} (rewrote id f inv found unpaid keep e) d =
    rw e (DistinctIds-update id f before keep d)

-- A draft is not paid.
draft_unpaid : (s : InvoiceStatus) → is_draft s ≡ true → is_paid s ≡ false
draft_unpaid s h = ground arith

module _ (tenant id : ℕ) (db : Db) (d : DistinctIds db.invoices) where
  pub add_payment-Effect :
      (n : Double) (pid now : ℕ) (dto : AddPaymentDto n)
      → Effect tenant db.invoices (add_payment n pid now tenant id dto db).1.invoices
  add_payment-Effect n pid now dto =
      elim (Option-cases (find_first (at_tenant tenant id) db.invoices)) [
        | inl e ↦ rw (add_payment-missing n tenant id pid now dto db e) (unchanged refl)
        | inr (inv, found) ↦ elim (Bool-cases (is_paid inv.status)) [
          | inl paid ↦ rw (add_payment-paid n tenant id pid now dto db found paid) (unchanged refl)
          | inr unpaid ↦
              elim (Bool-cases
                (n.gt (n.add (n.number inv.paid_amount) dto.amount) (n.number inv.total_amount))) [
                  | inl over ↦
                      rw (add_payment-over n tenant id pid now dto db found unpaid over)
                        (unchanged refl)
                  | inr room ↦
                      rw (add_payment-ok n tenant id pid now dto db found d unpaid room) (
                        rewrote id (credited n tenant id inv dto) inv found unpaid (λ x. refl) refl)
                ]
        ]
      ]

  pub remove-Effect : Effect tenant db.invoices (remove tenant id db).1.invoices
  remove-Effect = elim (Option-cases (find_first (at_tenant tenant id) db.invoices)) [
    | inl e ↦ rw (remove-missing tenant id db e) (unchanged refl)
    | inr (inv, found) ↦ elim (Bool-cases (is_draft inv.status)) [
      | inl drafted ↦ rw (remove-ok tenant id db found d drafted) (
          rewrote id (λ i. record i { status = InvoiceStatus.cancelled }) inv found
            (draft_unpaid inv.status drafted) (λ x. refl) refl)
      | inr other ↦ rw (remove-refused tenant id db found other) (unchanged refl)
    ]
  ]

  pub send-Effect : Effect tenant db.invoices (send tenant id db).1.invoices
  send-Effect = elim (Option-cases (find_first (at_tenant tenant id) db.invoices)) [
    | inl e ↦ rw (send-missing tenant id db e) (unchanged refl)
    | inr (inv, found) ↦ elim (Bool-cases (is_draft inv.status)) [
      | inl drafted ↦ rw (send-ok tenant id db found d drafted) (
          rewrote id (λ i. record i { status = InvoiceStatus.sent }) inv found
            (draft_unpaid inv.status drafted) (λ x. refl) refl)
      | inr other ↦ rw (send-refused tenant id db found other) (unchanged refl)
    ]
  ]

  pub update-Effect :
      (r : Rounding) (dto : UpdateInvoiceDto)
      → Effect tenant db.invoices (update r tenant id dto db).1.invoices
  update-Effect r dto = elim (Option-cases (find_first (at_tenant tenant id) db.invoices)) [
    | inl e ↦ rw (update-missing tenant id db r dto e) (unchanged refl)
    | inr (inv, found) ↦ elim (Bool-cases (is_draft inv.status)) [
      | inl drafted ↦
          let address = address_of (find_tenant tenant db) in
          rw (update-ok tenant id db found d drafted r dto) (
            rewrote id (edited r address dto inv) inv found (draft_unpaid inv.status drafted)
              (edited-id r address dto inv) refl)
      | inr other ↦ rw (update-refused tenant id db found r dto other) (unchanged refl)
    ]
  ]

-- The id of a new invoice.
pub new_id :
    (r : Rounding) (id tenant : ℕ) (address : Option String) (number : List ℕ)
    (dto : CreateInvoiceDto) (rows : List Invoice)
    → All (λ x. x.id ≢ id) rows
    → All (λ x. x.id ≢ (new_invoice r id tenant address number dto).id) rows
unfolding new_invoice
new_id r id tenant address number dto rows fresh = fresh

pub create-Effect :
    (r : Rounding) (id tenant : ℕ) (dto : CreateInvoiceDto) (db : Db)
    → All (λ x. x.id ≢ id) db.invoices
    → Effect tenant db.invoices (create r id tenant dto db).1.invoices
create-Effect r id tenant dto db fresh =
    elim (Option-cases (find_first (is_buyer r id tenant dto db) db.customers)) [
      | inl e ↦ rw (create-no_customer r id tenant dto db e) (unchanged refl)
      | inr (buyer, bought) ↦ elim (Option-cases (find_tenant tenant db)) [
        | inl e ↦ rw (create-no_tenant r id tenant dto db bought e) (unchanged refl)
        | inr (t, e) ↦
            let number = (next_number tenant dto.invoice_date db.sequences).0 in
            rw (create-ok r id tenant dto db bought e) (
              added (new_invoice r id tenant t.address number dto)
                (new_id r id tenant t.address number dto db.invoices fresh) refl)
      ]
    ]
