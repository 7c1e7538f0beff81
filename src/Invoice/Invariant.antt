-- ===== src/Invoice/Invariant.antt =====
-- `addPayment`, `remove` and `send` of invoice.service.ts keep the invoices valid.
use biz_saathi.Prelude.{
  ℕ, ◌≡◌, refl, false, some, arith, All, Bool-cases, Option-cases, inl, inr, pos,
}
use biz_saathi.Double.{Double, IsDouble, InColumn}
use biz_saathi.Table.{find_first, find_first-All, update_where}
use biz_saathi.Records.{InvoiceStatus, Invoice, Db}
use biz_saathi.Invoice.{is_draft, is_paid}
use biz_saathi.Invoice.Draft.{has_id, send, remove}
use biz_saathi.Invoice.Payments.{AddPaymentDto, IsPayable, new_status, add_payment}
use biz_saathi.Invoice.Rows.{IsValid, DistinctIds, at_tenant, rewrite_found, DistinctIds-update}
use biz_saathi.Invoice.Outcomes.{
  credited, add_payment-missing, add_payment-paid, add_payment-over, add_payment-ok,
}
use biz_saathi.Invoice.DraftOutcomes.{
  remove-missing, remove-refused, remove-ok, send-missing, send-refused, send-ok,
}

pub record IsConsistent (db : Db) : Type 0 where
  pub valid : All IsValid db.invoices
  pub distinct : DistinctIds db.invoices

-- A method's write to the row that it found.
pub rewrite-IsConsistent :
    (tenant id : ℕ) (f : Invoice → Invoice) (db db' : Db) {inv : Invoice}
    → IsConsistent db
    → find_first (at_tenant tenant id) db.invoices ≡ some inv
    → ((x : Invoice) → (f x).id ≡ x.id)
    → IsValid (f inv)
    → db'.invoices ≡ update_where (has_id id) f db.invoices
    → IsConsistent db'
rewrite-IsConsistent tenant id f db db' c found keep new e = record {
  valid = rw e (rewrite_found IsValid tenant id f db.invoices c.distinct found c.valid new);
  distinct = rw e (DistinctIds-update id f db.invoices keep c.distinct);
}

module _ (n : Double) (laws : IsDouble n) where
  open n use {number, add, gt}

  pub fits_paid : (inv : Invoice) → IsValid inv → InColumn inv.paid_amount
  fits_paid inv v = let f = v.fits in let g = v.nonneg in let h = v.within in ground arith

  pub credited-IsValid :
      (tenant id : ℕ) (inv : Invoice) (dto : AddPaymentDto n)
      → IsValid inv
      → IsPayable n dto
      → gt (add (number inv.paid_amount) dto.amount) (number inv.total_amount) ≡ false
      → IsValid (credited n tenant id inv dto inv)
  unfolding new_status
  credited-IsValid tenant id inv dto v payable room =
      let x = add (number inv.paid_amount) dto.amount in
      let positive = laws.add-pos inv.paid_amount dto.amount (fits_paid inv v) v.nonneg payable in
      record {
        fits = v.fits;
        nonneg = laws.gt-true x (pos 0) (omega arith) positive;
        within = laws.gt-false x inv.total_amount v.fits room;
        settled = λ e. laws.same-true x inv.total_amount v.fits (ground (arith, positive));
        unpaid = λ e. ground (arith, positive);
      }

  -- A payment of at least one rupee, accepted or refused, leaves every invoice valid: no invoice
  -- is paid beyond its total, one whose status is PAID is paid in full, and on a draft nothing is
  -- paid.
  pub add_payment-IsConsistent :
      (pid now tenant id : ℕ) (dto : AddPaymentDto n) (db : Db)
      → IsPayable n dto
      → IsConsistent db
      → IsConsistent (add_payment n pid now tenant id dto db).1
  add_payment-IsConsistent pid now tenant id dto db payable c =
      elim (Option-cases (find_first (at_tenant tenant id) db.invoices)) [
        | inl e ↦ rw (add_payment-missing n tenant id pid now dto db e) c
        | inr (inv, found) ↦ elim (Bool-cases (is_paid inv.status)) [
          | inl paid ↦ rw (add_payment-paid n tenant id pid now dto db found paid) c
          | inr open' ↦
              elim (Bool-cases
                (gt (add (number inv.paid_amount) dto.amount) (number inv.total_amount))) [
                  | inl over ↦ rw (add_payment-over n tenant id pid now dto db found open' over) c
                  | inr room ↦
                      rw (add_payment-ok n tenant id pid now dto db found c.distinct open' room) (
                        rewrite-IsConsistent tenant id (credited n tenant id inv dto) db _ c found
                          (λ x. refl)
                          (credited-IsValid tenant id inv dto
                            (find_first-All IsValid _ db.invoices c.valid found) payable room)
                          refl)
                ]
        ]
      ]

module _ (tenant id : ℕ) (db : Db) (c : IsConsistent db) where
  pub remove-IsConsistent : IsConsistent (remove tenant id db).1
  remove-IsConsistent = elim (Option-cases (find_first (at_tenant tenant id) db.invoices)) [
    | inl e ↦ rw (remove-missing tenant id db e) c
    | inr (inv, found) ↦ elim (Bool-cases (is_draft inv.status)) [
      | inl drafted ↦
          let v = find_first-All IsValid (at_tenant tenant id) db.invoices c.valid found in
          rw (remove-ok tenant id db found c.distinct drafted) (
            rewrite-IsConsistent tenant id (λ i. record i { status = InvoiceStatus.cancelled }) db _
              c found (λ x. refl)
              (record {
                fits = v.fits;
                nonneg = v.nonneg;
                within = v.within;
                settled = λ e. cc;
                unpaid = λ e. cc;
              })
              refl)
      | inr other ↦ rw (remove-refused tenant id db found other) c
    ]
  ]

  pub send-IsConsistent : IsConsistent (send tenant id db).1
  send-IsConsistent = elim (Option-cases (find_first (at_tenant tenant id) db.invoices)) [
    | inl e ↦ rw (send-missing tenant id db e) c
    | inr (inv, found) ↦ elim (Bool-cases (is_draft inv.status)) [
      | inl drafted ↦
          let v = find_first-All IsValid (at_tenant tenant id) db.invoices c.valid found in
          rw (send-ok tenant id db found c.distinct drafted) (
            rewrite-IsConsistent tenant id (λ i. record i { status = InvoiceStatus.sent }) db _ c
              found (λ x. refl)
              (record {
                fits = v.fits;
                nonneg = v.nonneg;
                within = v.within;
                settled = λ e. cc;
                unpaid = λ e. cc;
              })
              refl)
      | inr other ↦ rw (send-refused tenant id db found other) c
    ]
  ]
