-- ===== src/Invoice/Payments.antt =====
-- `addPayment` of invoice.service.ts.
use Prim.Native.String.{String}
use biz_saathi.Prelude.{◌≡◌, ℕ, Bool, true, false, Option, [], ◌∷◌, ◌++◌, if◌then◌else◌, pos}
use biz_saathi.Double.{Double}
use biz_saathi.Action.{Action, forbidden, bad_request, pure, throw_if, modify, ◌>>=◌, ◌>>◌}
use biz_saathi.Records.{
  InvoiceStatus, PaymentMethod, cash, Invoice, Payment, Db, index_invoice, payment_received,
  invoice_paid,
}
use biz_saathi.Invoice.{or_default, is_paid}
use biz_saathi.Invoice.Draft.{find_invoice, update_invoice, clear_dashboard, push}

module _ (n : Double) where
  open n use {Num, number, add, gt, same, to_paise}

  -- dto/add-payment.dto.ts.
  pub record AddPaymentDto : Type 0 where
    pub amount : Num
    pub method : Option PaymentMethod
    pub reference : Option String
    pub note : Option String
    pub paid_at : Option ℕ

  -- `@Min(1)` on the amount: it is not below one rupee.
  abbrev pub IsPayable : AddPaymentDto → Type 0
  IsPayable dto = gt (number (pos 100)) dto.amount ≡ false

  -- The status before the amounts are compared: a cancelled invoice counts as a draft.
  abbrev pub reopened : InvoiceStatus → InvoiceStatus
  reopened InvoiceStatus.cancelled = InvoiceStatus.draft
  reopened status = status

  -- The status after a payment that brings the paid amount to `new_paid`.
  unfoldable pub new_status : Invoice → Num → InvoiceStatus
  new_status inv new_paid =
      if same new_paid (number inv.total_amount)
      then InvoiceStatus.paid
      else if gt new_paid (number (pos 0))
      then InvoiceStatus.partial
      else reopened inv.status

  -- The row of the new payment; `now` is `new Date()`.
  abbrev pub new_payment : (payment_id now tenant id : ℕ) → AddPaymentDto → Payment
  new_payment payment_id now tenant id dto = record {
    id = payment_id;
    tenant_id = tenant;
    invoice_id = id;
    amount = to_paise dto.amount;
    method = or_default dto.method cash;
    reference = dto.reference;
    note = dto.note;
    paid_at = or_default dto.paid_at now;
  }

  abbrev pub push_paid : Bool → (tenant id : ℕ) → Action Db (Unit {0})
  push_paid true tenant id = push (invoice_paid tenant id)
  push_paid false tenant id = pure tt

  -- `addPayment`. The customer that it loads is not used.
  unfoldable pub add_payment :
      (payment_id now tenant id : ℕ) → AddPaymentDto → Action Db (Payment × Invoice)
  add_payment payment_id now tenant id dto = do
    inv ← find_invoice tenant id
    throw_if (is_paid inv.status) (forbidden "Invoice is already fully paid")
    let new_paid = add (number inv.paid_amount) dto.amount
    throw_if (gt new_paid (number inv.total_amount)) (bad_request "Overpayment not allowed")
    let payment = new_payment payment_id now tenant id dto
    modify (λ db. record db { payments = db.payments ++ payment ∷ [] })
    updated ←
        update_invoice id
          (λ i. record i { paid_amount = to_paise new_paid; status = new_status inv new_paid })
    clear_dashboard tenant
    push (payment_received tenant updated.id)
    push (index_invoice tenant updated.id)
    push_paid (is_paid updated.status) tenant updated.id
    pure (payment, updated)
