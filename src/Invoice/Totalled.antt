-- ===== src/Invoice/Totalled.antt =====
-- The stored totals of an invoice against the items that it holds, over requests.
use Prim.Native.String.{String}
use biz_saathi.Prelude.{
  ℕ, ◌≡◌, refl, ◌∙◌, Option, some, List, [], ◌∷◌, map, All, All-append, Bool-cases, Option-cases,
  inl, inr, ℤ, ◌+ℤ◌, int_laws,
}
use biz_saathi.Rounding.{Rounding, IsRounding}
use biz_saathi.Double.{Double}
use biz_saathi.Table.{find_first, update_where, update_where-All}
use biz_saathi.Records.{InvoiceStatus, Invoice, InvoiceItem, Db}
use biz_saathi.Gst.{summarize_invoice}
use biz_saathi.Gst.Totals.{total_of, item_total, summarize_invoice_sums}
use biz_saathi.Invoice.{
  CreateInvoiceDto, UpdateInvoiceDto, is_draft, is_paid, is_inter_state, or_text, amounts_of,
  process_item,
}
use biz_saathi.InvoiceNumber.{next_number}
use biz_saathi.Invoice.Draft.{has_id, find_tenant, new_invoice, edited, address_of, has_items}
use biz_saathi.Invoice.Rows.{DistinctIds, at_tenant}
use biz_saathi.Invoice.Outcomes.{
  credited, add_payment-missing, add_payment-paid, add_payment-over, add_payment-ok,
}
use biz_saathi.Invoice.DraftOutcomes.{
  remove-missing, remove-refused, remove-ok, send-missing, send-refused, send-ok, update-missing,
  update-refused, update-ok, is_buyer, create-no_customer, create-no_tenant, create-ok,
}
use biz_saathi.Invoice.Billing.{AnyItems}
use biz_saathi.Invoice.History.{
  Request, Requests, creates, updates, sends, removes, pays, here, next, Requests-DistinctIds,
}

-- Each total is the sum of its field over the items, and the total amount is the sum of the other
-- four.
pub record IsTotalled (inv : Invoice) : Type 0 where
  pub sub : inv.subtotal ≡ total_of (λ (i : InvoiceItem). i.amount) inv.items
  pub central : inv.total_cgst ≡ total_of (λ (i : InvoiceItem). i.cgst) inv.items
  pub state : inv.total_sgst ≡ total_of (λ (i : InvoiceItem). i.sgst) inv.items
  pub inter : inv.total_igst ≡ total_of (λ (i : InvoiceItem). i.igst) inv.items
  pub whole : inv.total_amount ≡ inv.subtotal +ℤ inv.total_cgst +ℤ inv.total_sgst +ℤ inv.total_igst

total_of-map :
    {A B : Type 0} (f : B → ℤ) (g : A → B) (xs : List A)
    → total_of f (map g xs) ≡ total_of (λ x. f (g x)) xs
total_of-map f g [] = refl
total_of-map f g (x ∷ xs) = rw (total_of-map f g xs) refl

item_parts :
    (items : List InvoiceItem)
    → total_of item_total (map amounts_of items)
      ≡ total_of (λ (i : InvoiceItem). i.amount) items
        +ℤ total_of (λ (i : InvoiceItem). i.cgst) items
        +ℤ total_of (λ (i : InvoiceItem). i.sgst) items
        +ℤ total_of (λ (i : InvoiceItem). i.igst) items
item_parts [] = omega int_laws
item_parts (i ∷ items) = rw (item_parts items) (omega int_laws)

module _ (d : Rounding) (laws : IsRounding d) where
  summary_totals :
      (items : List InvoiceItem)
      → let s = summarize_invoice d (map amounts_of items) in
        (s.subtotal ≡ total_of (λ (i : InvoiceItem). i.amount) items)
        × (s.total_cgst ≡ total_of (λ (i : InvoiceItem). i.cgst) items)
        × (s.total_sgst ≡ total_of (λ (i : InvoiceItem). i.sgst) items)
        × (s.total_igst ≡ total_of (λ (i : InvoiceItem). i.igst) items)
        × (s.total_amount ≡ s.subtotal +ℤ s.total_cgst +ℤ s.total_sgst +ℤ s.total_igst)
  summary_totals items =
      let (a, c, s, g, t) = summarize_invoice_sums d laws (map amounts_of items) in
      let a' = a ∙ total_of-map (λ x. x.amount) amounts_of items in
      let c' = c ∙ total_of-map (λ x. x.cgst) amounts_of items in
      let s' = s ∙ total_of-map (λ x. x.sgst) amounts_of items in
      let g' = g ∙ total_of-map (λ x. x.igst) amounts_of items in
      (a', c', s', g', t ∙ item_parts items ∙ rw (a', c', s', g') refl)

  new_invoice-IsTotalled :
      (id tenant : ℕ) (address : Option String) (number : List ℕ) (dto : CreateInvoiceDto)
      → IsTotalled (new_invoice d id tenant address number dto)
  unfolding new_invoice
  new_invoice-IsTotalled id tenant address number dto =
      let (a, c, s, g, t) =
        summary_totals
          (map (process_item d (is_inter_state dto.place_of_supply address)) dto.items) in
      record { sub = a; central = c; state = s; inter = g; whole = t }

  edited-IsTotalled :
      (address : Option String) (dto : UpdateInvoiceDto) (old inv : Invoice)
      → IsTotalled inv
      → IsTotalled (edited d address dto old inv)
  unfolding edited
  edited-IsTotalled address dto old inv v =
      let place = or_text dto.place_of_supply (or_text old.place_of_supply "") in
      let (a, c, s, g, t) =
        summary_totals (map (process_item d (is_inter_state (some place) address)) dto.items) in
      elim (Bool-cases (has_items dto.items)) [
        | inl e ↦ rw e (record { sub = a; central = c; state = s; inter = g; whole = t })
        | inr e ↦ rw e (record {
          sub = v.sub;
          central = v.central;
          state = v.state;
          inter = v.inter;
          whole = v.whole;
        })
      ]

-- A write to the totals and items of no invoice.
IsTotalled-status :
    (id : ℕ) (s : InvoiceStatus) (rows : List Invoice)
    → All IsTotalled rows
    → All IsTotalled (update_where (has_id id) (λ i. record i { status = s }) rows)
IsTotalled-status id s rows =
    update_where-All IsTotalled (has_id id) (λ i. record i { status = s }) rows
      (λ x _ v. record {
        sub = v.sub;
        central = v.central;
        state = v.state;
        inter = v.inter;
        whole = v.whole;
      })

module _ (d : Rounding) (laws : IsRounding d) (n : Double) {tenant : ℕ} {db : Db}
    (ids : DistinctIds db.invoices) (v : All IsTotalled db.invoices) where
  Request-IsTotalled : {db' : Db} → Request d n AnyItems tenant db db' → All IsTotalled db'.invoices
  Request-IsTotalled (creates id dto fresh ok) =
      elim (Option-cases (find_first (is_buyer d id tenant dto db) db.customers)) [
        | inl e ↦ rw (create-no_customer d id tenant dto db e) v
        | inr (buyer, bought) ↦ elim (Option-cases (find_tenant tenant db)) [
          | inl e ↦ rw (create-no_tenant d id tenant dto db bought e) v
          | inr (t, e) ↦
              let number = (next_number tenant dto.invoice_date db.sequences).0 in
              let inv = new_invoice d id tenant t.address number dto in
              rw (create-ok d id tenant dto db bought e) (
                All-append IsTotalled db.invoices (inv ∷ []) v
                  (new_invoice-IsTotalled d laws id tenant t.address number dto, tt))
        ]
      ]
  Request-IsTotalled (updates id dto ok) =
      elim (Option-cases (find_first (at_tenant tenant id) db.invoices)) [
        | inl e ↦ rw (update-missing tenant id db d dto e) v
        | inr (inv, found) ↦ elim (Bool-cases (is_draft inv.status)) [
          | inl drafted ↦
              let address = address_of (find_tenant tenant db) in
              rw (update-ok tenant id db found ids drafted d dto) (
                update_where-All IsTotalled (has_id id) (edited d address dto inv) db.invoices
                  (λ x _. edited-IsTotalled d laws address dto inv x) v)
          | inr other ↦ rw (update-refused tenant id db found d dto other) v
        ]
      ]
  Request-IsTotalled (sends id) =
      elim (Option-cases (find_first (at_tenant tenant id) db.invoices)) [
        | inl e ↦ rw (send-missing tenant id db e) v
        | inr (inv, found) ↦ elim (Bool-cases (is_draft inv.status)) [
          | inl drafted ↦
              rw (send-ok tenant id db found ids drafted)
                (IsTotalled-status id InvoiceStatus.sent db.invoices v)
          | inr other ↦ rw (send-refused tenant id db found other) v
        ]
      ]
  Request-IsTotalled (removes id) =
      elim (Option-cases (find_first (at_tenant tenant id) db.invoices)) [
        | inl e ↦ rw (remove-missing tenant id db e) v
        | inr (inv, found) ↦ elim (Bool-cases (is_draft inv.status)) [
          | inl drafted ↦
              rw (remove-ok tenant id db found ids drafted)
                (IsTotalled-status id InvoiceStatus.cancelled db.invoices v)
          | inr other ↦ rw (remove-refused tenant id db found other) v
        ]
      ]
  Request-IsTotalled (pays pid now id dto ok) =
      elim (Option-cases (find_first (at_tenant tenant id) db.invoices)) [
        | inl e ↦ rw (add_payment-missing n tenant id pid now dto db e) v
        | inr (inv, found) ↦ elim (Bool-cases (is_paid inv.status)) [
          | inl paid ↦ rw (add_payment-paid n tenant id pid now dto db found paid) v
          | inr unpaid ↦
              elim (Bool-cases
                (n.gt (n.add (n.number inv.paid_amount) dto.amount) (n.number inv.total_amount))) [
                  | inl over ↦ rw (add_payment-over n tenant id pid now dto db found unpaid over) v
                  | inr room ↦
                      rw (add_payment-ok n tenant id pid now dto db found ids unpaid room) (
                        update_where-All IsTotalled (has_id id) (credited n tenant id inv dto)
                          db.invoices
                          (λ x _ w. record {
                            sub = w.sub;
                            central = w.central;
                            state = w.state;
                            inter = w.inter;
                            whole = w.whole;
                          })
                          v)
                ]
        ]
      ]

-- After any sequence of the requests create, update, send, remove and addPayment of any tenants,
-- accepted or refused, with any items and any payments of at least one rupee, the stored subtotal and
-- taxes of every invoice are the sums over its stored items, and its total amount is their sum, if
-- that holds at first, ids are distinct at first and new ones are not in use.
pub Requests-IsTotalled :
    (d : Rounding) (n : Double)
    → IsRounding d
    → {db db' : Db} → DistinctIds db.invoices
    → All IsTotalled db.invoices
    → Requests d n AnyItems db db'
    → All IsTotalled db'.invoices
Requests-IsTotalled d n rounding ids v here = v
Requests-IsTotalled d n rounding ids v (next rs r) =
    Request-IsTotalled d rounding n (Requests-DistinctIds d n ids rs)
      (Requests-IsTotalled d n rounding ids v rs) r
