-- ===== src/Invoice/DraftInvariant.antt =====
-- `create` and `update` of invoice.service.ts keep the invoices valid.
use Prim.Native.String.{String}
use biz_saathi.Prelude.{
  ℕ, ◌≡◌, ◌≢◌, refl, true, Option, some, List, [], ◌∷◌, arith, All, All-append, Bool-cases,
  Option-cases, inl, inr, pos,
}
use biz_saathi.Rounding.{Rounding, IsRounding}
use biz_saathi.Table.{find_first, find_first-All}
use biz_saathi.Records.{InvoiceStatus, Invoice, Db}
use biz_saathi.Invoice.{CreateInvoiceDto, UpdateInvoiceDto, is_draft, is_inter_state, or_text}
use biz_saathi.InvoiceNumber.{next_number}
use biz_saathi.Invoice.Draft.{
  create, update, find_tenant, new_invoice, edited, address_of, has_items,
}
use biz_saathi.Invoice.Billing.{IsBillable, Fits, billed_nonneg}
use biz_saathi.Invoice.Rows.{IsValid, at_tenant, DistinctIds-snoc}
use biz_saathi.Invoice.DraftOutcomes.{
  update-missing, update-refused, update-ok, edited-id, is_buyer, create-no_customer,
  create-no_tenant, create-ok,
}
use biz_saathi.Invoice.Effects.{new_id}
use biz_saathi.Invoice.Invariant.{IsConsistent, rewrite-IsConsistent}

is_draft_only : (s : InvoiceStatus) → is_draft s ≡ true → s ≡ InvoiceStatus.draft
is_draft_only s h = ground arith

draft_not_paid : (s : InvoiceStatus) → is_draft s ≡ true → ¬ (s ≡ InvoiceStatus.paid)
draft_not_paid s h e = ground arith

module _ (d : Rounding) (laws : IsRounding d) where
  drafted_paid :
      (inv : Invoice) → IsValid inv → is_draft inv.status ≡ true → inv.paid_amount ≡ pos 0
  drafted_paid inv v h = v.unpaid (is_draft_only inv.status h)

  edited-IsValid :
      (address : Option String) (dto : UpdateInvoiceDto) (inv : Invoice)
      → IsValid inv
      → is_draft inv.status ≡ true
      → All IsBillable dto.items
      → Fits d dto.items
      → IsValid (edited d address dto inv inv)
  unfolding edited
  edited-IsValid address dto inv v drafted billable fits =
      let place = or_text dto.place_of_supply (or_text inv.place_of_supply "") in
      let inter = is_inter_state (some place) address in
      let nothing = drafted_paid inv v drafted in
      elim (Bool-cases (has_items dto.items)) [
        | inl e ↦ rw e (record {
          fits = fits inter;
          nonneg = v.nonneg;
          within = rw nothing (billed_nonneg d laws inter dto.items billable);
          settled = λ s. absurd (draft_not_paid inv.status drafted s);
          unpaid = λ s. nothing;
        })
        | inr e ↦ rw e (record {
          fits = v.fits;
          nonneg = v.nonneg;
          within = v.within;
          settled = v.settled;
          unpaid = v.unpaid;
        })
      ]

  -- Editing a draft, accepted or refused, leaves every invoice valid, for items with discounts of
  -- at most 100% and tax rates that are not negative, whose total fits in its column.
  pub update-IsConsistent :
      (tenant id : ℕ) (dto : UpdateInvoiceDto) (db : Db)
      → All IsBillable dto.items
      → Fits d dto.items
      → IsConsistent db
      → IsConsistent (update d tenant id dto db).1
  update-IsConsistent tenant id dto db billable fits c =
      elim (Option-cases (find_first (at_tenant tenant id) db.invoices)) [
        | inl e ↦ rw (update-missing tenant id db d dto e) c
        | inr (inv, found) ↦ elim (Bool-cases (is_draft inv.status)) [
          | inl drafted ↦
              let address = address_of (find_tenant tenant db) in
              rw (update-ok tenant id db found c.distinct drafted d dto) (
                rewrite-IsConsistent tenant id (edited d address dto inv) db _ c found
                  (edited-id d address dto inv)
                  (edited-IsValid address dto inv
                    (find_first-All IsValid (at_tenant tenant id) db.invoices c.valid found) drafted
                    billable fits)
                  refl)
          | inr other ↦ rw (update-refused tenant id db found d dto other) c
        ]
      ]

  new_invoice-IsValid :
      (id tenant : ℕ) (address : Option String) (number : List ℕ) (dto : CreateInvoiceDto)
      → All IsBillable dto.items
      → Fits d dto.items
      → IsValid (new_invoice d id tenant address number dto)
  unfolding new_invoice
  new_invoice-IsValid id tenant address number dto billable fits =
      let inter = is_inter_state dto.place_of_supply address in
      let positive = billed_nonneg d laws inter dto.items billable in
      record {
        fits = fits inter;
        nonneg = omega arith;
        within = positive;
        settled = λ e. cc;
        unpaid = λ e. refl;
      }

  -- A new invoice under an id that is not in use leaves every invoice valid, under the same
  -- conditions.
  pub create-IsConsistent :
      (id tenant : ℕ) (dto : CreateInvoiceDto) (db : Db)
      → All (λ x. x.id ≢ id) db.invoices
      → All IsBillable dto.items
      → Fits d dto.items
      → IsConsistent db
      → IsConsistent (create d id tenant dto db).1
  create-IsConsistent id tenant dto db fresh billable fits c =
      elim (Option-cases (find_first (is_buyer d id tenant dto db) db.customers)) [
        | inl e ↦ rw (create-no_customer d id tenant dto db e) c
        | inr (buyer, bought) ↦ elim (Option-cases (find_tenant tenant db)) [
          | inl e ↦ rw (create-no_tenant d id tenant dto db bought e) c
          | inr (t, e) ↦
              let number = (next_number tenant dto.invoice_date db.sequences).0 in
              let inv = new_invoice d id tenant t.address number dto in
              let v = new_invoice-IsValid id tenant t.address number dto billable fits in
              rw (create-ok d id tenant dto db bought e) (record {
                valid = All-append IsValid db.invoices (inv ∷ []) c.valid (v, tt);
                distinct =
                    DistinctIds-snoc db.invoices inv
                      (new_id d id tenant t.address number dto db.invoices fresh) c.distinct;
              })
        ]
      ]
