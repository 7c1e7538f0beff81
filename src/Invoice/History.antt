-- ===== src/Invoice/History.antt =====
-- Any sequence of requests to the invoice service, accepted or refused, one after another.
use biz_saathi.Prelude.{
  ℕ, ◌≡◌, ◌≢◌, refl, sym, ap, ◌∙◌, Bool, true, false, some, List, [], ◌∷◌, ◌++◌, arith, All,
  Bool-cases, inl, inr,
}
use biz_saathi.Rounding.{Rounding, IsRounding}
use biz_saathi.Double.{Double, IsDouble}
use biz_saathi.Table.{find_first, find_first_sound, find_first-All, update_where}
use biz_saathi.Records.{InvoiceStatus, Invoice, Db}
use biz_saathi.Invoice.{InvoiceItemDto, CreateInvoiceDto, UpdateInvoiceDto, is_paid}
use biz_saathi.Invoice.Draft.{has_id, create, update, send, remove}
use biz_saathi.Invoice.Payments.{AddPaymentDto, IsPayable, add_payment}
use biz_saathi.Invoice.Billing.{IsPriced, AnyItems}
use biz_saathi.Invoice.Rows.{DistinctIds, at_tenant, found_only}
use biz_saathi.Invoice.Effects.{
  Effect, Effect-DistinctIds, unchanged, added, rewrote, add_payment-Effect, remove-Effect,
  send-Effect, update-Effect, create-Effect,
}
use biz_saathi.Invoice.Invariant.{
  IsConsistent, add_payment-IsConsistent, remove-IsConsistent, send-IsConsistent,
}
use biz_saathi.Invoice.DraftInvariant.{update-IsConsistent, create-IsConsistent}

module _ (d : Rounding) (n : Double) (Ok : List InvoiceItemDto → Type 0) where
  -- One request of a tenant: what is asked of the items of a new or changed invoice, a payment of at
  -- least one rupee, as its validation asks, and an id that the database has not given before.
  pub data Request (tenant : ℕ) (db : Db) : Db → Type 1 where
    creates :
        (id : ℕ) (dto : CreateInvoiceDto)
        → All (λ x. x.id ≢ id) db.invoices
        → Ok dto.items
        → Request tenant db (create d id tenant dto db).1
    updates :
        (id : ℕ) (dto : UpdateInvoiceDto)
        → Ok dto.items
        → Request tenant db (update d tenant id dto db).1
    sends : (id : ℕ) → Request tenant db (send tenant id db).1
    removes : (id : ℕ) → Request tenant db (remove tenant id db).1
    pays :
        (pid now id : ℕ) (dto : AddPaymentDto n)
        → IsPayable n dto
        → Request tenant db (add_payment n pid now tenant id dto db).1

  pub data Requests (db : Db) : Db → Type 1 where
    here : Requests db db
    next : {tenant : ℕ} {a b : Db} → Requests db a → Request tenant a b → Requests db b

paid_not_open : (s : InvoiceStatus) → s ≡ InvoiceStatus.paid → is_paid s ≡ false → ⊥
paid_not_open s h k = ground arith

-- A row that an effect does not rewrite is found as it was.
find_first-other :
    (i j : ℕ) (f : Invoice → Invoice) (rows : List Invoice)
    → j ≢ i
    → ((x : Invoice) → (f x).id ≡ x.id)
    → find_first (has_id j) (update_where (has_id i) f rows) ≡ find_first (has_id j) rows
find_first-other i j f [] ne keep = refl
find_first-other i j f (x ∷ xs) ne keep = elim (Bool-cases (has_id i x)) [
  | inl e ↦
      let old : has_id j x ≡ false = ground arith in
      let new : has_id j (f x) ≡ false = rw (keep x) old in
      rw e (rw (new, old) (find_first-other i j f xs ne keep))
  | inr e ↦ rw e (rw (find_first-other i j f xs ne keep))
]

find_first-append :
    (p : Invoice → Bool) (rows more : List Invoice) {inv : Invoice}
    → find_first p rows ≡ some inv
    → find_first p (rows ++ more) ≡ some inv
find_first-append p [] more h = cc
find_first-append p (x ∷ xs) more h = elim (Bool-cases (p x)) [
  | inl e ↦ rw e (rw e at h)
  | inr e ↦ rw e (find_first-append p xs more (rw e at h))
]

-- An effect leaves a row as it is, unless it is the row that it found.
Effect-kept :
    (tenant j : ℕ) (before after : List Invoice) {inv : Invoice}
    → DistinctIds before
    → Effect tenant before after
    → find_first (has_id j) before ≡ some inv
    → ((old : Invoice) → old.tenant_id ≡ tenant → is_paid old.status ≡ false → inv ≢ old)
    → find_first (has_id j) after ≡ some inv
Effect-kept tenant j before after d (unchanged e) h other = rw e h
Effect-kept tenant j before after d (added new fresh e) h other =
    rw e (find_first-append (has_id j) before (new ∷ []) h)
Effect-kept tenant j before after {inv} d (rewrote i f old found unpaid keep e) h other =
    let at : at_tenant tenant i old ≡ true = find_first_sound (at_tenant tenant i) before found in
    let mine : old.tenant_id ≡ tenant = ground arith in
    let named : has_id j inv ≡ true = find_first_sound (has_id j) before h in
    let only : has_id i inv ≡ true → inv ≡ old =
      find_first-All (λ x. has_id i x ≡ true → x ≡ old) (has_id j) before
        (found_only tenant i before d found) h in
    let away : j ≢ i = λ same. other old mine unpaid (only (ground arith)) in
    rw e (rw (find_first-other i j f before away keep) h)

module _ (d : Rounding) (n : Double) where
  module _ {Ok : List InvoiceItemDto → Type 0} where
    Request-Effect :
        {tenant : ℕ} {db db' : Db}
        → DistinctIds db.invoices
        → Request d n Ok tenant db db'
        → Effect tenant db.invoices db'.invoices
    Request-Effect {tenant} {db} ids (creates id dto fresh ok) =
        create-Effect d id tenant dto db fresh
    Request-Effect {tenant} {db} ids (updates id dto ok) = update-Effect tenant id db ids d dto
    Request-Effect {tenant} {db} ids (sends id) = send-Effect tenant id db ids
    Request-Effect {tenant} {db} ids (removes id) = remove-Effect tenant id db ids
    Request-Effect {tenant} {db} ids (pays pid now id dto ok) =
        add_payment-Effect tenant id db ids n pid now dto

    pub Requests-DistinctIds :
        {db db' : Db} → DistinctIds db.invoices → Requests d n Ok db db' → DistinctIds db'.invoices
    Requests-DistinctIds ids here = ids
    Requests-DistinctIds ids (next rs r) =
        let before = Requests-DistinctIds ids rs in
        Effect-DistinctIds (Request-Effect before r) before

  -- Any of the requests create, update, send, remove and addPayment of one tenant, accepted or
  -- refused, with any items and any payment of at least one rupee, leaves every invoice of another
  -- tenant as it is, if ids are distinct.
  pub tenant_isolation :
      (tenant j : ℕ) (db db' : Db) (inv : Invoice)
      → DistinctIds db.invoices
      → Request d n AnyItems tenant db db'
      → find_first (has_id j) db.invoices ≡ some inv
      → inv.tenant_id ≢ tenant
      → find_first (has_id j) db'.invoices ≡ some inv
  tenant_isolation tenant j db db' inv ids r h ne =
      Effect-kept tenant j db.invoices db'.invoices ids (Request-Effect ids r) h
        (λ old mine _ same. ne (ap (λ (x : Invoice). x.tenant_id) same ∙ mine))

  -- An invoice whose status is PAID stays as it is, in every field, after any sequence of the
  -- requests create, update, send, remove and addPayment, accepted or refused, with any items and any
  -- payments of at least one rupee, if ids are distinct at first and new ones are not in use.
  pub paid_frozen :
      {db db' : Db} (j : ℕ) (inv : Invoice)
      → DistinctIds db.invoices
      → Requests d n AnyItems db db'
      → find_first (has_id j) db.invoices ≡ some inv
      → inv.status ≡ InvoiceStatus.paid
      → find_first (has_id j) db'.invoices ≡ some inv
  paid_frozen j inv ids here h paid = h
  paid_frozen j inv ids (next {tenant} {a} {b} rs r) h paid =
      let before = Requests-DistinctIds ids rs in
      Effect-kept tenant j a.invoices b.invoices before (Request-Effect before r)
        (paid_frozen j inv ids rs h paid)
        (λ old _ unpaid same.
          paid_not_open old.status (sym (ap (λ (x : Invoice). x.status) same) ∙ paid) unpaid)

  module _ (rounding : IsRounding d) (double : IsDouble n) where
    Request-IsConsistent :
        {tenant : ℕ} {db db' : Db}
        → Request d n (IsPriced d) tenant db db'
        → IsConsistent db
        → IsConsistent db'
    Request-IsConsistent {tenant} {db} (creates id dto fresh ok) c =
        create-IsConsistent d rounding id tenant dto db fresh ok.0 ok.1 c
    Request-IsConsistent {tenant} {db} (updates id dto ok) c =
        update-IsConsistent d rounding tenant id dto db ok.0 ok.1 c
    Request-IsConsistent {tenant} {db} (sends id) c = send-IsConsistent tenant id db c
    Request-IsConsistent {tenant} {db} (removes id) c = remove-IsConsistent tenant id db c
    Request-IsConsistent {tenant} {db} (pays pid now id dto ok) c =
        add_payment-IsConsistent n double pid now tenant id dto db ok c

    -- Where every item of a new or changed invoice has a discount of at most 100% and a tax rate that
    -- is not negative, which the API does not enforce, and its total fits in its column: after any
    -- sequence of the requests create, update, send, remove and addPayment of any tenants, accepted or
    -- refused, with payments of at least one rupee and new ids that are not in use, no invoice is paid
    -- beyond its total, one whose status is PAID is paid in full, nothing is paid on a draft, ids are
    -- distinct and totals fit in their column, if that holds at first.
    pub Requests-IsConsistent :
        {db db' : Db} → IsConsistent db → Requests d n (IsPriced d) db db' → IsConsistent db'
    Requests-IsConsistent c here = c
    Requests-IsConsistent c (next rs r) = Request-IsConsistent r (Requests-IsConsistent c rs)
