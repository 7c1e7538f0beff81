-- ===== src/Invoice/Rows.antt =====
-- One invoice at a time: what is valid, and rows that an id names.
use biz_saathi.Prelude.{
  ℕ, ◌≡◌, ◌≢◌, refl, sym, ap, Bool, true, false, ◌&&◌, none, some, List, [], ◌∷◌, ◌++◌, arith, ◌==◌,
  All, All-imp, All-append, if◌then◌else◌, ◌∙◌, Bool-cases, inl, inr, pos, ◌≤ℤ◌,
}
use mathlib.Core.Path.{subst}
use mathlib.Core.Option.{some-injective}
use biz_saathi.Double.{InColumn}
use biz_saathi.Table.{find_first, find_first_sound, find_first-All, update_where, update_where-All}
use biz_saathi.Records.{InvoiceStatus, Invoice, Db}
use biz_saathi.Action.{ok, err, not_found}
use biz_saathi.Invoice.Draft.{has_id, find_invoice, update_invoice}

-- The amounts and the status of an invoice agree: what is paid lies between nothing and the total,
-- a paid invoice is paid in full, and nothing is paid on a draft.
pub record IsValid (inv : Invoice) : Type 0 where
  pub fits : InColumn inv.total_amount
  pub nonneg : pos 0 ≤ℤ inv.paid_amount
  pub within : inv.paid_amount ≤ℤ inv.total_amount
  pub settled : inv.status ≡ InvoiceStatus.paid → inv.paid_amount ≡ inv.total_amount
  pub unpaid : inv.status ≡ InvoiceStatus.draft → inv.paid_amount ≡ pos 0

-- No two invoices have one id: the primary key.
abbrev pub DistinctIds : List Invoice → Type 0
DistinctIds [] = Unit
DistinctIds (x ∷ xs) = All (λ y. y.id ≢ x.id) xs × DistinctIds xs

abbrev pub at_tenant : ℕ → ℕ → Invoice → Bool
at_tenant tenant id inv = has_id id inv && inv.tenant_id == tenant

no_other :
    (id : ℕ) (x : Invoice) (xs : List Invoice)
    → All (λ z. z.id ≢ x.id) xs
    → x.id ≡ id
    → All (λ z. has_id id z ≡ true → z ≡ x) xs
no_other id x xs h e = All-imp _ _ (λ z ne at. absurd (ne (ground arith))) xs h

at_id : (tenant id : ℕ) (x : Invoice) → at_tenant tenant id x ≡ true → x.id ≡ id
at_id tenant id x h = ground arith

-- The row that a query by id and tenant finds is the only one with its id.
pub found_only :
    (tenant id : ℕ) (rows : List Invoice) {inv : Invoice}
    → DistinctIds rows
    → find_first (at_tenant tenant id) rows ≡ some inv
    → All (λ x. has_id id x ≡ true → x ≡ inv) rows
found_only tenant id [] d h = tt
found_only tenant id (x ∷ xs) {inv} d h = elim (Bool-cases (at_tenant tenant id x)) [
  | inl e ↦
      let same : x ≡ inv = some-injective _ _ (rw e at h) in
      (
        λ _. same,
        subst (λ y. All (λ z. has_id id z ≡ true → z ≡ y) xs) same
            (no_other id x xs d.0 (at_id tenant id x e)),
      )
  | inr e ↦
      let later : find_first (at_tenant tenant id) xs ≡ some inv = rw e at h in
      let other : inv.id ≢ x.id =
        find_first-All (λ y. y.id ≢ x.id) (at_tenant tenant id) xs d.0 later in
      let named : inv.id ≡ id =
        at_id tenant id inv (find_first_sound (at_tenant tenant id) xs later) in
      (λ here. absurd (other (ground arith)), found_only tenant id xs d.1 later)
]

rewrite_named {κ} :
    (P : Invoice → Type κ) (id : ℕ) (f : Invoice → Invoice) (rows : List Invoice) (inv : Invoice)
    → All (λ x. has_id id x ≡ true → x ≡ inv) rows
    → All (λ x. has_id id x ≡ false → P x) rows
    → P (f inv)
    → All P (update_where (has_id id) f rows)
rewrite_named P id f [] inv only others new = tt
rewrite_named P id f (x ∷ xs) inv only others new = elim (Bool-cases (has_id id x)) [
  | inl e ↦ (rw e (rw (only.0 e) new), rewrite_named P id f xs inv only.1 others.1 new)
  | inr e ↦ (rw e (others.0 e), rewrite_named P id f xs inv only.1 others.1 new)
]

-- Rewriting the row that was found: what holds of every other row, and of the new row, holds after
-- it.
pub rewrite_others {κ} :
    (P : Invoice → Type κ) (tenant id : ℕ) (f : Invoice → Invoice) (rows : List Invoice)
    {inv : Invoice}
    → DistinctIds rows
    → find_first (at_tenant tenant id) rows ≡ some inv
    → All (λ x. has_id id x ≡ false → P x) rows
    → P (f inv)
    → All P (update_where (has_id id) f rows)
rewrite_others P tenant id f rows {inv} d h others new =
    rewrite_named P id f rows inv (found_only tenant id rows d h) others new

-- The same, where it holds of every row.
pub rewrite_found {κ} :
    (P : Invoice → Type κ) (tenant id : ℕ) (f : Invoice → Invoice) (rows : List Invoice)
    {inv : Invoice}
    → DistinctIds rows
    → find_first (at_tenant tenant id) rows ≡ some inv
    → All P rows
    → P (f inv)
    → All P (update_where (has_id id) f rows)
rewrite_found P tenant id f rows {inv} d h all new =
    rewrite_others P tenant id f rows d h (All-imp P _ (λ x p _. p) rows all) new

id_kept :
    (b : Bool) (f : Invoice → Invoice) (x : Invoice)
    → (f x).id ≡ x.id
    → (if b then f x else x).id ≡ x.id
id_kept true f x e = e
id_kept false f x e = refl

-- Ids stay distinct under an update that keeps them.
pub DistinctIds-update :
    (id : ℕ) (f : Invoice → Invoice) (rows : List Invoice)
    → ((x : Invoice) → (f x).id ≡ x.id)
    → DistinctIds rows
    → DistinctIds (update_where (has_id id) f rows)
DistinctIds-update id f [] keep d = tt
DistinctIds-update id f (x ∷ xs) keep d =
    let same = id_kept (has_id id x) f x (keep x) in
    (
      update_where-All (λ y. y.id ≢ _) (has_id id) f xs (λ y _ ne e. ne (sym (keep y) ∙ e))
          (All-imp _ _ (λ y ne e. ne (e ∙ same)) xs d.0),
      DistinctIds-update id f xs keep d.1,
    )

-- A new row with an id that is not in use.
pub DistinctIds-snoc :
    (rows : List Invoice) (inv : Invoice)
    → All (λ x. x.id ≢ inv.id) rows
    → DistinctIds rows
    → DistinctIds (rows ++ inv ∷ [])
DistinctIds-snoc [] inv fresh d = (tt, tt)
DistinctIds-snoc (x ∷ xs) inv fresh d =
    (All-append _ xs (inv ∷ []) d.0 (λ e. fresh.0 (sym e), tt), DistinctIds-snoc xs inv fresh.1 d.1)

-- The first row with the id, after the rewrite, is the new row.
find_first-update :
    (tenant id : ℕ) (f : Invoice → Invoice) (rows : List Invoice) (inv : Invoice)
    → All (λ x. has_id id x ≡ true → x ≡ inv) rows
    → ((x : Invoice) → (f x).id ≡ x.id)
    → find_first (at_tenant tenant id) rows ≡ some inv
    → find_first (has_id id) (update_where (has_id id) f rows) ≡ some (f inv)
find_first-update tenant id f [] inv only keep h = cc
find_first-update tenant id f (x ∷ xs) inv only keep h = elim (Bool-cases (has_id id x)) [
  | inl e ↦
      let named : has_id id (f x) ≡ true = rw (keep x) e in
      rw e (rw named (ap (λ y. some (f y)) (only.0 e)))
  | inr e ↦
      let later : find_first (at_tenant tenant id) xs ≡ some inv = rw e at h in
      rw e (rw e (find_first-update tenant id f xs inv only.1 keep later))
]

module _ (tenant id : ℕ) (db : Db) where
  pub find_invoice-none :
      find_first (at_tenant tenant id) db.invoices ≡ none
      → find_invoice tenant id db ≡ (err (not_found "Invoice not found"), db)
  unfolding find_invoice
  find_invoice-none h = rw h

  pub find_invoice-some :
      {inv : Invoice}
      → find_first (at_tenant tenant id) db.invoices ≡ some inv
      → find_invoice tenant id db ≡ (ok inv, db)
  unfolding find_invoice
  find_invoice-some h = rw h

  -- The write of a method to the invoice that it found: it succeeds, and returns the new row.
  pub update_invoice-found :
      (f : Invoice → Invoice) {inv : Invoice}
      → DistinctIds db.invoices
      → ((x : Invoice) → (f x).id ≡ x.id)
      → find_first (at_tenant tenant id) db.invoices ≡ some inv
      → update_invoice id f db
        ≡ (ok (f inv), record db { invoices = update_where (has_id id) f db.invoices })
  unfolding update_invoice
  update_invoice-found f {inv} d keep h =
      rw (
        find_first-update tenant id f db.invoices inv (found_only tenant id db.invoices d h) keep h)
