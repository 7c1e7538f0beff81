-- ===== src/Invoice/Reports/ByRate.antt =====
-- The buckets of `getGstSummary` against the items of the invoices, in any arithmetic.
use mathlib.Core.List.{foldl}
use biz_saathi.Prelude.{
  ℕ, ◌≡◌, refl, sym, ap, ◌∙◌, true, false, List, [], ◌∷◌, ◌++◌, arith, All, Bool-cases, inl, inr, ℤ,
  pos, eqb_ℤ, eq_of_parts, length,
}
use biz_saathi.Double.{Double}
use biz_saathi.Table.{find_many}
use biz_saathi.Table.Filtered.{Filtered, find_many-Filtered}
use biz_saathi.Records.{InvoiceItem, Invoice, Db}
use biz_saathi.Invoice.Reports.{
  Bucket, empty_bucket, into_bucket, bucket_item, GstTotals, no_totals, add_invoice, is_reported,
  get_gst_summary,
}
use biz_saathi.Invoice.Reports.Months.{IsLastDay, IsReported, is_reported-IsReported, unreported}

-- Every item of the invoices, in order.
abbrev pub items_of : List Invoice → List InvoiceItem
items_of [] = []
items_of (inv ∷ rest) = inv.items ++ items_of rest

-- The invoices that the summary of a month reads.
abbrev pub reported : (tenant year month : ℕ) → Db → List Invoice
reported tenant year month db = find_many (is_reported tenant year month) db.invoices

eqb_refl : (r : ℤ) → eqb_ℤ r r ≡ true
eqb_refl r = ground arith

eqb-eq : (a b : ℤ) → eqb_ℤ a b ≡ true → a ≡ b
eqb-eq a b h = ground (arith, eq_of_parts a b)

eqb_apart : (a b : ℤ) → eqb_ℤ a b ≡ false → ¬ (a ≡ b)
eqb_apart a b h e = let k = rw e at h in ground arith

module _ (n : Double) where
  open n use {Num, number, add}

  -- 0, and then one amount after the other.
  abbrev pub added {ℓ} : {A : Type ℓ} → (A → ℤ) → List A → Num
  added f xs = foldl (λ sum x. add sum (number (f x))) (number (pos 0)) xs

  -- The one bucket of the items at a rate, if there are any.
  abbrev pub bucket_for : ℤ → List InvoiceItem → List (Bucket n)
  bucket_for r [] = []
  bucket_for r (i ∷ is) =
      record {
        rate = r;
        taxable = added (λ (x : InvoiceItem). x.amount) (i ∷ is);
        cgst = added (λ (x : InvoiceItem). x.cgst) (i ∷ is);
        sgst = added (λ (x : InvoiceItem). x.sgst) (i ∷ is);
        igst = added (λ (x : InvoiceItem). x.igst) (i ∷ is);
      }
      ∷ []

  -- The buckets and the items at a rate.
  module _ (r : ℤ) where
    abbrev at_rate : List (Bucket n) → List (Bucket n)
    at_rate bs = find_many (λ b. eqb_ℤ b.rate r) bs

    abbrev of_rate : List InvoiceItem → List InvoiceItem
    of_rate items = find_many (λ i. eqb_ℤ i.gst_rate r) items

    bucket_item-at :
        (bs : List (Bucket n)) (item : InvoiceItem)
        → item.gst_rate ≡ r
        → at_rate (bucket_item n bs item) ≡ bucket_item n (at_rate bs) item
    unfolding bucket_item
    bucket_item-at [] item e = let k : eqb_ℤ item.gst_rate r ≡ true = rw e (eqb_refl r) in rw k refl
    bucket_item-at (b ∷ bs) item e = elim (Bool-cases (eqb_ℤ b.rate r)) [
      | inl h ↦ let k : eqb_ℤ b.rate item.gst_rate ≡ true = rw e h in rw (k, h) (rw k refl)
      | inr h ↦
          let k : eqb_ℤ b.rate item.gst_rate ≡ false = rw e h in
          rw (k, h) (bucket_item-at bs item e)
    ]

    bucket_item-other :
        (bs : List (Bucket n)) (item : InvoiceItem)
        → eqb_ℤ item.gst_rate r ≡ false
        → at_rate (bucket_item n bs item) ≡ at_rate bs
    unfolding bucket_item
    bucket_item-other [] item e = rw e refl
    bucket_item-other (b ∷ bs) item e = elim (Bool-cases (eqb_ℤ b.rate item.gst_rate)) [
      | inl h ↦
          let same : b.rate ≡ item.gst_rate = eqb-eq b.rate item.gst_rate h in
          let k : eqb_ℤ b.rate r ≡ false = rw same e in rw h (rw k refl)
      | inr h ↦ elim (Bool-cases (eqb_ℤ b.rate r)) [
        | inl k ↦ rw h (rw k (ap (λ l. b ∷ l) (bucket_item-other bs item e)))
        | inr k ↦ rw h (rw k (bucket_item-other bs item e))
      ]
    ]

    -- Items at other rates leave the buckets at a rate.
    buckets-at :
        (items : List InvoiceItem) (bs : List (Bucket n))
        → at_rate (foldl (bucket_item n) bs items)
          ≡ foldl (bucket_item n) (at_rate bs) (of_rate items)
    buckets-at [] bs = refl
    buckets-at (i ∷ items) bs = elim (Bool-cases (eqb_ℤ i.gst_rate r)) [
      | inl e ↦
          let one = bucket_item-at bs i (eqb-eq i.gst_rate r e) in
          rw e (
            buckets-at items (bucket_item n bs i)
            ∙ ap (λ l. foldl (bucket_item n) l (of_rate items)) one)
      | inr e ↦
          let one = bucket_item-other bs i e in
          rw e (
            buckets-at items (bucket_item n bs i)
            ∙ ap (λ l. foldl (bucket_item n) l (of_rate items)) one)
    ]

    -- One bucket takes all the items at its rate.
    one_bucket :
        (items : List InvoiceItem) (b : Bucket n)
        → b.rate ≡ r
        → All (λ (i : InvoiceItem). i.gst_rate ≡ r) items
        → foldl (bucket_item n) (b ∷ []) items
          ≡ record {
            rate = b.rate;
            taxable = foldl (λ s (i : InvoiceItem). add s (number i.amount)) b.taxable items;
            cgst = foldl (λ s (i : InvoiceItem). add s (number i.cgst)) b.cgst items;
            sgst = foldl (λ s (i : InvoiceItem). add s (number i.sgst)) b.sgst items;
            igst = foldl (λ s (i : InvoiceItem). add s (number i.igst)) b.igst items;
          }
            ∷ []
    unfolding bucket_item
    one_bucket [] b e a = refl
    one_bucket (i ∷ items) b e a =
        let at : eqb_ℤ b.rate i.gst_rate ≡ true = rw (e, a.0) (eqb_refl r) in
        rw at (one_bucket items (into_bucket n i b) e a.1)

    of_rate-All :
        (items : List InvoiceItem) → All (λ (i : InvoiceItem). i.gst_rate ≡ r) (of_rate items)
    of_rate-All [] = tt
    of_rate-All (i ∷ items) = elim (Bool-cases (eqb_ℤ i.gst_rate r)) [
      | inl e ↦ rw e (eqb-eq i.gst_rate r e, of_rate-All items)
      | inr e ↦ rw e (of_rate-All items)
    ]

    from_nothing :
        (items : List InvoiceItem)
        → All (λ (i : InvoiceItem). i.gst_rate ≡ r) items
        → foldl (bucket_item n) [] items ≡ bucket_for r items
    unfolding bucket_item
    from_nothing [] a = refl
    from_nothing (i ∷ items) a =
        one_bucket items (into_bucket n i (empty_bucket n i.gst_rate)) a.0 a.1 ∙ rw a.0 refl

  -- The loop over invoices, field by field.
  foldl-append :
      (xs ys : List InvoiceItem) (bs : List (Bucket n))
      → foldl (bucket_item n) bs (xs ++ ys) ≡ foldl (bucket_item n) (foldl (bucket_item n) bs xs) ys
  foldl-append [] ys bs = refl
  foldl-append (x ∷ xs) ys bs = foldl-append xs ys (bucket_item n bs x)

  add_invoice-by_rate :
      (invs : List Invoice) (t : GstTotals n)
      → (foldl (add_invoice n) t invs).by_rate ≡ foldl (bucket_item n) t.by_rate (items_of invs)
  add_invoice-by_rate [] t = refl
  add_invoice-by_rate (inv ∷ invs) t =
      rw (foldl-append inv.items (items_of invs) t.by_rate)
        (add_invoice-by_rate invs (add_invoice n t inv))

  add_invoice-totals :
      (invs : List Invoice) (t : GstTotals n)
      → let out = foldl (add_invoice n) t invs in
        (out.taxable_amount
          ≡ foldl (λ s (i : Invoice). add s (number i.subtotal)) t.taxable_amount invs)
        × (out.total_with_tax
            ≡ foldl (λ s (i : Invoice). add s (number i.total_amount)) t.total_with_tax invs)
  add_invoice-totals [] t = (refl, refl)
  add_invoice-totals (inv ∷ invs) t = add_invoice-totals invs (add_invoice n t inv)

  -- In any arithmetic: the summary reads exactly the tenant's invoices that are sent, partially or
  -- fully paid and dated in the month, up to the midnight at which its last day begins. Where such an
  -- invoice has an item at a rate, it has one bucket for the rate, and its amount and taxes are those
  -- of the items at the rate, added one after the other to 0 in the order of the invoices and their
  -- items; otherwise it has none. The totals before and with tax add up the invoices likewise.
  pub summary_by_rate :
      (tenant year month last : ℕ) (db : Db) (r : ℤ)
      → IsLastDay year month last
      → let s = get_gst_summary n tenant year month db in
        (invs : List Invoice) × Filtered (IsReported tenant year month last) db.invoices invs
        × (items : List InvoiceItem) × Filtered
            (λ (i : InvoiceItem). i.gst_rate ≡ r)
            (items_of invs)
            items
        × Filtered (λ (b : Bucket n). b.rate ≡ r) s.totals.by_rate (bucket_for r items)
        × (s.totals.taxable_amount ≡ added (λ (i : Invoice). i.subtotal) invs)
        × (s.totals.total_with_tax ≡ added (λ (i : Invoice). i.total_amount) invs)
        × (s.invoice_count ≡ length invs)
  unfolding get_gst_summary
  summary_by_rate tenant year month last db r calendar =
      let invs = reported tenant year month db in
      let items = of_rate r (items_of invs) in
      let buckets = (get_gst_summary n tenant year month db).totals.by_rate in
      let same : at_rate r buckets ≡ bucket_for r items =
        ap (at_rate r) (add_invoice-by_rate invs (no_totals n))
        ∙ buckets-at r (items_of invs) []
        ∙ from_nothing r items (of_rate-All r (items_of invs)) in
      let (taxable, with_tax) = add_invoice-totals invs (no_totals n) in
      (
        invs,
        find_many-Filtered _ (is_reported tenant year month)
            (is_reported-IsReported tenant year month last calendar)
            (unreported tenant year month last calendar) db.invoices,
        items,
        find_many-Filtered _ (λ i. eqb_ℤ i.gst_rate r) (λ i. eqb-eq i.gst_rate r)
            (λ i. eqb_apart i.gst_rate r) (items_of invs),
        rw (sym same) (
            find_many-Filtered _ (λ b. eqb_ℤ b.rate r) (λ b. eqb-eq b.rate r)
              (λ b. eqb_apart b.rate r) buckets),
        taxable,
        with_tax,
        refl,
      )
