-- ===== src/Gst/Totals.antt =====
-- The totals of `summarizeInvoice` against plain sums over the items.
use mathlib.Core.List.{foldl}
use biz_saathi.Prelude.{suc, ◌≡◌, ap, arith, List, [], ◌∷◌, ◌++◌, ℤ, pos, negsuc, ◌+ℤ◌, int_laws}
use biz_saathi.Rounding.{Rounding, IsRounding, signed}
use biz_saathi.Gst.{TaxedAmounts, no_amounts, add_item, summarize_invoice}

-- The sum of one field over the items.
abbrev pub total_of {ℓ} : {A : Type ℓ} → (A → ℤ) → List A → ℤ
total_of f [] = pos 0
total_of f (x ∷ xs) = f x +ℤ total_of f xs

pub total_of-append {ℓ} :
    {A : Type ℓ} (f : A → ℤ) (xs ys : List A)
    → total_of f (xs ++ ys) ≡ total_of f xs +ℤ total_of f ys
total_of-append f [] ys = omega int_laws
total_of-append f (x ∷ xs) ys = rw (total_of-append f xs ys) (omega int_laws)

-- What an item adds to the invoice.
abbrev pub item_total : TaxedAmounts → ℤ
item_total i = i.amount +ℤ i.cgst +ℤ i.sgst +ℤ i.igst

-- The loop's accumulators hold the sums so far.
foldl-add_item :
    (items : List TaxedAmounts) (acc : TaxedAmounts)
    → let out = foldl add_item acc items in
      (out.amount ≡ acc.amount +ℤ total_of (λ i. i.amount) items)
      × (out.cgst ≡ acc.cgst +ℤ total_of (λ i. i.cgst) items)
      × (out.sgst ≡ acc.sgst +ℤ total_of (λ i. i.sgst) items)
      × (out.igst ≡ acc.igst +ℤ total_of (λ i. i.igst) items)
unfolding add_item
foldl-add_item [] acc = (omega int_laws, omega int_laws, omega int_laws, omega int_laws)
foldl-add_item (i ∷ items) acc =
    let (a, c, s, g) = foldl-add_item items (add_item acc i) in
    (rw a (omega int_laws), rw c (omega int_laws), rw s (omega int_laws), rw g (omega int_laws))

-- A whole number of paise stays as it is.
pub whole_even : (d : Rounding) → IsRounding d → (x : ℤ) → signed d.half_even x 1 ≡ x
whole_even d laws (pos n) = let near = laws.even_nearest n 1 (omega arith) in ap pos (omega arith)
whole_even d laws (negsuc n) =
    let near = laws.even_nearest (suc n) 1 (omega arith) in
    let same : d.half_even (suc n) 1 ≡ suc n = omega arith in rw same

item_totals :
    (items : List TaxedAmounts)
    → total_of (λ i. i.amount) items
        +ℤ total_of (λ i. i.cgst) items
        +ℤ total_of (λ i. i.sgst) items
        +ℤ total_of (λ i. i.igst) items
      ≡ total_of item_total items
item_totals [] = omega int_laws
item_totals (i ∷ items) = rw (← item_totals items) (omega int_laws)

-- Each total of an invoice is the sum of its field over the items, and the final rounding changes
-- nothing: the total amount is the sum of what the items add, tax included.
pub summarize_invoice_sums :
    (d : Rounding)
    → IsRounding d
    → (items : List TaxedAmounts)
    → let s = summarize_invoice d items in
      (s.subtotal ≡ total_of (λ i. i.amount) items)
      × (s.total_cgst ≡ total_of (λ i. i.cgst) items)
      × (s.total_sgst ≡ total_of (λ i. i.sgst) items)
      × (s.total_igst ≡ total_of (λ i. i.igst) items)
      × (s.total_amount ≡ total_of item_total items)
unfolding summarize_invoice
summarize_invoice_sums d laws items =
    let (a, c, s, g) = foldl-add_item items no_amounts in
    (
      rw a (omega int_laws),
      rw c (omega int_laws),
      rw s (omega int_laws),
      rw g (omega int_laws),
      rw (whole_even d laws) (rw (a, c, s, g) (rw (← item_totals items) (omega int_laws))),
    )
