-- ===== src/Tests/Taxes.antt =====
-- Items with their taxes, and invoice numbers.
use biz_saathi.Prelude.{
  ℕ, ◌+◌, ◌*◌, ◌-◌, ◌≤◌, ◌≡◌, refl, true, false, List, [], ◌∷◌, arith, pos, ◌+ℤ◌, pos_part,
}
use biz_saathi.Rounding.{IsNearest}
use biz_saathi.Rounding.Exact.{exact, exact-IsRounding}
use biz_saathi.Gst.{TaxedAmounts, add_item, gross_amount, calculate_item_gst, summarize_invoice}
use biz_saathi.Gst.Totals.{total_of, item_total, summarize_invoice_sums}
use biz_saathi.Gst.Taxes.{item_gst-IsNearest, inter_state_paisa}
use biz_saathi.InvoiceNumber.{next_number}
use biz_saathi.InvoiceNumber.Unique.{issue, AllDistinct, issue-AllDistinct}
use biz_saathi.Text.{codes, to_string, pad_start}
use biz_saathi.Tests.Shop.{june, january}

-- 3 pieces at 33.33 rupees, 10% off, with 18% tax.
item_gst-IsNearest_example :
    let item = calculate_item_gst exact 3_000 3_333 1_000 (pos 1800) false in
    (t c i : ℕ) × (item.taxable_amount ≡ pos t)
    × IsNearest (gross_amount 3_000 3_333 * (10_000 - 1_000)) 10_000_000 t
    × (item.cgst ≡ pos c)
    × (item.sgst ≡ pos c)
    × (item.igst ≡ pos i)
    × IsNearest (t * 1800) 20_000 c
    × (i ≡ 0)
    × (item.total_amount ≡ pos (t + 2 * c + i))
item_gst-IsNearest_example =
    item_gst-IsNearest exact exact-IsRounding 3_000 3_333 1_000 1800 (omega arith) false

inter_state_paisa_example :
    let local = calculate_item_gst exact 3_000 3_333 1_000 (pos 1800) false in
    let other = calculate_item_gst exact 3_000 3_333 1_000 (pos 1800) true in
    (local.taxable_amount ≡ other.taxable_amount)
    × (pos_part local.total_amount ≤ pos_part other.total_amount + 1)
    × (pos_part other.total_amount ≤ pos_part local.total_amount + 1)
inter_state_paisa_example =
    inter_state_paisa exact exact-IsRounding 3_000 3_333 1_000 1800 (omega arith)

abbrev two_items : List TaxedAmounts
two_items =
    record { amount = pos 8_999; cgst = pos 810; sgst = pos 810; igst = pos 0 }
    ∷ record { amount = pos 100; cgst = pos 9; sgst = pos 9; igst = pos 0 }
    ∷ []

summarize_invoice_sums_example :
    let s = summarize_invoice exact two_items in
    (s.subtotal ≡ total_of (λ i. i.amount) two_items)
    × (s.total_cgst ≡ total_of (λ i. i.cgst) two_items)
    × (s.total_sgst ≡ total_of (λ i. i.sgst) two_items)
    × (s.total_igst ≡ total_of (λ i. i.igst) two_items)
    × (s.total_amount ≡ total_of item_total two_items)
summarize_invoice_sums_example = summarize_invoice_sums exact exact-IsRounding two_items

two_items_total : (summarize_invoice exact two_items).total_amount ≡ pos 10_737
unfolding summarize_invoice add_item ◌+ℤ◌
two_items_total = refl

issue-AllDistinct_example : AllDistinct (issue ((1, june) ∷ (2, june) ∷ (1, january) ∷ []) [])
issue-AllDistinct_example =
    issue-AllDistinct ((1, june) ∷ (2, june) ∷ (1, january) ∷ []) []
      ((omega arith, omega arith), ((omega arith, omega arith), ((omega arith, omega arith), tt)))

first_numbers :
    issue ((1, june) ∷ (1, january) ∷ []) []
    ≡ (1, codes "INV-2025-26-0001") ∷ (1, codes "INV-2025-26-0002") ∷ []
unfolding issue next_number to_string pad_start
first_numbers = refl
