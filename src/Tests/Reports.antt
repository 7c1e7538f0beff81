-- ===== src/Tests/Reports.antt =====
-- The reports and the PDF on the shop's invoices.
use biz_saathi.Prelude.{◌≡◌, refl, arith, false, List, length, pos, All, ◌+ℤ◌, ◌-ℤ◌}
use biz_saathi.Rounding.Exact.{exact as rounding, exact-IsRounding}
use biz_saathi.Double.Exact.{exact}
use biz_saathi.Action.{ok}
use biz_saathi.Table.Filtered.{Filtered}
use biz_saathi.Records.{Invoice, InvoiceItem}
use biz_saathi.Invoice.Draft.{remove, find_invoice, update_invoice}
use biz_saathi.Invoice.History.{here, next, removes}
use biz_saathi.Invoice.Totalled.{IsTotalled, Requests-IsTotalled}
use biz_saathi.Invoice.Reports.{
  Bucket, last_day, in_month, get_gst_summary, get_gstr1, dashboard_figures,
}
use biz_saathi.Invoice.Reports.Months.{IsLastDay, IsReported}
use biz_saathi.Invoice.Reports.ByRate.{added, bucket_for, items_of, summary_by_rate}
use biz_saathi.Invoice.Reports.Gstr1.{IsOf, group_of, gstr1_groups}
use biz_saathi.Invoice.Pdf.{generate_pdf, pdf_or_render}
use biz_saathi.Tests.Shop.{june, shop}
use biz_saathi.Tests.Invoices.{shop-IsConsistent}

shop-IsTotalled : All IsTotalled shop.invoices
unfolding ◌+ℤ◌
shop-IsTotalled = (
  record { sub = refl; central = refl; state = refl; inter = refl; whole = refl },
  (
    record { sub = refl; central = refl; state = refl; inter = refl; whole = refl },
    (record { sub = refl; central = refl; state = refl; inter = refl; whole = refl }, tt),
  ),
)

Requests-IsTotalled_example : All IsTotalled (remove 1 5 shop).1.invoices
Requests-IsTotalled_example =
    Requests-IsTotalled rounding exact exact-IsRounding shop-IsConsistent.distinct shop-IsTotalled
      (next here (removes 5))

may_2025 : IsLastDay 2025 5 30
may_2025 = ground arith

-- 2024 is a leap year and 2100 is none.
februaries : (last_day 2024 1 ≡ 29) × ((last_day 2100 1 ≡ 28) × (last_day 2000 1 ≡ 29))
februaries = (refl, (refl, refl))

summary_by_rate_example :
    let s = get_gst_summary exact 1 2025 5 shop in
    (invs : List Invoice) × Filtered (IsReported 1 2025 5 30) shop.invoices invs
    × (items : List InvoiceItem) × Filtered
        (λ (i : InvoiceItem). i.gst_rate ≡ pos 1800)
        (items_of invs)
        items
    × Filtered
        (λ (b : Bucket exact). b.rate ≡ pos 1800)
        s.totals.by_rate
        (bucket_for exact (pos 1800) items)
    × (s.totals.taxable_amount ≡ added exact (λ (i : Invoice). i.subtotal) invs)
    × (s.totals.total_with_tax ≡ added exact (λ (i : Invoice). i.total_amount) invs)
    × (s.invoice_count ≡ length invs)
summary_by_rate_example = summary_by_rate exact 1 2025 5 30 shop (pos 1800) may_2025

summary_run : (get_gst_summary exact 1 2025 5 shop).totals.taxable_amount ≡ pos 100_000
unfolding get_gst_summary ◌+ℤ◌
summary_run = refl

-- In the morning of its last day the month is over for the reports.
last_morning : in_month 2025 5 (record june { day = 30; time = 36_000_000 }) ≡ false
last_morning = refl

gstr1_groups_example :
    Filtered
      (IsOf "27AAPFU0939F1ZV" 1 2025 5 30 shop)
      shop.invoices
      (group_of "27AAPFU0939F1ZV" (get_gstr1 1 2025 5 shop))
gstr1_groups_example = gstr1_groups 1 2025 5 30 shop "27AAPFU0939F1ZV" may_2025 refl

dashboard_run : (dashboard_figures exact 1 2025 5 shop).pending_amount ≡ pos 100_000
unfolding dashboard_figures ◌+ℤ◌ ◌-ℤ◌
dashboard_run = refl

first_pdf :
    (generate_pdf (λ inv t c. "https://files/5.pdf?sig=1") 1 5 shop).0
    ≡ ok "https://files/5.pdf?sig=1"
unfolding generate_pdf pdf_or_render find_invoice update_invoice
first_pdf = refl
