-- ===== src/Tests/Invoices.antt =====
-- The invoice service on the tenants' invoices.
use biz_saathi.Prelude.{All, ◌≢◌, ◌≡◌, refl, none, some, arith, ◌+ℤ◌, ◌*ℤ◌, true, false, pos}
use biz_saathi.Rounding.Exact.{exact as rounding, exact-IsRounding}
use biz_saathi.Double.Exact.{exact, exact-IsDouble}
use biz_saathi.Records.{Invoice, Db}
use biz_saathi.Table.{find_first}
use biz_saathi.Gst.{add_item, calculate_item_gst, summarize_invoice}
use biz_saathi.Invoice.{process_item}
use biz_saathi.Invoice.Billing.{Fits, IsPriced, AnyItems}
use biz_saathi.Invoice.Draft.{has_id, create}
use biz_saathi.Invoice.Payments.{AddPaymentDto, add_payment}
use biz_saathi.Invoice.Invariant.{IsConsistent}
use biz_saathi.Invoice.History.{
  creates, pays, here, next, Requests, tenant_isolation, Requests-IsConsistent, paid_frozen,
}
use biz_saathi.Tests.Shop.{order, paid_invoice, shop}

pub shop-IsConsistent : IsConsistent shop
shop-IsConsistent = record {
  valid = (
    record {
      fits = ground arith;
      nonneg = ground arith;
      within = ground arith;
      settled = λ e. ground arith;
      unpaid = λ e. ground arith;
    },
    (
      record {
        fits = ground arith;
        nonneg = ground arith;
        within = ground arith;
        settled = λ e. ground arith;
        unpaid = λ e. ground arith;
      },
      (
        record {
          fits = ground arith;
          nonneg = ground arith;
          within = ground arith;
          settled = λ e. ground arith;
          unpaid = λ e. ground arith;
        },
        tt,
      ),
    ),
  );
  distinct = ((ground arith, (ground arith, tt)), ((ground arith, tt), (tt, tt)));
}

-- 1000 rupees.
abbrev balance : AddPaymentDto exact
balance = record {
  amount = pos 100_000;
  method = none;
  reference = none;
  note = none;
  paid_at = none;
}

abbrev instalment : AddPaymentDto exact
instalment = record {
  amount = pos 40_000;
  method = none;
  reference = none;
  note = none;
  paid_at = none;
}

order-Fits : Fits rounding order.items
unfolding summarize_invoice add_item calculate_item_gst process_item ◌+ℤ◌ ◌*ℤ◌
order-Fits true = ground arith
order-Fits false = ground arith

-- An order of the first tenant, and then a payment on their open invoice.
abbrev ordered : Db
ordered = (create rounding 9 1 order shop).1

abbrev settled : Db
settled = (add_payment exact 3 20 1 5 balance ordered).1

abbrev order-fresh : All (λ x. x.id ≢ 9) shop.invoices
order-fresh = (ground arith, (ground arith, (ground arith, tt)))

morning : Requests rounding exact (IsPriced rounding) shop settled
morning =
    next (next here (creates 9 order order-fresh (((ground arith, (1800, refl)), tt), order-Fits)))
      (pays 3 20 5 balance refl)

Requests-IsConsistent_example : IsConsistent settled
Requests-IsConsistent_example =
    Requests-IsConsistent rounding exact exact-IsRounding exact-IsDouble shop-IsConsistent morning

any_morning : Requests rounding exact AnyItems shop settled
any_morning = next (next here (creates 9 order order-fresh tt)) (pays 3 20 5 balance refl)

paid_frozen_example : find_first (has_id 6) settled.invoices ≡ some paid_invoice
paid_frozen_example =
    paid_frozen rounding exact 6 paid_invoice shop-IsConsistent.distinct any_morning refl refl

tenant_isolation_example :
    find_first (has_id 6) (add_payment exact 3 20 1 5 balance shop).1.invoices ≡ some paid_invoice
tenant_isolation_example =
    tenant_isolation rounding exact 1 6 shop (add_payment exact 3 20 1 5 balance shop).1
      paid_invoice shop-IsConsistent.distinct (pays 3 20 5 balance refl) refl (ground arith)
