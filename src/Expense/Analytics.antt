-- ===== src/Expense/Analytics.antt =====
-- backend/src/expense/expense-analytics.service.ts. The dates of a request are two tests, since an
-- invoice has a date and an expense a time. The database adds up exactly; what the service adds are
-- JavaScript's numbers, in any arithmetic (`Double`). The profit margin is left out.
use Prim.Native.String.{String}
use mathlib.Core.List.{foldl}
use biz_saathi.Prelude.{
  ℕ, Bool, true, false, ◌&&◌, Option, none, some, List, [], ◌∷◌, ◌==◌, if◌then◌else◌, ℤ, pos, ◌+ℤ◌,
}
use biz_saathi.Double.{Double}
use biz_saathi.Table.{find_first, find_many}
use biz_saathi.Records.{Date, InvoiceStatus, Invoice}
use biz_saathi.Invoice.{or_text}
use biz_saathi.Expense.{ExpenseCategory, Expense, ExpenseDb}
use biz_saathi.Expense.Categories.{has_category_id}

-- `startDate` to `endDate`, or any time.
pub record ReportPeriod : Type 0 where
  pub of_invoice : Date → Bool
  pub of_expense : ℕ → Bool

pub record ProfitLoss (n : Double) : Type 0 where
  pub total_revenue_collected : n.Num
  pub total_revenue_billed : n.Num
  pub total_expenses : n.Num
  pub net_profit : n.Num

-- PAID and PARTIAL.
abbrev pub is_earning : InvoiceStatus → Bool
is_earning InvoiceStatus.paid = true
is_earning InvoiceStatus.partial = true
is_earning _ = false

abbrev pub earning : (tenant : ℕ) → ReportPeriod → Invoice → Bool
earning tenant period inv =
    inv.tenant_id == tenant && is_earning inv.status && period.of_invoice inv.invoice_date

abbrev pub spent : (tenant : ℕ) → ReportPeriod → Expense → Bool
spent tenant period e = e.tenant_id == tenant && period.of_expense e.expense_date

-- `aggregate({ _sum })`, 0 where there is no row.
abbrev pub aggregate {ℓ} : {A : Type ℓ} → (A → ℤ) → List A → ℤ
aggregate f [] = pos 0
aggregate f (x ∷ xs) = f x +ℤ aggregate f xs

-- `getProfitLoss`.
unfoldable pub get_profit_loss :
    (n : Double) → (tenant : ℕ) → ReportPeriod → ExpenseDb → ProfitLoss n
get_profit_loss n tenant period db =
    let invoices = find_many (earning tenant period) db.billing.invoices in
    let expenses = find_many (spent tenant period) db.expenses in
    let collected = n.number (aggregate (λ (i : Invoice). i.paid_amount) invoices) in
    let total_expenses = n.number (aggregate (λ (e : Expense). e.total_amount) expenses) in
    record {
      total_revenue_collected = collected;
      total_revenue_billed = n.number (aggregate (λ (i : Invoice). i.total_amount) invoices);
      total_expenses = total_expenses;
      net_profit = n.sub collected total_expenses;
    }

abbrev pub label : Option ExpenseCategory → String × String
label none = ("Uncategorized", "#CBD5E1")
label (some c) = (or_text (some c.name) "Uncategorized", or_text c.color "#CBD5E1")

module _ (n : Double) where
  open n use {Num, number, add, sub, gt}

  -- An entry of `categoryMap`, with its key.
  pub record CategoryTotal : Type 0 where
    pub category_id : ℕ
    pub category_name : String
    pub color : String
    pub total : Num

  -- One round of the loop.
  unfoldable pub add_expense :
      List ExpenseCategory → List CategoryTotal → Expense → List CategoryTotal
  add_expense cs [] e =
      let (name, color) = label (find_first (has_category_id e.category_id) cs) in
      record {
        category_id = e.category_id;
        category_name = name;
        color = color;
        total = number e.total_amount;
      }
      ∷ []
  add_expense cs (t ∷ ts) e =
      let rest = add_expense cs ts e in
      if t.category_id == e.category_id
      then record t { total = add t.total (number e.total_amount) } ∷ ts
      else t ∷ rest

  -- `sort((a, b) => b.total - a.total)`, which keeps the order of equal totals.
  abbrev pub insert_total : CategoryTotal → List CategoryTotal → List CategoryTotal
  insert_total x [] = x ∷ []
  insert_total x (y ∷ ys) =
      let later = insert_total x ys in
      if gt (sub y.total x.total) (number (pos 0)) then y ∷ later else x ∷ y ∷ ys

  unfoldable pub sort_totals : List CategoryTotal → List CategoryTotal
  sort_totals [] = []
  sort_totals (x ∷ xs) = insert_total x (sort_totals xs)

  -- `getExpensesByCategory`.
  unfoldable pub get_expenses_by_category :
      (tenant : ℕ) → ReportPeriod → ExpenseDb → List CategoryTotal
  get_expenses_by_category tenant period db =
      sort_totals
        (foldl (add_expense db.categories) [] (find_many (spent tenant period) db.expenses))
