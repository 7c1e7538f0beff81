-- ===== src/Tests/Expenses.antt =====
-- Expenses of the shop and their categories.
use biz_saathi.Prelude.{ℕ, List, map, ◌≡◌, refl, none, some, true, false, [], ◌∷◌, arith, pos, ◌+ℤ◌}
use biz_saathi.Records.{cash}
use biz_saathi.Rounding.Exact.{exact as rounding, exact-IsRounding}
use biz_saathi.Double.Exact.{exact}
use biz_saathi.Table.{find_many}
use biz_saathi.Table.Filtered.{Filtered}
use biz_saathi.Expense.{
  ExpenseCategory, Expense, ExpenseDb, CreateExpenseDto, new_expense, create_expense,
  attach_receipt,
}
use biz_saathi.Expense.Categories.{remove_category, find_category, retire_category}
use biz_saathi.Expense.Catalogue.{is_system}
use biz_saathi.Expense.History.{
  IsFiled, ExpenseRequests, begun, more, adds, closes, ExpenseRequests-IsFiled,
}
use biz_saathi.Expense.Analytics.{
  ReportPeriod, CategoryTotal, get_profit_loss, get_expenses_by_category,
}
use biz_saathi.Expense.ByCategory.{IsSpent, total_for, by_category_adds_up}
use biz_saathi.Tests.Shop.{shop}

abbrev rent : ExpenseCategory
rent = record {
  id = 1;
  tenant_id = none;
  name = "Rent";
  icon = none;
  color = some "#10B981";
  is_default = true;
  is_active = true;
}

abbrev sweets : ExpenseCategory
sweets = record {
  id = 2;
  tenant_id = some 1;
  name = "Sweets";
  icon = none;
  color = none;
  is_default = false;
  is_active = true;
}

abbrev expense : (id category amount gst : ℕ) → Expense
expense id category amount gst = record {
  id = id;
  tenant_id = 1;
  category_id = category;
  title = "Bill";
  description = none;
  amount = pos amount;
  gst_amount = pos gst;
  total_amount = pos amount +ℤ pos gst;
  payment_method = cash;
  vendor = none;
  reference = none;
  expense_date = 100;
  receipt_url = none;
  receipt_key = none;
  is_recurring = false;
  recurring_rule = none;
  created_by = 1;
}

abbrev ledger : ExpenseDb
ledger = record {
  billing = shop;
  categories = rent ∷ sweets ∷ [];
  expenses = expense 1 1 50_000 0 ∷ expense 2 2 20_000 3_600 ∷ expense 3 1 10_000 0 ∷ [];
  uploads = [];
  jobs = [];
}

ledger-IsFiled : IsFiled ledger
unfolding ◌+ℤ◌
ledger-IsFiled = record {
  sound = (
    ((ground arith, ground arith), refl),
    (((ground arith, ground arith), refl), (((ground arith, ground arith), refl), tt)),
  );
  distinct = ((ground arith, tt), (tt, tt));
}

-- In thousandths of a paisa.
abbrev tea : CreateExpenseDto
tea = record {
  category_id = 2;
  title = "Tea";
  description = none;
  amount = pos 1_000_500;
  gst_amount = some (pos 180_500);
  payment_method = none;
  vendor = none;
  reference = none;
  expense_date = none;
  receipt_url = none;
  receipt_key = some "receipts/1";
  is_recurring = none;
  recurring_rule = none;
}

abbrev after_tea : ExpenseDb
after_tea = (create_expense rounding 1000 200 4 1 9 tea ledger).1

abbrev after_close : ExpenseDb
after_close = (remove_category 1 2 after_tea).1

ledger_requests : ExpenseRequests rounding 1000 ledger after_close
ledger_requests = more (more begun (adds 200 4 1 9 tea refl)) (closes 1 2)

-- The category is in use, so it is only deactivated.
closed : after_close.categories ≡ rent ∷ record sweets { is_active = false } ∷ []
unfolding remove_category find_category retire_category create_expense attach_receipt new_expense
closed = refl

ExpenseRequests-IsFiled_example :
    IsFiled after_close
    × (find_many is_system after_close.categories ≡ find_many is_system ledger.categories)
ExpenseRequests-IsFiled_example =
    ExpenseRequests-IsFiled rounding exact-IsRounding 1000 (ground arith) ledger after_close
      ledger-IsFiled ledger_requests

abbrev any_time : ReportPeriod
any_time = record { of_invoice = λ d. true; of_expense = λ t. true }

-- 1000.5 and 180.5 paise are each rounded up, and their sum is a paisa less.
tea_run :
    let e = new_expense rounding 1000 200 4 1 9 tea in
    (e.amount ≡ pos 1_001) × ((e.gst_amount ≡ pos 181) × (e.total_amount ≡ pos 1_181))
unfolding new_expense ◌+ℤ◌
tea_run = (refl, (refl, refl))

spent_run : (get_profit_loss exact 1 any_time ledger).total_expenses ≡ pos 83_600
unfolding get_profit_loss ◌+ℤ◌
spent_run = refl

by_category_adds_up_example :
    let totals = get_expenses_by_category exact 1 any_time ledger in
    (es : List Expense) × Filtered (IsSpent 1 any_time) ledger.expenses es
    × (filed : List Expense) × Filtered (λ (e : Expense). e.category_id ≡ 1) es filed
    × (entries : List (CategoryTotal exact)) × Filtered
        (λ (t : CategoryTotal exact). t.category_id ≡ 1)
        totals
        entries
    × (map (λ (t : CategoryTotal exact). t.total) entries ≡ total_for exact filed)
by_category_adds_up_example = by_category_adds_up exact 1 any_time ledger 1
