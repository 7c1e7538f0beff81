-- ===== src/Expense.antt =====
-- backend/src/expense/expense.service.ts: the rows of the expenses, and `create`, `update` and
-- `remove`.
--
-- The DTO only asks for numbers: the amounts of a request are of either sign and in units of which `m`
-- make a paisa, as fine as the request needs; the columns `Decimal(10, 2)` round them to whole paise.
-- A time is a number. The tags of an expense are left out.
pub mod Categories
pub mod Columns
pub mod Filing
pub mod Catalogue
pub mod History
pub mod Analytics
pub mod ByCategory
use Prim.Native.String.{String}
use text.Mathlib.Text.{◌==◌ as str_eq}
use biz_saathi.Prelude.{
  ℕ, Bool, true, false, not, ◌&&◌, Option, none, some, List, [], ◌∷◌, ◌++◌, ◌==◌, if◌then◌else◌, ℤ,
  pos, ◌+ℤ◌, ◌*ℤ◌,
}
use biz_saathi.Rounding.{Rounding, signed}
use biz_saathi.Table.{find_first, find_many, update_where}
use biz_saathi.Action.{Action, not_found, pure, gets, or_throw, modify, ◌>>=◌, ◌>>◌}
use biz_saathi.Records.{PaymentMethod, cash, Db}
use biz_saathi.Invoice.{or_default, or_keep, or_text}

-- A category without a tenant is one of the system's.
pub record ExpenseCategory : Type 0 where
  pub id : ℕ
  pub tenant_id : Option ℕ
  pub name : String
  pub icon : Option String
  pub color : Option String
  pub is_default : Bool
  pub is_active : Bool

pub record Expense : Type 0 where
  pub id : ℕ
  pub tenant_id : ℕ
  pub category_id : ℕ
  pub title : String
  pub description : Option String
  pub amount : ℤ
  pub gst_amount : ℤ
  pub total_amount : ℤ
  pub payment_method : PaymentMethod
  pub vendor : Option String
  pub reference : Option String
  pub expense_date : ℕ
  pub receipt_url : Option String
  pub receipt_key : Option String
  pub is_recurring : Bool
  pub recurring_rule : Option String
  pub created_by : ℕ

pub record FileUpload : Type 0 where
  pub tenant_id : ℕ
  pub key : String
  pub entity_id : Option ℕ
  pub entity_type : Option String
  pub is_temporary : Bool
  pub expires_at : Option ℕ

pub data IndexJob : Type 0 where
  upsert_expense delete_expense : (tenant_id expense_id : ℕ) → IndexJob

pub record ExpenseDb : Type 0 where
  pub billing : Db
  pub categories : List ExpenseCategory
  pub expenses : List Expense
  pub uploads : List FileUpload
  pub jobs : List IndexJob

-- dto/create-expense.dto.ts.
pub record CreateExpenseDto : Type 0 where
  pub category_id : ℕ
  pub title : String
  pub description : Option String
  pub amount : ℤ
  pub gst_amount : Option ℤ
  pub payment_method : Option PaymentMethod
  pub vendor : Option String
  pub reference : Option String
  pub expense_date : Option ℕ
  pub receipt_url : Option String
  pub receipt_key : Option String
  pub is_recurring : Option Bool
  pub recurring_rule : Option String

-- dto/update-expense.dto.ts: every field may be missing.
pub record UpdateExpenseDto : Type 0 where
  pub category_id : Option ℕ
  pub title : Option String
  pub description : Option String
  pub amount : Option ℤ
  pub gst_amount : Option ℤ
  pub payment_method : Option PaymentMethod
  pub vendor : Option String
  pub reference : Option String
  pub expense_date : Option ℕ
  pub receipt_url : Option String
  pub receipt_key : Option String
  pub is_recurring : Option Bool
  pub recurring_rule : Option String

-- `fileUpload.updateMany`: the upload of a receipt is kept.
abbrev pub attached : (expense : ℕ) → FileUpload → FileUpload
attached expense f = record f {
  is_temporary = false;
  entity_id = some expense;
  entity_type = some "expense";
  expires_at = none;
}

unfoldable pub attach_receipt : (tenant expense : ℕ) → (key : String) → Action ExpenseDb (Unit {0})
attach_receipt tenant expense key =
    if str_eq key ""
    then pure tt
    else modify (λ db. record db {
      uploads =
          update_where (λ (f : FileUpload). str_eq f.key key && f.tenant_id == tenant)
            (attached expense) db.uploads;
    })

abbrev pub index : IndexJob → Action ExpenseDb (Unit {0})
index job = modify (λ db. record db { jobs = db.jobs ++ job ∷ [] })

abbrev pub has_expense_id : ℕ → Expense → Bool
has_expense_id id e = e.id == id

-- `findOne`.
unfoldable pub find_expense : (tenant id : ℕ) → Action ExpenseDb Expense
find_expense tenant id = do
  found ← gets (λ db. find_first (λ e. has_expense_id id e && e.tenant_id == tenant) db.expenses)
  or_throw found (not_found "Expense not found")

-- The old receipt's file and upload, where the storage deletes the file; a failure is swallowed.
unfoldable pub drop_receipt :
    (storage_deletes : String → Bool) → (key : String) → Action ExpenseDb (Unit {0})
drop_receipt storage_deletes key =
    if not (str_eq key "") && storage_deletes key
    then modify (λ db. record db {
      uploads = find_many (λ (f : FileUpload). not (str_eq f.key key)) db.uploads;
    })
    else pure tt

-- The receipt of `update`, where the request has another one.
abbrev pub replace_receipt :
    (String → Bool) → (tenant id : ℕ) → (new old : String) → Action ExpenseDb (Unit {0})
replace_receipt storage_deletes tenant id new old =
    if not (str_eq new "") && not (str_eq new old)
    then (attach_receipt tenant id new >> drop_receipt storage_deletes old)
    else pure tt

module _ (column : Rounding) (m : ℕ) where
  -- A column `Decimal(10, 2)` keeps the nearest paisa, and at a half the one away from zero.
  abbrev pub to_column : ℤ → ℤ
  to_column amount = signed column.half_up amount m

  -- The row that `create` stores; `now` is the default of the date.
  unfoldable pub new_expense : (now id tenant user : ℕ) → CreateExpenseDto → Expense
  new_expense now id tenant user dto =
      let gst = or_default dto.gst_amount (pos 0) in
      record {
        id = id;
        tenant_id = tenant;
        category_id = dto.category_id;
        title = dto.title;
        description = dto.description;
        amount = to_column dto.amount;
        gst_amount = to_column gst;
        total_amount = to_column (dto.amount +ℤ gst);
        payment_method = or_default dto.payment_method cash;
        vendor = dto.vendor;
        reference = dto.reference;
        expense_date = or_default dto.expense_date now;
        receipt_url = dto.receipt_url;
        receipt_key = dto.receipt_key;
        is_recurring = or_default dto.is_recurring false;
        recurring_rule = dto.recurring_rule;
        created_by = user;
      }

  -- What `update` writes, with the amounts that it takes from the row that it found.
  unfoldable pub edited_expense : UpdateExpenseDto → Expense → Expense → Expense
  edited_expense dto old e =
      let amount = or_default dto.amount (old.amount *ℤ pos m) in
      let gst = or_default dto.gst_amount (old.gst_amount *ℤ pos m) in
      record e {
        category_id = or_default dto.category_id e.category_id;
        title = or_default dto.title e.title;
        description = or_keep dto.description e.description;
        amount = to_column amount;
        gst_amount = to_column gst;
        total_amount = to_column (amount +ℤ gst);
        payment_method = or_default dto.payment_method e.payment_method;
        vendor = or_keep dto.vendor e.vendor;
        reference = or_keep dto.reference e.reference;
        expense_date = or_default dto.expense_date e.expense_date;
        receipt_url = or_keep dto.receipt_url e.receipt_url;
        receipt_key = or_keep dto.receipt_key e.receipt_key;
        is_recurring = or_default dto.is_recurring e.is_recurring;
        recurring_rule = or_keep dto.recurring_rule e.recurring_rule;
      }

  -- `create`; the database chooses the id.
  unfoldable pub create_expense :
      (now id tenant user : ℕ) → CreateExpenseDto → Action ExpenseDb Expense
  create_expense now id tenant user dto = do
    let expense = new_expense now id tenant user dto
    modify (λ db. record db { expenses = db.expenses ++ expense ∷ [] })
    attach_receipt tenant id (or_text dto.receipt_key "")
    index (upsert_expense tenant id)
    pure expense

  -- `update`.
  unfoldable pub update_expense :
      (String → Bool) → (tenant id : ℕ) → UpdateExpenseDto → Action ExpenseDb Expense
  update_expense storage_deletes tenant id dto = do
    expense ← find_expense tenant id
    modify (λ db. record db {
      expenses = update_where (has_expense_id id) (edited_expense dto expense) db.expenses;
    })
    replace_receipt storage_deletes tenant id (or_text dto.receipt_key "")
        (or_text expense.receipt_key "")
    index (upsert_expense tenant id)
    pure (edited_expense dto expense expense)

-- `remove`.
unfoldable pub remove_expense : (String → Bool) → (tenant id : ℕ) → Action ExpenseDb Expense
remove_expense storage_deletes tenant id = do
  expense ← find_expense tenant id
  drop_receipt storage_deletes (or_text expense.receipt_key "")
  modify (λ db. record db { expenses = find_many (λ e. not (has_expense_id id e)) db.expenses })
  index (delete_expense tenant id)
  pure expense
