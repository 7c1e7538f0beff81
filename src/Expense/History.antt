-- ===== src/Expense/History.antt =====
-- Any sequence of requests about expenses and categories.
use Prim.Native.String.{String}
use biz_saathi.Prelude.{ℕ, ◌<◌, ◌≡◌, ◌≢◌, refl, ◌∙◌, Bool, true, All}
use biz_saathi.Rounding.{Rounding, IsRounding}
use biz_saathi.Table.{find_many}
use biz_saathi.Table.Keys.{DistinctKeys}
use biz_saathi.Expense.{
  ExpenseCategory, ExpenseDb, CreateExpenseDto, UpdateExpenseDto, create_expense, update_expense,
  remove_expense,
}
use biz_saathi.Expense.Categories.{
  CreateCategoryDto, UpdateCategoryDto, create_category, update_category, remove_category,
}
use biz_saathi.Expense.Filing.{
  is_known, is_known_if, IsSound, create_expense-keeps, update_expense-keeps, remove_expense-keeps,
}
use biz_saathi.Expense.Catalogue.{
  id_of, is_system, IsKept, create_category-IsKept, update_category-IsKept, remove_category-IsKept,
}

-- Each total is at most a paisa off the sum of the amount and the tax, each expense has a category, and no two
-- categories have one id.
pub record IsFiled (db : ExpenseDb) : Type 0 where
  pub sound : All (IsSound db.categories) db.expenses
  pub distinct : DistinctKeys id_of db.categories

module _ (column : Rounding) (m : ℕ) where
  -- One request; the ids of new categories are not in use, and the category that an expense names
  -- exists, by the foreign
  -- key that the database checks.
  pub data ExpenseRequest (db : ExpenseDb) : ExpenseDb → Type 0 where
    adds :
        (now id tenant user : ℕ) (dto : CreateExpenseDto)
        → is_known db.categories dto.category_id ≡ true
        → ExpenseRequest db (create_expense column m now id tenant user dto db).1
    edits :
        (storage_deletes : String → Bool) (tenant id : ℕ) (dto : UpdateExpenseDto)
        → is_known_if db.categories dto.category_id ≡ true
        → ExpenseRequest db (update_expense column m storage_deletes tenant id dto db).1
    drops :
        (storage_deletes : String → Bool) (tenant id : ℕ)
        → ExpenseRequest db (remove_expense storage_deletes tenant id db).1
    opens :
        (id tenant : ℕ) (dto : CreateCategoryDto)
        → All (λ (c : ExpenseCategory). c.id ≢ id) db.categories
        → ExpenseRequest db (create_category id tenant dto db).1
    renames :
        (tenant id : ℕ) (dto : UpdateCategoryDto)
        → ExpenseRequest db (update_category tenant id dto db).1
    closes : (tenant id : ℕ) → ExpenseRequest db (remove_category tenant id db).1

  pub data ExpenseRequests (db : ExpenseDb) : ExpenseDb → Type 0 where
    begun : ExpenseRequests db db
    more : {a b : ExpenseDb} → ExpenseRequests db a → ExpenseRequest a b → ExpenseRequests db b

same_categories :
    (db after : ExpenseDb)
    → DistinctKeys id_of db.categories
    → (after.categories ≡ db.categories) × All (IsSound db.categories) after.expenses
    → IsKept db after
same_categories db after distinct (same, sound) = record {
  sound = rw same sound;
  distinct = rw same distinct;
  system = rw same refl;
}

module _ (column : Rounding) (laws : IsRounding column) (m : ℕ) (h : 0 < m) where
  ExpenseRequest-IsKept :
      {db after : ExpenseDb} → IsFiled db → ExpenseRequest column m db after → IsKept db after
  ExpenseRequest-IsKept {db} f (adds now id tenant user dto known) =
      same_categories db _ f.distinct
        (create_expense-keeps column laws m h db f.sound now id tenant user dto known)
  ExpenseRequest-IsKept {db} f (edits deletes tenant id dto known) =
      same_categories db _ f.distinct
        (update_expense-keeps column laws m h db f.sound deletes tenant id dto known)
  ExpenseRequest-IsKept {db} f (drops deletes tenant id) =
      same_categories db _ f.distinct (remove_expense-keeps db f.sound deletes tenant id)
  ExpenseRequest-IsKept {db} f (opens id tenant dto fresh) =
      create_category-IsKept db f.sound f.distinct id tenant dto fresh
  ExpenseRequest-IsKept {db} f (renames tenant id dto) =
      update_category-IsKept db f.sound f.distinct tenant id dto
  ExpenseRequest-IsKept {db} f (closes tenant id) =
      remove_category-IsKept db f.sound f.distinct tenant id

  -- Where the categories that requests name exist, as the foreign key asks, and new category ids are not
  -- in use: after any sequence of requests to create, change and remove expenses and categories, of any
  -- tenants, accepted or refused, with amounts in units of which m make a paisa, the stored total of
  -- every expense is at most a paisa off the sum of its stored amount and tax, its category exists,
  -- category ids are distinct, and the default categories are the same, in every field, if the first
  -- three hold at first.
  pub ExpenseRequests-IsFiled :
      (db after : ExpenseDb)
      → IsFiled db
      → ExpenseRequests column m db after
      → IsFiled after × (find_many is_system after.categories ≡ find_many is_system db.categories)
  ExpenseRequests-IsFiled db after f begun = (f, refl)
  ExpenseRequests-IsFiled db after f (more {a} rs r) =
      let (g, same) = ExpenseRequests-IsFiled db a f rs in
      let k = ExpenseRequest-IsKept g r in
      (record { sound = k.sound; distinct = k.distinct }, k.system ∙ same)
