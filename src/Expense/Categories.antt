-- ===== src/Expense/Categories.antt =====
-- backend/src/category/category.service.ts: `create`, `update` and `remove` of a category.
use Prim.Native.String.{String}
use biz_saathi.Prelude.{
  ℕ, Bool, true, false, not, ◌&&◌, Option, none, some, [], ◌∷◌, ◌++◌, ltb, ◌==◌,
}
use biz_saathi.Table.{find_first, find_many, count_where, update_where}
use biz_saathi.Action.{Action, not_found, pure, gets, or_throw, throw_if, modify, ◌>>=◌, ◌>>◌}
use biz_saathi.Invoice.{or_default, or_keep}
use biz_saathi.Expense.{ExpenseCategory, Expense, ExpenseDb}

-- dto/create-category.dto.ts.
pub record CreateCategoryDto : Type 0 where
  pub name : String
  pub icon : Option String
  pub color : Option String
  pub is_active : Option Bool

-- dto/update-category.dto.ts: every field may be missing.
pub record UpdateCategoryDto : Type 0 where
  pub name : Option String
  pub icon : Option String
  pub color : Option String
  pub is_active : Option Bool

abbrev pub new_category : (id tenant : ℕ) → CreateCategoryDto → ExpenseCategory
new_category id tenant dto = record {
  id = id;
  tenant_id = some tenant;
  name = dto.name;
  icon = dto.icon;
  color = dto.color;
  is_default = false;
  is_active = or_default dto.is_active true;
}

-- `create`.
unfoldable pub create_category :
    (id tenant : ℕ) → CreateCategoryDto → Action ExpenseDb ExpenseCategory
create_category id tenant dto = do
  modify (λ db. record db { categories = db.categories ++ new_category id tenant dto ∷ [] })
  pure (new_category id tenant dto)

abbrev pub has_category_id : ℕ → ExpenseCategory → Bool
has_category_id id c = c.id == id

-- A tenant's own categories, and the system's defaults.
abbrev pub is_visible : (tenant : ℕ) → Option ℕ → (is_default : Bool) → Bool
is_visible tenant none is_default = is_default
is_visible tenant (some t) is_default = t == tenant

-- `findOne`.
unfoldable pub find_category : (tenant id : ℕ) → Action ExpenseDb ExpenseCategory
find_category tenant id = do
  found ← gets (λ db.
      find_first (λ c. has_category_id id c && is_visible tenant c.tenant_id c.is_default)
        db.categories)
  or_throw found (not_found "Category not found")

abbrev pub edited_category : UpdateCategoryDto → ExpenseCategory → ExpenseCategory
edited_category dto c = record c {
  name = or_default dto.name c.name;
  icon = or_keep dto.icon c.icon;
  color = or_keep dto.color c.color;
  is_active = or_default dto.is_active c.is_active;
}

-- `update`.
unfoldable pub update_category :
    (tenant id : ℕ) → UpdateCategoryDto → Action ExpenseDb ExpenseCategory
update_category tenant id dto = do
  category ← find_category tenant id
  throw_if category.is_default (not_found "Cannot modify system default categories")
  modify (λ db. record db {
    categories = update_where (has_category_id id) (edited_category dto) db.categories;
  })
  pure (edited_category dto category)

abbrev pub deactivated : ExpenseCategory → ExpenseCategory
deactivated c = record c { is_active = false }

abbrev pub is_filed : (category : ℕ) → Expense → Bool
is_filed category e = e.category_id == category

-- A category in use is deactivated, another one deleted.
unfoldable pub retire_category :
    (used : Bool) → (id : ℕ) → ExpenseCategory → Action ExpenseDb ExpenseCategory
retire_category true id category = do
  modify
      (λ db. record db { categories = update_where (has_category_id id) deactivated db.categories })
  pure (deactivated category)
retire_category false id category = do
  modify
      (λ db. record db { categories = find_many (λ c. not (has_category_id id c)) db.categories })
  pure category

-- `remove`.
unfoldable pub remove_category : (tenant id : ℕ) → Action ExpenseDb ExpenseCategory
remove_category tenant id = do
  category ← find_category tenant id
  throw_if category.is_default (not_found "Cannot delete system default categories")
  used_count ← gets (λ db. count_where (is_filed id) db.expenses)
  retire_category (ltb 0 used_count) id category
