-- ===== src/Expense/Filing.antt =====
-- What the methods of expense.service.ts keep of every expense.
use Prim.Native.String.{String}
use text.Mathlib.Text.{◌==◌ as str_eq}
use biz_saathi.Prelude.{
  ℕ, ◌≡◌, refl, ◌∙◌, Bool, true, false, not, ◌&&◌, ◌||◌, Option, none, some, List, [], ◌∷◌, ◌++◌,
  ◌==◌, All, All-append, Bool-cases, Option-cases, inl, inr, pos, ◌<◌, ◌+ℤ◌, ◌*ℤ◌,
}
use biz_saathi.Rounding.{Rounding, IsRounding}
use biz_saathi.Table.{find_first, find_many-All, update_where, update_where-All}
use biz_saathi.Action.{Action, ok, ◌>>◌}
use biz_saathi.Invoice.{or_default, or_text}
use biz_saathi.Expense.{
  ExpenseCategory, Expense, ExpenseDb, CreateExpenseDto, UpdateExpenseDto, new_expense,
  attach_receipt, create_expense, has_expense_id, find_expense, edited_expense, drop_receipt,
  replace_receipt, update_expense, remove_expense,
}
use biz_saathi.Expense.Columns.{IsNear, to_column-sum}
use biz_saathi.Expense.Categories.{has_category_id}

-- There is a category with the id.
abbrev pub is_known : List ExpenseCategory → ℕ → Bool
is_known [] id = false
is_known (c ∷ cs) id = has_category_id id c || is_known cs id

abbrev pub is_known_if : List ExpenseCategory → Option ℕ → Bool
is_known_if cs none = true
is_known_if cs (some id) = is_known cs id

-- A step that succeeds and leaves the expenses and the categories.
record IsAside (m : Action ExpenseDb (Unit {0})) (db : ExpenseDb) : Type 0 where
  done : (m db).0 ≡ ok tt
  expenses : (m db).1.expenses ≡ db.expenses
  categories : (m db).1.categories ≡ db.categories

attach_receipt-IsAside :
    (tenant id : ℕ) (key : String) (db : ExpenseDb) → IsAside (attach_receipt tenant id key) db
unfolding attach_receipt
attach_receipt-IsAside tenant id key db = elim (Bool-cases (str_eq key "")) [
  | inl e ↦ record { done = rw e refl; expenses = rw e refl; categories = rw e refl }
  | inr e ↦ record { done = rw e refl; expenses = rw e refl; categories = rw e refl }
]

drop_receipt-IsAside :
    (deletes : String → Bool) (key : String) (db : ExpenseDb)
    → IsAside (drop_receipt deletes key) db
unfolding drop_receipt
drop_receipt-IsAside deletes key db = elim (Bool-cases (not (str_eq key "") && deletes key)) [
  | inl e ↦ record { done = rw e refl; expenses = rw e refl; categories = rw e refl }
  | inr e ↦ record { done = rw e refl; expenses = rw e refl; categories = rw e refl }
]

replace_receipt-IsAside :
    (deletes : String → Bool) (tenant id : ℕ) (new old : String) (db : ExpenseDb)
    → IsAside (replace_receipt deletes tenant id new old) db
replace_receipt-IsAside deletes tenant id new old db =
    let a = attach_receipt-IsAside tenant id new db in
    let b = drop_receipt-IsAside deletes old (attach_receipt tenant id new db).1 in
    elim (Bool-cases (not (str_eq new "") && not (str_eq new old))) [
      | inl e ↦
          let both_done : ((attach_receipt tenant id new >> drop_receipt deletes old) db)
              ≡ (drop_receipt deletes old (attach_receipt tenant id new db).1) =
            rw a.done refl in
          record {
            done = rw e (rw both_done b.done);
            expenses = rw e (rw both_done (b.expenses ∙ a.expenses));
            categories = rw e (rw both_done (b.categories ∙ a.categories));
          }
      | inr e ↦ record { done = rw e refl; expenses = rw e refl; categories = rw e refl }
    ]

-- The total is at most a paisa off the sum of the amount and the tax, and the category exists.
abbrev pub IsSound : List ExpenseCategory → Expense → Type 0
IsSound cs e = IsNear e.total_amount (e.amount +ℤ e.gst_amount) × (is_known cs e.category_id ≡ true)

known_choice :
    (cs : List ExpenseCategory) (o : Option ℕ) (old : ℕ)
    → is_known_if cs o ≡ true
    → is_known cs old ≡ true
    → is_known cs (or_default o old) ≡ true
known_choice cs none old new known = known
known_choice cs (some c) old new known = new

module _ (column : Rounding) (laws : IsRounding column) (m : ℕ) (h : 0 < m) where
  new_expense-IsSound :
      (cs : List ExpenseCategory) (now id tenant user : ℕ) (dto : CreateExpenseDto)
      → is_known cs dto.category_id ≡ true
      → IsSound cs (new_expense column m now id tenant user dto)
  unfolding new_expense
  new_expense-IsSound cs now id tenant user dto known =
      (to_column-sum column laws m h dto.amount (or_default dto.gst_amount (pos 0)), known)

  edited_expense-IsSound :
      (cs : List ExpenseCategory) (dto : UpdateExpenseDto) (old e : Expense)
      → is_known_if cs dto.category_id ≡ true
      → IsSound cs e
      → IsSound cs (edited_expense column m dto old e)
  unfolding edited_expense
  edited_expense-IsSound cs dto old e new sound = (
    to_column-sum column laws m h (or_default dto.amount (old.amount *ℤ pos m))
        (or_default dto.gst_amount (old.gst_amount *ℤ pos m)),
    known_choice cs dto.category_id e.category_id new sound.1,
  )

  -- The expenses after a request that leaves the categories.
  module _ (db : ExpenseDb) (sound : All (IsSound db.categories) db.expenses) where
    pub create_expense-keeps :
        (now id tenant user : ℕ) (dto : CreateExpenseDto)
        → is_known db.categories dto.category_id ≡ true
        → let after = (create_expense column m now id tenant user dto db).1 in
          (after.categories ≡ db.categories) × All (IsSound db.categories) after.expenses
    unfolding create_expense
    create_expense-keeps now id tenant user dto known =
        let e = new_expense column m now id tenant user dto in
        let mid : ExpenseDb = record db { expenses = db.expenses ++ e ∷ [] } in
        let a = attach_receipt-IsAside tenant id (or_text dto.receipt_key "") mid in
        let new = new_expense-IsSound db.categories now id tenant user dto known in
        rw a.done (
          a.categories,
          rw a.expenses (All-append (IsSound db.categories) db.expenses (e ∷ []) sound (new, tt)),
        )

    pub update_expense-keeps :
        (deletes : String → Bool) (tenant id : ℕ) (dto : UpdateExpenseDto)
        → is_known_if db.categories dto.category_id ≡ true
        → let after = (update_expense column m deletes tenant id dto db).1 in
          (after.categories ≡ db.categories) × All (IsSound db.categories) after.expenses
    unfolding update_expense find_expense
    update_expense-keeps deletes tenant id dto known =
        elim (Option-cases
          (find_first (λ e. has_expense_id id e && e.tenant_id == tenant) db.expenses)) [
            | inl e ↦ rw e (refl, sound)
            | inr (old, e) ↦
                let mid : ExpenseDb = record db {
                  expenses =
                      update_where (has_expense_id id) (edited_expense column m dto old)
                        db.expenses;
                } in
                let a =
                  replace_receipt-IsAside deletes tenant id (or_text dto.receipt_key "")
                    (or_text old.receipt_key "") mid in
                rw e (
                  rw a.done (
                    a.categories,
                    rw a.expenses (
                        update_where-All (IsSound db.categories) (has_expense_id id)
                          (edited_expense column m dto old) db.expenses
                          (λ x _ s. edited_expense-IsSound db.categories dto old x known s) sound),
                  ))
          ]

module _ (db : ExpenseDb) (sound : All (IsSound db.categories) db.expenses) where
  pub remove_expense-keeps :
      (deletes : String → Bool) (tenant id : ℕ)
      → let after = (remove_expense deletes tenant id db).1 in
        (after.categories ≡ db.categories) × All (IsSound db.categories) after.expenses
  unfolding remove_expense find_expense
  remove_expense-keeps deletes tenant id =
      elim (Option-cases
        (find_first (λ e. has_expense_id id e && e.tenant_id == tenant) db.expenses)) [
          | inl e ↦ rw e (refl, sound)
          | inr (old, e) ↦
              let a = drop_receipt-IsAside deletes (or_text old.receipt_key "") db in
              rw e (
                rw a.done (
                  a.categories,
                  rw a.expenses (
                      find_many-All (IsSound db.categories) (λ x. not (has_expense_id id x))
                        db.expenses sound),
                ))
        ]
