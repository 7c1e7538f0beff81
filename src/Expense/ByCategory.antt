-- ===== src/Expense/ByCategory.antt =====
-- `getExpensesByCategory` against the expenses, in any arithmetic.
use mathlib.Core.List.{foldl}
use biz_saathi.Prelude.{
  ℕ, ◌≤◌, ◌+◌, length, ◌≡◌, refl, sym, ap, ◌∙◌, true, false, List, [], ◌∷◌, map, arith, ◌==◌,
  ==_refl, All, Bool-cases, inl, inr, pos,
}
use biz_saathi.Double.{Double}
use biz_saathi.Table.{find_many}
use biz_saathi.Table.Filtered.{Filtered, find_many-Filtered}
use biz_saathi.Expense.{ExpenseCategory, Expense, ExpenseDb}
use biz_saathi.Expense.Analytics.{
  ReportPeriod, spent, CategoryTotal, add_expense, insert_total, sort_totals,
  get_expenses_by_category,
}

-- Of the tenant, in the period.
pub record IsSpent (tenant : ℕ) (period : ReportPeriod) (e : Expense) : Type 0 where
  pub own : e.tenant_id ≡ tenant
  pub within : period.of_expense e.expense_date ≡ true

spent-IsSpent :
    (tenant : ℕ) (period : ReportPeriod) (e : Expense)
    → spent tenant period e ≡ true
    → IsSpent tenant period e
spent-IsSpent tenant period e h = record { own = ground (arith, h); within = ground (arith, h) }

unspent :
    (tenant : ℕ) (period : ReportPeriod) (e : Expense)
    → spent tenant period e ≡ false
    → ¬ IsSpent tenant period e
unspent tenant period e h s =
    let own = s.own in let within = s.within in ground (arith, h, own, within)

==_eq : (a b : ℕ) → (a == b) ≡ true → a ≡ b
==_eq a b h = ground (arith, h)

==_apart : (a b : ℕ) → (a == b) ≡ false → ¬ (a ≡ b)
==_apart a b h e = ground (arith, h, e)

module _ (n : Double) where
  open n use {Num, number, add}

  -- The total of the first expense, and then one after the other; nothing without expenses.
  abbrev pub total_for : List Expense → List Num
  total_for [] = []
  total_for (e ∷ es) =
      foldl (λ sum (x : Expense). add sum (number x.total_amount)) (number e.total_amount) es ∷ []

  abbrev totals_of : List (CategoryTotal n) → List Num
  totals_of ts = map (λ (t : CategoryTotal n). t.total) ts

  module _ (cs : List ExpenseCategory) (c : ℕ) where
    abbrev at_category : List (CategoryTotal n) → List (CategoryTotal n)
    at_category ts = find_many (λ t. t.category_id == c) ts

    abbrev of_category : List Expense → List Expense
    of_category es = find_many (λ e. e.category_id == c) es

    add_expense-at :
        (ts : List (CategoryTotal n)) (e : Expense)
        → e.category_id ≡ c
        → at_category (add_expense n cs ts e) ≡ add_expense n cs (at_category ts) e
    unfolding add_expense
    add_expense-at [] e same =
        let k : (e.category_id == c) ≡ true = rw same (==_refl c) in rw k refl
    add_expense-at (t ∷ ts) e same = elim (Bool-cases (t.category_id == c)) [
      | inl h ↦ let k : (t.category_id == e.category_id) ≡ true = rw same h in rw (k, h) (rw k refl)
      | inr h ↦
          let k : (t.category_id == e.category_id) ≡ false = rw same h in
          rw (k, h) (add_expense-at ts e same)
    ]

    add_expense-other :
        (ts : List (CategoryTotal n)) (e : Expense)
        → (e.category_id == c) ≡ false
        → at_category (add_expense n cs ts e) ≡ at_category ts
    unfolding add_expense
    add_expense-other [] e other = rw other refl
    add_expense-other (t ∷ ts) e other = elim (Bool-cases (t.category_id == e.category_id)) [
      | inl h ↦
          let same : t.category_id ≡ e.category_id = ==_eq t.category_id e.category_id h in
          let k : (t.category_id == c) ≡ false = rw same other in rw h (rw k refl)
      | inr h ↦ elim (Bool-cases (t.category_id == c)) [
        | inl k ↦ rw h (rw k (ap (λ l. t ∷ l) (add_expense-other ts e other)))
        | inr k ↦ rw h (rw k (add_expense-other ts e other))
      ]
    ]

    add_expenses-at :
        (es : List Expense) (ts : List (CategoryTotal n))
        → at_category (foldl (add_expense n cs) ts es)
          ≡ foldl (add_expense n cs) (at_category ts) (of_category es)
    add_expenses-at [] ts = refl
    add_expenses-at (e ∷ es) ts = elim (Bool-cases (e.category_id == c)) [
      | inl h ↦
          let one = add_expense-at ts e (==_eq e.category_id c h) in
          rw h (
            add_expenses-at es (add_expense n cs ts e)
            ∙ ap (λ l. foldl (add_expense n cs) l (of_category es)) one)
      | inr h ↦
          let one = add_expense-other ts e h in
          rw h (
            add_expenses-at es (add_expense n cs ts e)
            ∙ ap (λ l. foldl (add_expense n cs) l (of_category es)) one)
    ]

    of_category-All :
        (es : List Expense) → All (λ (e : Expense). e.category_id ≡ c) (of_category es)
    of_category-All [] = tt
    of_category-All (e ∷ es) = elim (Bool-cases (e.category_id == c)) [
      | inl h ↦ rw h (==_eq e.category_id c h, of_category-All es)
      | inr h ↦ rw h (of_category-All es)
    ]

    -- One entry takes all the expenses of its category.
    one_entry :
        (es : List Expense) (t : CategoryTotal n)
        → t.category_id ≡ c
        → All (λ (e : Expense). e.category_id ≡ c) es
        → totals_of (foldl (add_expense n cs) (t ∷ []) es)
          ≡ foldl (λ sum (x : Expense). add sum (number x.total_amount)) t.total es ∷ []
    unfolding add_expense
    one_entry [] t e a = refl
    one_entry (x ∷ es) t e a =
        let at : (t.category_id == x.category_id) ≡ true = rw (e, a.0) (==_refl c) in
        rw at (one_entry es (record t { total = add t.total (number x.total_amount) }) e a.1)

    from_nothing :
        (es : List Expense)
        → All (λ (e : Expense). e.category_id ≡ c) es
        → totals_of (foldl (add_expense n cs) [] es) ≡ total_for es
    unfolding add_expense
    from_nothing [] a = refl
    from_nothing (e ∷ es) a = one_entry es _ a.0 a.1

    insert-other :
        (x : CategoryTotal n) (xs : List (CategoryTotal n))
        → (x.category_id == c) ≡ false
        → at_category (insert_total n x xs) ≡ at_category xs
    insert-other x [] h = rw h refl
    insert-other x (y ∷ ys) h = elim (Bool-cases (n.gt (n.sub y.total x.total) (number (pos 0)))) [
      | inr e ↦ rw e (rw h refl)
      | inl e ↦ rw e (elim (Bool-cases (y.category_id == c)) [
        | inl k ↦ rw k (rw (insert-other x ys h) refl)
        | inr k ↦ rw k (insert-other x ys h)
      ])
    ]

    insert-first :
        (x : CategoryTotal n) (xs : List (CategoryTotal n))
        → (x.category_id == c) ≡ true
        → at_category xs ≡ []
        → at_category (insert_total n x xs) ≡ x ∷ []
    insert-first x [] h none = rw h refl
    insert-first x (y ∷ ys) h none =
        elim (Bool-cases (n.gt (n.sub y.total x.total) (number (pos 0)))) [
          | inr e ↦ rw e (rw h (rw none refl))
          | inl e ↦ rw e (elim (Bool-cases (y.category_id == c)) [
            | inl k ↦ let z = rw k at none in cc
            | inr k ↦ rw k (insert-first x ys h (rw k at none))
          ])
        ]

    nothing_else : (xs : List (CategoryTotal n)) → length xs + 1 ≤ 1 → xs ≡ []
    nothing_else [] h = refl
    nothing_else (x ∷ xs) h = absurd (ground (arith, h))

    -- Sorting keeps a single entry.
    sort-at :
        (ts : List (CategoryTotal n))
        → length (at_category ts) ≤ 1
        → at_category (sort_totals n ts) ≡ at_category ts
    unfolding sort_totals
    sort-at [] h = refl
    sort-at (x ∷ xs) h = elim (Bool-cases (x.category_id == c)) [
      | inl k ↦
          let h' : length (at_category xs) + 1 ≤ 1 = let z = rw k at h in omega (arith, z) in
          let rest = nothing_else (at_category xs) h' in
          let sorted = sort-at xs (omega (arith, h')) ∙ rest in
          rw k (insert-first x (sort_totals n xs) k sorted ∙ ap (λ l. x ∷ l) (sym rest))
      | inr k ↦ rw k (insert-other x (sort_totals n xs) k ∙ sort-at xs (rw k at h))
    ]

    length-totals : (ts : List (CategoryTotal n)) → length (totals_of ts) ≡ length ts
    length-totals [] = refl
    length-totals (t ∷ ts) = rw (length-totals ts) refl

    length-total_for : (es : List Expense) → length (total_for es) ≤ 1
    length-total_for [] = ground arith
    length-total_for (e ∷ es) = ground arith

  -- In any arithmetic, over exactly the tenant's expenses in the period: a category in which there is
  -- such an expense has one entry, whose total is the total of its first expense and then those of the
  -- others added one after the other, in their order; a category without one has no entry.
  pub by_category_adds_up :
      (tenant : ℕ) (period : ReportPeriod) (db : ExpenseDb) (c : ℕ)
      → let totals = get_expenses_by_category n tenant period db in
        (es : List Expense) × Filtered (IsSpent tenant period) db.expenses es
        × (filed : List Expense) × Filtered (λ (e : Expense). e.category_id ≡ c) es filed
        × (entries : List (CategoryTotal n)) × Filtered
            (λ (t : CategoryTotal n). t.category_id ≡ c)
            totals
            entries
        × (map (λ (t : CategoryTotal n). t.total) entries ≡ total_for filed)
  unfolding get_expenses_by_category
  by_category_adds_up tenant period db c =
      let cs = db.categories in
      let es = find_many (spent tenant period) db.expenses in
      let filed = of_category cs c es in
      let totals = foldl (add_expense n cs) [] es in
      let summed : totals_of (at_category cs c totals) ≡ total_for filed =
        ap totals_of (add_expenses-at cs c es [])
        ∙ from_nothing cs c filed (of_category-All cs c es) in
      let one : length (at_category cs c totals) ≤ 1 =
        let a = length-totals cs c (at_category cs c totals) in
        let b = ap length summed in let k = length-total_for cs c filed in omega (arith, a, b, k) in
      (
        es,
        find_many-Filtered _ (spent tenant period) (spent-IsSpent tenant period)
            (unspent tenant period) db.expenses,
        filed,
        find_many-Filtered _ (λ e. e.category_id == c) (λ e. ==_eq e.category_id c)
            (λ e. ==_apart e.category_id c) es,
        at_category cs c (sort_totals n totals),
        find_many-Filtered _ (λ t. t.category_id == c) (λ t. ==_eq t.category_id c)
            (λ t. ==_apart t.category_id c) (sort_totals n totals),
        ap totals_of (sort-at cs c totals one) ∙ summed,
      )
