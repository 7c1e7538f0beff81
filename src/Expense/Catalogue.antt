-- ===== src/Expense/Catalogue.antt =====
-- What the methods of category.service.ts keep of the categories.
use biz_saathi.Prelude.{
  ℕ, ◌≡◌, ◌≢◌, refl, ap, ◌∙◌, Bool, true, false, not, ◌&&◌, some, List, [], ◌∷◌, ◌++◌, arith, ltb,
  if◌then◌else◌, All, All-imp, Bool-cases, Option-cases, inl, inr,
}
use biz_saathi.Table.{
  find_first, find_first_sound, find_many, find_many-All, count_where, update_where,
}
use biz_saathi.Table.Keys.{DistinctKeys, DistinctKeys-snoc, DistinctKeys-update, found_alone}
use biz_saathi.Expense.{ExpenseCategory, Expense, ExpenseDb}
use biz_saathi.Expense.Categories.{
  CreateCategoryDto, UpdateCategoryDto, new_category, create_category, has_category_id, is_visible,
  find_category, edited_category, update_category, deactivated, is_filed, retire_category,
  remove_category,
}
use biz_saathi.Expense.Filing.{is_known, IsSound}

abbrev pub id_of : ExpenseCategory → ℕ
id_of c = c.id

abbrev pub is_system : ExpenseCategory → Bool
is_system c = c.is_default

known_append :
    (cs : List ExpenseCategory) (n : ExpenseCategory) (id : ℕ)
    → is_known cs id ≡ true
    → is_known (cs ++ n ∷ []) id ≡ true
known_append [] n id h = cc
known_append (c ∷ cs) n id h = elim (Bool-cases (has_category_id id c)) [
  | inl e ↦ rw e refl
  | inr e ↦ rw e (known_append cs n id (rw e at h))
]

module _ (id : ℕ) (f : ExpenseCategory → ExpenseCategory)
    (keep : (c : ExpenseCategory) → (f c).id ≡ c.id) where
  known_update :
      (cs : List ExpenseCategory) (k : ℕ)
      → is_known (update_where (has_category_id id) f cs) k ≡ is_known cs k
  known_update [] k = refl
  known_update (c ∷ cs) k = elim (Bool-cases (has_category_id id c)) [
    | inl e ↦ rw e (rw (keep c) (rw (known_update cs k) refl))
    | inr e ↦ rw e (rw (known_update cs k) refl)
  ]

  system_update :
      ((c : ExpenseCategory) → (f c).is_default ≡ c.is_default)
      → (cs : List ExpenseCategory)
      → All (λ c. has_category_id id c ≡ true → c.is_default ≡ false) cs
      → find_many is_system (update_where (has_category_id id) f cs) ≡ find_many is_system cs
  system_update same [] a = refl
  system_update same (c ∷ cs) a = elim (Bool-cases (has_category_id id c)) [
    | inl e ↦
        let own : c.is_default ≡ false = a.0 e in
        let new : (f c).is_default ≡ false = same c ∙ own in
        rw e (rw (new, own) (system_update same cs a.1))
    | inr e ↦ rw e (ap (λ l. if c.is_default then c ∷ l else l) (system_update same cs a.1))
  ]

system_append :
    (cs : List ExpenseCategory) (n : ExpenseCategory)
    → n.is_default ≡ false
    → find_many is_system (cs ++ n ∷ []) ≡ find_many is_system cs
system_append [] n e = rw e refl
system_append (c ∷ cs) n e = ap (λ l. if c.is_default then c ∷ l else l) (system_append cs n e)

-- The categories but for one.
module _ (id : ℕ) where
  abbrev others : List ExpenseCategory → List ExpenseCategory
  others cs = find_many (λ c. not (has_category_id id c)) cs

  known_others :
      (cs : List ExpenseCategory) (k : ℕ)
      → k ≢ id
      → is_known cs k ≡ true
      → is_known (others cs) k ≡ true
  known_others [] k ne h = cc
  known_others (c ∷ cs) k ne h = elim (Bool-cases (has_category_id id c)) [
    | inl e ↦
        let away : has_category_id k c ≡ false = ground (arith, e, ne) in
        rw e (known_others cs k ne (rw away at h))
    | inr e ↦ rw e (elim (Bool-cases (has_category_id k c)) [
      | inl d ↦ rw d refl
      | inr d ↦ rw d (known_others cs k ne (rw d at h))
    ])
  ]

  system_others :
      (cs : List ExpenseCategory)
      → All (λ c. has_category_id id c ≡ true → c.is_default ≡ false) cs
      → find_many is_system (others cs) ≡ find_many is_system cs
  system_others [] a = refl
  system_others (c ∷ cs) a = elim (Bool-cases (has_category_id id c)) [
    | inl e ↦ let own = a.0 e in rw e (rw own (system_others cs a.1))
    | inr e ↦ rw e (ap (λ l. if c.is_default then c ∷ l else l) (system_others cs a.1))
  ]

  distinct_others :
      (cs : List ExpenseCategory) → DistinctKeys id_of cs → DistinctKeys id_of (others cs)
  distinct_others [] d = tt
  distinct_others (c ∷ cs) d = elim (Bool-cases (has_category_id id c)) [
    | inl e ↦ rw e (distinct_others cs d.1)
    | inr e ↦ rw e (
      find_many-All (λ x. id_of x ≢ id_of c) (λ x. not (has_category_id id x)) cs d.0,
      distinct_others cs d.1,
    )
  ]

unused :
    (id : ℕ) (es : List Expense)
    → ltb 0 (count_where (is_filed id) es) ≡ false
    → All (λ (e : Expense). e.category_id ≢ id) es
unused id [] h = tt
unused id (e ∷ es) h = elim (Bool-cases (is_filed id e)) [
  | inl k ↦ let h' = rw k at h in absurd (ground (arith, h'))
  | inr k ↦ (ground (arith, k), unused id es (rw k at h))
]

-- The state after a request about a category.
pub record IsKept (db after : ExpenseDb) : Type 0 where
  pub sound : All (IsSound after.categories) after.expenses
  pub distinct : DistinctKeys id_of after.categories
  pub system : find_many is_system after.categories ≡ find_many is_system db.categories

module _ (db : ExpenseDb) (sound : All (IsSound db.categories) db.expenses)
    (distinct : DistinctKeys id_of db.categories) where
  same_IsKept : IsKept db db
  same_IsKept = record { sound = sound; distinct = distinct; system = refl }

  pub create_category-IsKept :
      (id tenant : ℕ) (dto : CreateCategoryDto)
      → All (λ (c : ExpenseCategory). c.id ≢ id) db.categories
      → IsKept db (create_category id tenant dto db).1
  unfolding create_category
  create_category-IsKept id tenant dto fresh =
      let n = new_category id tenant dto in
      record {
        sound =
            All-imp _ _ (λ e s. (s.0, known_append db.categories n e.category_id s.1)) db.expenses
              sound;
        distinct = DistinctKeys-snoc id_of db.categories n fresh distinct;
        system = system_append db.categories n refl;
      }

  -- A write to a category that was found and is no default.
  module _ (tenant id : ℕ) {c : ExpenseCategory}
      (found : find_first
          (λ x. has_category_id id x && is_visible tenant x.tenant_id x.is_default)
          db.categories
        ≡ some c)
      (own : c.is_default ≡ false) where
    none_system : All (λ x. has_category_id id x ≡ true → x.is_default ≡ false) db.categories
    none_system =
        let here =
          find_first_sound (λ x. has_category_id id x && is_visible tenant x.tenant_id x.is_default)
            db.categories found in
        let named_id : c.id ≡ id = ground (arith, here) in
        All-imp _ _ (λ x only h. let e : x ≡ c = only (rw named_id h) in rw e own) db.categories
          (found_alone id_of
            (λ x. has_category_id id x && is_visible tenant x.tenant_id x.is_default) db.categories
            distinct found)

    rewrite_IsKept :
        (f : ExpenseCategory → ExpenseCategory)
        → ((x : ExpenseCategory) → (f x).id ≡ x.id)
        → ((x : ExpenseCategory) → (f x).is_default ≡ x.is_default)
        → IsKept db (record db { categories = update_where (has_category_id id) f db.categories })
    rewrite_IsKept f keep same = record {
      sound =
          All-imp _ _ (λ e s. (s.0, known_update id f keep db.categories e.category_id ∙ s.1))
            db.expenses sound;
      distinct = DistinctKeys-update id_of id f db.categories keep distinct;
      system = system_update id f keep same db.categories none_system;
    }

    retire_IsKept :
        (used : Bool) (row : ExpenseCategory)
        → ltb 0 (count_where (is_filed id) db.expenses) ≡ used
        → IsKept db (retire_category used id row db).1
    unfolding retire_category
    retire_IsKept true row h = rewrite_IsKept deactivated (λ x. refl) (λ x. refl)
    retire_IsKept false row h = record {
      sound = keep_sound db.expenses sound (unused id db.expenses h);
      distinct = distinct_others id db.categories distinct;
      system = system_others id db.categories none_system;
    }
      where
        keep_sound :
            (es : List Expense)
            → All (IsSound db.categories) es
            → All (λ (e : Expense). e.category_id ≢ id) es
            → All (IsSound (others id db.categories)) es
        keep_sound [] s u = tt
        keep_sound (e ∷ es) s u =
            ((s.0.0, known_others id db.categories e.category_id u.0 s.0.1), keep_sound es s.1 u.1)

  pub update_category-IsKept :
      (tenant id : ℕ) (dto : UpdateCategoryDto) → IsKept db (update_category tenant id dto db).1
  unfolding update_category find_category
  update_category-IsKept tenant id dto =
      elim (Option-cases (
        find_first (λ x. has_category_id id x && is_visible tenant x.tenant_id x.is_default)
          db.categories)) [
            | inl e ↦ rw e same_IsKept
            | inr (c, e) ↦ elim (Bool-cases c.is_default) [
              | inl d ↦ rw e (rw d same_IsKept)
              | inr d ↦ rw e (
                  rw d (rewrite_IsKept tenant id e d (edited_category dto) (λ x. refl) (λ x. refl)))
            ]
          ]

  pub remove_category-IsKept : (tenant id : ℕ) → IsKept db (remove_category tenant id db).1
  unfolding remove_category find_category
  remove_category-IsKept tenant id =
      elim (Option-cases (
        find_first (λ x. has_category_id id x && is_visible tenant x.tenant_id x.is_default)
          db.categories)) [
            | inl e ↦ rw e same_IsKept
            | inr (c, e) ↦ elim (Bool-cases c.is_default) [
              | inl d ↦ rw e (rw d same_IsKept)
              | inr d ↦ rw e (rw d (retire_IsKept tenant id e d _ _ refl))
            ]
          ]
