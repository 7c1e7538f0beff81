-- ===== src/Invoice/Reports/Gstr1.antt =====
-- The groups of `getGstr1`.
use Prim.Native.String.{String}
use text.Mathlib.Text.{◌==◌ as str_eq}
use text.Mathlib.TextEquality.{eq_iff}
use text.Mathlib.TextPositions.{eq_refl}
use mathlib.Core.List.{foldl}
use biz_saathi.Prelude.{
  ℕ, true, ◌&&◌, Option, none, some, Option-cases, ◌≡◌, refl, sym, ◌∙◌, ap, false, List, [], ◌∷◌,
  ◌++◌, Bool-cases, inl, inr, if◌then◌else◌,
}
use biz_saathi.Table.{find_many}
use biz_saathi.Records.{Customer, Invoice, Db}
use biz_saathi.Invoice.Draft.{find_customer}
use biz_saathi.Invoice.Reports.{is_reported, gstin_of, push_b2b, add_b2b, get_gstr1}
use biz_saathi.Table.Filtered.{Filtered, find_many-Filtered, find_many-both}
use biz_saathi.Invoice.Reports.Months.{IsLastDay, IsReported, is_reported-IsReported, unreported}

-- `b2b[gstin]`, and no invoices where the key is missing.
abbrev pub group_of : String → List (String × List Invoice) → List Invoice
group_of gstin [] = []
group_of gstin ((key, group) ∷ rest) = if str_eq key gstin then group else group_of gstin rest

append_assoc : (xs ys zs : List Invoice) → (xs ++ ys) ++ zs ≡ xs ++ (ys ++ zs)
append_assoc [] ys zs = refl
append_assoc (x ∷ xs) ys zs = rw (append_assoc xs ys zs) refl

append_nil : (xs : List Invoice) → xs ++ [] ≡ xs
append_nil [] = refl
append_nil (x ∷ xs) = rw (append_nil xs) refl

push_same :
    (g : String) (inv : Invoice) (b2b : List (String × List Invoice))
    → group_of g (push_b2b g inv b2b) ≡ group_of g b2b ++ inv ∷ []
unfolding push_b2b
push_same g inv [] = rw (eq_refl g) refl
push_same g inv ((key, group) ∷ rest) = elim (Bool-cases (str_eq key g)) [
  | inl e ↦ rw e (rw e refl)
  | inr e ↦ rw e (rw e (push_same g inv rest))
]

push_other :
    (k g : String) (inv : Invoice) (b2b : List (String × List Invoice))
    → str_eq k g ≡ false
    → group_of g (push_b2b k inv b2b) ≡ group_of g b2b
unfolding push_b2b
push_other k g inv [] ne = rw ne refl
push_other k g inv ((key, group) ∷ rest) ne = elim (Bool-cases (str_eq key k)) [
  | inl e ↦
      let same : key ≡ k = (eq_iff key k).0 e in
      let away : str_eq key g ≡ false = rw same ne in rw e (rw away refl)
  | inr e ↦ rw e (elim (Bool-cases (str_eq key g)) [
    | inl at ↦ rw at refl
    | inr off ↦ rw off (push_other k g inv rest ne)
  ])
]

module _ (gstin : Invoice → String) (g : String) (real : str_eq g "" ≡ false) where
  add_b2b-group :
      (inv : Invoice) (b2b : List (String × List Invoice))
      → group_of g (add_b2b gstin b2b inv)
        ≡ group_of g b2b ++ find_many (λ i. str_eq (gstin i) g) (inv ∷ [])
  unfolding add_b2b
  add_b2b-group inv b2b = elim (Bool-cases (str_eq (gstin inv) g)) [
    | inl e ↦
        let same : gstin inv ≡ g = (eq_iff (gstin inv) g).0 e in
        let there : str_eq (gstin inv) "" ≡ false = rw same real in
        rw there (rw e (rw same (push_same g inv b2b)))
    | inr e ↦ elim (Bool-cases (str_eq (gstin inv) "")) [
      | inl empty ↦ rw empty (rw e (sym (append_nil (group_of g b2b))))
      | inr there ↦
          rw there (rw e (push_other (gstin inv) g inv b2b e ∙ sym (append_nil (group_of g b2b))))
    ]
  ]

  one_more :
      (inv : Invoice) (invs : List Invoice)
      → find_many (λ i. str_eq (gstin i) g) (inv ∷ []) ++ find_many (λ i. str_eq (gstin i) g) invs
        ≡ find_many (λ i. str_eq (gstin i) g) (inv ∷ invs)
  one_more inv invs = elim (Bool-cases (str_eq (gstin inv) g)) [
    | inl e ↦ rw e refl
    | inr e ↦ rw e refl
  ]

  add_b2b-groups :
      (invs : List Invoice) (b2b : List (String × List Invoice))
      → group_of g (foldl (add_b2b gstin) b2b invs)
        ≡ group_of g b2b ++ find_many (λ i. str_eq (gstin i) g) invs
  add_b2b-groups [] b2b = sym (append_nil (group_of g b2b))
  add_b2b-groups (inv ∷ invs) b2b =
      add_b2b-groups invs (add_b2b gstin b2b inv)
      ∙ ap (λ l. l ++ find_many (λ i. str_eq (gstin i) g) invs) (add_b2b-group inv b2b)
      ∙ append_assoc (group_of g b2b) _ _
      ∙ ap (λ l. group_of g b2b ++ l) (one_more inv invs)

-- Of the month, and of a customer with the GSTIN.
pub record IsOf (gstin : String) (tenant year month last : ℕ) (db : Db) (inv : Invoice)
    : Type 0 where
  pub reported : IsReported tenant year month last inv
  pub buyer : Customer
  pub bought : find_customer inv.customer_id db ≡ some buyer
  pub numbered : buyer.gstin ≡ some gstin

gstin_of-some :
    (c : Option Customer) (g : String)
    → str_eq g "" ≡ false
    → gstin_of c ≡ g
    → (buyer : Customer) × (c ≡ some buyer) × (buyer.gstin ≡ some g)
gstin_of-some none g real h = let k = rw (sym h) at real in cc
gstin_of-some (some c) g real h = elim (Option-cases c.gstin) [
  | inl e ↦ let k : "" ≡ g = rw e at h in let k' = rw (sym k) at real in cc
  | inr (t, e) ↦ elim (Bool-cases (str_eq t "")) [
    | inl empty ↦ let k : "" ≡ g = rw (e, empty) at h in let k' = rw (sym k) at real in cc
    | inr full ↦ let k : t ≡ g = rw (e, full) at h in (c, refl, e ∙ ap (λ x. some x) k)
  ]
]

module _ (tenant year month last : ℕ) (db : Db) (g : String) (calendar : IsLastDay year month last)
    (real : str_eq g "" ≡ false) where
  abbrev gstin_at : Invoice → String
  gstin_at inv = gstin_of (find_customer inv.customer_id db)

  is_of :
      (inv : Invoice)
      → (is_reported tenant year month inv && str_eq (gstin_at inv) g) ≡ true
      → IsOf g tenant year month last db inv
  is_of inv h = elim (Bool-cases (is_reported tenant year month inv)) [
    | inr e ↦ let k = rw e at h in cc
    | inl e ↦
        let same : gstin_at inv ≡ g = (eq_iff (gstin_at inv) g).0 (rw e at h) in
        let (c, bought, numbered) = gstin_of-some (find_customer inv.customer_id db) g real same in
        record {
          reported = is_reported-IsReported tenant year month last calendar inv e;
          buyer = c;
          bought = bought;
          numbered = numbered;
        }
  ]

  not-IsOf :
      (inv : Invoice)
      → (is_reported tenant year month inv && str_eq (gstin_at inv) g) ≡ false
      → ¬ IsOf g tenant year month last db inv
  not-IsOf inv h o = elim (Bool-cases (is_reported tenant year month inv)) [
    | inr e ↦ unreported tenant year month last calendar inv e o.reported
    | inl e ↦
        let bought = o.bought in
        let numbered = o.numbered in
        let other = rw (e, bought, numbered, real) at h in let k = rw (eq_refl g) at other in cc
  ]

  -- Under each GSTIN the report has, in their order, exactly the tenant's invoices that are sent,
  -- partially or fully paid, dated in the month, up to the midnight at which its last day begins,
  -- and of a customer with that GSTIN.
  pub gstr1_groups :
      Filtered
        (IsOf g tenant year month last db)
        db.invoices
        (group_of g (get_gstr1 tenant year month db))
  unfolding get_gstr1
  gstr1_groups =
      let grouped : group_of g (get_gstr1 tenant year month db)
          ≡ find_many (λ inv. is_reported tenant year month inv && str_eq (gstin_at inv) g)
              db.invoices =
        add_b2b-groups gstin_at g real (find_many (is_reported tenant year month) db.invoices) []
        ∙ find_many-both (λ i. str_eq (gstin_at i) g) (is_reported tenant year month) db.invoices in
      rw grouped (find_many-Filtered _ _ is_of not-IsOf db.invoices)
