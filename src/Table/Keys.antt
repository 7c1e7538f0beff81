-- ===== src/Table/Keys.antt =====
-- Rows that a key names: the key is unique, and an update at a key leaves the other rows.
use mathlib.Core.Option.{some-injective}
use biz_saathi.Prelude.{
  ℕ, ◌≡◌, ◌≢◌, refl, sym, ◌∙◌, Bool, true, false, some, List, [], ◌∷◌, ◌++◌, arith, ◌==◌, All,
  All-append, All-imp, ap, if◌then◌else◌, Bool-cases, inl, inr,
}
use biz_saathi.Table.{find_first, find_first-All, update_where, update_where-All}

module _ {ℓ} {A : Type ℓ} (key : A → ℕ) where
  abbrev pub DistinctKeys : List A → Type 0
  DistinctKeys [] = Unit
  DistinctKeys (x ∷ xs) = All (λ y. key y ≢ key x) xs × DistinctKeys xs

  abbrev pub named : ℕ → A → Bool
  named k x = key x == k

  -- Two queries that find rows of one key find one row.
  pub same_row :
      (p q : A → Bool) (rows : List A) {a b : A}
      → DistinctKeys rows
      → find_first p rows ≡ some a
      → find_first q rows ≡ some b
      → key a ≡ key b
      → a ≡ b
  same_row p q [] d ha hb e = cc
  same_row p q (x ∷ xs) {a} {b} d ha hb e = elim (Bool-cases (p x)) [
    | inl px ↦
        let is_a : x ≡ a = some-injective _ _ (rw px at ha) in
        elim (Bool-cases (q x)) [
          | inl qx ↦ sym is_a ∙ some-injective _ _ (rw qx at hb)
          | inr qx ↦
              let other : key b ≢ key x =
                find_first-All (λ y. key y ≢ key x) q xs d.0 (rw qx at hb) in
              absurd (other (sym e ∙ (rw is_a refl)))
        ]
    | inr px ↦
        let later : find_first p xs ≡ some a = rw px at ha in
        elim (Bool-cases (q x)) [
          | inl qx ↦
              let is_b : x ≡ b = some-injective _ _ (rw qx at hb) in
              let other : key a ≢ key x = find_first-All (λ y. key y ≢ key x) p xs d.0 later in
              absurd (other (e ∙ (rw is_b refl)))
          | inr qx ↦ same_row p q xs d.1 later (rw qx at hb) e
        ]
  ]

  pub find_first-update_other :
      (k j : ℕ) (f : A → A) (rows : List A)
      → ((x : A) → key (f x) ≡ key x)
      → j ≢ k
      → find_first (named j) (update_where (named k) f rows) ≡ find_first (named j) rows
  find_first-update_other k j f [] keep ne = refl
  find_first-update_other k j f (x ∷ xs) keep ne = elim (Bool-cases (named k x)) [
    | inl e ↦
        let old : named j x ≡ false = ground arith in
        let new : named j (f x) ≡ false = rw (keep x) old in
        rw e (rw (new, old) (find_first-update_other k j f xs keep ne))
    | inr e ↦ rw e (rw (find_first-update_other k j f xs keep ne))
  ]

  pub DistinctKeys-update :
      (k : ℕ) (f : A → A) (rows : List A)
      → ((x : A) → key (f x) ≡ key x)
      → DistinctKeys rows
      → DistinctKeys (update_where (named k) f rows)
  DistinctKeys-update k f [] keep d = tt
  DistinctKeys-update k f (x ∷ xs) keep d = elim (Bool-cases (named k x)) [
    | inl e ↦ (
      rw e (
          rw (keep x)
            (update_where-All (λ y. key y ≢ key x) (named k) f xs (λ y _ h. rw (keep y) h) d.0)),
      DistinctKeys-update k f xs keep d.1,
    )
    | inr e ↦ (
      rw e (update_where-All (λ y. key y ≢ key x) (named k) f xs (λ y _ h. rw (keep y) h) d.0),
      DistinctKeys-update k f xs keep d.1,
    )
  ]

  pub DistinctKeys-snoc :
      (rows : List A) (x : A)
      → All (λ y. key y ≢ key x) rows
      → DistinctKeys rows
      → DistinctKeys (rows ++ x ∷ [])
  DistinctKeys-snoc [] x fresh d = (tt, tt)
  DistinctKeys-snoc (y ∷ ys) x fresh d = (
    All-append (λ z. key z ≢ key y) ys (x ∷ []) d.0 ((λ e. fresh.0 (sym e)), tt),
    DistinctKeys-snoc ys x fresh.1 d.1,
  )

  pub find_first-snoc :
      (p : A → Bool) (rows : List A) (x : A) {a : A}
      → find_first p rows ≡ some a
      → find_first p (rows ++ x ∷ []) ≡ some a
  find_first-snoc p [] x h = cc
  find_first-snoc p (y ∷ ys) x h = elim (Bool-cases (p y)) [
    | inl e ↦ rw e (rw e at h)
    | inr e ↦ rw e (find_first-snoc p ys x (rw e at h))
  ]

  -- Every row of the key of a row that was found is that row.
  pub found_alone :
      (p : A → Bool) (rows : List A) {a : A}
      → DistinctKeys rows
      → find_first p rows ≡ some a
      → All (λ x. named (key a) x ≡ true → x ≡ a) rows
  found_alone p [] d h = tt
  found_alone p (x ∷ xs) {a} d h = elim (Bool-cases (p x)) [
    | inl px ↦
        let is_a : x ≡ a = some-injective _ _ (rw px at h) in
        (
          λ _. is_a,
          All-imp (λ y. key y ≢ key x) _
              (λ y ne same.
                absurd (ne (let k : key y ≡ key a = ground arith in k ∙ ap key (sym is_a))))
              xs d.0,
        )
    | inr px ↦
        let later : find_first p xs ≡ some a = rw px at h in
        let other : key a ≢ key x = find_first-All (λ y. key y ≢ key x) p xs d.0 later in
        (λ same. absurd (other (ground arith)), found_alone p xs d.1 later)
  ]

  -- A row is found after an update where it was found before.
  pub find_first-update :
      (k j : ℕ) (f : A → A) (rows : List A) {a : A}
      → ((x : A) → key (f x) ≡ key x)
      → find_first (named j) rows ≡ some a
      → find_first (named j) (update_where (named k) f rows) ≡ some (if named k a then f a else a)
  find_first-update k j f [] keep h = cc
  find_first-update k j f (x ∷ xs) {a} keep h = elim (Bool-cases (named j x)) [
    | inl e ↦
        let is_a : x ≡ a = some-injective _ _ (rw e at h) in
        elim (Bool-cases (named k x)) [
          | inl here ↦
              let new : named j (f x) ≡ true = rw (keep x) e in
              let also : named k a ≡ true = rw (← is_a) here in rw here (rw (new, also) (rw is_a))
          | inr other ↦
              let also : named k a ≡ false = rw (← is_a) other in rw other (rw (e, also) (rw is_a))
        ]
    | inr e ↦
        let later = find_first-update k j f xs keep (rw e at h) in
        elim (Bool-cases (named k x)) [
          | inl here ↦ let new : named j (f x) ≡ false = rw (keep x) e in rw here (rw new later)
          | inr other ↦ rw other (rw e later)
        ]
  ]
