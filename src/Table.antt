-- ===== src/Table.antt =====
-- The queries that the services make of a table: `findFirst`, `findMany`, `count`, `update` at an
-- id, `create`.
pub mod Keys
pub mod Filtered
use mathlib.Core.Path.{subst}
use mathlib.Core.Option.{some-injective}
use biz_saathi.Prelude.{
  ℕ, ◌≡◌, Bool, true, false, Option, none, some, List, [], ◌∷◌, arith, if◌then◌else◌, length, All,
  Bool-cases, Option-cases, inl, inr,
}

module _ {ℓ} {A : Type ℓ} where
  abbrev pub find_first : (A → Bool) → List A → Option A
  find_first p [] = none
  find_first p (x ∷ xs) = if p x then some x else find_first p xs

  -- `orderBy: { createdAt: 'desc' }`: the last row that passes.
  abbrev pub find_last : (A → Bool) → List A → Option A
  find_last p [] = none
  find_last p (x ∷ xs) = elim (find_last p xs) [
    | some y ↦ some y
    | none ↦ if p x then some x else none
  ]

  abbrev pub find_many : (A → Bool) → List A → List A
  find_many p [] = []
  find_many p (x ∷ xs) = let rest = find_many p xs in if p x then x ∷ rest else rest

  abbrev pub count_where : (A → Bool) → List A → ℕ
  count_where p xs = length (find_many p xs)

  abbrev pub update_where : (A → Bool) → (A → A) → List A → List A
  update_where p f [] = []
  update_where p f (x ∷ xs) = (if p x then f x else x) ∷ update_where p f xs

  -- The row that is found passes the test, and has whatever all rows have.
  pub find_first_sound :
      (p : A → Bool) (xs : List A) {x : A} → find_first p xs ≡ some x → p x ≡ true
  find_first_sound p [] h = cc
  find_first_sound p (y ∷ xs) h = elim (Bool-cases (p y)) [
    | inl e ↦ ground (arith, e)
    | inr e ↦ find_first_sound p xs (rw e at h)
  ]

  pub find_first-All {κ} :
      (P : A → Type κ) (p : A → Bool) (xs : List A) {x : A}
      → All P xs
      → find_first p xs ≡ some x
      → P x
  find_first-All P p [] a h = cc
  find_first-All P p (y ∷ xs) {x} a h = elim (Bool-cases (p y)) [
    | inl e ↦ subst P (some-injective _ _ (rw e at h)) a.0
    | inr e ↦ find_first-All P p xs a.1 (rw e at h)
  ]

  -- An update keeps what its function keeps on the rows that it changes.
  pub update_where-All {κ} :
      (P : A → Type κ) (p : A → Bool) (f : A → A) (xs : List A)
      → ((x : A) → p x ≡ true → P x → P (f x))
      → All P xs
      → All P (update_where p f xs)
  update_where-All P p f [] keep a = tt
  update_where-All P p f (x ∷ xs) keep a = elim (Bool-cases (p x)) [
    | inl e ↦ (rw e (keep x e a.0), update_where-All P p f xs keep a.1)
    | inr e ↦ (rw e a.0, update_where-All P p f xs keep a.1)
  ]

  -- Nothing found in a list, nothing in its parts; and a row found before nothing.
  pub find_last-none :
      (p : A → Bool) (x : A) (xs : List A)
      → find_last p (x ∷ xs) ≡ none
      → (find_last p xs ≡ none) × (p x ≡ false)
  find_last-none p x xs h = elim (Option-cases (find_last p xs)) [
    | inr (y, e) ↦ let k = rw e at h in cc
    | inl e ↦ elim (Bool-cases (p x)) [
      | inl here ↦ let k = rw (e, here) at h in cc
      | inr other ↦ (e, other)
    ]
  ]

  pub find_last-here :
      (p : A → Bool) (x : A) (xs : List A) {y : A}
      → find_last p xs ≡ none
      → find_last p (x ∷ xs) ≡ some y
      → (p x ≡ true) × (x ≡ y)
  find_last-here p x xs e h = elim (Bool-cases (p x)) [
    | inl here ↦ (here, some-injective _ _ (rw (e, here) at h))
    | inr other ↦ let k = rw (e, other) at h in cc
  ]

  -- What holds of every row holds of those that pass.
  pub find_many-All {κ} :
      (P : A → Type κ) (p : A → Bool) (xs : List A) → All P xs → All P (find_many p xs)
  find_many-All P p [] a = tt
  find_many-All P p (x ∷ xs) a = elim (Bool-cases (p x)) [
    | inl e ↦ rw e (a.0, find_many-All P p xs a.1)
    | inr e ↦ rw e (find_many-All P p xs a.1)
  ]
