-- ===== src/Table/Filtered.antt =====
-- What `findMany` gives, by a relation: exactly the rows that have a property, in their order.
use biz_saathi.Prelude.{◌≡◌, refl, Bool, true, false, ◌&&◌, List, [], ◌∷◌, Bool-cases, inl, inr}
use biz_saathi.Table.{find_many}

module _ {ℓ} {A : Type ℓ} where
  pub data Filtered (P : A → Type 0) : List A → List A → Type ℓ where
    ended : Filtered P [] []
    kept : {x : A} {xs ys : List A} → P x → Filtered P xs ys → Filtered P (x ∷ xs) (x ∷ ys)
    dropped : {x : A} {xs ys : List A} → ¬ P x → Filtered P xs ys → Filtered P (x ∷ xs) ys

  pub find_many-Filtered :
      (P : A → Type 0) (p : A → Bool)
      → ((x : A) → p x ≡ true → P x)
      → ((x : A) → p x ≡ false → ¬ P x)
      → (xs : List A) → Filtered P xs (find_many p xs)
  find_many-Filtered P p sound complete [] = ended
  find_many-Filtered P p sound complete (x ∷ xs) = elim (Bool-cases (p x)) [
    | inl e ↦ rw e (kept (sound x e) (find_many-Filtered P p sound complete xs))
    | inr e ↦ rw e (dropped (complete x e) (find_many-Filtered P p sound complete xs))
  ]

  -- Two tests one after the other.
  pub find_many-both :
      (p q : A → Bool) (xs : List A) → find_many p (find_many q xs) ≡ find_many (λ x. q x && p x) xs
  find_many-both p q [] = refl
  find_many-both p q (x ∷ xs) = elim (Bool-cases (q x)) [
    | inr e ↦ rw e (find_many-both p q xs)
    | inl e ↦ rw e (elim (Bool-cases (p x)) [
      | inl k ↦ rw k (rw (find_many-both p q xs) refl)
      | inr k ↦ rw k (find_many-both p q xs)
    ])
  ]
