-- ===== src/Double.antt =====
-- JavaScript's `number` arithmetic on amounts, where a service compares sums of doubles.
--
-- A double is taken as it comes: `add` may round, so that 1.1 + 2.2 is above 3.3, and nothing says
-- that a sum compares as the exact sum would. What is used is that a column `Decimal(10, 2)` comes
-- back from a double as it went in, that storing a sum of two columns gives the exact sum, and that
-- storing a double is monotone.
pub mod Exact
use biz_saathi.Prelude.{ℕ, ◌+◌, ◌<◌, ◌≡◌, Bool, true, false, ℤ, pos, pos_part, neg_part, ◌+ℤ◌, ◌≤ℤ◌}

pub record Double : Type 1 where
  pub Num : Type 0
  -- `Number(column)`
  pub number : ℤ → Num
  pub add : Num → Num → Num
  pub sub : Num → Num → Num
  pub gt : Num → Num → Bool
  -- `===`
  pub same : Num → Num → Bool
  -- storing into a column `Decimal(10, 2)`
  pub to_paise : Num → ℤ

-- What fits in a column `Decimal(10, 2)`.
abbrev pub InColumn : ℤ → Type 0
InColumn a = pos_part a + neg_part a < 10_000_000_000

pub record IsDouble (n : Double) : Type 0 where
  pub to_paise-number : (a : ℤ) → InColumn a → n.to_paise (n.number a) ≡ a
  pub to_paise-add :
      (a b : ℤ) → InColumn a → InColumn b → n.to_paise (n.add (n.number a) (n.number b)) ≡ a +ℤ b
  pub gt-false : (x : n.Num) (a : ℤ) → InColumn a → n.gt x (n.number a) ≡ false → n.to_paise x ≤ℤ a
  pub gt-true : (x : n.Num) (a : ℤ) → InColumn a → n.gt x (n.number a) ≡ true → a ≤ℤ n.to_paise x
  pub same-true : (x : n.Num) (a : ℤ) → InColumn a → n.same x (n.number a) ≡ true → n.to_paise x ≡ a
  -- At least 100 paise on top of no negative amount is above 0.
  pub add-pos :
      (a : ℤ) (x : n.Num)
      → InColumn a
      → pos 0 ≤ℤ a
      → n.gt (n.number (pos 100)) x ≡ false
      → n.gt (n.add (n.number a) x) (n.number (pos 0)) ≡ true
