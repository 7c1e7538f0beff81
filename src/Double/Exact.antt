-- ===== src/Double/Exact.antt =====
-- Arithmetic that never rounds.
use biz_saathi.Prelude.{refl, arith, ℤ, ◌+ℤ◌, ◌-ℤ◌, ltb_ℤ, eqb_ℤ, eq_of_parts, +ℤ_parts}
use biz_saathi.Double.{Double, IsDouble}

abbrev pub exact : Double
exact = record {
  Num = ℤ;
  number = λ a. a;
  add = ◌+ℤ◌;
  sub = ◌-ℤ◌;
  gt = λ a b. ltb_ℤ b a;
  same = eqb_ℤ;
  to_paise = λ a. a;
}

pub exact-IsDouble : IsDouble exact
exact-IsDouble = record {
  to_paise-number = λ a _. refl;
  to_paise-add = λ a b _ _. refl;
  gt-false = λ x a _ h. ground arith;
  gt-true = λ x a _ h. ground arith;
  same-true = λ x a _ h. ground (arith, eq_of_parts x a);
  add-pos = λ a x _ h k. ground (arith, +ℤ_parts a x);
}
