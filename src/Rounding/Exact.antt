-- ===== src/Rounding/Exact.antt =====
-- A rounding that has the laws of `IsRounding`: it runs in the tests, and shows that they can hold.
use native.Mathlib.Nat.{div-add-mod', mod-lt}
use biz_saathi.Prelude.{ℕ, ◌+◌, ◌*◌, ◌/◌, ◌%◌, ◌≤◌, ◌<◌, ◌≡◌, ◌⊎◌, arith, sym, ltb, if◌then◌else◌}
use biz_saathi.Rounding.{Rounding, IsNearest, IsRounding}

-- What is added to the quotient.
abbrev even_up : ℕ → ℕ → ℕ
even_up n m = if ltb (2 * (n % m)) m then 0 else if ltb m (2 * (n % m)) then 1 else (n / m) % 2

abbrev even_div : ℕ → ℕ → ℕ
even_div n m = n / m + even_up n m

abbrev up_div : ℕ → ℕ → ℕ
up_div n m = if ltb (2 * (n % m)) m then n / m else n / m + 1

abbrev pub exact : Rounding
exact = record { half_even = even_div; half_up = up_div }

-- The quotient q, rounded up by u, is at a tie only if twice the remainder is the divisor.
tie_half :
    (n m q r u : ℕ)
    → n ≡ q * m + r
    → r < m
    → u ≤ 1
    → (2 * ((q + u) * m) ≡ 2 * n + m) ⊎ (2 * n ≡ 2 * ((q + u) * m) + m)
    → 2 * r ≡ m
tie_half n m q r u e l h t = grind arith

tie_quotient : (q : ℕ) → (q + q % 2) % 2 ≡ 0
tie_quotient q = omega arith

module _ (n m : ℕ) (h : 0 < m) where
  even_div-IsNearest : IsNearest n m (even_div n m)
  even_div-IsNearest = grind arith

  even_div_tie :
      (2 * (even_div n m * m) ≡ 2 * n + m) ⊎ (2 * n ≡ 2 * (even_div n m * m) + m)
      → even_div n m % 2 ≡ 0
  even_div_tie e =
      let half : 2 * (n % m) ≡ m =
        tie_half n m (n / m) (n % m) (even_up n m) (sym (div-add-mod' n m)) (mod-lt n h)
          (ground arith) e in
      ground (arith, tie_quotient (n / m))

  up_div-IsNearest : IsNearest n m (up_div n m)
  up_div-IsNearest = grind arith

  up_div_tie : 2 * n < 2 * (up_div n m * m) + m
  up_div_tie = grind arith

pub exact-IsRounding : IsRounding exact
exact-IsRounding = record {
  even_nearest = even_div-IsNearest;
  even_tie = even_div_tie;
  up_nearest = up_div-IsNearest;
  up_tie = up_div_tie;
}
