-- ===== src/Payroll/Division/Exact.antt =====
-- Quotients as fractions, rounded once at the end: they have the laws of `IsDivision`.
use native.Mathlib.Nat.{lt_of_mul-lt-mul_right, mul-le-mul_right}
use biz_saathi.Prelude.{ℕ, zero, suc, ◌+◌, ◌*◌, ◌/◌, ◌^◌, ◌≤◌, ◌<◌, ◌≡◌, refl, arith}
use biz_saathi.Payroll.Division.{Division, IsDivision, share}

-- n / m rounded half up.
half_up : ℕ → ℕ → ℕ
half_up n m = (2 * n + m) / (2 * m)

pub exact : Division
unfolding half_up
exact = record {
  Quotient = ℕ × ℕ;
  div = λ n m. (n, m);
  div_by = λ q m. (q.0, q.1 * m);
  mul = λ q c s. (q.0 * c, q.1 * 10 ^ s);
  to_paise = λ q. half_up q.0 q.1;
}

half_up_law :
    (n m : ℕ) → 0 < m → (2 * (half_up n m * m) ≤ 2 * n + m) × (2 * n < 2 * (half_up n m * m) + m)
unfolding half_up
half_up_law n m h = grind arith

-- What is below y + 1/2 and above x - 1/2, in units of m.
half_up_order : (x y n k m : ℕ) → n ≤ k → 2 * (x * m) ≤ 2 * n + m → 2 * k < 2 * (y * m) + m → x ≤ y
half_up_order x y n k m le up low =
    let below : x * m < suc y * m = grind arith in
    let less : x < suc y = lt_of_mul-lt-mul_right m below in omega arith

half_up_mono : (n k m : ℕ) → 0 < m → n ≤ k → half_up n m ≤ half_up k m
half_up_mono n k m h le =
    half_up_order (half_up n m) (half_up k m) n k m le (half_up_law n m h).0 (half_up_law k m h).1

half_up_whole : (a m : ℕ) → 0 < m → half_up (a * m) m ≡ a
half_up_whole a m h =
    let (up, low) = half_up_law (a * m) m h in
    let le : half_up (a * m) m ≤ a =
      half_up_order (half_up (a * m) m) a (a * m) (a * m) m (omega arith) up (omega arith) in
    let ge : a ≤ half_up (a * m) m =
      half_up_order a (half_up (a * m) m) (a * m) (a * m) m (omega arith) (omega arith) low in
    omega arith

half_up_nothing : (m : ℕ) → half_up 0 m ≡ 0
unfolding half_up
half_up_nothing zero = refl
half_up_nothing (suc m) = grind arith

exact-share_near :
    (p w a : ℕ)
    → 0 < w
    → p ≤ w
    → a < 1_000_000_000_000
    → (share exact p w a * w ≤ a * p + w) × (a * p ≤ share exact p w a * w + w)
unfolding exact
exact-share_near p w a h le small =
    let n = p * a in
    let same : w * 1 ≡ w = omega arith in
    rw same (let (up, low) = half_up_law (p * a) w h in (grind arith, grind arith))

pub exact-IsDivision : IsDivision exact
unfolding exact
exact-IsDivision = record {
  share_all = λ w a h.
      let w' : w * 1 ≡ w = omega arith in
      let wa : w * a ≡ a * w = omega arith in rw (w', wa) (half_up_whole a w h);
  share_nothing = λ w a h. let z : 0 * a ≡ 0 = omega arith in rw z (half_up_nothing _);
  share_mono =
      λ p q w a h le. half_up_mono (p * a) (q * a) (w * 1) (omega arith) (mul-le-mul_right a le);
  share_near = exact-share_near;
  mul_nothing = λ q s c t. let z : q.0 * 0 * c ≡ 0 = omega arith in rw z (half_up_nothing _);
  div_half_up = λ n m h small fits. half_up_law n m h;
}
