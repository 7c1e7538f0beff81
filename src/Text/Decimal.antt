-- ===== src/Text/Decimal.antt =====
-- Reading a decimal text back, with or without the zeros of `pad_start`.
use mathlib.Core.List.{foldl, foldl-append}
use biz_saathi.Prelude.{
  ℕ, zero, suc, ◌+◌, ◌-◌, ◌*◌, ◌/◌, ◌%◌, ◌<◌, ◌≤◌, ◌≡◌, refl, ap, List, [], ◌∷◌, ◌++◌, arith, ltb,
  length, length-append, Bool-cases, inl, inr,
}
use biz_saathi.Text.{digits, to_string, replicate, pad_start}

abbrev add_digit : ℕ → ℕ → ℕ
add_digit n c = n * 10 + (c - 48)

-- The number that a text of digits stands for.
pub value : List ℕ → ℕ
value = foldl add_digit 0

value-snoc : (s : List ℕ) (c : ℕ) → value (s ++ c ∷ []) ≡ value s * 10 + (c - 48)
unfolding value
value-snoc s c = rw foldl-append

value-digits : (f n : ℕ) → n < f → value (digits f n) ≡ n
unfolding digits
value-digits zero n h = absurd (omega arith)
value-digits (suc f) n h = elim (Bool-cases (ltb n 10)) [
  | inl e ↦ rw e (unfold value in omega arith)
  | inr e ↦
      let ih : value (digits f (n / 10)) ≡ n / 10 = value-digits f (n / 10) (ground arith) in
      rw e (rw value-snoc (rw ih (omega arith)))
]

-- A printed number is read back.
pub value-to_string : (n : ℕ) → value (to_string n) ≡ n
unfolding to_string
value-to_string n = value-digits (suc n) n (omega arith)

value-zeros : (k : ℕ) (s : List ℕ) → value (replicate k b'0' ++ s) ≡ value s
unfolding value
value-zeros zero s = refl
value-zeros (suc k) s = value-zeros k s

pub value-pad_start : (w : ℕ) (s : List ℕ) → value (pad_start w s) ≡ value s
unfolding pad_start
value-pad_start w s = value-zeros (w - length s) s

-- A padded text is as long as it should be, or as long as it was.
length-replicate : (n c : ℕ) → length (replicate n c) ≡ n
length-replicate zero c = refl
length-replicate (suc n) c = ap suc (length-replicate n c)

pub length-pad_start : (w : ℕ) (s : List ℕ) → length s ≤ w → length (pad_start w s) ≡ w
unfolding pad_start
length-pad_start w s h =
    omega (arith, length-append (replicate (w - length s) 48) s, length-replicate (w - length s) 48)

-- A digit more for each factor of ten.
length-digit : (f n : ℕ) → n < f → n < 10 → length (digits f n) ≡ 1
unfolding digits
length-digit zero n h l = absurd (omega arith)
length-digit (suc f) n h l = ground arith

length-more :
    (f n k : ℕ)
    → n < f
    → 10 ≤ n
    → ((g : ℕ) → n / 10 < g → length (digits g (n / 10)) ≡ k)
    → length (digits f n) ≡ suc k
unfolding digits
length-more zero n k h l rest = absurd (omega arith)
length-more (suc f) n k h l rest = elim (Bool-cases (ltb n 10)) [
  | inl e ↦ absurd (ground arith)
  | inr e ↦
      rw e (
        omega (arith, length-append (digits f (n / 10)) ((48 + n % 10) ∷ []), rest f (omega arith)))
]

-- A number of four digits has four.
pub length-four : (n : ℕ) → 1000 ≤ n → n < 10_000 → length (to_string n) ≡ 4
unfolding to_string
length-four n lo hi = length-more (suc n) n 3 (omega arith) (omega arith) λ f hf.
    length-more f (n / 10) 2 hf (omega arith) λ g hg.
      length-more g (n / 10 / 10) 1 hg (omega arith)
        λ k hk. length-digit k (n / 10 / 10 / 10) hk (omega arith)
