-- ===== src/Gst/Taxable.antt =====
-- `calculateItemGst` at a discount of at most 100% and a tax rate that is not negative: every
-- amount is a natural number, which the other modules compute with.
use native.Mathlib.Nat.{mul-sub, mul-le-mul_left}
use biz_saathi.Prelude.{
  ℕ, ◌+◌, ◌-◌, ◌*◌, ◌≤◌, ◌≡◌, sym, ap, ◌∙◌, Bool, true, false, arith, if◌then◌else◌, pos, sub_ℕ_pos,
  +ℤ_pos, *ℤ_pos,
}
use biz_saathi.Rounding.{Rounding}
use biz_saathi.Gst.{ItemGst, gross_amount, net_amount, calculate_item_gst}

net_amount-pos :
    (quantity rate discount : ℕ)
    → discount ≤ 10_000
    → net_amount quantity rate discount ≡ pos (gross_amount quantity rate * (10_000 - discount))
net_amount-pos q r discount h =
    let g = q * r in
    sub_ℕ_pos (g * 10_000) (g * discount) (mul-le-mul_left g h)
    ∙ ap pos (sym (mul-sub g 10_000 discount))

-- The taxable amount of an item, in paise.
abbrev pub taxable : Rounding → ℕ → ℕ → ℕ → ℕ
taxable d q r discount = d.half_even (gross_amount q r * (10_000 - discount)) 10_000_000

abbrev pub half_of : Rounding → ℕ → ℕ → ℕ
half_of d t g = d.half_even (t * g) 20_000

abbrev pub whole_of : Rounding → ℕ → ℕ → ℕ
whole_of d t g = d.half_even (t * g) 10_000

abbrev pub within_state : Rounding → ℕ → ℕ → ItemGst
within_state d t g = record {
  taxable_amount = pos t;
  cgst = pos (half_of d t g);
  sgst = pos (half_of d t g);
  igst = pos 0;
  total_amount = pos (t + 2 * half_of d t g);
}

abbrev pub between_states : Rounding → ℕ → ℕ → ItemGst
between_states d t g = record {
  taxable_amount = pos t;
  cgst = pos 0;
  sgst = pos 0;
  igst = pos (whole_of d t g);
  total_amount = pos (t + whole_of d t g);
}

-- The item with natural amounts, by whether the sale crosses a state border.
pub calculate_item_gst-eq :
    (d : Rounding) (q r discount g : ℕ) (inter : Bool)
    → discount ≤ 10_000
    → calculate_item_gst d q r discount (pos g) inter ≡ (
        if inter
        then between_states d (taxable d q r discount) g
        else within_state d (taxable d q r discount) g)
unfolding calculate_item_gst
calculate_item_gst-eq d q r discount g true h =
    rw net_amount-pos (simp (*ℤ_pos, +ℤ_pos) (ground arith))
calculate_item_gst-eq d q r discount g false h =
    rw net_amount-pos (simp (*ℤ_pos, +ℤ_pos) (ground arith))
