-- ===== src/Gst/Taxes.antt =====
-- The taxes of `calculateItemGst`: how near they are to the exact tax, and what the split of the
-- tax between the state and the centre costs.
use biz_saathi.Prelude.{
  ℕ, ◌+◌, ◌-◌, ◌*◌, ◌≤◌, ◌≡◌, refl, Bool, true, false, arith, pos, pos_part, if◌then◌else◌,
}
use biz_saathi.Rounding.{Rounding, IsRounding, IsNearest}
use biz_saathi.Gst.{gross_amount, calculate_item_gst}
use biz_saathi.Gst.Taxable.{taxable, half_of, whole_of, calculate_item_gst-eq}

module _ (d : Rounding) (laws : IsRounding d) where
  -- Two roundings of the half tax and one of the whole tax.
  half_whole :
      (t g : ℕ)
      → (2 * half_of d t g ≤ whole_of d t g + 1) × (whole_of d t g ≤ 2 * half_of d t g + 1)
  half_whole t g =
      let half = laws.even_nearest (t * g) 20_000 (omega arith) in
      let whole = laws.even_nearest (t * g) 10_000 (omega arith) in omega arith

  module _ (q r discount g : ℕ) (h : discount ≤ 10_000) where
    -- At a discount of at most 100% and a tax rate that is not negative, no amount is negative,
    -- the taxable amount is within half a paisa of quantity * rate * (1 - discount / 100), each of
    -- CGST and SGST is within half a paisa of half the tax on it and IGST is within half a paisa
    -- of the whole tax, the taxes of the other kind of sale are zero, and the total is the sum of
    -- the four.
    pub item_gst-IsNearest :
        (inter : Bool)
        → let item = calculate_item_gst d q r discount (pos g) inter in
          (t c i : ℕ) × (item.taxable_amount ≡ pos t)
          × IsNearest (gross_amount q r * (10_000 - discount)) 10_000_000 t
          × (item.cgst ≡ pos c)
          × (item.sgst ≡ pos c)
          × (item.igst ≡ pos i)
          × (if inter then c ≡ 0 else IsNearest (t * g) 20_000 c)
          × (if inter then IsNearest (t * g) 10_000 i else i ≡ 0)
          × (item.total_amount ≡ pos (t + 2 * c + i))
    item_gst-IsNearest true =
        let t = taxable d q r discount in
        rw (calculate_item_gst-eq d q r discount g true h) (
          t,
          0,
          whole_of d t g,
          refl,
          laws.even_nearest _ _ (omega arith),
          refl,
          refl,
          refl,
          refl,
          laws.even_nearest _ _ (omega arith),
          ground arith,
        )
    item_gst-IsNearest false =
        let t = taxable d q r discount in
        rw (calculate_item_gst-eq d q r discount g false h) (
          t,
          half_of d t g,
          0,
          refl,
          laws.even_nearest _ _ (omega arith),
          refl,
          refl,
          refl,
          laws.even_nearest _ _ (omega arith),
          refl,
          ground arith,
        )

    -- At a discount of at most 100% and a tax rate that is not negative, which the API does not
    -- enforce, the same item has the same taxable amount within a state and between states, and its
    -- totals differ by at most one paisa.
    pub inter_state_paisa :
        let local = calculate_item_gst d q r discount (pos g) false in
        let other = calculate_item_gst d q r discount (pos g) true in
        (local.taxable_amount ≡ other.taxable_amount)
        × (pos_part local.total_amount ≤ pos_part other.total_amount + 1)
        × (pos_part other.total_amount ≤ pos_part local.total_amount + 1)
    inter_state_paisa =
        rw
          (
            calculate_item_gst-eq d q r discount g false h,
            calculate_item_gst-eq d q r discount g true h,
          )
          (let near = half_whole (taxable d q r discount) g in (refl, omega arith, omega arith))
