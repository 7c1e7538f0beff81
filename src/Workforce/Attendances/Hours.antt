-- ===== src/Workforce/Attendances/Hours.antt =====
-- The hours and the overtime of a day.
use biz_saathi.Prelude.{ℕ, ◌-◌, ◌*◌, ◌≤◌, ◌≡◌, refl, arith, pos, sub_ℕ_pos, *ℤ_pos}
use biz_saathi.Rounding.{Rounding, IsRounding, IsNearest}
use biz_saathi.Workforce.Attendances.{Time, minutes, worked, overtime_of}

-- A check-out that is not before the check-in gives the hours between them to the nearest hundredth,
-- and the overtime is what they exceed eight hours by.
pub worked-IsNearest :
    (d : Rounding)
    → IsRounding d
    → (check_in check_out : Time) → minutes check_in ≤ minutes check_out
    → (h : ℕ) × (worked d check_in check_out ≡ pos h)
      × IsNearest ((minutes check_out - minutes check_in) * 100) 60 h
      × (overtime_of (worked d check_in check_out) ≡ h - 800)
unfolding worked
worked-IsNearest d laws i o le =
    let n = (minutes o - minutes i) * 100 in
    rw (sub_ℕ_pos (minutes o) (minutes i) le) (
      rw (*ℤ_pos (minutes o - minutes i) 100)
        (d.half_up n 60, refl, laws.up_nearest n 60 (omega arith), ground arith))
