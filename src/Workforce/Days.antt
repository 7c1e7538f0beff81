-- ===== src/Workforce/Days.antt =====
-- The days of leave.service.ts: the loop of `calculateDaysExcludingSundays`.
use biz_saathi.Prelude.{
  ℕ, zero, suc, ◌+◌, ◌-◌, ◌/◌, ◌%◌, ◌≤◌, ◌≡◌, Bool, arith, leb, ◌==◌, if◌then◌else◌, Bool-cases,
  inl, inr,
}

-- `getDay() === 0`: day 0 is a Thursday, number 4.
abbrev pub is_sunday : ℕ → Bool
is_sunday day = (day + 4) % 7 == 0

-- The loop, from the current date and the count so far.
unfoldable pub count_days : (fuel current to count : ℕ) → ℕ
count_days zero current to count = count
count_days (suc fuel) current to count =
    let rest = count_days fuel (current + 1) to (if is_sunday current then count else count + 1) in
    if leb current to then rest else count

-- The loop makes one round for each date, so that the number of dates is fuel enough.
unfoldable pub calculate_days_excluding_sundays : (from to : ℕ) → ℕ
calculate_days_excluding_sundays from to = count_days (to + 1 - from) from to 0

-- The Sundays before a date.
abbrev pub sundays_before : ℕ → ℕ
sundays_before day = (day + 3) / 7

sundays_next :
    (day : ℕ)
    → sundays_before (day + 1)
      ≡ (if is_sunday day then sundays_before day + 1 else sundays_before day)
sundays_next day = ground arith

-- With fuel for every date that is left, whatever more there is.
count_days-eq :
    (fuel current to count : ℕ)
    → to + 1 ≤ current + fuel
    → current ≤ to + 1
    → count_days fuel current to count + sundays_before (to + 1) + current
      ≡ count + sundays_before current + (to + 1)
unfolding count_days
count_days-eq zero current to count h le = let e : current ≡ to + 1 = omega arith in rw e
count_days-eq (suc fuel) current to count h le = elim (Bool-cases (leb current to)) [
  | inl e ↦
      let more : current ≤ to = ground arith in
      let next = sundays_next current in
      elim (Bool-cases (is_sunday current)) [
        | inl s ↦
            let later = count_days-eq fuel (current + 1) to count (omega arith) (omega arith) in
            let stays : sundays_before (current + 1) ≡ sundays_before current + 1 = rw s at next in
            rw (e, s) (omega arith)
        | inr s ↦
            let later =
              count_days-eq fuel (current + 1) to (count + 1) (omega arith) (omega arith) in
            let stays : sundays_before (current + 1) ≡ sundays_before current = rw s at next in
            rw (e, s) (omega arith)
      ]
  | inr e ↦ let last : current ≡ to + 1 = ground arith in rw e (rw last)
]

-- Between two dates, and with more fuel than given, the loop counts every date but the Sundays: the
-- dates are to + 1 - from, and the Sundays those before to + 1 that are not before from.
pub business_days :
    (from to more : ℕ)
    → from ≤ to
    → (calculate_days_excluding_sundays from to + (sundays_before (to + 1) - sundays_before from)
        ≡ to + 1 - from)
      × (count_days (to + 1 - from + more) from to 0 ≡ calculate_days_excluding_sundays from to)
unfolding calculate_days_excluding_sundays
business_days from to more le =
    let once = count_days-eq (to + 1 - from) from to 0 (omega arith) (omega arith) in
    let longer = count_days-eq (to + 1 - from + more) from to 0 (omega arith) (omega arith) in
    (omega arith, omega arith)
