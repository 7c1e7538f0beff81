-- ===== src/Workforce/Approval.antt =====
-- What an approved leave does to the attendance.
use biz_saathi.Prelude.{
  ℕ, none, ◌%◌, zero, suc, ◌+◌, ◌-◌, ◌≤◌, ◌≡◌, refl, Bool, true, false, not, ◌&&◌, Option, some,
  List, [], ◌∷◌, arith, leb, ◌==◌, if◌then◌else◌, Bool-cases, inl, inr,
}
use biz_saathi.Table.{find_first}
use biz_saathi.Action.{ok}
use biz_saathi.Workforce.{AttendanceStatus, Attendance, Leave, StaffDb}
use biz_saathi.Workforce.Days.{is_sunday}
use biz_saathi.Workforce.Leaves.{
  at_day, marked_on_leave, upsert_leave, mark_days, pending_leave, approval, approve,
}

-- The attendance of a staff member on a date.
abbrev pub on_day : (staff day : ℕ) → List Attendance → Option Attendance
on_day staff day rows = find_first (at_day staff day) rows

-- The upsert writes the row of its date, and no other.
on_day-upsert_leave :
    (tenant staff day user s d : ℕ) (rows : List Attendance)
    → on_day s d (upsert_leave tenant staff day user rows) ≡ (
        if s == staff && d == day
        then some (marked_on_leave tenant staff day user (on_day staff day rows))
        else on_day s d rows)
unfolding upsert_leave
on_day-upsert_leave tenant staff day user s d [] = ground arith
on_day-upsert_leave tenant staff day user s d (a ∷ rows) =
    ground (arith, on_day-upsert_leave tenant staff day user s d rows)

-- The dates of a loop that begins at a date.
abbrev pub marks : (staff current end s d : ℕ) → Bool
marks staff current end s d = s == staff && leb current d && leb d end && not (is_sunday d)

-- The first date of the loop, and the others.
marks-past :
    (staff current end s d : ℕ)
    → (s == staff && d == current) ≡ false
    → marks staff (current + 1) end s d ≡ marks staff current end s d
marks-past staff current end s d h = ground arith

marks-sunday :
    (staff current end s d : ℕ)
    → is_sunday current ≡ true
    → marks staff (current + 1) end s d ≡ marks staff current end s d
marks-sunday staff current end s d h = elim (Bool-cases (d == current)) [
  | inl e ↦ let same : d ≡ current = ground arith in rw same (rw h (ground arith))
  | inr e ↦ ground arith
]

on_day-mark_days :
    (tenant staff user fuel current end s d : ℕ) (rows : List Attendance)
    → end + 1 ≤ current + fuel
    → on_day s d (mark_days tenant staff user fuel current end rows) ≡ (
        if marks staff current end s d
        then some (marked_on_leave tenant staff d user (on_day s d rows))
        else on_day s d rows)
unfolding mark_days
on_day-mark_days tenant staff user zero current end s d rows h = ground arith
on_day-mark_days tenant staff user (suc fuel) current end s d rows h =
    elim (Bool-cases (leb current end)) [
      | inr e ↦ let out : marks staff current end s d ≡ false = ground arith in rw (e, out)
      | inl e ↦ elim (Bool-cases (is_sunday current)) [
        | inl sunday ↦
            rw (e, sunday)
              (rw (on_day-mark_days tenant staff user fuel (current + 1) end s d rows (omega arith))
                (rw (marks-sunday staff current end s d sunday)))
        | inr workday ↦
            let rows' = upsert_leave tenant staff current user rows in
            let up = on_day-upsert_leave tenant staff current user s d rows in
            rw (e, workday)
              (rw
                (on_day-mark_days tenant staff user fuel (current + 1) end s d rows' (omega arith))
                (elim (Bool-cases (s == staff && d == current)) [
                  | inl here ↦
                      let same_staff : s ≡ staff = ground arith in
                      let same_day : d ≡ current = ground arith in
                      let later : marks staff (current + 1) end s d ≡ false = ground arith in
                      let now : marks staff current end s d ≡ true =
                        rw (same_staff, same_day) (rw workday (ground arith)) in
                      rw (later, now) (rw up (rw here (rw (same_staff, same_day))))
                  | inr other ↦ rw (marks-past staff current end s d other) (rw up (rw other))
                ]))
      ]
    ]

approve-ok :
    (tenant id user : ℕ) (db : StaffDb) {l : Leave}
    → find_first (pending_leave tenant id) db.leaves ≡ some l
    → ((approve tenant id user db).0 ≡ ok (approval user l))
      × ((approve tenant id user db).1.attendances
          ≡ mark_days tenant l.staff_id user
              (l.to_date + 1 - l.from_date)
              l.from_date
              l.to_date
              db.attendances)
unfolding approve
approve-ok tenant id user db h = rw h (refl, refl)

-- The row of a date after the approval: a new one, or the old one with another status and marker.
abbrev pub on_leave : (tenant staff day user : ℕ) → Option Attendance → Attendance
on_leave tenant staff day user none = record {
  tenant_id = tenant;
  staff_id = staff;
  date = day;
  status = AttendanceStatus.on_leave;
  check_in = none;
  check_out = none;
  hours_worked = none;
  overtime = none;
  note = none;
  marked_by = user;
}
on_leave tenant staff day user (some a) = record a {
  status = AttendanceStatus.on_leave;
  marked_by = user;
}

marked-on_leave :
    (tenant staff day user : ℕ) (row : Option Attendance)
    → marked_on_leave tenant staff day user row ≡ on_leave tenant staff day user row
marked-on_leave tenant staff day user none = refl
marked-on_leave tenant staff day user (some a) = refl

-- 4 January 1970, day 3, was a Sunday.
sunday-week : (d : ℕ) → is_sunday d ≡ (d % 7 == 3)
sunday-week d = ground arith

-- Approving a pending leave makes the staff member ON_LEAVE on each date of the leave that is no
-- Sunday, where day 3, 4 January 1970, is one: in a new row, marked by the user, where there was none,
-- and otherwise in the row as it was but for the status and who marked it; every other attendance
-- stays as it was, of any staff member and any date.
pub approve_attendance :
    (tenant id user : ℕ) (db : StaffDb) (l : Leave) (s d : ℕ)
    → find_first (pending_leave tenant id) db.leaves ≡ some l
    → on_day s d (approve tenant id user db).1.attendances ≡ (
        if s == l.staff_id && leb l.from_date d && leb d l.to_date && not (d % 7 == 3)
        then some (on_leave tenant l.staff_id d user (on_day s d db.attendances))
        else on_day s d db.attendances)
approve_attendance tenant id user db l s d h =
    let marked =
      on_day-mark_days tenant l.staff_id user (l.to_date + 1 - l.from_date) l.from_date l.to_date s
        d db.attendances (omega arith) in
    let row = marked-on_leave tenant l.staff_id d user (on_day s d db.attendances) in
    rw (approve-ok tenant id user db h).1 (rw marked (rw (row, sunday-week d) refl))
