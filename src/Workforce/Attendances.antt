-- ===== src/Workforce/Attendances.antt =====
-- `mark` and `bulkMark` of backend/src/attendance/attendance.service.ts.
--
-- A time "HH:MM" of a request is its hour and minute; `today` is the date of `new Date()`. The
-- errors of the driver that `bulkMark` catches for one record do not occur.
pub mod Hours
pub mod Bulk
use Prim.Native.String.{String}
use biz_saathi.Prelude.{
  ℕ, suc, ◌+◌, ◌-◌, ◌*◌, Bool, true, false, ◌&&◌, Option, none, some, List, [], ◌∷◌, ◌++◌, ltb,
  ◌==◌, if◌then◌else◌, ℤ, pos, negsuc, sub_ℕ, ◌*ℤ◌,
}
use biz_saathi.Rounding.{Rounding, signed}
use biz_saathi.Action.{Action, bad_request, pure, gets, or_throw, throw_if, modify, ◌>>=◌, ◌>>◌}
use biz_saathi.Table.{find_first}
use biz_saathi.Workforce.{AttendanceStatus, Staff, Attendance, StaffDb}
use biz_saathi.Workforce.Leaves.{at_day}

pub record Time : Type 0 where
  pub hour : ℕ
  pub minute : ℕ

-- dto/mark-attendance.dto.ts and dto/bulk-attendance.dto.ts, but for the date.
pub record AttendanceRecordDto : Type 0 where
  pub staff_id : ℕ
  pub status : AttendanceStatus
  pub check_in : Option Time
  pub check_out : Option Time
  pub note : Option String

abbrev pub minutes : Time → ℕ
minutes t = t.hour * 60 + t.minute

-- `new Decimal(totalMinutes).div(60).toDecimalPlaces(2)`, in hundredths of an hour.
unfoldable pub worked : Rounding → Time → Time → ℤ
worked d check_in check_out =
    signed d.half_up (sub_ℕ (minutes check_out) (minutes check_in) *ℤ pos 100) 60

-- The hours over eight, or 0.
abbrev pub overtime_of : ℤ → ℕ
overtime_of (pos h) = if ltb 800 h then h - 800 else 0
overtime_of (negsuc h) = 0

-- `hoursWorked`: of a record with both times.
abbrev pub hours_of : Rounding → Option Time → Option Time → Option ℤ
hours_of d (some i) (some o) = some (worked d i o)
hours_of d _ _ = none

abbrev pub overtime_hours : Option ℤ → Option ℕ
overtime_hours none = none
overtime_hours (some h) = some (overtime_of h)

abbrev pub time_of : Option Time → Option ℕ
time_of none = none
time_of (some t) = some (minutes t)

-- The data that a row is written with, created or not.
pub record RowData : Type 0 where
  pub status : AttendanceStatus
  pub check_in : Option ℕ
  pub check_out : Option ℕ
  pub hours_worked : Option ℤ
  pub note : Option String

abbrev pub keep_note : Option String → Option String → Option String
keep_note none old = old
keep_note (some n) old = some n

abbrev pub written : (tenant staff day user : ℕ) → RowData → Option Attendance → Attendance
written tenant staff day user data' none = record {
  tenant_id = tenant;
  staff_id = staff;
  date = day;
  status = data'.status;
  check_in = data'.check_in;
  check_out = data'.check_out;
  hours_worked = data'.hours_worked;
  overtime = overtime_hours data'.hours_worked;
  note = data'.note;
  marked_by = user;
}
written tenant staff day user data' (some a) = record a {
  status = data'.status;
  check_in = data'.check_in;
  check_out = data'.check_out;
  hours_worked = data'.hours_worked;
  overtime = overtime_hours data'.hours_worked;
  note = keep_note data'.note a.note;
  marked_by = user;
}

-- `attendance.upsert` at the unique key of staff member and date.
unfoldable pub upsert : (tenant staff day user : ℕ) → RowData → List Attendance → List Attendance
upsert tenant staff day user data' [] = written tenant staff day user data' none ∷ []
upsert tenant staff day user data' (a ∷ rows) =
    let rest = upsert tenant staff day user data' rows in
    if at_day staff day a then written tenant staff day user data' (some a) ∷ rows else a ∷ rest

abbrev pub staff_member : (tenant staff : ℕ) → Staff → Bool
staff_member tenant staff s = s.id == staff && s.tenant_id == tenant

-- The row that `mark` writes: a time that is given alone is kept.
abbrev pub mark_data : Rounding → AttendanceRecordDto → RowData
mark_data d dto = record {
  status = dto.status;
  check_in = time_of dto.check_in;
  check_out = time_of dto.check_out;
  hours_worked = hours_of d dto.check_in dto.check_out;
  note = dto.note;
}

-- `mark`.
unfoldable pub mark :
    Rounding → (today tenant user day : ℕ) → AttendanceRecordDto → Action StaffDb (Unit {0})
mark d today tenant user day dto = do
  throw_if (ltb today day) (bad_request "Cannot mark attendance for future dates")
  staff ← gets (λ db. find_first (staff_member tenant dto.staff_id) db.staff)
  or_throw staff (bad_request "Staff member not found")
  modify (λ db. record db {
    attendances = upsert tenant dto.staff_id day user (mark_data d dto) db.attendances;
  })

-- The times that `bulkMark` writes: of a record with both.
abbrev pub both_times : Option Time → Option Time → Option ℕ × Option ℕ
both_times (some i) (some o) = (some (minutes i), some (minutes o))
both_times _ _ = (none, none)

abbrev pub bulk_data : Rounding → AttendanceRecordDto → RowData
bulk_data d dto = record {
  status = dto.status;
  check_in = (both_times dto.check_in dto.check_out).0;
  check_out = (both_times dto.check_in dto.check_out).1;
  hours_worked = hours_of d dto.check_in dto.check_out;
  note = dto.note;
}

-- The counters of the loop, and the staff members of the errors.
pub record BulkResult : Type 0 where
  pub marked : ℕ
  pub failed : ℕ
  pub errors : List ℕ

-- One round of the loop of `bulkMark`.
abbrev pub bulk_record :
    Rounding
    → (tenant user day : ℕ) → Option Staff
    → AttendanceRecordDto
    → BulkResult × StaffDb
    → BulkResult × StaffDb
bulk_record d tenant user day none dto (r, db) =
    (record r { failed = r.failed + 1; errors = r.errors ++ dto.staff_id ∷ [] }, db)
bulk_record d tenant user day (some s) dto (r, db) = (
  record r { marked = r.marked + 1 },
  record db { attendances = upsert tenant dto.staff_id day user (bulk_data d dto) db.attendances },
)

unfoldable pub bulk_records :
    Rounding
    → (tenant user day : ℕ) → List AttendanceRecordDto
    → BulkResult × StaffDb
    → BulkResult × StaffDb
bulk_records d tenant user day [] acc = acc
bulk_records d tenant user day (dto ∷ records) (r, db) = bulk_records d tenant user day records (
    bulk_record d tenant user day (find_first (staff_member tenant dto.staff_id) db.staff) dto
      (r, db))

abbrev pub no_result : BulkResult
no_result = record { marked = 0; failed = 0; errors = [] }

-- `bulkMark`.
unfoldable pub bulk_mark :
    Rounding → (today tenant user day : ℕ) → List AttendanceRecordDto → Action StaffDb BulkResult
bulk_mark d today tenant user day records = do
  throw_if (ltb today day) (bad_request "Cannot mark attendance for future dates")
  done ← gets (λ db. bulk_records d tenant user day records (no_result, db))
  modify (λ db. done.1)
  pure done.0
