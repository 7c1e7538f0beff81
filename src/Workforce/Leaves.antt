-- ===== src/Workforce/Leaves.antt =====
-- `apply`, `approve`, `reject` and `getBalance` of leave.service.ts.
use Prim.Native.String.{String}
use biz_saathi.Prelude.{
  ℕ, zero, suc, ◌+◌, ◌-◌, Bool, true, false, ◌&&◌, Option, none, some, List, [], ◌∷◌, ◌++◌, leb,
  ltb, ◌==◌, if◌then◌else◌,
}
use biz_saathi.Action.{
  Action, not_found, bad_request, pure, gets, or_throw, throw_if, modify, ◌>>=◌, ◌>>◌,
}
use biz_saathi.Table.{find_first, find_many, count_where, update_where}
use biz_saathi.Workforce.{
  AttendanceStatus, LeaveType, casual, sick, earned, maternity, paternity, unpaid, LeaveStatus,
  Attendance, Leave, StaffDb,
}
use biz_saathi.Workforce.Days.{is_sunday, calculate_days_excluding_sundays}

-- dto/apply-leave.dto.ts.
pub record ApplyLeaveDto : Type 0 where
  pub staff_id : ℕ
  pub leave_type : LeaveType
  pub from_date : ℕ
  pub to_date : ℕ
  pub reason : Option String

abbrev pub is_present : AttendanceStatus → Bool
is_present AttendanceStatus.present = true
is_present _ = false

abbrev pub is_pending : LeaveStatus → Bool
is_pending LeaveStatus.pending = true
is_pending _ = false

abbrev pub is_approved : LeaveStatus → Bool
is_approved LeaveStatus.approved = true
is_approved _ = false

-- The rows of a staff member between two dates that are marked present.
abbrev pub present_between : (staff from to : ℕ) → Attendance → Bool
present_between staff from to a =
    a.staff_id == staff && leb from a.date && leb a.date to && is_present a.status

-- The row that `apply` stores.
abbrev pub new_leave : (id tenant : ℕ) → ApplyLeaveDto → Leave
new_leave id tenant dto = record {
  id = id;
  tenant_id = tenant;
  staff_id = dto.staff_id;
  leave_type = dto.leave_type;
  from_date = dto.from_date;
  to_date = dto.to_date;
  days = calculate_days_excluding_sundays dto.from_date dto.to_date;
  reason = dto.reason;
  status = LeaveStatus.pending;
  approved_by = none;
  rejected_by = none;
  rejection_note = none;
}

-- `apply`; the database chooses the new id. The balance is not read.
unfoldable pub apply : (id tenant : ℕ) → ApplyLeaveDto → Action StaffDb Leave
apply id tenant dto = do
  staff ← gets (λ db. find_first (λ s. s.id == dto.staff_id && s.tenant_id == tenant) db.staff)
  or_throw staff (not_found "Staff member not found")
  throw_if (ltb dto.to_date dto.from_date)
      (bad_request "fromDate must be before or equal to toDate")
  existing_present ←
      gets
        (λ db. count_where (present_between dto.staff_id dto.from_date dto.to_date) db.attendances)
  throw_if (ltb 0 existing_present)
      (bad_request "Cannot apply leave for dates where attendance is already marked PRESENT")
  let leave = new_leave id tenant dto
  modify (λ db. record db { leaves = db.leaves ++ leave ∷ [] })
  pure leave

-- The query of a pending leave that `approve` and `reject` begin with.
abbrev pub pending_leave : (tenant id : ℕ) → Leave → Bool
pending_leave tenant id l = l.id == id && (l.tenant_id == tenant && is_pending l.status)

-- What the upsert of `approve` makes of the row of a date, if there is one.
abbrev pub marked_on_leave : (tenant staff day user : ℕ) → Option Attendance → Attendance
marked_on_leave tenant staff day user none = record {
  tenant_id = tenant;
  staff_id = staff;
  date = day;
  status = AttendanceStatus.on_leave;
  check_in = none;
  check_out = none;
  hours_worked = none;
  overtime = none;
  note = none;
  marked_by = user;
}
marked_on_leave tenant staff day user (some a) = record a {
  status = AttendanceStatus.on_leave;
  marked_by = user;
}

abbrev pub at_day : (staff day : ℕ) → Attendance → Bool
at_day staff day a = a.staff_id == staff && a.date == day

-- `attendance.upsert` at the unique key of staff member and date.
unfoldable pub upsert_leave : (tenant staff day user : ℕ) → List Attendance → List Attendance
upsert_leave tenant staff day user [] = marked_on_leave tenant staff day user none ∷ []
upsert_leave tenant staff day user (a ∷ rows) =
    let rest = upsert_leave tenant staff day user rows in
    if at_day staff day a then marked_on_leave tenant staff day user (some a) ∷ rows else a ∷ rest

-- The loop of `approve` over the dates of the leave.
unfoldable pub mark_days :
    (tenant staff user fuel current end : ℕ) → List Attendance → List Attendance
mark_days tenant staff user zero current end rows = rows
mark_days tenant staff user (suc fuel) current end rows =
    let marked = if is_sunday current then rows else upsert_leave tenant staff current user rows in
    let rest = mark_days tenant staff user fuel (current + 1) end marked in
    if leb current end then rest else rows

abbrev pub approval : (user : ℕ) → Leave → Leave
approval user l = record l { status = LeaveStatus.approved; approved_by = some user }

abbrev pub rejection : (user : ℕ) → Option String → Leave → Leave
rejection user note l = record l {
  status = LeaveStatus.rejected;
  rejected_by = some user;
  rejection_note = note;
}

-- `approve`, a transaction. The row it returns is the one found, as updated: ids are unique.
unfoldable pub approve : (tenant id user : ℕ) → Action StaffDb Leave
approve tenant id user = do
  found ← gets (λ db. find_first (pending_leave tenant id) db.leaves)
  leave ← or_throw found (not_found "Pending leave request not found")
  modify (λ db. record db { leaves = update_where (λ l. l.id == id) (approval user) db.leaves })
  modify (λ db. record db {
    attendances =
        mark_days tenant leave.staff_id user (leave.to_date + 1 - leave.from_date) leave.from_date
          leave.to_date db.attendances;
  })
  pure (approval user leave)

-- `reject`.
unfoldable pub reject : (tenant id user : ℕ) → Option String → Action StaffDb Leave
reject tenant id user note = do
  found ← gets (λ db. find_first (pending_leave tenant id) db.leaves)
  leave ← or_throw found (not_found "Pending leave request not found")
  modify
      (λ db. record db { leaves = update_where (λ l. l.id == id) (rejection user note) db.leaves })
  pure (rejection user note leave)

-- `LEAVE_BALANCES`.
abbrev pub leave_balances : LeaveType → ℕ
leave_balances casual = 12
leave_balances sick = 12
leave_balances earned = 15
leave_balances maternity = 182
leave_balances paternity = 15
leave_balances unpaid = 365

-- The place of a type in the enumeration, by which types are compared.
abbrev pub type_index : LeaveType → ℕ
type_index casual = 0
type_index sick = 1
type_index earned = 2
type_index maternity = 3
type_index paternity = 4
type_index unpaid = 5

pub record Balance : Type 0 where
  pub total : ℕ
  pub used : ℕ
  pub remaining : ℕ

-- The approved leaves of a staff member that begin in the year.
abbrev pub approved_in : (tenant staff start_of_year end_of_year : ℕ) → Leave → Bool
approved_in tenant staff start_of_year end_of_year l =
    l.staff_id == staff
    && l.tenant_id == tenant
    && is_approved l.status
    && leb start_of_year l.from_date
    && leb l.from_date end_of_year

-- `usedByType[type]`.
abbrev pub used_by_type : LeaveType → List Leave → ℕ
used_by_type type [] = 0
used_by_type type (l ∷ ls) =
    let rest = used_by_type type ls in
    if type_index l.leave_type == type_index type then l.days + rest else rest

-- `getBalance`, at a type, with the first and the last day of the current year.
unfoldable pub get_balance :
    (tenant staff start_of_year end_of_year : ℕ) → Action StaffDb (LeaveType → Balance)
get_balance tenant staff start_of_year end_of_year = do
  member ← gets (λ db. find_first (λ s. s.id == staff && s.tenant_id == tenant) db.staff)
  or_throw member (not_found "Staff member not found")
  approved_leaves ←
      gets (λ db. find_many (approved_in tenant staff start_of_year end_of_year) db.leaves)
  pure (λ type.
      let used = used_by_type type approved_leaves in
      let total = leave_balances type in
      record { total = total; used = used; remaining = total - used })
