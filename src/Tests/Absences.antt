-- ===== src/Tests/Absences.antt =====
-- Leaves of a staff member in May 2025.
use biz_saathi.Prelude.{
  ℕ, true, false, List, length, pos, ◌*◌, ◌+◌, ◌-◌, ◌≡◌, refl, none, some, [], ◌∷◌, arith,
}
use biz_saathi.Action.{ok}
use biz_saathi.Table.{find_first}
use biz_saathi.Table.Keys.{DistinctKeys, named}
use biz_saathi.Workforce.{
  AttendanceStatus, LeaveType, LeaveStatus, Staff, StaffStatus, Leave, StaffDb,
}
use biz_saathi.Workforce.Days.{
  count_days, calculate_days_excluding_sundays, sundays_before, business_days,
}
use biz_saathi.Workforce.Leaves.{Balance, leave_balances, approve, reject, get_balance}
use biz_saathi.Workforce.Approval.{on_day, on_leave, approve_attendance}
use biz_saathi.Workforce.Decisions.{
  approves, rejects, start, after, LeaveRequests, leave_id, decision_final,
}
use biz_saathi.Workforce.Balances.{approve_balance}
use biz_saathi.Rounding.{IsNearest}
use biz_saathi.Rounding.Exact.{exact, exact-IsRounding}
use biz_saathi.Workforce.Attendances.{
  Time, AttendanceRecordDto, worked, overtime_of, BulkResult, bulk_mark,
}
use biz_saathi.Workforce.Attendances.Hours.{worked-IsNearest}
use biz_saathi.Workforce.Attendances.Bulk.{both, neither, mark_each, bulk_mark_each}

-- Friday 2 May to Monday 5 May 2025.
abbrev wanted : Leave
wanted = record {
  id = 11;
  tenant_id = 1;
  staff_id = 4;
  leave_type = LeaveType.casual;
  from_date = 20_210;
  to_date = 20_213;
  days = 3;
  reason = none;
  status = LeaveStatus.pending;
  approved_by = none;
  rejected_by = none;
  rejection_note = none;
}

abbrev taken : Leave
taken = record wanted {
  id = 10;
  from_date = 20_200;
  to_date = 20_201;
  days = 2;
  status = LeaveStatus.approved;
  approved_by = some 9;
}

abbrev ravi : Staff
ravi = record {
  id = 4;
  tenant_id = 1;
  name = "Ravi";
  email = none;
  status = StaffStatus.active;
  basic_salary = 2_000_000;
  hra = 500_000;
  allowances = 100_000;
  pf_enabled = true;
  esic_enabled = false;
  tds_enabled = false;
}

abbrev office : StaffDb
office = record {
  staff = ravi ∷ [];
  attendances = [];
  leaves = taken ∷ wanted ∷ [];
  payrolls = [];
  slip_urls = [];
  jobs = [];
}

office-distinct : DistinctKeys leave_id office.leaves
office-distinct = ((ground arith, tt), (tt, tt))

business_days_example :
    (calculate_days_excluding_sundays 20_210 20_213
        + (sundays_before 20_214 - sundays_before 20_210)
      ≡ 4)
    × (count_days (4 + 7) 20_210 20_213 0 ≡ calculate_days_excluding_sundays 20_210 20_213)
business_days_example = business_days 20_210 20_213 7 (omega arith)

-- The Sunday is left out.
long_weekend : calculate_days_excluding_sundays 20_210 20_213 ≡ 3
unfolding calculate_days_excluding_sundays count_days
long_weekend = refl

approve_attendance_example :
    on_day 4 20_213 (approve 1 11 9 office).1.attendances ≡ some (on_leave 1 4 20_213 9 none)
approve_attendance_example = approve_attendance 1 11 9 office wanted 4 20_213 refl

-- The approval and then two requests on the leave that was approved before.
abbrev later : StaffDb
later = (reject 1 10 9 none (approve 1 10 9 (approve 1 11 9 office).1).1).1

afternoon : LeaveRequests office later
afternoon = after (after (after start (approves 11 9)) (approves 10 9)) (rejects 10 9 none)

decision_final_example : find_first (named leave_id 10) later.leaves ≡ some taken
decision_final_example = decision_final 10 taken office-distinct afternoon refl refl

approve_balance_example :
    (old new : LeaveType → Balance) × ((get_balance 1 4 20_089 20_453 office).0 ≡ ok old)
    × ((get_balance 1 4 20_089 20_453 (approve 1 11 9 office).1).0 ≡ ok new)
    × ((new LeaveType.casual).used ≡ (old LeaveType.casual).used + 3)
    × ((new LeaveType.casual).remaining
        ≡ leave_balances LeaveType.casual - (new LeaveType.casual).used)
approve_balance_example =
    approve_balance 1 11 9 4 20_089 20_453 LeaveType.casual office office-distinct refl refl

abbrev nine : Time
nine = record { hour = 9; minute = 0 }

abbrev evening : Time
evening = record { hour = 18; minute = 20 }

worked-IsNearest_example :
    (h : ℕ) × (worked exact nine evening ≡ pos h)
    × IsNearest (560 * 100) 60 h
    × (overtime_of (worked exact nine evening) ≡ h - 800)
worked-IsNearest_example = worked-IsNearest exact exact-IsRounding nine evening (omega arith)

-- One of the office, and one of another.
abbrev sheet : List AttendanceRecordDto
sheet =
    record {
      staff_id = 4;
      status = AttendanceStatus.present;
      check_in = some nine;
      check_out = some evening;
      note = none;
    }
    ∷ record {
      staff_id = 5;
      status = AttendanceStatus.absent;
      check_in = none;
      check_out = none;
      note = none;
    }
    ∷ []

bulk_mark_each_example :
    (r : BulkResult) × (bulk_mark exact 20_214 1 9 20_213 sheet office
      ≡ (ok r, mark_each exact 20_214 1 9 20_213 sheet office))
    × (r.marked + r.failed ≡ 2)
    × (length r.errors ≡ r.failed)
bulk_mark_each_example =
    bulk_mark_each exact 20_214 1 9 20_213 sheet office (omega arith)
      (both nine evening refl refl, (neither refl refl, tt))
