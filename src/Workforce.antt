-- ===== src/Workforce.antt =====
-- The rows of backend/prisma/schema.prisma that the staff services read and write.
--
-- A date is the number of days since 1 January 1970, a Thursday; the requests' dates have no time of
-- day. An attendance row is named by its staff member and date, which are unique.
pub mod Days
pub mod Leaves
pub mod Approval
pub mod Decisions
pub mod Balances
pub mod Payrolls
pub mod Attendances
use Prim.Native.String.{String}
use biz_saathi.Prelude.{ℕ, Bool, Option, List, ℤ}
use biz_saathi.Records.{PaymentMethod}

-- `enum AttendanceStatus`.
pub data AttendanceStatus : Type 0 where
  present absent half_day holiday weekly_off on_leave : AttendanceStatus

-- `enum LeaveType`.
pub data LeaveType : Type 0 where
  casual sick earned maternity paternity unpaid : LeaveType

-- `enum LeaveStatus`.
pub data LeaveStatus : Type 0 where
  pending approved rejected cancelled : LeaveStatus

-- `enum StaffStatus`.
pub data StaffStatus : Type 0 where
  active staff_on_leave terminated resigned : StaffStatus

-- `enum PayrollStatus`.
pub data PayrollStatus : Type 0 where
  draft processed paid payroll_cancelled : PayrollStatus

-- Salaries in paise.
pub record Staff : Type 0 where
  pub id : ℕ
  pub tenant_id : ℕ
  pub name : String
  pub email : Option String
  pub status : StaffStatus
  pub basic_salary : ℕ
  pub hra : ℕ
  pub allowances : ℕ
  pub pf_enabled : Bool
  pub esic_enabled : Bool
  pub tds_enabled : Bool

-- Hours in hundredths, times in minutes of the date.
pub record Attendance : Type 0 where
  pub tenant_id : ℕ
  pub staff_id : ℕ
  pub date : ℕ
  pub status : AttendanceStatus
  pub check_in : Option ℕ
  pub check_out : Option ℕ
  pub hours_worked : Option ℤ
  pub overtime : Option ℕ
  pub note : Option String
  pub marked_by : ℕ

pub record Leave : Type 0 where
  pub id : ℕ
  pub tenant_id : ℕ
  pub staff_id : ℕ
  pub leave_type : LeaveType
  pub from_date : ℕ
  pub to_date : ℕ
  pub days : ℕ
  pub reason : Option String
  pub status : LeaveStatus
  pub approved_by : Option ℕ
  pub rejected_by : Option ℕ
  pub rejection_note : Option String

-- Days whole, amounts in paise, hours in hundredths; a month has a number.
pub record Payroll : Type 0 where
  pub id : ℕ
  pub tenant_id : ℕ
  pub staff_id : ℕ
  pub month : ℕ
  pub working_days : ℕ
  pub present_days : ℕ
  pub absent_days : ℕ
  pub leave_days : ℕ
  pub overtime_hours : ℕ
  pub basic_salary : ℕ
  pub hra : ℕ
  pub allowances : ℕ
  pub overtime_pay : ℕ
  pub bonus : ℕ
  pub gross_salary : ℕ
  pub pf_employee : ℕ
  pub pf_employer : ℕ
  pub esic_employee : ℕ
  pub esic_employer : ℕ
  pub tds : ℕ
  pub other_deductions : ℕ
  pub total_deductions : ℕ
  pub net_salary : ℤ
  pub status : PayrollStatus
  pub payment_method : PaymentMethod
  pub paid_at : Option ℕ
  pub slip_url : Option String
  pub note : Option String

-- The jobs that the payroll adds to the queues.
pub data StaffJob : Type 0 where
  generate_salary_slip : (payroll_id tenant_id staff_id month : ℕ) → StaffJob
  send_payslip_email : (payroll_id tenant_id : ℕ) (email : String) → StaffJob
  payroll_processed : (tenant_id month count : ℕ) → StaffJob
  payroll_paid : (tenant_id month count : ℕ) → StaffJob
  payroll_paid_single : (tenant_id payroll_id staff_id month : ℕ) → StaffJob

-- `slip_urls` holds the values of the keys `slip:<payroll>`.
pub record StaffDb : Type 0 where
  pub staff : List Staff
  pub attendances : List Attendance
  pub leaves : List Leave
  pub payrolls : List Payroll
  pub slip_urls : List (ℕ × String)
  pub jobs : List StaffJob
