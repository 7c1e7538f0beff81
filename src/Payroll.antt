-- ===== src/Payroll.antt =====
-- backend/src/payroll.
pub mod Division
pub mod Calculator
pub mod Tds
pub mod Payslip
