-- ===== src/Workforce/Payrolls/Edits.antt =====
-- What `updateOne` makes of a payroll that `process` has stored.
use biz_saathi.Prelude.{none}
use biz_saathi.Rounding.{Rounding}
use biz_saathi.Payroll.Division.{Division}
use biz_saathi.Workforce.Payrolls.{UpdatePayroll}

-- A request that changes nothing.
abbrev pub no_change : UpdatePayroll
no_change = record { bonus = none; other_deductions = none; note = none }
