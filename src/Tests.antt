-- ===== src/Tests.antt =====
-- Runs of the services on small inputs, and the theorems at concrete inputs.
mod Shop
mod Invoices
mod Taxes
mod Salaries
mod Absences
mod Paydays
mod Logins
mod Reports
mod Words
mod Jobs
mod Reminders
mod Expenses
