-- ===== src/Lib.antt =====
-- The billing, payroll, authentication and messages of the BizSaathi backend: the NestJS services under
-- backend/src, and the worker under backend/worker-service.
--
-- The services keep their state in a database (backend/prisma/schema.prisma), in Redis and in queues
-- of jobs. Here that state is the record `Db` of Records.antt, and a method of a service is an
-- `Action` (Action.antt): a function from the state to a result, or the exception that it throws, and
-- the state after it. Every request is such an action, and a history is a sequence of them.
--
-- The queries of Prisma and the commands of Redis are functions on the tables of that state.
--
-- Shared: Prelude.antt and its children (tests, lists, integers), Table.antt (the queries `findFirst`,
-- `update` and so on), Text.antt (texts that the code builds from numbers).
--
-- Packages, as parameters with their documented laws and a concrete instance each:
--   Rounding.antt          `toDecimalPlaces(2)` of decimal.js, half even and half up.
--   Payroll/Division.antt  a quotient of decimal.js, which keeps 20 digits.
--   Double.antt            JavaScript's numbers, where addPayment and the reports add and compare
--                          them; a sum may round. Double/Exact.antt is an instance for the tests.
--
-- backend/src/invoice:
--   Gst.antt               gst.service.ts: `calculate_item_gst` is calculateItemGst, and
--                          `summarize_invoice` is summarizeInvoice. Gst/Taxes.antt and
--                          Gst/Totals.antt hold their properties.
--   InvoiceNumber.antt     invoice-number.service.ts: `next_number` is generateNextInvoiceNumber.
--   Invoice.antt           invoice.service.ts: the requests' data and the amounts of the items.
--     Invoice/Draft        create, update, send and remove; Invoice/Payments is addPayment.
--     Invoice/Pdf          generatePdf; Invoice/Reports: getGstSummary, getGstr1 and the figures of
--                          getDashboard, in any arithmetic, with the months in Months, the buckets of
--                          the summary in ByRate and the groups in Gstr1.
--     Invoice/Totalled     the stored totals against the stored items.
--     Invoice/Outcomes     what addPayment returns and writes on each branch, and DraftOutcomes the
--                          other methods; Invariant, DraftInvariant, Effects, History and Ledger build
--                          on them.
--   An invoice's creation calls the tax and the number services; a payment changes the paid amount
--   and the status, which editing, sending and removing then test.
--
-- backend/src/payroll:
--   Payroll/Calculator     payroll-calculator.service.ts: `calculate` and `calculate_tds`, with the
--                          tax in Payroll/Tds and the slip in Payroll/Payslip.
--
-- backend/src/leave and the payroll runs (Workforce.antt holds the rows, in the state `StaffDb`):
--   Workforce/Days         the loop of calculateDaysExcludingSundays, against the number of Sundays.
--   Workforce/Leaves       leave.service.ts: `apply`, `approve`, `reject`, `get_balance`.
--   Workforce/Attendances  backend/src/attendance/attendance.service.ts: `mark` and `bulk_mark`, with
--                          the hours in Hours and the comparison of the two in Bulk.
--   Workforce/Approval     what an approval does to the attendance; Workforce/Decisions and
--                          Workforce/Balances: sequences of requests, and the balance.
--   Workforce/Payrolls     backend/src/payroll/payroll.service.ts: `process`, `update_one`, `pay_all`,
--                          `pay_single`, `get_slip`, in Processing and Settling. Upkeep and
--                          Writing hold what a write keeps of the payrolls and the writes of each
--                          request, Runs the sequences of requests, and Edits what an edit makes of
--                          a new payroll.
--   Table/Keys             rows that a unique key names; Table/Filtered: what `findMany` gives.
--   A leave's approval writes the attendance from which the payroll counts the days.
--
-- backend/src/auth (Auth.antt holds the rows, in the state `AuthDb`):
--   Auth/Otps              auth.service.ts: `send_otp` is sendOtp with its rate limit, `check_otp` the
--                          part of verifyOtp that checks the password.
--   Auth/Tokens            `verify_otp`, `generate_tokens`, `refresh_token` and `logout`.
--   Auth/Accounts          `setup_business`, `update_profile` and `get_profile`.
--   Auth/Rotation, Auth/Guessing and Auth/Limits: refresh tokens over sequences of requests, wrong
--   guesses, and the limit on passwords sent.
--   The address that `setup_business` composes is the one that the invoices' `is_inter_state` reads.
--
-- backend/src/whatsapp:
--   WhatsApp               whatsapp.service.ts: the state `WaDb`, `check_rate_limits`,
--                          `increment_rate_limits`, and `deliver`, the steps that every method ends in.
--     WhatsApp/Sending     `send_invoice`, `send_reminder`, `send_salary_slip`, `send_direct_text`;
--     WhatsApp/Bulk        `send_bulk_reminders`.
--     WhatsApp/Effects     what a method may do to the messages and the limits, and SendingEffects what
--                          each does; History: sequences of requests; Spacing and Daily: the two limits
--                          over them.
--   It reads the invoices, customers and tenants of the billing, and the payrolls.
--
-- backend/src/common/utils and backend/worker-service:
--   Words                  amount-to-words.util.ts, on fixed arrays; Words/Reading reads texts, and
--                          Words/Spelled and Words/RoundTrip put the two together.
--   Worker/Retry           worker-service/src/utils/retry.ts: the loop recurs on the attempts left.
--   Worker/Overdue         the job invoice:overdue:check of processors/invoice.processor.ts, on the
--                          invoices of the billing.
--
-- backend/src/expense and backend/src/category (Expense.antt holds the rows, in the state `ExpenseDb`):
--   Expense                expense.service.ts: `create_expense`, `update_expense`, `remove_expense`.
--     Expense/Categories   category.service.ts; Expense/Analytics: expense-analytics.service.ts.
--     Expense/Columns      the rounding of a sum and of its parts by the columns.
--     Expense/Filing       what the methods keep of the expenses, Expense/Catalogue of the categories;
--                          Expense/History: sequences of requests; Expense/ByCategory: the totals.
--   The removal of a category counts the expenses filed under it; the profit reads the invoices.
--
-- Units: amounts are whole numbers of paise, quantities thousandths, rates and discounts hundredths
-- of a percent, as the columns store them. Identifiers are opaque and stand as numbers, texts that the
-- code builds as lists of character codes. The digits of a number are computed on fuel one above the
-- number, which is enough since each round divides it by ten. A loop over dates runs on the number of
-- dates, which is enough since each round passes one. A date of the staff is a number of days, without
-- a time of day, and the server's clock is at UTC, where `getDay` and the columns agree; an invoice's
-- date has its time of day.
--
-- The payroll's sums of hours and of net salaries are exact here, where the code adds doubles of two
-- decimals; the choice of a new id (`fresh_id`), the PDF of a slip (`generate`) and the first and last
-- date of a month (`Period`) are arguments. The components of a salary, bonuses and deductions are not
-- negative. A staff member of a payroll exists, by the foreign key.
--
-- Left out: the errors of single records that bulkMark would catch; the driver's errors, also where
-- it refuses a result beyond its column, but that `Fits` asks that an invoice's total is none; the
-- balance in the text of the overpayment error; the amounts in the payloads of the payment events
-- and of the sweep's jobs; the customer's name that addPayment loads and does not use; the time to
-- live of the cached dashboards, PDF addresses and slips. The uniqueness of fresh identifiers is a
-- hypothesis of `creates`, a payment of at least one rupee one of `pays`, as the DTO asks; what the
-- totals need of the items (`IsPriced`: a discount of at most 100%, a tax rate that is not
-- negative, a total that fits), which the API does not ask for, is one of the property that needs
-- it and of no other. The amounts of an expense's request may be finer than a paisa; a column keeps
-- the nearest one, and at a half the one away from 0. Signed tokens, hashes and random numbers are
-- the packages' work: tokens stand by what they are signed from. The texts of WhatsApp templates
-- are left out, and so is what runs between the check of a limit and its increment in another
-- request: requests come one after another.
--
-- Not modelled: the pages that findAll and getMessages give, getMessageStats, the lists and the cached
-- value of getDashboard, the profit margin, and the methods of other services that only read, but for
-- getBalance; customers, products, staff; the other processors of the worker and the WhatsApp bot;
-- controllers, the PDF layout, the frontend and the services in Go and Python.
mod Prelude
pub mod Rounding
pub mod Double
pub mod Gst
pub mod Action
pub mod Records
pub mod Table
pub mod Text
pub mod InvoiceNumber
pub mod Invoice
pub mod Payroll
pub mod Workforce
pub mod Auth
pub mod Words
pub mod Worker
pub mod WhatsApp
pub mod Expense
mod Tests
