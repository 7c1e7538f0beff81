-- ===== src/Tests/Reminders.antt =====
-- Messages to the shop's customers.
use biz_saathi.Prelude.{ℕ, ◌≡◌, ◌≤◌, refl, none, some, true, [], ◌∷◌, length}
use biz_saathi.Action.{Result, ok}
use biz_saathi.Table.{count_where}
use biz_saathi.Records.{Invoice}
use biz_saathi.WhatsApp.{WaDb, format_phone, check_rate_limits, increment_rate_limits, deliver}
use biz_saathi.WhatsApp.Sending.{send_reminder, send_invoice}
use biz_saathi.WhatsApp.Bulk.{send_bulk_reminders, remind_each, remind_one}
use biz_saathi.WhatsApp.History.{WaRequests, begun, more, reminds, invoices, bulk}
use biz_saathi.WhatsApp.Spacing.{Spaced, reminders-Spaced}
use biz_saathi.WhatsApp.Daily.{is_of_day, daily_limit}
use biz_saathi.Tests.Shop.{shop}

abbrev chats : WaDb
chats = record {
  billing = shop;
  payroll = record {
    staff = [];
    attendances = [];
    leaves = [];
    payrolls = [];
    slip_urls = [];
    jobs = [];
  };
  messages = [];
  totals = [];
  reminded = [];
}

-- Meta's API answers every call, in this second.
abbrev answers : Invoice → ℕ × Result ℕ
answers inv = (100, ok inv.id)

abbrev after_first : WaDb
after_first = (send_reminder 50 1 5 none (ok 1) chats).1

abbrev after_bulk : WaDb
after_bulk = (send_bulk_reminders 1 (5 ∷ []) (λ d. true) answers after_first).1

abbrev after_all : WaDb
after_all = (send_invoice 90_000 1 5 none true (some "https://files/5.pdf") (ok 3) after_bulk).1

chat_requests : WaRequests chats after_all
chat_requests =
    more (more (more begun (reminds 50 1 5 none (ok 1))) (bulk 1 (5 ∷ []) (λ d. true) answers))
      (invoices 90_000 1 5 none true (some "https://files/5.pdf") (ok 3))

-- The bulk reminder skips the phone, so that two messages are sent.
two_messages : length after_all.messages ≡ 2
unfolding send_invoice send_bulk_reminders remind_each remind_one send_reminder check_rate_limits
    deliver increment_rate_limits format_phone
two_messages = refl

reminders-Spaced_example : Spaced after_all.messages
reminders-Spaced_example = reminders-Spaced chats after_all refl chat_requests

daily_limit_example : count_where (is_of_day 1 1) after_all.messages ≤ 1000
daily_limit_example = daily_limit chats after_all refl refl chat_requests 1 1
