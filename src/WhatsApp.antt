-- ===== src/WhatsApp.antt =====
-- backend/src/whatsapp/whatsapp.service.ts: the state, the limits on messages, and the message that
-- every method sends. The methods are in Sending and Bulk.
--
-- A time is in seconds and a phone is the list of its characters' codes. The answer of Meta's API,
-- the id of the message or what it throws, is an argument of each request, and the texts of the
-- templates are left out.
pub mod Sending
pub mod Bulk
pub mod Effects
pub mod SendingEffects
pub mod History
pub mod Spacing
pub mod Daily
use Prim.Native.String.{String}
use biz_saathi.Prelude.{
  ℕ, ◌+◌, ◌*◌, ◌/◌, Bool, true, false, not, ◌&&◌, Option, none, some, List, [], ◌∷◌, ◌++◌, ltb, leb,
  ◌==◌, if◌then◌else◌, length,
}
use biz_saathi.Text.{codes}
use biz_saathi.Action.{
  Action, Result, Error, bad_request, too_many_requests, pure, gets, throw_if, modify, ◌>>=◌, ◌>>◌,
}
use biz_saathi.Records.{Db}
use biz_saathi.Workforce.{StaffDb}

-- What a message is about: `entityType`, `entityId` and `templateName`.
pub data WaContent : Type 0 where
  invoice_template : (invoice_id : ℕ) → WaContent
  reminder_template : (invoice_id : ℕ) → WaContent
  reminder_text : (invoice_id : ℕ) (text : String) → WaContent
  salary_slip_template : (payroll_id : ℕ) → WaContent
  plain_text : (text : String) → WaContent

-- A row of `WhatsAppMessage`, OUTBOUND and SENT.
pub record WaMessage : Type 0 where
  pub tenant_id : ℕ
  pub phone : List ℕ
  pub message_id : ℕ
  pub content : WaContent
  pub sent_at : ℕ

-- The keys `wa:rate:<tenant>:total:<day>`, which outlive their day.
pub record DayTotal : Type 0 where
  pub tenant_id : ℕ
  pub day : ℕ
  pub count : ℕ

-- The keys `wa:rate:<tenant>:<phone>:daily`, with the time at which they expire.
pub record Reminded : Type 0 where
  pub tenant_id : ℕ
  pub phone : List ℕ
  pub expires : ℕ

pub record WaDb : Type 0 where
  pub billing : Db
  pub payroll : StaffDb
  pub messages : List WaMessage
  pub totals : List DayTotal
  pub reminded : List Reminded

-- The day of a time, as `toISOString` gives it.
abbrev pub day_of : ℕ → ℕ
day_of now = now / 86_400

abbrev pub same_text : List ℕ → List ℕ → Bool
same_text [] [] = true
same_text (c ∷ s) (d ∷ t) = c == d && same_text s t
same_text _ _ = false

-- `replace(/\D/g, '')`.
abbrev pub only_digits : List ℕ → List ℕ
only_digits [] = []
only_digits (c ∷ s) = let rest = only_digits s in if leb 48 c && leb c 57 then c ∷ rest else rest

-- `formatPhone`.
unfoldable pub format_phone : List ℕ → List ℕ
format_phone phone =
    let cleaned = only_digits phone in
    if length cleaned == 10 then codes "91" ++ cleaned else cleaned

-- GET of a tenant's total, 0 where the key is missing.
abbrev pub total_on : (tenant day : ℕ) → List DayTotal → ℕ
total_on tenant day [] = 0
total_on tenant day (t ∷ ts) =
    if t.tenant_id == tenant && t.day == day then t.count else total_on tenant day ts

-- INCR.
abbrev pub count_message : (tenant day : ℕ) → List DayTotal → List DayTotal
count_message tenant day [] = record { tenant_id = tenant; day = day; count = 1 } ∷ []
count_message tenant day (t ∷ ts) =
    let rest = count_message tenant day ts in
    if t.tenant_id == tenant && t.day == day
    then record t { count = t.count + 1 } ∷ ts
    else t ∷ rest

-- The newest key of a phone comes first.
abbrev pub reminded_until : (tenant : ℕ) (phone : List ℕ) → List Reminded → Option ℕ
reminded_until tenant phone [] = none
reminded_until tenant phone (r ∷ rs) =
    if r.tenant_id == tenant && same_text r.phone phone
    then some r.expires
    else reminded_until tenant phone rs

abbrev pub is_live_key : (now : ℕ) → Option ℕ → Bool
is_live_key now none = false
is_live_key now (some expires) = ltb now expires

-- `checkRateLimits`.
unfoldable pub check_rate_limits :
    (now tenant : ℕ) (phone : List ℕ) (is_reminder : Bool) → Action WaDb (Unit {0})
check_rate_limits now tenant phone is_reminder = do
  total ← gets (λ db. total_on tenant (day_of now) db.totals)
  throw_if (leb 1000 total)
      (too_many_requests "Tenant daily WhatsApp message limit (1000) exceeded")
  until ← gets (λ db. reminded_until tenant phone db.reminded)
  throw_if (is_reminder && is_live_key now until) (
      bad_request
        "Rate limit exceeded: Only 1 reminder/marketing message allowed per recipient in 24 hours")

-- `incrementRateLimits`.
unfoldable pub increment_rate_limits :
    (now tenant : ℕ) (phone : List ℕ) (is_reminder : Bool) → Action WaDb (Unit {0})
increment_rate_limits now tenant phone is_reminder = do
  modify (λ db. record db { totals = count_message tenant (day_of now) db.totals })
  if is_reminder
      then modify (λ db. record db {
        reminded =
            record { tenant_id = tenant; phone = phone; expires = now + 86_400 } ∷ db.reminded;
      })
      else pure tt

-- What the methods do after their checks: the call of Meta's API, the row of the message, and the
-- limits.
unfoldable pub deliver :
    (now tenant : ℕ) (phone : List ℕ) → WaContent → (is_reminder : Bool) → Result ℕ → Action WaDb ℕ
deliver now tenant phone content is_reminder reply = do
  message_id ← λ db. (reply, db)
  let row : WaMessage = record {
    tenant_id = tenant;
    phone = phone;
    message_id = message_id;
    content = content;
    sent_at = now;
  }
  modify (λ db. record db { messages = db.messages ++ row ∷ [] })
  increment_rate_limits now tenant phone is_reminder
  pure message_id
