-- ===== src/WhatsApp/Effects.antt =====
-- What a method of whatsapp.service.ts does to the messages and to the keys of the limits.
use Prim.Native.String.{String}
use biz_saathi.Prelude.{
  ℕ, ◌+◌, ◌<◌, ◌≡◌, refl, ap, ◌⊎◌, inl, inr, Bool, true, false, ◌&&◌, Option, none, some, List, [],
  ◌∷◌, ◌++◌, arith, leb, if◌then◌else◌, Bool-cases,
}
use biz_saathi.Action.{Result, Error, ok, err, bad_request, too_many_requests}
use biz_saathi.WhatsApp.{
  WaContent, reminder_template, reminder_text, WaMessage, WaDb, Reminded, day_of, total_on,
  count_message, reminded_until, is_live_key, check_rate_limits, increment_rate_limits, deliver,
}
use biz_saathi.WhatsApp.Sending.{store_pdf}

-- The messages that count as reminders.
abbrev pub is_about_reminder : WaContent → Bool
is_about_reminder (reminder_template id) = true
is_about_reminder (reminder_text id text) = true
is_about_reminder _ = false

abbrev pub message_at : (now tenant : ℕ) → List ℕ → WaContent → (message_id : ℕ) → WaMessage
message_at now tenant phone content message_id = record {
  tenant_id = tenant;
  phone = phone;
  message_id = message_id;
  content = content;
  sent_at = now;
}

abbrev pub reminded_after : (now tenant : ℕ) → List ℕ → Bool → List Reminded → List Reminded
reminded_after now tenant phone is_reminder rs =
    if is_reminder
    then record { tenant_id = tenant; phone = phone; expires = now + 86_400 } ∷ rs
    else rs

-- The messages and the keys stay.
pub record IsSilent (before after : WaDb) : Type 0 where
  pub messages : after.messages ≡ before.messages
  pub totals : after.totals ≡ before.totals
  pub reminded : after.reminded ≡ before.reminded

-- The limits allow a message.
pub record IsAllowed (now tenant : ℕ) (phone : List ℕ) (is_reminder : Bool) (db : WaDb)
    : Type 0 where
  pub below : total_on tenant (day_of now) db.totals < 1000
  pub free : (is_reminder && is_live_key now (reminded_until tenant phone db.reminded)) ≡ false

pub data WaEffect (now : ℕ) (before after : WaDb) : Type 0 where
  silent : IsSilent before after → WaEffect now before after
  delivered :
      (tenant : ℕ) (phone : List ℕ) (content : WaContent) (message_id : ℕ)
      → IsAllowed now tenant phone (is_about_reminder content) before
      → after.messages ≡ before.messages ++ message_at now tenant phone content message_id ∷ []
      → after.totals ≡ count_message tenant (day_of now) before.totals
      → after.reminded ≡ reminded_after now tenant phone (is_about_reminder content) before.reminded
      → WaEffect now before after

pub same_db : (db : WaDb) → IsSilent db db
same_db db = record { messages = refl; totals = refl; reminded = refl }

module _ (now tenant : ℕ) (phone : List ℕ) (is_reminder : Bool) (db : WaDb) where
  pub check-cases :
      ((e : Error) × (check_rate_limits now tenant phone is_reminder db ≡ (err e, db)))
      ⊎ (IsAllowed now tenant phone is_reminder db
          × (check_rate_limits now tenant phone is_reminder db ≡ (ok tt, db)))
  unfolding check_rate_limits
  check-cases = elim (Bool-cases (leb 1000 (total_on tenant (day_of now) db.totals))) [
    | inl e ↦
        inl (too_many_requests "Tenant daily WhatsApp message limit (1000) exceeded", rw e refl)
    | inr e ↦
        elim (Bool-cases
          (is_reminder && is_live_key now (reminded_until tenant phone db.reminded))) [
            | inl k ↦ inl (
              bad_request
                  "Rate limit exceeded: Only 1 reminder/marketing message allowed per recipient in 24 hours",
              rw e (rw k refl),
            )
            | inr k ↦ inr (record { below = ground arith; free = k }, rw e (rw k refl))
          ]
  ]

module _ (now tenant : ℕ) (phone : List ℕ) (content : WaContent) (db mid : WaDb)
    (same : IsSilent db mid) where
  pub deliver-Effect :
      (reply : Result ℕ)
      → IsAllowed now tenant phone (is_about_reminder content) db
      → WaEffect now db (deliver now tenant phone content (is_about_reminder content) reply mid).1
  unfolding deliver increment_rate_limits
  deliver-Effect (err e) allowed = silent same
  deliver-Effect (ok message_id) allowed = elim (Bool-cases (is_about_reminder content)) [
    | inl e ↦ rw e (
        delivered tenant phone content message_id allowed
          (ap (λ l. l ++ message_at now tenant phone content message_id ∷ []) same.messages)
          (ap (count_message tenant (day_of now)) same.totals)
          (rw e (
            ap (λ l. record { tenant_id = tenant; phone = phone; expires = now + 86_400 } ∷ l)
              same.reminded)))
    | inr e ↦ rw e (
        delivered tenant phone content message_id allowed
          (ap (λ l. l ++ message_at now tenant phone content message_id ∷ []) same.messages)
          (ap (count_message tenant (day_of now)) same.totals) (rw e same.reminded))
  ]

pub store_pdf-ok :
    (wanted : Bool) (id : ℕ) (pdf : Option String) (db : WaDb)
    → ((store_pdf wanted id pdf db).0 ≡ ok tt) × IsSilent db (store_pdf wanted id pdf db).1
store_pdf-ok wanted id none db = (refl, same_db db)
store_pdf-ok true id (some url) db =
    (refl, record { messages = refl; totals = refl; reminded = refl })
store_pdf-ok false id (some url) db = (refl, same_db db)
