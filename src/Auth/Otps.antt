-- ===== src/Auth/Otps.antt =====
-- `sendOtp` of auth.service.ts, and the part of `verifyOtp` that checks the password.
use Prim.Native.String.{String}
use text.Mathlib.Text.{◌==◌ as str_eq}
use biz_saathi.Prelude.{
  ℕ, ◌+◌, ◌/◌, Bool, true, false, not, ◌&&◌, Option, none, some, List, [], ◌∷◌, ◌++◌, leb, ltb,
  ◌==◌, if◌then◌else◌,
}
use biz_saathi.Action.{
  Action, bad_request, throw, pure, gets, or_throw, throw_if, modify, ◌>>=◌, ◌>>◌,
}
use biz_saathi.Table.{find_first, find_last, update_where}
use biz_saathi.Auth.{
  User, OtpVerification, RateLimit, AuthJob, send_otp_whatsapp, send_otp_email, AuthDb,
}

-- `otp.expirySeconds` and `otp.maxAttempts`, with the values where the environment has none.
pub record OtpConfig : Type 0 where
  pub expiry_seconds : ℕ
  pub max_attempts : ℕ

abbrev pub default_otp : OtpConfig
default_otp = record { expiry_seconds = 600; max_attempts = 5 }

-- A key that has not expired.
abbrev pub is_live : (now : ℕ) → Option ℕ → Bool
is_live now none = true
is_live now (some t) = ltb now t

-- INCR: a missing or expired key counts from 0 and has no expiry.
abbrev pub incremented : (now : ℕ) → RateLimit → RateLimit
incremented now r =
    if is_live now r.expires
    then record r { attempts = r.attempts + 1 }
    else record r { attempts = 1; expires = none }

unfoldable pub incr_limit : (now phone : ℕ) → List RateLimit → List RateLimit
incr_limit now phone [] = record { phone = phone; attempts = 1; expires = none } ∷ []
incr_limit now phone (r ∷ rs) =
    let rest = incr_limit now phone rs in
    if r.phone == phone then incremented now r ∷ rs else r ∷ rest

-- EXPIRE.
unfoldable pub expire_limit : (phone at : ℕ) → List RateLimit → List RateLimit
expire_limit phone at [] = []
expire_limit phone at (r ∷ rs) =
    let rest = expire_limit phone at rs in
    if r.phone == phone then record r { expires = some at } ∷ rs else r ∷ rest

abbrev pub attempts_of : (phone : ℕ) → List RateLimit → ℕ
attempts_of phone [] = 0
attempts_of phone (r ∷ rs) = if r.phone == phone then r.attempts else attempts_of phone rs

-- The keys after the request is counted: the first one opens a window of ten minutes.
unfoldable pub count_request : (now phone : ℕ) → List RateLimit → List RateLimit
count_request now phone limits =
    let counted = incr_limit now phone limits in
    if attempts_of phone counted == 1 then expire_limit phone (now + 600) counted else counted

abbrev pub email_of : Option User → Option String
email_of none = none
email_of (some u) = u.email

abbrev pub email_jobs : Option String → (phone otp minutes : ℕ) → List AuthJob
email_jobs none phone otp minutes = []
email_jobs (some e) phone otp minutes =
    if str_eq e "" then [] else send_otp_email phone e otp minutes ∷ []

-- The row that `sendOtp` stores.
abbrev pub new_otp : OtpConfig → (now otp_id otp phone : ℕ) → OtpVerification
new_otp config now otp_id otp phone = record {
  id = otp_id;
  phone = phone;
  otp = otp;
  expires_at = now + config.expiry_seconds;
  attempts = 0;
  verified = false;
}

-- `sendOtp`; the password and the row's id are chosen by their generators.
unfoldable pub send_otp : OtpConfig → (now otp_id otp phone : ℕ) → Action AuthDb ℕ
send_otp config now otp_id otp phone = do
  modify (λ db. record db { rate_limits = count_request now phone db.rate_limits })
  attempts ← gets (λ db. attempts_of phone db.rate_limits)
  throw_if (ltb 3 attempts) (bad_request "Maximum OTP requests reached. Please try again later.")
  let row = new_otp config now otp_id otp phone
  modify (λ db. record db { otps = db.otps ++ row ∷ [] })
  user ← gets (λ db. find_first (λ (u : User). u.phone == phone) db.users)
  let minutes = (config.expiry_seconds + 59) / 60
  modify (λ db. record db {
    jobs =
        db.jobs
        ++ send_otp_whatsapp phone otp minutes ∷ []
        ++ email_jobs (email_of user) phone otp minutes;
  })
  pure config.expiry_seconds

-- The rows that `verifyOtp` looks for, of which it takes the last created.
abbrev pub is_open : (now phone : ℕ) → OtpVerification → Bool
is_open now phone o = o.phone == phone && not o.verified && ltb now o.expires_at

abbrev pub missed : OtpVerification → OtpVerification
missed o = record o { attempts = o.attempts + 1 }

abbrev pub passed : OtpVerification → OtpVerification
passed o = record o { verified = true }

abbrev pub rewrite_otp : ℕ → (OtpVerification → OtpVerification) → AuthDb → AuthDb
rewrite_otp id f db = record db {
  otps = update_where (λ (o : OtpVerification). o.id == id) f db.otps;
}

-- The first half of `verifyOtp`, up to the row being marked verified.
unfoldable pub check_otp : OtpConfig → (now phone otp : ℕ) → Action AuthDb (Unit {0})
check_otp config now phone otp = do
  found ← gets (λ db. find_last (is_open now phone) db.otps)
  o ← or_throw found (bad_request "OTP has expired or does not exist. Please request a new one.")
  throw_if (leb config.max_attempts o.attempts)
      (bad_request "Maximum OTP attempts reached. Request a new OTP.")
  if o.otp == otp
      then modify (rewrite_otp o.id passed)
      else (modify (rewrite_otp o.id missed) >> throw (bad_request "Invalid OTP"))
