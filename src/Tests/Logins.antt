-- ===== src/Tests/Logins.antt =====
-- The authentication service on one phone.
use biz_saathi.Prelude.{◌≡◌, refl, none, List, [], ◌∷◌, arith, length, false, ℕ}
use biz_saathi.Action.{ok, err, bad_request, unauthorized}
use biz_saathi.Auth.{User, OtpVerification, AuthDb, owner}
use biz_saathi.Auth.Otps.{default_otp}
use biz_saathi.Auth.Tokens.{
  Fresh, TokenPair, generate_tokens, refresh_token, revoke, logout, new_token, verify_otp,
}
use biz_saathi.Auth.Guessing.{guess_each, guesses_lock}
use biz_saathi.Auth.Limits.{send_each, sends_limited}
use biz_saathi.Auth.Rotation.{begun, more, logs_out, refreshes, refresh_once}

abbrev asha : User
asha = record {
  id = 1;
  tenant_id = 7;
  phone = 98;
  name = none;
  email = none;
  avatar_url = none;
  role = owner;
  last_login_at = none;
}

abbrev password : OtpVerification
password = record {
  id = 1;
  phone = 98;
  otp = 482_913;
  expires_at = 600;
  attempts = 0;
  verified = false;
}

abbrev logins : AuthDb
logins = record {
  tenants = [];
  users = asha ∷ [];
  otps = password ∷ [];
  refresh_tokens = new_token 0 5 1 ∷ [];
  rate_limits = [];
  sessions = (1, 5) ∷ [];
  jobs = [];
}

abbrev next_pair : TokenPair
next_pair = record {
  access_token = record { sub = 1; tenant_id = 7; role = owner; phone = 98 };
  refresh_token = record { sub = 1; token_id = 6 };
}

abbrev refreshed : AuthDb
refreshed = (refresh_token 10 6 5 logins).1

refresh_run : (refresh_token 10 6 5 logins).0 ≡ ok next_pair
unfolding refresh_token generate_tokens revoke
refresh_run = refl

refresh_once_example : refresh_token 30 9 5 (logout 1 (refresh_token 20 8 6 refreshed).1).1 ≡ (
  err (unauthorized "Invalid or expired refresh token"),
  (logout 1 (refresh_token 20 8 6 refreshed).1).1,
)
refresh_once_example =
    refresh_once 10 6 5 30 9 logins (logout 1 (refresh_token 20 8 6 refreshed).1).1 next_pair
      refresh_run (more (more begun (refreshes 20 8 6)) (logs_out 1))

abbrev fresh_ids : Fresh
fresh_ids = record { tenant_id = 8; user_id = 2; token_id = 7; tenant_name = "Business - 98" }

abbrev guesses : List (ℕ × ℕ)
guesses = (10, 1) ∷ (11, 2) ∷ (12, 3) ∷ (13, 4) ∷ (14, 5) ∷ []

guesses_lock_example :
    verify_otp default_otp 20 fresh_ids 98 482_913 (guess_each default_otp 98 guesses logins) ≡ (
      err (bad_request "Maximum OTP attempts reached. Request a new OTP."),
      guess_each default_otp 98 guesses logins,
    )
guesses_lock_example =
    guesses_lock default_otp 98 482_913 600 guesses logins refl
      (record { code = refl; unused = refl; ends = refl; mine = refl })
      (
        (ground arith, ground arith),
        (
          (ground arith, ground arith),
          (
            (ground arith, ground arith),
            ((ground arith, ground arith), ((ground arith, ground arith), tt)),
          ),
        ),
      )
      (ground arith) fresh_ids 20 482_913 (ground arith)

sends_limited_example :
    length
      (send_each 98 default_otp ((0, 2, 1) ∷ (10, 3, 2) ∷ (20, 4, 3) ∷ (30, 5, 4) ∷ []) logins).otps
    ≡ 4
sends_limited_example =
    sends_limited default_otp 98 0 2 1 ((10, 3, 2) ∷ (20, 4, 3) ∷ (30, 5, 4) ∷ []) logins refl
      (ground arith, (ground arith, (ground arith, tt)))
