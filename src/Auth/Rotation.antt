-- ===== src/Auth/Rotation.antt =====
-- A refresh token is used once.
use biz_saathi.Prelude.{
  ℕ, ◌≡◌, refl, true, ◌||◌, Option, none, some, arith, ltb, leb, ◌==◌, if◌then◌else◌, Bool-cases,
  Option-cases, inl, inr,
}
use biz_saathi.Action.{Action, Result, ok, err, unauthorized, continue}
use biz_saathi.Table.{find_first, find_first_sound, find_last, update_where}
use biz_saathi.Table.Keys.{find_first-snoc, find_first-update}
use biz_saathi.Records.{Tenant}
use biz_saathi.Auth.{User, RefreshToken, AuthDb}
use biz_saathi.Auth.Otps.{OtpConfig, is_open, send_otp, attempts_of, count_request, check_otp}
use biz_saathi.Auth.Tokens.{
  TokenPair, Fresh, session_of, has_token, revoked, revoke, generate_tokens, refresh_token,
  close_session, logout, sign_in, verify_otp,
}
use biz_saathi.Auth.Accounts.{BusinessSetupDto, UpdateProfileDto, setup_business, update_profile}

-- The token of an id is revoked.
abbrev pub IsRevoked : ℕ → AuthDb → Type 0
IsRevoked id db =
    (t : RefreshToken) × (find_first (has_token id) db.refresh_tokens ≡ some t)
    × (t.is_revoked ≡ true)

-- What an action keeps.
abbrev Keeps : ℕ → AuthDb → AuthDb → Type 0
Keeps id a b = IsRevoked id a → IsRevoked id b

continue-Keeps :
    {A B : Type 0} (id : ℕ) (r : Result A) (k : A → Action AuthDb B) (a db : AuthDb)
    → Keeps id a db
    → ((x : A) → Keeps id db (k x db).1)
    → Keeps id a (continue r k db).1
continue-Keeps id (ok x) k a db w next h = next x (w h)
continue-Keeps id (err e) k a db w next h = w h

generate_tokens-Keeps :
    (id now new : ℕ) (u : User) (db : AuthDb) → Keeps id db (generate_tokens now new u db).1
unfolding generate_tokens
generate_tokens-Keeps id now new u db (t, found, gone) =
    (t, find_first-snoc (λ (x : RefreshToken). x.id) (has_token id) db.refresh_tokens _ found, gone)

revoke-Keeps : (id other : ℕ) (db : AuthDb) → Keeps id db (revoke other db).1
unfolding revoke
revoke-Keeps id other db (t, found, gone) = (
  (if has_token other t then revoked t else t),
  find_first-update (λ (x : RefreshToken). x.id) other id revoked db.refresh_tokens (λ x. refl)
      found,
  ground arith,
)

same-Keeps : (id : ℕ) (a b : AuthDb) → b.refresh_tokens ≡ a.refresh_tokens → Keeps id a b
same-Keeps id a b e (t, found, gone) = (t, rw e found, gone)

refresh_token-Keeps :
    (id now new other : ℕ) (db : AuthDb) → Keeps id db (refresh_token now new other db).1
unfolding refresh_token revoke
refresh_token-Keeps id now new other db h =
    elim (Option-cases (find_first (has_token other) db.refresh_tokens)) [
      | inl e ↦ rw e h
      | inr (t, e) ↦ elim (Bool-cases (t.is_revoked || ltb t.expires_at now)) [
        | inl bad ↦ rw e (rw bad h)
        | inr good ↦ elim (Option-cases (find_first (λ (u : User). u.id == t.user_id) db.users)) [
          | inl none_ ↦ rw e (rw good (rw none_ (revoke-Keeps id other db h)))
          | inr (u, found) ↦ rw e (
              rw good
                (rw found (generate_tokens-Keeps id now new u _ (revoke-Keeps id other db h))))
        ]
      ]
    ]

close_session-Keeps :
    (id user : ℕ) (s : Option ℕ) (db : AuthDb) → Keeps id db (close_session s user db).1
unfolding revoke
close_session-Keeps id user none db h = h
close_session-Keeps id user (some token) db h = revoke-Keeps id token db h

logout-Keeps : (id user : ℕ) (db : AuthDb) → Keeps id db (logout user db).1
unfolding logout
logout-Keeps id user db = close_session-Keeps id user (session_of user db.sessions) db

check_otp-same :
    (config : OtpConfig) (now phone otp : ℕ) (db : AuthDb)
    → (check_otp config now phone otp db).1.refresh_tokens ≡ db.refresh_tokens
unfolding check_otp
check_otp-same config now phone otp db =
    elim (Option-cases (find_last (is_open now phone) db.otps)) [
      | inl e ↦ rw e
      | inr (o, e) ↦ elim (Bool-cases (leb config.max_attempts o.attempts)) [
        | inl many ↦ rw e (rw many)
        | inr few ↦ elim (Bool-cases (o.otp == otp)) [
          | inl right ↦ rw e (rw few (rw right))
          | inr wrong ↦ rw e (rw few (rw wrong))
        ]
      ]
    ]

sign_in-same :
    (now : ℕ) (fresh : Fresh) (phone : ℕ) (u : Option User) (db : AuthDb)
    → (sign_in now fresh phone u db).1.refresh_tokens ≡ db.refresh_tokens
sign_in-same now fresh phone none db = refl
sign_in-same now fresh phone (some u) db = refl

verify_otp-Keeps :
    (id : ℕ) (config : OtpConfig) (now : ℕ) (fresh : Fresh) (phone otp : ℕ) (db : AuthDb)
    → Keeps id db (verify_otp config now fresh phone otp db).1
unfolding verify_otp
verify_otp-Keeps id config now fresh phone otp db =
    let checked = (check_otp config now phone otp db).1 in
    let known = find_first (λ (u : User). u.phone == phone) checked.users in
    let signed = sign_in now fresh phone known checked in
    continue-Keeps id (check_otp config now phone otp db).0 _ db checked
      (same-Keeps id db checked (check_otp-same config now phone otp db))
      (λ _.
        continue-Keeps id signed.0 _ checked signed.1
          (same-Keeps id checked signed.1 (sign_in-same now fresh phone known checked))
          (λ who.
            continue-Keeps id (generate_tokens now fresh.token_id who.0 signed.1).0 _ signed.1
              (generate_tokens now fresh.token_id who.0 signed.1).1
              (generate_tokens-Keeps id now fresh.token_id who.0 signed.1) (λ _ h. h)))

send_otp-Keeps :
    (id : ℕ) (config : OtpConfig) (now otp_id otp phone : ℕ) (db : AuthDb)
    → Keeps id db (send_otp config now otp_id otp phone db).1
unfolding send_otp
send_otp-Keeps id config now otp_id otp phone db h =
    elim (Bool-cases (ltb 3 (attempts_of phone (count_request now phone db.rate_limits)))) [
      | inl e ↦ rw e h
      | inr e ↦ rw e h
    ]

setup_business-Keeps :
    (id tenant : ℕ) (dto : BusinessSetupDto) (db : AuthDb)
    → Keeps id db (setup_business tenant dto db).1
unfolding setup_business
setup_business-Keeps id tenant dto db h =
    elim (Option-cases (find_first (λ (t : Tenant). t.id == tenant) db.tenants)) [
      | inl e ↦ rw e h
      | inr (t, e) ↦ rw e h
    ]

update_profile-Keeps :
    (id user : ℕ) (dto : UpdateProfileDto) (db : AuthDb)
    → Keeps id db (update_profile user dto db).1
unfolding update_profile
update_profile-Keeps id user dto db h =
    elim (Option-cases (find_first (λ (u : User). u.id == user) db.users)) [
      | inl e ↦ rw e h
      | inr (u, e) ↦ rw e h
    ]

-- One request to the service.
pub data AuthRequest (db : AuthDb) : AuthDb → Type 0 where
  sends :
      (config : OtpConfig) (now otp_id otp phone : ℕ)
      → AuthRequest db (send_otp config now otp_id otp phone db).1
  verifies :
      (config : OtpConfig) (now : ℕ) (fresh : Fresh) (phone otp : ℕ)
      → AuthRequest db (verify_otp config now fresh phone otp db).1
  refreshes : (now new token : ℕ) → AuthRequest db (refresh_token now new token db).1
  logs_out : (user : ℕ) → AuthRequest db (logout user db).1
  sets_up : (tenant : ℕ) (dto : BusinessSetupDto) → AuthRequest db (setup_business tenant dto db).1
  edits_profile :
      (user : ℕ) (dto : UpdateProfileDto) → AuthRequest db (update_profile user dto db).1

pub data AuthRequests (db : AuthDb) : AuthDb → Type 0 where
  begun : AuthRequests db db
  more : {a b : AuthDb} → AuthRequests db a → AuthRequest a b → AuthRequests db b

AuthRequest-Keeps : (id : ℕ) {a b : AuthDb} → AuthRequest a b → IsRevoked id a → IsRevoked id b
AuthRequest-Keeps id {a} (sends config now otp_id otp phone) =
    send_otp-Keeps id config now otp_id otp phone a
AuthRequest-Keeps id {a} (verifies config now fresh phone otp) =
    verify_otp-Keeps id config now fresh phone otp a
AuthRequest-Keeps id {a} (refreshes now new token) = refresh_token-Keeps id now new token a
AuthRequest-Keeps id {a} (logs_out user) = logout-Keeps id user a
AuthRequest-Keeps id {a} (sets_up tenant dto) = setup_business-Keeps id tenant dto a
AuthRequest-Keeps id {a} (edits_profile user dto) = update_profile-Keeps id user dto a

AuthRequests-Keeps : (id : ℕ) {a b : AuthDb} → AuthRequests a b → IsRevoked id a → IsRevoked id b
AuthRequests-Keeps id begun h = h
AuthRequests-Keeps id (more rs r) h = AuthRequest-Keeps id r (AuthRequests-Keeps id rs h)

refresh_token-refused :
    (now new id : ℕ) (db : AuthDb)
    → IsRevoked id db
    → refresh_token now new id db ≡ (err (unauthorized "Invalid or expired refresh token"), db)
unfolding refresh_token
refresh_token-refused now new id db (t, found, gone) = rw found (rw gone)

-- A refresh that gives tokens has revoked the token that it was asked with.
refresh_token-revokes :
    (now new id : ℕ) (db : AuthDb) (pair : TokenPair)
    → (refresh_token now new id db).0 ≡ ok pair
    → IsRevoked id (refresh_token now new id db).1
unfolding refresh_token revoke
refresh_token-revokes now new id db pair h =
    elim (Option-cases (find_first (has_token id) db.refresh_tokens)) [
      | inl e ↦ absurd (let k = rw e at h in cc)
      | inr (t, e) ↦ elim (Bool-cases (t.is_revoked || ltb t.expires_at now)) [
        | inl bad ↦ absurd (let k = rw (e, bad) at h in cc)
        | inr good ↦ elim (Option-cases (find_first (λ (u : User). u.id == t.user_id) db.users)) [
          | inl none_ ↦ absurd (let k = rw (e, good, none_) at h in cc)
          | inr (u, found) ↦
              let here : has_token id t ≡ true =
                find_first_sound (has_token id) db.refresh_tokens e in
              let kept =
                find_first-update (λ (x : RefreshToken). x.id) id id revoked db.refresh_tokens
                  (λ x. refl) e in
              let now_revoked : find_first (has_token id)
                    (update_where (has_token id) revoked db.refresh_tokens)
                  ≡ some (revoked t) =
                rw here at kept in
              rw e (
                rw good
                  (rw found (generate_tokens-Keeps id now new u _ (revoked t, now_revoked, refl))))
        ]
      ]
    ]

-- Once a refresh has given tokens, every later refresh with the same token is refused and changes
-- nothing, whatever requests come between.
pub refresh_once :
    (now new id later newer : ℕ) (db after : AuthDb) (pair : TokenPair)
    → (refresh_token now new id db).0 ≡ ok pair
    → AuthRequests (refresh_token now new id db).1 after
    → refresh_token later newer id after
      ≡ (err (unauthorized "Invalid or expired refresh token"), after)
refresh_once now new id later newer db after pair h rs =
    refresh_token-refused later newer id after
      (AuthRequests-Keeps id rs (refresh_token-revokes now new id db pair h))
