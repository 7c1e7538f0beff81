-- ===== src/Auth/Limits.antt =====
-- How many passwords a phone gets in a window of ten minutes.
use mathlib.Core.Option.{some-injective}
use biz_saathi.Prelude.{
  ℕ, ◌+◌, ◌≤◌, ◌<◌, ◌≡◌, refl, ap, min, true, false, Option, none, some, List, [], ◌∷◌, arith, ltb,
  ◌==◌, if◌then◌else◌, All, Bool-cases, inl, inr, length, length-append,
}
use biz_saathi.Table.{find_first}
use biz_saathi.Auth.{RateLimit, AuthDb}
use biz_saathi.Auth.Otps.{
  OtpConfig, is_live, incremented, incr_limit, expire_limit, attempts_of, count_request, new_otp,
  send_otp,
}

-- The key of a phone.
abbrev pub limit_of : (phone : ℕ) → List RateLimit → Option RateLimit
limit_of phone limits = find_first (λ (r : RateLimit). r.phone == phone) limits

incremented-phone : (now : ℕ) (r : RateLimit) → (incremented now r).phone ≡ r.phone
incremented-phone now r = ground arith

module _ (phone : ℕ) where
  incr_limit-found :
      (now : ℕ) (rs : List RateLimit) {r : RateLimit}
      → limit_of phone rs ≡ some r
      → limit_of phone (incr_limit now phone rs) ≡ some (incremented now r)
  unfolding incr_limit
  incr_limit-found now [] h = cc
  incr_limit-found now (x ∷ rs) h = elim (Bool-cases (x.phone == phone)) [
    | inl e ↦
        let is_r = some-injective _ _ (rw e at h) in
        let new : ((incremented now x).phone == phone) ≡ true = rw (incremented-phone now x) e in
        rw e (rw new (ap (λ (y : RateLimit). some (incremented now y)) is_r))
    | inr e ↦ rw e (rw e (incr_limit-found now rs (rw e at h)))
  ]

  incr_limit-none :
      (now : ℕ) (rs : List RateLimit)
      → limit_of phone rs ≡ none
      → limit_of phone (incr_limit now phone rs)
        ≡ some (record { phone = phone; attempts = 1; expires = none })
  unfolding incr_limit
  incr_limit-none now [] h = ground arith
  incr_limit-none now (x ∷ rs) h = elim (Bool-cases (x.phone == phone)) [
    | inl e ↦ let k = rw e at h in cc
    | inr e ↦ rw e (rw e (incr_limit-none now rs (rw e at h)))
  ]

  expire_limit-found :
      (at : ℕ) (rs : List RateLimit) {r : RateLimit}
      → limit_of phone rs ≡ some r
      → limit_of phone (expire_limit phone at rs) ≡ some (record r { expires = some at })
  unfolding expire_limit
  expire_limit-found at [] h = cc
  expire_limit-found at (x ∷ rs) h = elim (Bool-cases (x.phone == phone)) [
    | inl e ↦
        let is_r = some-injective _ _ (rw e at h) in
        rw e (rw e (ap (λ (y : RateLimit). some (record y { expires = some at })) is_r))
    | inr e ↦ rw e (rw e (expire_limit-found at rs (rw e at h)))
  ]

  attempts_of-found :
      (rs : List RateLimit) {r : RateLimit}
      → limit_of phone rs ≡ some r
      → attempts_of phone rs ≡ r.attempts
  attempts_of-found [] h = cc
  attempts_of-found (x ∷ rs) h = elim (Bool-cases (x.phone == phone)) [
    | inl e ↦ rw e (ap (λ (y : RateLimit). y.attempts) (some-injective _ _ (rw e at h)))
    | inr e ↦ rw e (attempts_of-found rs (rw e at h))
  ]

  -- In a window that is open, a request is one more.
  count_request-live :
      (now end : ℕ) (rs : List RateLimit) {r : RateLimit}
      → limit_of phone rs ≡ some r
      → r.expires ≡ some end
      → now < end
      → 1 ≤ r.attempts
      → limit_of phone (count_request now phone rs) ≡ some (record r { attempts = r.attempts + 1 })
  unfolding count_request
  count_request-live now end rs {r} h e lt one =
      let live : is_live now r.expires ≡ true = rw e (ground arith) in
      let counted : limit_of phone (incr_limit now phone rs)
          ≡ some (record r { attempts = r.attempts + 1 }) =
        let i = incr_limit-found now rs h in rw live at i in
      let later : (attempts_of phone (incr_limit now phone rs) == 1) ≡ false =
        rw (attempts_of-found (incr_limit now phone rs) counted) (ground arith) in
      rw later counted

  -- Without a key, a request opens a window.
  count_request-none :
      (now : ℕ) (rs : List RateLimit)
      → limit_of phone rs ≡ none
      → limit_of phone (count_request now phone rs)
        ≡ some (record { phone = phone; attempts = 1; expires = some (now + 600) })
  unfolding count_request
  count_request-none now rs h =
      let counted = incr_limit-none now rs h in
      let first : (attempts_of phone (incr_limit now phone rs) == 1) ≡ true =
        rw (attempts_of-found (incr_limit now phone rs) counted) (ground arith) in
      rw first (expire_limit-found (now + 600) (incr_limit now phone rs) counted)

  -- Requests of passwords for the phone, with their times, row ids and passwords, one after another.
  abbrev pub send_each : OtpConfig → List (ℕ × ℕ × ℕ) → AuthDb → AuthDb
  send_each config [] db = db
  send_each config ((now, id, otp) ∷ rs) db =
      send_each config rs (send_otp config now id otp phone db).1

  send_otp-limits :
      (config : OtpConfig) (now id otp : ℕ) (db : AuthDb)
      → (send_otp config now id otp phone db).1.rate_limits ≡ count_request now phone db.rate_limits
  unfolding send_otp
  send_otp-limits config now id otp db =
      elim (Bool-cases (ltb 3 (attempts_of phone (count_request now phone db.rate_limits)))) [
        | inl e ↦ rw e
        | inr e ↦ rw e
      ]

  send_otp-rows :
      (config : OtpConfig) (now id otp : ℕ) (db : AuthDb) {r : RateLimit}
      → limit_of phone (count_request now phone db.rate_limits) ≡ some r
      → length (send_otp config now id otp phone db).1.otps
        ≡ (if ltb 3 r.attempts then length db.otps else length db.otps + 1)
  unfolding send_otp
  send_otp-rows config now id otp db {r} h =
      let k = attempts_of-found (count_request now phone db.rate_limits) h in
      elim (Bool-cases (ltb 3 r.attempts)) [
        | inl e ↦ rw k (rw e)
        | inr e ↦ rw k (rw e (length-append db.otps (new_otp config now id otp phone ∷ [])))
      ]

  send_each-live :
      (config : OtpConfig) (end : ℕ) (rs : List (ℕ × ℕ × ℕ)) (db : AuthDb) {r : RateLimit}
      → limit_of phone db.rate_limits ≡ some r
      → r.expires ≡ some end
      → 1 ≤ r.attempts
      → All (λ q. q.0 < end) rs
      → length (send_each config rs db).otps + min r.attempts 3
        ≡ length db.otps + min (r.attempts + length rs) 3
  send_each-live config end [] db h e one within = ground arith
  send_each-live config end ((now, id, otp) ∷ rs) db {r} h e one within =
      let counted = count_request-live now end db.rate_limits h e within.0 one in
      let rows = send_otp-rows config now id otp db counted in
      let key : limit_of phone (send_otp config now id otp phone db).1.rate_limits
          ≡ some (record r { attempts = r.attempts + 1 }) =
        rw send_otp-limits counted in
      let rest =
        send_each-live config end rs (send_otp config now id otp phone db).1 key e (omega arith)
          within.1 in
      ground (arith, rest, rows)

-- A phone without a rate limit key gets a password for each of the first three requests that come
-- within ten minutes of the first, and for none of the others, whatever the passwords are.
pub sends_limited :
    (config : OtpConfig) (phone now id otp : ℕ) (rs : List (ℕ × ℕ × ℕ)) (db : AuthDb)
    → limit_of phone db.rate_limits ≡ none
    → All (λ q. q.0 < now + 600) rs
    → length (send_each phone config ((now, id, otp) ∷ rs) db).otps
      ≡ length db.otps + min (1 + length rs) 3
sends_limited config phone now id otp rs db absent within =
    let counted = count_request-none phone now db.rate_limits absent in
    let rows = send_otp-rows phone config now id otp db counted in
    let key : limit_of phone (send_otp config now id otp phone db).1.rate_limits
        ≡ some (record { phone = phone; attempts = 1; expires = some (now + 600) }) =
      rw (send_otp-limits phone) counted in
    let rest =
      send_each-live phone config (now + 600) rs (send_otp config now id otp phone db).1 key refl
        (omega arith) within in
    omega (arith, rest, rows)
