-- ===== src/Auth/Guessing.antt =====
-- How often a one-time password can be guessed.
use biz_saathi.Prelude.{
  ℕ, ◌+◌, ◌≤◌, ◌<◌, ◌≡◌, ◌≢◌, refl, ap, ◌∙◌, ◌⊎◌, inl, inr, Bool, true, false, none, some, List, [],
  ◌∷◌, arith, leb, ◌==◌, ==_refl, All, Bool-cases, Option-cases, length,
}
use mathlib.Core.Option.{some-injective}
use biz_saathi.Action.{err, bad_request}
use biz_saathi.Table.{find_last, find_last-none, find_last-here, update_where}
use biz_saathi.Auth.{OtpVerification, AuthDb}
use biz_saathi.Auth.Otps.{OtpConfig, is_open, missed, check_otp}
use biz_saathi.Auth.Tokens.{Fresh, verify_otp}

-- The last row of a phone.
abbrev pub of_phone : (phone : ℕ) → OtpVerification → Bool
of_phone phone o = o.phone == phone

none-open :
    (now phone : ℕ) (rows : List OtpVerification)
    → find_last (of_phone phone) rows ≡ none
    → find_last (is_open now phone) rows ≡ none
none-open now phone [] h = refl
none-open now phone (x ∷ xs) h =
    let (rest, other) = find_last-none (of_phone phone) x xs h in
    let shut : is_open now phone x ≡ false = rw other refl in
    rw (none-open now phone xs rest) (rw shut)

none-missed :
    (phone id : ℕ) (rows : List OtpVerification)
    → find_last (of_phone phone) rows ≡ none
    → find_last (of_phone phone) (update_where (λ (x : OtpVerification). x.id == id) missed rows)
      ≡ none
none-missed phone id [] h = refl
none-missed phone id (x ∷ xs) h =
    let (rest, other) = find_last-none (of_phone phone) x xs h in
    elim (Bool-cases (x.id == id)) [
      | inl e ↦ rw (none-missed phone id xs rest) (rw e (rw other refl))
      | inr e ↦ rw (none-missed phone id xs rest) (rw e (rw other refl))
    ]

-- A stronger test finds the same last row, if it passes.
find_last-open :
    (now phone : ℕ) (rows : List OtpVerification) {o : OtpVerification}
    → find_last (of_phone phone) rows ≡ some o
    → is_open now phone o ≡ true
    → find_last (is_open now phone) rows ≡ some o
find_last-open now phone [] h k = cc
find_last-open now phone (x ∷ xs) {o} h k = elim (Option-cases (find_last (of_phone phone) xs)) [
  | inr (p, e) ↦
      let same : p ≡ o = some-injective _ _ (rw e at h) in
      let later = find_last-open now phone xs (e ∙ ap some same) k in rw later
  | inl e ↦
      let (_, same) = find_last-here (of_phone phone) x xs e h in
      let shut : is_open now phone x ≡ true = rw same k in
      rw (none-open now phone xs e) (rw shut (ap some same))
]

find_last-missed :
    (phone : ℕ) (rows : List OtpVerification) {o : OtpVerification}
    → find_last (of_phone phone) rows ≡ some o
    → find_last (of_phone phone) (update_where (λ (x : OtpVerification). x.id == o.id) missed rows)
      ≡ some (missed o)
find_last-missed phone [] h = cc
find_last-missed phone (x ∷ xs) {o} h = elim (Option-cases (find_last (of_phone phone) xs)) [
  | inr (p, e) ↦
      let same : p ≡ o = some-injective _ _ (rw e at h) in
      rw (find_last-missed phone xs (e ∙ ap some same))
  | inl e ↦
      let (here, same) = find_last-here (of_phone phone) x xs e h in
      let mine : (x.id == o.id) ≡ true = rw same (==_refl o.id) in
      rw (none-missed phone o.id xs e) (rw mine (rw here (ap (λ y. some (missed y)) same)))
]

-- A row that can be guessed until a time.
pub record IsGuessable (phone otp end : ℕ) (o : OtpVerification) : Type 0 where
  pub code : o.otp ≡ otp
  pub unused : o.verified ≡ false
  pub ends : o.expires_at ≡ end
  pub mine : o.phone ≡ phone

-- Guesses with their times, one after another.
abbrev pub guess_each : OtpConfig → (phone : ℕ) → List (ℕ × ℕ) → AuthDb → AuthDb
guess_each config phone [] db = db
guess_each config phone ((now, guess) ∷ gs) db =
    guess_each config phone gs (check_otp config now phone guess db).1

module _ (config : OtpConfig) (phone otp end : ℕ) where
  guessable-open :
      (now : ℕ) (o : OtpVerification)
      → IsGuessable phone otp end o
      → now < end
      → is_open now phone o ≡ true
  guessable-open now o g lt = rw (g.mine, g.unused, g.ends) (ground arith)

  -- A check of a password when the attempts are used up.
  check_otp-locked :
      (now guess : ℕ) (db : AuthDb) {o : OtpVerification}
      → find_last (of_phone phone) db.otps ≡ some o
      → IsGuessable phone otp end o
      → now < end
      → config.max_attempts ≤ o.attempts
      → check_otp config now phone guess db
        ≡ (err (bad_request "Maximum OTP attempts reached. Request a new OTP."), db)
  unfolding check_otp
  check_otp-locked now guess db {o} h g lt many =
      let full : leb config.max_attempts o.attempts ≡ true = ground arith in
      rw (find_last-open now phone db.otps h (guessable-open now o g lt)) (rw full)

  -- A wrong guess is one more attempt, until the attempts are used up.
  check_otp-wrong :
      (now guess : ℕ) (db : AuthDb) {o : OtpVerification}
      → find_last (of_phone phone) db.otps ≡ some o
      → IsGuessable phone otp end o
      → now < end
      → guess ≢ otp
      → o.attempts < config.max_attempts
      → find_last (of_phone phone) (check_otp config now phone guess db).1.otps ≡ some (missed o)
  unfolding check_otp
  check_otp-wrong now guess db {o} h g lt ne few =
      let free : leb config.max_attempts o.attempts ≡ false = ground arith in
      let wrong : (o.otp == guess) ≡ false = rw g.code (ground arith) in
      rw (find_last-open now phone db.otps h (guessable-open now o g lt))
        (rw free (rw wrong (find_last-missed phone db.otps h)))

  guess_each-attempts :
      (gs : List (ℕ × ℕ)) (db : AuthDb) {o : OtpVerification}
      → find_last (of_phone phone) db.otps ≡ some o
      → IsGuessable phone otp end o
      → All (λ q. (q.0 < end) × (q.1 ≢ otp)) gs
      → (p : OtpVerification) × (find_last (of_phone phone) (guess_each config phone gs db).otps
          ≡ some p)
        × IsGuessable phone otp end p
        × ((config.max_attempts ≤ p.attempts) ⊎ (p.attempts ≡ o.attempts + length gs))
  guess_each-attempts [] db {o} h g w = (o, h, g, inr (omega arith))
  guess_each-attempts ((now, guess) ∷ gs) db {o} h g w =
      elim (Bool-cases (leb config.max_attempts o.attempts)) [
        | inl e ↦
            let many : config.max_attempts ≤ o.attempts = ground arith in
            let (p, found, good, used) = guess_each-attempts gs db h g w.1 in
            let same : check_otp config now phone guess db ≡ (_, db) =
              check_otp-locked now guess db h g w.0.0 many in
            (
              p,
              ap (λ r. find_last (of_phone phone) (guess_each config phone gs r.1).otps) same
                  ∙ found,
              good,
              inl (ground (arith, used, many)),
            )
        | inr e ↦
            let few : o.attempts < config.max_attempts = ground arith in
            let next = check_otp-wrong now guess db h g w.0.0 w.0.1 few in
            let g' : IsGuessable phone otp end (missed o) = record {
              code = g.code;
              unused = g.unused;
              ends = g.ends;
              mine = g.mine;
            } in
            let (p, found, good, used) =
              guess_each-attempts gs (check_otp config now phone guess db).1 next g' w.1 in
            (p, found, good, ground (arith, used))
      ]

  -- After wrong guesses that use up the attempts of a phone's newest password, `verifyOtp` refuses
  -- every password for the phone, the right one too, until the password ends, and stores nothing.
  pub guesses_lock :
      (gs : List (ℕ × ℕ)) (db : AuthDb) {o : OtpVerification}
      → find_last (of_phone phone) db.otps ≡ some o
      → IsGuessable phone otp end o
      → All (λ q. (q.0 < end) × (q.1 ≢ otp)) gs
      → config.max_attempts ≤ o.attempts + length gs
      → (fresh : Fresh) (now guess : ℕ) → now < end
      → verify_otp config now fresh phone guess (guess_each config phone gs db) ≡ (
        err (bad_request "Maximum OTP attempts reached. Request a new OTP."),
        guess_each config phone gs db,
      )
  unfolding verify_otp
  guesses_lock gs db h g w enough fresh now guess lt =
      let (p, found, good, used) = guess_each-attempts gs db h g w in
      let many : config.max_attempts ≤ p.attempts = ground (arith, used, enough) in
      rw (check_otp-locked now guess (guess_each config phone gs db) found good lt many) refl
