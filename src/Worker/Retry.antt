-- ===== src/Worker/Retry.antt =====
-- backend/worker-service/src/utils/retry.ts. A promise is a function of the state of the world to a
-- value or an error, and the state after it; `waits` are the times given to `setTimeout`.
use biz_saathi.Prelude.{
  ℕ, zero, suc, ◌-◌, ◌*◌, ◌<◌, ◌≤◌, ◌≡◌, refl, ap, ◌⊎◌, inl, inr, Option, none, some, List, [], ◌∷◌,
  arith, false, ◌==◌, if◌then◌else◌,
}

pub record RetryOptions : Type 0 where
  pub retries : ℕ
  pub min_timeout_ms : ℕ
  pub factor : ℕ

-- `defaultOptions`.
abbrev pub default_options : RetryOptions
default_options = record { retries = 3; min_timeout_ms = 1000; factor = 2 }

-- What the caller gets. Without an attempt, `undefined` is thrown.
pub data Outcome (A E : Type 0) : Type 0 where
  returned : A → Outcome A E
  threw : Option E → Outcome A E

pub record Retried (W A E : Type 0) : Type 0 where
  pub outcome : Outcome A E
  pub world : W
  pub waits : List ℕ

module _ {W A E : Type 0} (fn : W → (E ⊎ A) × W) (factor : ℕ) where
  -- The loop with the attempts that are left, the next delay and the last error.
  unfoldable pub retry_loop : (left delay : ℕ) → Option E → W → Retried W A E
  retry_loop zero delay last_error w = record { outcome = threw last_error; world = w; waits = [] }
  retry_loop (suc left) delay last_error w = elim (fn w).0 [
    | inr a ↦ record { outcome = returned a; world = (fn w).1; waits = [] }
    | inl error ↦
        let later = retry_loop left (delay * factor) (some error) (fn w).1 in
        if left == 0
        then record { outcome = threw (some error); world = (fn w).1; waits = [] }
        else record { outcome = later.outcome; world = later.world; waits = delay ∷ later.waits }
  ]

-- `withRetry`, with its options filled in.
unfoldable pub with_retry : {W A E : Type 0} → (W → (E ⊎ A) × W) → RetryOptions → W → Retried W A E
with_retry fn options w = retry_loop fn options.factor options.retries options.min_timeout_ms none w

-- The calls of a promise: some that fail, and then one that succeeds, or the last one that is
-- allowed, which fails too. The index is the number of calls that may follow the first one, and the
-- last index the number that do.
pub data Calls {W A E : Type 0} (fn : W → (E ⊎ A) × W) : ℕ → W → Outcome A E → W → ℕ → Type 0 where
  succeeds : {left : ℕ} {w w' : W} {a : A} → fn w ≡ (inr a, w') → Calls fn left w (returned a) w' 0
  gives_up : {w w' : W} {e : E} → fn w ≡ (inl e, w') → Calls fn 0 w (threw (some e)) w' 0
  fails :
      {left more : ℕ} {w w' end : W} {e : E} {out : Outcome A E}
      → fn w ≡ (inl e, w')
      → Calls fn left w' out end more
      → Calls fn (suc left) w out end (suc more)

-- Delays that grow by a factor.
abbrev pub delays : (delay factor : ℕ) → ℕ → List ℕ
delays delay factor zero = []
delays delay factor (suc n) = delay ∷ delays (delay * factor) factor n

sum_cases : {A E : Type 0} (r : E ⊎ A) → ((a : A) × (r ≡ inr a)) ⊎ ((e : E) × (r ≡ inl e))
sum_cases (inr a) = inl (a, refl)
sum_cases (inl e) = inr (e, refl)

module _ {W A E : Type 0} (fn : W → (E ⊎ A) × W) (factor : ℕ) where
  called : (w : W) {r : E ⊎ A} → (fn w).0 ≡ r → fn w ≡ (r, (fn w).1)
  called w e = ap (λ x. (x, (fn w).1)) e

  retry_loop-Calls :
      (left delay : ℕ) (last_error : Option E) (w : W)
      → let r = retry_loop fn factor (suc left) delay last_error w in
        (more : ℕ) × (more ≤ left)
        × Calls fn left w r.outcome r.world more
        × (r.waits ≡ delays delay factor more)
  unfolding retry_loop
  retry_loop-Calls zero delay last_error w = elim (sum_cases (fn w).0) [
    | inl (a, e) ↦ rw (e, retry_loop) (0, omega arith, succeeds (called w e), refl)
    | inr (x, e) ↦ rw (e, retry_loop) (0, omega arith, gives_up (called w e), refl)
  ]
  retry_loop-Calls (suc left) delay last_error w = elim (sum_cases (fn w).0) [
    | inl (a, e) ↦ rw (e, retry_loop) (0, omega arith, succeeds (called w e), refl)
    | inr (x, e) ↦
        let (more, few, calls, waits) = retry_loop-Calls left (delay * factor) (some x) (fn w).1 in
        let again : (suc left == 0) ≡ false = ground arith in
        rw (e, retry_loop)
          (rw again
            (suc more, omega (arith, few), fails (called w e) calls, ap (λ ds. delay ∷ ds) waits))
  ]

-- With at least one attempt, `withRetry` ends: it calls the promise until it succeeds, at most as
-- often as attempts are allowed, and gives the value of that call, or the error of the last one that
-- is allowed; between two calls it waits, each time longer by the factor.
pub with_retry-Calls :
    {W A E : Type 0} (fn : W → (E ⊎ A) × W) (options : RetryOptions) (w : W)
    → 0 < options.retries
    → let r = with_retry fn options w in
      (more : ℕ) × (suc more ≤ options.retries)
      × Calls fn (options.retries - 1) w r.outcome r.world more
      × (r.waits ≡ delays options.min_timeout_ms options.factor more)
unfolding with_retry
with_retry-Calls fn options w some_attempt = from_first options.retries some_attempt
  where
    from_first :
        (n : ℕ)
        → 0 < n
        → let r = retry_loop fn options.factor n options.min_timeout_ms none w in
          (more : ℕ) × (suc more ≤ n)
          × Calls fn (n - 1) w r.outcome r.world more
          × (r.waits ≡ delays options.min_timeout_ms options.factor more)
    from_first zero lt = absurd (ground arith)
    from_first (suc left) lt =
        let (more, few, calls, waits) =
          retry_loop-Calls fn options.factor left options.min_timeout_ms none w in
        let same : suc left - 1 ≡ left = omega arith in
        (more, omega (arith, few), rw same calls, waits)
