-- ===== src/WhatsApp/Daily.antt =====
-- The messages of a tenant on one day.
use biz_saathi.Prelude.{
  ℕ, suc, ◌+◌, ◌≤◌, ◌<◌, ◌≡◌, refl, sym, ap, ◌∙◌, Bool, false, ◌&&◌, List, [], ◌∷◌, ◌++◌, arith,
  ◌==◌, if◌then◌else◌, Bool-cases, inl, inr,
}
use biz_saathi.Table.{count_where}
use biz_saathi.WhatsApp.{WaMessage, DayTotal, WaDb, day_of, total_on, count_message}
use biz_saathi.WhatsApp.Effects.{message_at, WaEffect, silent, delivered}
use biz_saathi.WhatsApp.History.{WaRequests, Deliveries, no_more, one_more, WaRequests-Deliveries}

abbrev pub is_of_day : (tenant day : ℕ) → WaMessage → Bool
is_of_day tenant day m = m.tenant_id == tenant && day_of m.sent_at == day

count_message-total :
    (t d tenant day : ℕ) (ts : List DayTotal)
    → total_on t d (count_message tenant day ts)
      ≡ total_on t d ts + (if tenant == t && day == d then 1 else 0)
count_message-total t d tenant day [] = elim (Bool-cases (tenant == t && day == d)) [
  | inl e ↦ rw e refl
  | inr e ↦ rw e refl
]
count_message-total t d tenant day (x ∷ xs) =
    elim (Bool-cases (x.tenant_id == tenant && x.day == day)) [
      | inl e ↦
          let own : x.tenant_id ≡ tenant = ground (arith, e) in
          let on : x.day ≡ day = ground (arith, e) in
          let same : (x.tenant_id == t && x.day == d) ≡ (tenant == t && day == d) =
            rw (own, on) refl in
          elim (Bool-cases (tenant == t && day == d)) [
            | inl k ↦ let k' = same ∙ k in rw e (rw k' (rw k refl))
            | inr k ↦ let k' = same ∙ k in rw e (rw k' (rw k (omega arith)))
          ]
      | inr e ↦ elim (Bool-cases (x.tenant_id == t && x.day == d)) [
        | inl k ↦
            let other : (tenant == t && day == d) ≡ false = ground (arith, e, k) in
            rw e (rw k (rw other (omega arith)))
        | inr k ↦ rw e (rw k (count_message-total t d tenant day xs))
      ]
    ]

count_snoc :
    (p : WaMessage → Bool) (ms : List WaMessage) (n : WaMessage)
    → count_where p (ms ++ n ∷ []) ≡ count_where p ms + (if p n then 1 else 0)
count_snoc p [] n = elim (Bool-cases (p n)) [ inl e ↦ rw e refl | inr e ↦ rw e refl ]
count_snoc p (m ∷ ms) n = elim (Bool-cases (p m)) [
  | inl e ↦ rw e (ap suc (count_snoc p ms n) ∙ omega arith)
  | inr e ↦ rw e (count_snoc p ms n)
]

-- Every total is the number of its messages, and at most 1000.
record IsTallied (db : WaDb) : Type 0 where
  counted : (t d : ℕ) → count_where (is_of_day t d) db.messages ≡ total_on t d db.totals
  within : (t d : ℕ) → total_on t d db.totals ≤ 1000

WaEffect-IsTallied : (now : ℕ) {a b : WaDb} → IsTallied a → WaEffect now a b → IsTallied b
WaEffect-IsTallied now g (silent s) = record {
  counted = rw (s.messages, s.totals) g.counted;
  within = rw s.totals g.within;
}
WaEffect-IsTallied now {a} {b} g (delivered tenant phone content message_id allowed em et er) =
    let n = message_at now tenant phone content message_id in
    record {
      counted =
          rw (em, et)
            (λ t d.
              count_snoc (is_of_day t d) a.messages n
              ∙ ap (λ k. k + (if tenant == t && day_of now == d then 1 else 0)) (g.counted t d)
              ∙ sym (count_message-total t d tenant (day_of now) a.totals));
      within = rw et (λ t d.
          let sum = count_message-total t d tenant (day_of now) a.totals in
          let old = g.within t d in
          elim (Bool-cases (tenant == t && day_of now == d)) [
            | inl e ↦
                let own : tenant ≡ t = ground (arith, e) in
                let on : day_of now ≡ d = ground (arith, e) in
                let below : total_on t d a.totals < 1000 = rw (own, on) at allowed.below in
                let sum' = rw e at sum in omega (arith, sum', below)
            | inr e ↦ let sum' = rw e at sum in omega (arith, sum', old)
          ]);
    }

Deliveries-IsTallied : {db after : WaDb} → IsTallied db → Deliveries db after → IsTallied after
Deliveries-IsTallied g no_more = g
Deliveries-IsTallied g (one_more {now = now} ds e) =
    WaEffect-IsTallied now (Deliveries-IsTallied g ds) e

-- From an empty log and no totals on, in any sequence of requests to send invoices, reminders, bulk
-- reminders, salary slips and texts, one after another, at most 1000 messages of a tenant are sent on
-- a day.
pub daily_limit :
    (db after : WaDb)
    → db.messages ≡ []
    → db.totals ≡ []
    → WaRequests db after
    → (tenant day : ℕ) → count_where (is_of_day tenant day) after.messages ≤ 1000
daily_limit db after no_messages no_counts rs tenant day =
    let start : IsTallied db = record {
      counted = rw (no_messages, no_counts) (λ t d. refl);
      within = rw no_counts (λ t d. omega arith);
    } in
    let end = Deliveries-IsTallied start (WaRequests-Deliveries rs) in
    let counted = end.counted tenant day in
    let within = end.within tenant day in omega (arith, counted, within)
