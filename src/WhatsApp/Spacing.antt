-- ===== src/WhatsApp/Spacing.antt =====
-- The time between two reminders to one phone.
use biz_saathi.Prelude.{
  ℕ, ◌+◌, ◌≤◌, ◌≡◌, refl, sym, ap, Bool, true, false, not, ◌&&◌, ◌||◌, Option, none, some, List, [],
  ◌∷◌, ◌++◌, arith, leb, ltb, ◌==◌, ==_refl, All, All-append, All-imp, Bool-cases, Option-cases,
  inl, inr,
}
use biz_saathi.WhatsApp.{
  WaContent, WaMessage, WaDb, Reminded, same_text, reminded_until, is_live_key,
}
use biz_saathi.WhatsApp.Effects.{
  is_about_reminder, message_at, reminded_after, WaEffect, silent, delivered,
}
use biz_saathi.WhatsApp.History.{WaRequests, Deliveries, no_more, one_more, WaRequests-Deliveries}

-- Two reminders of a tenant to one phone.
abbrev pub are_one_reminder : WaMessage → WaMessage → Bool
are_one_reminder m n =
    is_about_reminder m.content
    && (is_about_reminder n.content && (m.tenant_id == n.tenant_id && same_text m.phone n.phone))

-- If they are, the second comes at least 24 hours after the first.
abbrev pub is_spaced : WaMessage → WaMessage → Bool
is_spaced m n = not (are_one_reminder m n) || leb (m.sent_at + 86_400) n.sent_at

abbrev pub Spaced : List WaMessage → Type 0
Spaced [] = Unit
Spaced (m ∷ ms) = All (λ n. is_spaced m n ≡ true) ms × Spaced ms

abbrev covers : ℕ → Option ℕ → Bool
covers t none = false
covers t (some e) = leb t e

-- The key of a reminder's phone lives for 24 hours after it.
abbrev is_covered : List Reminded → WaMessage → Bool
is_covered rs m =
    not (is_about_reminder m.content)
    || covers (m.sent_at + 86_400) (reminded_until m.tenant_id m.phone rs)

same_text-eq : (s t : List ℕ) → same_text s t ≡ true → s ≡ t
same_text-eq [] [] h = refl
same_text-eq [] (d ∷ t) h = cc
same_text-eq (c ∷ s) [] h = cc
same_text-eq (c ∷ s) (d ∷ t) h = elim (Bool-cases (c == d)) [
  | inl e ↦
      let head : c ≡ d = ground arith in
      let rest : same_text s t ≡ true = rw e at h in
      rw head (ap (λ x. d ∷ x) (same_text-eq s t rest))
  | inr e ↦ let k = rw e at h in cc
]

and_true : (a b : Bool) → (a && b) ≡ true → (a ≡ true) × (b ≡ true)
and_true true b h = (refl, h)
and_true false b h = cc

-- A reminder that is covered came 24 hours before one that the limits allow.
allowed_later :
    (now : ℕ) (m : WaMessage) (rs : List Reminded)
    → is_about_reminder m.content ≡ true
    → is_covered rs m ≡ true
    → is_live_key now (reminded_until m.tenant_id m.phone rs) ≡ false
    → m.sent_at + 86_400 ≤ now
allowed_later now m rs about covered free =
    elim (Option-cases (reminded_until m.tenant_id m.phone rs)) [
      | inl e ↦ let k = rw (about, e) at covered in cc
      | inr (t, e) ↦
          let k : leb (m.sent_at + 86_400) t ≡ true = rw (about, e) at covered in
          let l : ltb now t ≡ false = rw e at free in ground (arith, k, l)
    ]

module _ (now tenant : ℕ) (phone : List ℕ) (content : WaContent) (rs : List Reminded)
    (allowed : (is_about_reminder content && is_live_key now (reminded_until tenant phone rs))
      ≡ false)
    (m : WaMessage) (covered : is_covered rs m ≡ true) where
  same_key_later :
      is_about_reminder m.content ≡ true
      → is_about_reminder content ≡ true
      → m.tenant_id ≡ tenant
      → m.phone ≡ phone
      → m.sent_at + 86_400 ≤ now
  same_key_later about new own to =
      let free : is_live_key now (reminded_until tenant phone rs) ≡ false = rw new at allowed in
      let free' : is_live_key now (reminded_until m.tenant_id m.phone rs) ≡ false =
        rw (own, to) free in
      allowed_later now m rs about covered free'

  spaced_from :
      (message_id : ℕ) → is_spaced m (message_at now tenant phone content message_id) ≡ true
  spaced_from message_id =
      let n = message_at now tenant phone content message_id in
      elim (Bool-cases (are_one_reminder m n)) [
        | inl e ↦
            let (about, e1) = and_true (is_about_reminder m.content) _ e in
            let (new, e2) = and_true (is_about_reminder content) _ e1 in
            let (own, to) = and_true (m.tenant_id == tenant) _ e2 in
            let later =
              same_key_later about new (ground (arith, own)) (same_text-eq m.phone phone to) in
            let done : leb (m.sent_at + 86_400) now ≡ true = ground (arith, later) in rw e done
        | inr e ↦ rw e refl
      ]

  still_covered :
      is_covered (reminded_after now tenant phone (is_about_reminder content) rs) m ≡ true
  still_covered = elim (Bool-cases (is_about_reminder content)) [
    | inr e ↦ rw e covered
    | inl new ↦ rw new (elim (Bool-cases (is_about_reminder m.content)) [
      | inr other ↦ rw other refl
      | inl about ↦ elim (Bool-cases (tenant == m.tenant_id && same_text phone m.phone)) [
        | inl e ↦
            let (own, to) = and_true (tenant == m.tenant_id) _ e in
            let later =
              same_key_later about new (ground (arith, own))
                (sym (same_text-eq phone m.phone to)) in
            let done : leb (m.sent_at + 86_400) (now + 86_400) ≡ true = ground (arith, later) in
            rw about (rw e done)
        | inr e ↦ rw about (rw e (rw about at covered))
      ]
    ])
  ]

same_text_refl : (s : List ℕ) → same_text s s ≡ true
same_text_refl [] = refl
same_text_refl (c ∷ s) = rw (==_refl c) (same_text_refl s)

-- The message that is sent is covered by its own key.
new_covered :
    (now tenant : ℕ) (phone : List ℕ) (content : WaContent) (message_id : ℕ) (rs : List Reminded)
    → is_covered
        (reminded_after now tenant phone (is_about_reminder content) rs)
        (message_at now tenant phone content message_id)
      ≡ true
new_covered now tenant phone content message_id rs = elim (Bool-cases (is_about_reminder content)) [
  | inr e ↦ rw e refl
  | inl e ↦ rw e (rw (==_refl tenant) (rw (same_text_refl phone) (ground arith)))
]

Spaced-snoc :
    (ms : List WaMessage) (n : WaMessage)
    → Spaced ms
    → All (λ m. is_spaced m n ≡ true) ms
    → Spaced (ms ++ n ∷ [])
Spaced-snoc [] n s a = (tt, tt)
Spaced-snoc (m ∷ ms) n s a = (All-append _ ms (n ∷ []) s.0 (a.0, tt), Spaced-snoc ms n s.1 a.1)

record IsGuarded (db : WaDb) : Type 0 where
  spaced : Spaced db.messages
  covered : All (λ m. is_covered db.reminded m ≡ true) db.messages

WaEffect-IsGuarded : (now : ℕ) {a b : WaDb} → IsGuarded a → WaEffect now a b → IsGuarded b
WaEffect-IsGuarded now g (silent s) = record {
  spaced = rw (s.messages) g.spaced;
  covered = rw (s.messages, s.reminded) g.covered;
}
WaEffect-IsGuarded now {a} {b} g (delivered tenant phone content message_id allowed em et er) =
    let n = message_at now tenant phone content message_id in
    record {
      spaced = rw em (
          Spaced-snoc a.messages n g.spaced (
            All-imp _ _
              (λ m c. spaced_from now tenant phone content a.reminded allowed.free m c message_id)
              a.messages g.covered));
      covered =
          rw (em, er)
            (All-append _ a.messages (n ∷ [])
              (All-imp _ _
                (λ m c. still_covered now tenant phone content a.reminded allowed.free m c)
                a.messages g.covered)
              (new_covered now tenant phone content message_id a.reminded, tt));
    }

Deliveries-IsGuarded : {db after : WaDb} → IsGuarded db → Deliveries db after → IsGuarded after
Deliveries-IsGuarded g no_more = g
Deliveries-IsGuarded g (one_more {now = now} ds e) =
    WaEffect-IsGuarded now (Deliveries-IsGuarded g ds) e

-- From an empty log on, in any sequence of requests to send invoices, reminders, bulk reminders,
-- salary slips and texts, a reminder of a tenant to a phone comes at least 24 hours after every
-- earlier reminder of the tenant to that phone, whatever Meta's API answers.
pub reminders-Spaced :
    (db after : WaDb) → db.messages ≡ [] → WaRequests db after → Spaced after.messages
reminders-Spaced db after empty rs =
    let start : IsGuarded db = record { spaced = rw empty tt; covered = rw empty tt } in
    (Deliveries-IsGuarded start (WaRequests-Deliveries rs)).spaced
