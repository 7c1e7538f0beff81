-- ===== src/InvoiceNumber/Unique.antt =====
-- No two numbers of one tenant are the same.
use mathlib.Core.Path.{subst}
use mathlib.Core.List.{append_assoc}
use biz_saathi.Prelude.{
  ℕ, zero, suc, ◌+◌, ◌-◌, ◌<◌, ◌≤◌, ◌≡◌, ◌≢◌, refl, sym, ap, ◌∙◌, List, [], ◌∷◌, ◌++◌, arith, ◌==◌,
  ◌&&◌, if◌then◌else◌, All, All-imp, length, length-append,
}
use biz_saathi.Records.{Date}
use biz_saathi.Text.{to_string, pad_start, slice_from}
use biz_saathi.Text.Decimal.{value, value-to_string, value-pad_start, length-four}
use biz_saathi.InvoiceNumber.{
  start_year, financial_year, Sequences, current, incr, number_text, next_number,
}

-- A year is written with four digits, and so are its neighbours.
abbrev pub InRange : Date → Type 0
InRange date = (1001 ≤ date.year) × (date.year < 9999)

pub current-incr :
    (t y u z : ℕ) (s : Sequences)
    → current u z (incr t y s) ≡ (if u == t && z == y then suc (current u z s) else current u z s)
unfolding incr
current-incr t y u z [] = ground arith
current-incr t y u z ((t', y', n) ∷ s) = ground (arith, current-incr t y u z s)

-- The text of a financial year, from the year in which it starts.
year_text : ℕ → List ℕ
year_text y = to_string y ++ (b'-' ∷ slice_from 2 (to_string (y + 1)))

financial_year-eq : (date : Date) → InRange date → financial_year date ≡ year_text (start_year date)
unfolding financial_year start_year year_text
financial_year-eq date h =
    let next : date.year - 1 + 1 ≡ date.year = omega arith in ground (arith, next)

start_year_range :
    (date : Date) → InRange date → (1000 ≤ start_year date) × (start_year date < 9999)
unfolding start_year
start_year_range date h = ground arith

slice_from-append : (a b : List ℕ) (n : ℕ) → length a ≡ n → slice_from n (a ++ b) ≡ b
slice_from-append [] b zero h = refl
slice_from-append [] b (suc n) h = absurd (omega arith)
slice_from-append (c ∷ a) b zero h = absurd (omega arith)
slice_from-append (c ∷ a) b (suc n) h = slice_from-append a b n (omega arith)

abbrev take : ℕ → List ℕ → List ℕ
take zero s = []
take (suc n) [] = []
take (suc n) (c ∷ s) = c ∷ take n s

take-append : (a b : List ℕ) (n : ℕ) → length a ≡ n → take n (a ++ b) ≡ a
take-append [] b zero h = refl
take-append [] b (suc n) h = absurd (omega arith)
take-append (c ∷ a) b zero h = absurd (omega arith)
take-append (c ∷ a) b (suc n) h = ap (λ s. c ∷ s) (take-append a b n (omega arith))

length-slice_two : (s : List ℕ) → length s ≡ 4 → length (slice_from 2 s) ≡ 2
length-slice_two [] h = absurd (omega arith)
length-slice_two (a ∷ []) h = absurd (omega arith)
length-slice_two (a ∷ b ∷ s) h = omega arith

length-year_text : (y : ℕ) → 1000 ≤ y → y < 9999 → length (year_text y) ≡ 7
unfolding year_text
length-year_text y lo hi =
    let two = slice_from 2 (to_string (y + 1)) in
    omega (
      arith,
      length-append (to_string y) (b'-' ∷ two),
      length-four y lo (omega arith),
      length-slice_two (to_string (y + 1)) (length-four (y + 1) (omega arith) (omega arith)),
    )

-- What a reader finds in a number: the start of the financial year, and the sequence number.
read_year : List ℕ → ℕ
read_year text = value (take 4 (slice_from 4 text))

read_sequence : List ℕ → ℕ
read_sequence text = value (slice_from 1 (slice_from 7 (slice_from 4 text)))

read_number :
    (date : Date) (n : ℕ)
    → InRange date
    → let text = number_text (financial_year date) n in
      (read_year text ≡ start_year date) × (read_sequence text ≡ n)
unfolding read_year read_sequence number_text
read_number date n h =
    let y = start_year date in
    let (lo, hi) = start_year_range date h in
    let rest = b'-' ∷ pad_start 4 (to_string n) in
    (
      rw (financial_year-eq date h) (
          unfold year_text in
          rw append_assoc (
            rw (take-append (to_string y) _ 4 (length-four y lo (omega arith)))
              (value-to_string y))),
      rw (financial_year-eq date h) (
          rw (slice_from-append (year_text y) rest 7 (length-year_text y lo hi))
            (value-pad_start 4 (to_string n) ∙ value-to_string n)),
    )

-- The numbers that a sequence of calls gets, each with its tenant.
unfoldable pub issue : List (ℕ × Date) → Sequences → List (ℕ × List ℕ)
issue [] s = []
issue ((t, date) ∷ rest) s = (t, (next_number t date s).0) ∷ issue rest (next_number t date s).1

abbrev Requests : Type 0
Requests = List (ℕ × Date)

abbrev pub AllInRange : Requests → Type 0
AllInRange = All λ r. InRange r.1

-- No later entry of the same tenant has the same text.
abbrev pub AllDistinct : List (ℕ × List ℕ) → Type 0
AllDistinct [] = Unit
AllDistinct ((t, text) ∷ rest) = All (λ x. x.0 ≡ t → x.1 ≢ text) rest × AllDistinct rest

next_number_reads :
    (t : ℕ) (date : Date) (s : Sequences)
    → InRange date
    → let text = (next_number t date s).0 in
      (read_year text ≡ start_year date) × (read_sequence text ≡ current t (start_year date) s + 1)
unfolding next_number
next_number_reads t date s h =
    let y = start_year date in
    let (a, b) = read_number date (current t y (incr t y s)) h in
    let more : current t y (incr t y s) ≡ current t y s + 1 =
      rw (current-incr t y t y s) (ground arith) in
    (a, b ∙ more)

current-next :
    (t y u : ℕ) (date : Date) (s : Sequences) → current t y s ≤ current t y (next_number u date s).1
unfolding next_number
current-next t y u date s = rw (current-incr u (start_year date) t y s) (ground arith)

current-next_self :
    (t : ℕ) (date : Date) (s : Sequences)
    → current t (start_year date) (next_number t date s).1 ≡ current t (start_year date) s + 1
unfolding next_number
current-next_self t date s =
    rw (current-incr t (start_year date) t (start_year date) s) (ground arith)

-- Whatever is issued from a state has a sequence number above the state's counter.
issue_above :
    (t y : ℕ) (rs : Requests) (s : Sequences)
    → AllInRange rs
    → All (λ x. x.0 ≡ t → read_year x.1 ≡ y → current t y s < read_sequence x.1) (issue rs s)
unfolding issue
issue_above t y [] s h = tt
issue_above t y ((u, date) ∷ rs) s h =
    let (a, b) = next_number_reads u date s h.0 in
    (
      λ same year.
          let year' : start_year date ≡ y = sym a ∙ year in
          rw b (
            subst (λ v. current t y s < current v (start_year date) s + 1) (sym same)
              (subst (λ v. current t y s < current t v s + 1) (sym year') (omega arith))),
      All-imp _ _
          (λ x above same year.
            let low = current-next t y u date s in
            let up : current t y (next_number u date s).1 < read_sequence x.1 = above same year in
            omega arith)
          (issue rs (next_number u date s).1) (issue_above t y rs (next_number u date s).1 h.1),
    )

-- However the calls are ordered, and whatever the counters hold at first, the invoice numbers that
-- one tenant gets are all different, for dates whose years have four digits.
pub issue-AllDistinct : (rs : Requests) (s : Sequences) → AllInRange rs → AllDistinct (issue rs s)
unfolding issue
issue-AllDistinct [] s h = tt
issue-AllDistinct ((t, date) ∷ rs) s h =
    let (a, b) = next_number_reads t date s h.0 in
    let s' = (next_number t date s).1 in
    (
      All-imp _ _
          (λ x above same equal.
            let up : current t (start_year date) s' < read_sequence x.1 =
              above same (ap read_year equal ∙ a) in
            let at : read_sequence x.1 ≡ current t (start_year date) s + 1 =
              ap read_sequence equal ∙ b in
            let self = current-next_self t date s in omega arith)
          (issue rs s') (issue_above t (start_year date) rs s' h.1),
      issue-AllDistinct rs s' h.1,
    )
