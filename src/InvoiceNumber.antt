-- ===== src/InvoiceNumber.antt =====
-- backend/src/invoice/invoice-number.service.ts.
--
-- The key `invoice_seq:<tenant>:<financial year>` is the pair of the tenant and the year in which
-- the financial year starts; `incr` is Redis' INCR on it, which counts a missing key from 0.
pub mod Unique
use biz_saathi.Prelude.{ℕ, suc, ◌+◌, ◌-◌, Bool, ◌&&◌, List, [], ◌∷◌, ◌++◌, leb, ◌==◌, if◌then◌else◌}
use biz_saathi.Action.{Action, ok, Result}
use biz_saathi.Records.{Date, Db}
use biz_saathi.Text.{codes, to_string, pad_start, slice_from}

-- The year in which the financial year of a date starts: April is month 3.
pub start_year : Date → ℕ
start_year date = if leb 3 date.month then date.year else date.year - 1

-- `<year>-<last digits of the next year>`.
pub financial_year : Date → List ℕ
financial_year date =
    if leb 3 date.month
    then to_string date.year ++ (b'-' ∷ slice_from 2 (to_string (date.year + 1)))
    else to_string (date.year - 1) ++ (b'-' ∷ slice_from 2 (to_string date.year))

abbrev pub Sequences : Type 0
Sequences = List (ℕ × ℕ × ℕ)

-- The counter under a key.
abbrev pub current : ℕ → ℕ → Sequences → ℕ
current t y [] = 0
current t y ((t', y', n) ∷ s) = if t == t' && y == y' then n else current t y s

pub incr : ℕ → ℕ → Sequences → Sequences
incr t y [] = (t, y, 1) ∷ []
incr t y ((t', y', n) ∷ s) =
    if t == t' && y == y' then (t', y', suc n) ∷ s else (t', y', n) ∷ incr t y s

pub number_text : List ℕ → ℕ → List ℕ
number_text year sequence = codes "INV-" ++ (year ++ (b'-' ∷ pad_start 4 (to_string sequence)))

-- `generateNextInvoiceNumber`: the text, and the counters after it.
unfoldable pub next_number : ℕ → Date → Sequences → List ℕ × Sequences
unfolding start_year financial_year number_text incr
next_number tenant date s =
    let s' = incr tenant (start_year date) s in
    (number_text (financial_year date) (current tenant (start_year date) s'), s')

unfoldable pub generate_next_invoice_number : ℕ → Date → Action Db (List ℕ)
unfolding next_number
generate_next_invoice_number tenant date db =
    let (text, s) = next_number tenant date db.sequences in (ok text, record db { sequences = s })
