-- ===== src/Invoice/Ledger.antt =====
-- The payments of an invoice against its paid amount, and what an accepted payment makes of the
-- status.
use biz_saathi.Prelude.{ℕ, ◌≡◌, List, [], ◌∷◌, ◌==◌, All, if◌then◌else◌, ℤ, pos, ◌+ℤ◌}
use biz_saathi.Double.{Double}
use biz_saathi.Records.{Invoice, Payment, Db}

-- What has been paid on an invoice.
abbrev pub paid_on : ℕ → List Payment → ℤ
paid_on id [] = pos 0
paid_on id (p ∷ ps) =
    let rest = paid_on id ps in if p.invoice_id == id then p.amount +ℤ rest else rest

-- The paid amount of every invoice is the sum of its payments.
abbrev pub IsBalanced : Db → Type 0
IsBalanced db = All (λ x. paid_on x.id db.payments ≡ x.paid_amount) db.invoices
