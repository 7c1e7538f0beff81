-- ===== src/Tests/Jobs.antt =====
-- The worker's retries and its sweep for overdue invoices.
use biz_saathi.Prelude.{ℕ, zero, suc, ◌-◌, ◌≤◌, ◌≡◌, ◌⊎◌, inl, inr, refl, some, [], ◌∷◌, arith}
use biz_saathi.Records.{Date, Db}
use biz_saathi.Worker.Retry.{
  default_options, Calls, delays, retry_loop, with_retry, with_retry-Calls,
}
use biz_saathi.Worker.Overdue.{IsDue, Marking, sweep_overdue, sweep_overdue-swept}
use biz_saathi.Tests.Shop.{open_invoice, shop}

-- A call that succeeds from the third time on.
abbrev third_time : ℕ → (ℕ ⊎ ℕ) × ℕ
third_time zero = (inl 7, 1)
third_time (suc zero) = (inl 8, 2)
third_time (suc (suc n)) = (inr n, suc (suc n))

retry_run : (with_retry third_time default_options 0).waits ≡ 1000 ∷ 2000 ∷ []
unfolding with_retry retry_loop
retry_run = refl

with_retry-Calls_example :
    let r = with_retry third_time default_options 0 in
    (more : ℕ) × (suc more ≤ 3)
    × Calls third_time (3 - 1) 0 r.outcome r.world more
    × (r.waits ≡ delays 1000 2 more)
with_retry-Calls_example = with_retry-Calls third_time default_options 0 (ground arith)

abbrev july : Date
july = record { year = 2025; month = 6; day = 1; time = 0 }

-- The shop after the due date of its open invoice.
abbrev late_shop : Db
late_shop = record shop {
  invoices =
      record open_invoice {
        due_date = some (record { year = 2025; month = 5; day = 30; time = 0 });
      }
      ∷ [];
}

sweep_run : (sweep_overdue july late_shop).overdue_count ≡ 1
unfolding sweep_overdue
sweep_run = refl

sweep_overdue-swept_example :
    let out = sweep_overdue july late_shop in
    Marking (IsDue july late_shop) late_shop.invoices out.invoices out.overdue_count
sweep_overdue-swept_example = sweep_overdue-swept july late_shop (tt, tt)
