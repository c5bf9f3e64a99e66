-- ===== src/Examples/Ledger.antt =====
-- The theorem on the sums of a pull, at a concrete ledger.
use evo_platform.Base.{◌≡◌, String, none, some, [], ◌∷◌, string_eq}
use evo_platform.Base.Integers.{ℤ}
use evo_platform.Revenue.Amounts.{amount}
use evo_platform.Revenue.Report.{Invoice, Refund, Ledger, pull}
use evo_platform.Revenue.Reconciled.{paid_in, refunded_in, pull_reconciles}
use evo_platform.Examples.Tenancy.{db}

abbrev paid : String → ℤ → Invoice
paid currency cents = record {
  paid_at = none;
  created = 100;
  currency = currency;
  amount_paid = cents;
  tax = none;
  customer = some "cus_1";
}

abbrev refunded : String → String → ℤ → Refund
refunded status currency cents = record {
  status = status;
  created = 200;
  currency = currency;
  amount = cents;
  customer = none;
}

-- Two payments in euros, one in dollars, and a refund of each outcome.
abbrev ledger : Ledger
ledger = record {
  now = "2026-08-01T00:00:00.000Z";
  year_start = "2026-01-01T00:00:00.000Z";
  subscriptions = [];
  invoices = paid "eur" (ℤ.pos 500) ∷ (paid "usd" (ℤ.pos 90) ∷ (paid "eur" (ℤ.pos 300) ∷ []));
  refunds = refunded "succeeded" "eur" (ℤ.pos 100) ∷ (refunded "failed" "eur" (ℤ.pos 50) ∷ []);
  month_of = λ _. "2026-01";
}

pull_reconciles_example : amount "eur" (pull db ledger).billed.net_ytd ≡ ℤ.pos 700
unfolding paid_in refunded_in string_eq
pull_reconciles_example = pull_reconciles db ledger "eur"
