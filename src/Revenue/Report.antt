-- ===== src/Revenue/Report.antt =====
-- The pull of the figures and the report (platform/src/revenue/revenue.service.ts).
-- What Stripe lists, and the texts of instants and months, are parameters.
use evo_platform.Base.{
  ℕ, zero, suc, Bool, true, false, not, ◌&&◌, String, ◌<>◌, Option, none, some, List, [], ◌∷◌, ◌==◌,
  string_eq, if◌then◌else◌, leb,
}
use evo_platform.Base.Rows.{find}
use evo_platform.Base.Integers.{ℤ}
use evo_platform.Platform.{App, AppPrice, Db, Result, ok, err, unavailable, truthy}
use evo_platform.Revenue.Health.{HealthState, StripeHealth, text_of}
use evo_platform.Revenue.Amounts.{
  Entries, CurrencyAmounts, MonthlyAmounts, write_entry, add_amount, add_under, net_of,
}

pub record Item : Type 0 where
  pub price_id : String
  pub interval : Option String
  pub nickname : Option String

pub record Subscription : Type 0 where
  pub status : String
  pub items : List Item
  pub trial_end : Option ℕ
  pub canceled_at : Option ℕ

-- Instants are in seconds, as Stripe gives them.
pub record Invoice : Type 0 where
  pub paid_at : Option ℕ
  pub created : ℕ
  pub currency : String
  pub amount_paid : ℤ
  pub tax : Option ℤ
  pub customer : Option String

pub record Refund : Type 0 where
  pub status : String
  pub created : ℕ
  pub currency : String
  pub amount : ℤ
  -- the customer of the charge
  pub customer : Option String

-- The lists of the year's objects, and the clock.
pub record Ledger : Type 0 where
  pub now : String
  pub year_start : String
  pub subscriptions : List Subscription
  pub invoices : List Invoice
  pub refunds : List Refund
  -- "2026-08" of an instant
  pub month_of : ℕ → String

pub record Subscriptions : Type 0 where
  pub total : ℕ
  pub by_status : Entries ℕ
  pub by_plan : Entries ℕ
  pub by_interval : Entries ℕ
  pub canceled_during_trial : ℕ

pub record Billed : Type 0 where
  pub gross_by_month : MonthlyAmounts
  pub gross_ytd : CurrencyAmounts
  pub tax_ytd : CurrencyAmounts
  pub refunds_by_month : MonthlyAmounts
  pub refunds_ytd : CurrencyAmounts
  pub net_ytd : CurrencyAmounts
  pub gross_by_customer : MonthlyAmounts
  pub refunds_by_customer : MonthlyAmounts

pub record Snapshot : Type 0 where
  pub fetched_at : String
  pub year_start : String
  pub subscriptions : Subscriptions
  pub billed : Billed

abbrev or_zero : Option ℕ → ℕ
or_zero none = 0
or_zero (some n) = n

abbrev or_text : String → Option String → String
or_text default none = default
or_text default (some s) = s

-- `o[key] = (o[key] ?? 0) + 1`
unfoldable pub count_up : String → Entries ℕ → Entries ℕ
unfolding write_entry
count_up key counts = write_entry key (λ old. suc (or_zero old)) counts

abbrev pub app_name_of : String → Db → String
app_name_of id d = name_of (find (λ (a : App). a.id == id) d.apps)
  where
    name_of : Option App → String
    name_of none = ""
    name_of (some a) = a.name

-- The product and the tier that a price sells, by the registry.
abbrev sold : Db → Item → String × String
sold d item = sold_as (find (λ (p : AppPrice). p.stripe_price_id == item.price_id) d.app_prices)
  where
    sold_as : Option AppPrice → String × String
    sold_as none = ("unmapped", or_text item.price_id item.nickname)
    sold_as (some p) = (app_name_of p.app_id d, p.tier)

abbrev plan_key : Db → Item → String
plan_key d item =
    let (app, plan) = sold d item in
    app <> ("|" <> (plan <> ("|" <> or_text "one-time" item.interval)))

unfoldable pub count_items : Db → List Item → Subscriptions → Subscriptions
unfolding count_up
count_items d [] s = s
count_items d (i ∷ is) s = count_items d is (record s {
  by_interval = count_up (or_text "one-time" i.interval) s.by_interval;
  by_plan = count_up (plan_key d i) s.by_plan;
})

abbrev before_end : Option ℕ → Option ℕ → Bool
before_end (some canceled) (some end) = leb canceled end
before_end _ _ = false

-- Canceled at or before the end of the trial.
abbrev pub never_converted : Subscription → Bool
never_converted sub = sub.status == "canceled" && before_end sub.canceled_at sub.trial_end

unfoldable pub count_subscription : Db → Subscription → Subscriptions → Subscriptions
unfolding count_up count_items
count_subscription d sub s =
    let counted =
      count_items d sub.items
        (record s { total = suc s.total; by_status = count_up sub.status s.by_status }) in
    record counted {
      canceled_during_trial =
          if never_converted sub
          then suc counted.canceled_during_trial
          else counted.canceled_during_trial;
    }

unfoldable pub count_subscriptions : Db → List Subscription → Subscriptions → Subscriptions
unfolding count_subscription
count_subscriptions d [] s = s
count_subscriptions d (sub ∷ subs) s = count_subscriptions d subs (count_subscription d sub s)

-- `if (tax)`: neither missing nor 0.
abbrev add_tax : String → Option ℤ → CurrencyAmounts → CurrencyAmounts
add_tax currency none bucket = bucket
add_tax currency (some (ℤ.pos zero)) bucket = bucket
add_tax currency (some z) bucket = add_amount currency z bucket

abbrev add_to_customer : Option String → String → ℤ → MonthlyAmounts → MonthlyAmounts
add_to_customer none currency cents bucket = bucket
add_to_customer (some customer) currency cents bucket = add_under customer currency cents bucket

abbrev paid_at_or : ℕ → Option ℕ → ℕ
paid_at_or created none = created
paid_at_or created (some t) = t

unfoldable pub add_invoice : (ℕ → String) → Invoice → Billed → Billed
unfolding add_amount add_under
add_invoice month_of i b = record b {
  gross_by_month =
      add_under (month_of (paid_at_or i.created i.paid_at)) i.currency i.amount_paid
        b.gross_by_month;
  gross_ytd = add_amount i.currency i.amount_paid b.gross_ytd;
  tax_ytd = add_tax i.currency i.tax b.tax_ytd;
  gross_by_customer =
      add_to_customer (truthy i.customer) i.currency i.amount_paid b.gross_by_customer;
}

unfoldable pub add_invoices : (ℕ → String) → List Invoice → Billed → Billed
unfolding add_invoice
add_invoices month_of [] b = b
add_invoices month_of (i ∷ is) b = add_invoices month_of is (add_invoice month_of i b)

unfoldable pub add_refund : (ℕ → String) → Refund → Billed → Billed
unfolding add_amount add_under
add_refund month_of r b = if not (r.status == "succeeded") then b else record b {
  refunds_by_month = add_under (month_of r.created) r.currency r.amount b.refunds_by_month;
  refunds_ytd = add_amount r.currency r.amount b.refunds_ytd;
  refunds_by_customer =
      add_to_customer (truthy r.customer) r.currency r.amount b.refunds_by_customer;
}

unfoldable pub add_refunds : (ℕ → String) → List Refund → Billed → Billed
unfolding add_refund
add_refunds month_of [] b = b
add_refunds month_of (r ∷ rs) b = add_refunds month_of rs (add_refund month_of r b)

abbrev no_subscriptions : Subscriptions
no_subscriptions = record {
  total = 0;
  by_status = [];
  by_plan = [];
  by_interval = [];
  canceled_during_trial = 0;
}

abbrev pub nothing_billed : Billed
nothing_billed = record {
  gross_by_month = [];
  gross_ytd = [];
  tax_ytd = [];
  refunds_by_month = [];
  refunds_ytd = [];
  net_ytd = [];
  gross_by_customer = [];
  refunds_by_customer = [];
}

unfoldable pub pull : Db → Ledger → Snapshot
unfolding count_subscriptions add_invoices add_refunds net_of
pull d l =
    let b = add_refunds l.month_of l.refunds (add_invoices l.month_of l.invoices nothing_billed) in
    record {
      fetched_at = l.now;
      year_start = l.year_start;
      subscriptions = count_subscriptions d l.subscriptions no_subscriptions;
      billed = record b { net_ytd = net_of b.gross_ytd b.refunds_ytd };
    }

pub record RevenueReport : Type 0 where
  pub stale : Bool
  pub health : StripeHealth
  pub snapshot : Option Snapshot

abbrev report_of :
    Db → StripeHealth → Option Ledger → Option Snapshot → Result RevenueReport × Option Snapshot
report_of d h none last_good =
    (ok (record { stale = true; health = h; snapshot = last_good }), last_good)
report_of d h (some l) last_good =
    let s = pull d l in (ok (record { stale = false; health = h; snapshot = some s }), some s)

-- `report`, with the state that `check` gives and the last snapshot that was good; a pull that fails
-- has no ledger.
unfoldable pub report :
    Db → StripeHealth → Option Ledger → Option Snapshot → Result RevenueReport × Option Snapshot
unfolding pull text_of
report d h ledger last_good =
    if text_of h.state == text_of HealthState.unconfigured
    then (err (unavailable "Stripe is not configured on this deployment."), last_good)
    else report_of d h ledger last_good
