-- ===== src/Revenue/Table.antt =====
-- The spreadsheet of the figures (`toCsv`, platform/src/revenue/revenue.service.ts): the lines below its heading, before the joining of
-- its lines. The tests of a text's first character and of the characters that want quotes, and the
-- doubling of quotes, are the text library's.
use evo_platform.Base.{
  ℕ, Bool, true, false, String, ◌<>◌, Option, none, some, List, [], ◌∷◌, ◌++◌, if◌then◌else◌,
}
use evo_platform.Base.Integers.{ℤ}
use evo_platform.Revenue.Amounts.{Entries, CurrencyAmounts, MonthlyAmounts}
use evo_platform.Revenue.Health.{text_of}
use evo_platform.Revenue.Report.{Snapshot, Subscriptions, Billed, RevenueReport}

pub record Texts : Type 0 where
  -- `=`, `+`, `-`, `@`, a tab or a return
  pub starts_formula : String → Bool
  -- a quote, a comma or a line's end
  pub wants_quotes : String → Bool
  pub double_quotes : String → String
  pub of_integer : ℤ → String

pub record Line : Type 0 where
  pub section : String
  pub key : String
  pub currency : String
  pub value : String

unfoldable pub esc : Texts → String → String
esc t v =
    let safe = if t.starts_formula v then "'" <> v else v in
    if t.wants_quotes safe then "\"" <> (t.double_quotes safe <> "\"") else safe

unfoldable pub line : Texts → String → String → String → String → Line
unfolding esc
line t section key currency value = record {
  section = esc t section;
  key = esc t key;
  currency = esc t currency;
  value = value;
}

abbrev flag : Bool → String
flag true = "true"
flag false = "false"

abbrev count_lines : Texts → String → Entries ℕ → List Line
count_lines t section [] = []
count_lines t section ((k, n) ∷ es) =
    line t section k "" (t.of_integer (ℤ.pos n)) ∷ count_lines t section es

abbrev amount_lines : Texts → String → String → CurrencyAmounts → List Line
amount_lines t section key [] = []
amount_lines t section key ((ccy, cents) ∷ es) =
    line t section key ccy (t.of_integer cents) ∷ amount_lines t section key es

abbrev monthly_lines : Texts → String → MonthlyAmounts → List Line
monthly_lines t section [] = []
monthly_lines t section ((month, per) ∷ es) =
    amount_lines t section month per ++ monthly_lines t section es

abbrev subscription_lines : Texts → Subscriptions → List Line
subscription_lines t s =
    line t "subscriptions" "total" "" (t.of_integer (ℤ.pos s.total))
    ∷ line t "subscriptions" "canceled_during_trial" ""
        (t.of_integer (ℤ.pos s.canceled_during_trial))
    ∷ (count_lines t "subscriptions.by_status" s.by_status
        ++ (count_lines t "subscriptions.by_plan" s.by_plan
            ++ count_lines t "subscriptions.by_interval" s.by_interval))

abbrev billed_lines : Texts → Billed → List Line
billed_lines t b =
    monthly_lines t "billed.gross_by_month" b.gross_by_month
    ++ (monthly_lines t "billed.refunds_by_month" b.refunds_by_month
        ++ (amount_lines t "billed.gross_ytd" "ytd" b.gross_ytd
            ++ (amount_lines t "billed.tax_ytd" "ytd" b.tax_ytd
                ++ (amount_lines t "billed.refunds_ytd" "ytd" b.refunds_ytd
                    ++ amount_lines t "billed.net_ytd" "ytd" b.net_ytd))))

abbrev snapshot_lines : Texts → Option Snapshot → List Line
snapshot_lines t none = []
snapshot_lines t (some s) =
    line t "meta" "fetched_at" "" s.fetched_at
    ∷ (subscription_lines t s.subscriptions ++ billed_lines t s.billed)

unfoldable pub csv_lines : Texts → RevenueReport → List Line
unfolding line text_of
csv_lines t r =
    line t "meta" "stale" "" (flag r.stale)
    ∷ line t "meta" "health" "" (text_of r.health.state)
    ∷ snapshot_lines t r.snapshot
