-- ===== src/Revenue/Reconciled.antt =====
-- The sums of a pull of platform/src/revenue/revenue.service.ts, against the list of what Stripe gave.
use evo_platform.Base.{
  ℕ, ◌≡◌, refl, ap, ◌∙◌, String, List, [], ◌∷◌, ◌==◌, string_eq, if◌then◌else◌, arith, Bool-cases,
  inl, inr,
}
use evo_platform.Base.Integers.{ℤ, ◌+ℤ◌, ◌-ℤ◌}
use evo_platform.Platform.{Db}
use evo_platform.Revenue.Amounts.{
  CurrencyAmounts, entry, write_entry, amount, add_amount, net_of_exact,
}
use evo_platform.Revenue.Report.{
  Invoice, Refund, Ledger, Billed, add_invoice, add_invoices, add_refund, add_refunds, pull,
  nothing_billed,
}

-- What the invoices of a currency come to, from a first amount.
unfoldable pub paid_in : String → ℤ → List Invoice → ℤ
paid_in c z [] = z
paid_in c z (i ∷ is) = paid_in c (if i.currency == c then z +ℤ i.amount_paid else z) is

-- What the refunds that succeeded come to in a currency, from a first amount.
unfoldable pub refunded_in : String → ℤ → List Refund → ℤ
refunded_in c z [] = z
refunded_in c z (r ∷ rs) =
    refunded_in c
      (if r.status == "succeeded" then if r.currency == c then z +ℤ r.amount else z else z) rs

-- What an addition leaves of the amount of a currency.
abbrev added : String → String → ℤ → ℤ → ℤ
added c k cents z = if k == c then z +ℤ cents else z

amount-add_amount :
    (c k : String) (cents : ℤ) (b : CurrencyAmounts)
    → amount c (add_amount k cents b) ≡ added c k cents (amount c b)
unfolding amount add_amount entry write_entry
amount-add_amount c k cents [] = elim (Bool-cases (k == c)) [
  | inl here ↦ rw here refl
  | inr other ↦ rw other refl
]
amount-add_amount c k cents ((l, z) ∷ b) = ground (arith, amount-add_amount c k cents b)

add_invoice-gross :
    (m : ℕ → String) (c : String) (i : Invoice) (b : Billed)
    → amount c (add_invoice m i b).gross_ytd
      ≡ added c i.currency i.amount_paid (amount c b.gross_ytd)
unfolding add_invoice
add_invoice-gross m c i b = amount-add_amount c i.currency i.amount_paid b.gross_ytd

add_invoices-gross :
    (m : ℕ → String) (c : String) (is : List Invoice) (b : Billed)
    → amount c (add_invoices m is b).gross_ytd ≡ paid_in c (amount c b.gross_ytd) is
unfolding add_invoices paid_in
add_invoices-gross m c [] b = refl
add_invoices-gross m c (i ∷ is) b =
    add_invoices-gross m c is (add_invoice m i b)
    ∙ ap (λ z. paid_in c z is) (add_invoice-gross m c i b)

add_invoices-refunds :
    (m : ℕ → String) (is : List Invoice) (b : Billed)
    → (add_invoices m is b).refunds_ytd ≡ b.refunds_ytd
unfolding add_invoices add_invoice
add_invoices-refunds m [] b = refl
add_invoices-refunds m (i ∷ is) b = add_invoices-refunds m is (add_invoice m i b)

add_refund-gross :
    (m : ℕ → String) (r : Refund) (b : Billed) → (add_refund m r b).gross_ytd ≡ b.gross_ytd
unfolding add_refund
add_refund-gross m r b = elim (Bool-cases (r.status == "succeeded")) [
  | inl paid ↦ rw paid refl
  | inr failed ↦ rw failed refl
]

add_refunds-gross :
    (m : ℕ → String) (rs : List Refund) (b : Billed) → (add_refunds m rs b).gross_ytd ≡ b.gross_ytd
unfolding add_refunds
add_refunds-gross m [] b = refl
add_refunds-gross m (r ∷ rs) b = add_refunds-gross m rs (add_refund m r b) ∙ add_refund-gross m r b

add_refund-refunds :
    (m : ℕ → String) (c : String) (r : Refund) (b : Billed)
    → amount c (add_refund m r b).refunds_ytd ≡ (
        if r.status == "succeeded"
        then added c r.currency r.amount (amount c b.refunds_ytd)
        else amount c b.refunds_ytd)
unfolding add_refund
add_refund-refunds m c r b = elim (Bool-cases (r.status == "succeeded")) [
  | inl paid ↦ rw paid (amount-add_amount c r.currency r.amount b.refunds_ytd)
  | inr failed ↦ rw failed refl
]

add_refunds-refunds :
    (m : ℕ → String) (c : String) (rs : List Refund) (b : Billed)
    → amount c (add_refunds m rs b).refunds_ytd ≡ refunded_in c (amount c b.refunds_ytd) rs
unfolding add_refunds refunded_in
add_refunds-refunds m c [] b = refl
add_refunds-refunds m c (r ∷ rs) b =
    add_refunds-refunds m c rs (add_refund m r b)
    ∙ ap (λ z. refunded_in c z rs) (add_refund-refunds m c r b)

-- The net that a pull reports in a currency is what the listed invoices of the currency come to less
-- what the listed refunds of the currency that succeeded come to.
pub pull_reconciles :
    (d : Db) (l : Ledger) (c : String)
    → amount c (pull d l).billed.net_ytd
      ≡ paid_in c (ℤ.pos 0) l.invoices -ℤ refunded_in c (ℤ.pos 0) l.refunds
unfolding pull
pull_reconciles d l c =
    let b = add_invoices l.month_of l.invoices nothing_billed in
    let all = add_refunds l.month_of l.refunds b in
    let gross : amount c all.gross_ytd ≡ paid_in c (ℤ.pos 0) l.invoices =
      ap (amount c) (add_refunds-gross l.month_of l.refunds b)
      ∙ add_invoices-gross l.month_of c l.invoices nothing_billed in
    let refunds : amount c all.refunds_ytd ≡ refunded_in c (ℤ.pos 0) l.refunds =
      add_refunds-refunds l.month_of c l.refunds b
      ∙ ap (λ xs. refunded_in c (amount c xs) l.refunds)
          (add_invoices-refunds l.month_of l.invoices nothing_billed) in
    net_of_exact all.gross_ytd all.refunds_ytd c
    ∙ ap (λ z. z -ℤ amount c all.refunds_ytd) gross
    ∙ ap (λ z. paid_in c (ℤ.pos 0) l.invoices -ℤ z) refunds
