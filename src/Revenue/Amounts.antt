-- ===== src/Revenue/Amounts.antt =====
-- Amounts by currency (platform/src/revenue/revenue.service.ts): an object is the list of its entries
-- in the order of their first writing. Amounts are integers of minor units.
use evo_platform.Base.{
  ◌≡◌, refl, sym, ap, ◌∙◌, Bool, true, false, String, Option, none, some, List, [], ◌∷◌, ◌++◌, ◌==◌,
  string_eq, if◌then◌else◌, arith, Bool-cases, inl, inr,
}
use evo_platform.Base.Integers.{ℤ, ◌+ℤ◌, ◌-ℤ◌, neg, sub_from_zero}

abbrev pub Entries : Type 0 → Type 0
Entries A = List (String × A)

-- `o[key]`
unfoldable pub entry {ℓ} : {A : Type ℓ} → String → List (String × A) → Option A
entry key [] = none
entry key ((k, a) ∷ es) = if k == key then some a else entry key es

-- `o[key] = f(o[key])`
unfoldable pub write_entry {ℓ} :
    {A : Type ℓ} → String → (Option A → A) → List (String × A) → List (String × A)
write_entry key f [] = (key, f none) ∷ []
write_entry key f ((k, a) ∷ es) =
    let rest = write_entry key f es in if k == key then (k, f (some a)) ∷ es else (k, a) ∷ rest

abbrev pub CurrencyAmounts : Type 0
CurrencyAmounts = Entries ℤ

abbrev pub MonthlyAmounts : Type 0
MonthlyAmounts = Entries CurrencyAmounts

-- `?? 0`
abbrev pub or_zero : Option ℤ → ℤ
or_zero none = ℤ.pos 0
or_zero (some z) = z

unfoldable pub amount : String → CurrencyAmounts → ℤ
unfolding entry
amount currency bucket = or_zero (entry currency bucket)

unfoldable pub add_amount : String → ℤ → CurrencyAmounts → CurrencyAmounts
unfolding write_entry
add_amount currency cents bucket = write_entry currency (λ old. or_zero old +ℤ cents) bucket

abbrev pub or_empty : {A : Type 0} → Option (List A) → List A
or_empty none = []
or_empty (some xs) = xs

-- `bucket[key] = bucket[key] ?? {}`, and an amount added to it.
unfoldable pub add_under : String → String → ℤ → MonthlyAmounts → MonthlyAmounts
unfolding write_entry add_amount
add_under key currency cents bucket =
    write_entry key (λ old. add_amount currency cents (or_empty old)) bucket

unfoldable pub sum_cents : CurrencyAmounts → ℤ
sum_cents [] = ℤ.pos 0
sum_cents ((_, cents) ∷ es) = cents +ℤ sum_cents es

abbrev is_set : {A : Type 0} → Option A → Bool
is_set none = false
is_set (some _) = true

unfoldable pub less_refunds : CurrencyAmounts → CurrencyAmounts → CurrencyAmounts
unfolding amount
less_refunds refunds [] = []
less_refunds refunds ((ccy, cents) ∷ es) =
    (ccy, cents -ℤ amount ccy refunds) ∷ less_refunds refunds es

-- `if (!(ccy in net)) net[ccy] = -cents`, over the refunds.
unfoldable pub add_missing : CurrencyAmounts → CurrencyAmounts → CurrencyAmounts
unfolding entry
add_missing [] net = net
add_missing ((ccy, cents) ∷ es) net =
    add_missing es (if is_set (entry ccy net) then net else net ++ ((ccy, neg cents) ∷ []))

unfoldable pub net_of : CurrencyAmounts → CurrencyAmounts → CurrencyAmounts
unfolding less_refunds add_missing
net_of gross refunds = add_missing refunds (less_refunds refunds gross)

entry-append :
    (key : String) (xs ys : CurrencyAmounts)
    → is_set (entry key xs) ≡ true
    → entry key (xs ++ ys) ≡ entry key xs
unfolding entry
entry-append key [] ys h = absurd (ground arith)
entry-append key ((k, z) ∷ xs) ys h = ground (arith, entry-append key xs ys)

entry-append_new :
    (key : String) (xs ys : CurrencyAmounts)
    → is_set (entry key xs) ≡ false
    → entry key (xs ++ ys) ≡ entry key ys
unfolding entry
entry-append_new key [] ys h = refl
entry-append_new key ((k, z) ∷ xs) ys h = ground (arith, entry-append_new key xs ys)

entry-less_refunds :
    (c : String) (refunds gross : CurrencyAmounts)
    → is_set (entry c (less_refunds refunds gross)) ≡ is_set (entry c gross)
unfolding entry less_refunds
entry-less_refunds c refunds [] = refl
entry-less_refunds c refunds ((k, z) ∷ gross) = ground (arith, entry-less_refunds c refunds gross)

amount-less_refunds :
    (c : String) (refunds gross : CurrencyAmounts)
    → is_set (entry c gross) ≡ true
    → amount c (less_refunds refunds gross) ≡ amount c gross -ℤ amount c refunds
unfolding entry less_refunds amount
amount-less_refunds c refunds [] h = absurd (ground arith)
amount-less_refunds c refunds ((k, z) ∷ gross) h = elim (Bool-cases (k == c)) [
  | inl here ↦ let e : k ≡ c = ground arith in rw here (ap (λ i. z -ℤ amount i refunds) e)
  | inr other ↦
      let h' : is_set (entry c gross) ≡ true = ground (arith, h, other) in
      rw other (amount-less_refunds c refunds gross h')
]

-- What is in the net already is not touched by a refund.
amount-add_missing :
    (c : String) (refunds net : CurrencyAmounts)
    → is_set (entry c net) ≡ true
    → amount c (add_missing refunds net) ≡ amount c net
unfolding add_missing amount
amount-add_missing c [] net h = refl
amount-add_missing c ((k, z) ∷ refunds) net h = elim (Bool-cases (is_set (entry k net))) [
  | inl there ↦ rw there (amount-add_missing c refunds net h)
  | inr absent ↦
      let kept = entry-append c net ((k, neg z) ∷ []) h in
      rw absent (
        amount-add_missing c refunds (net ++ (k, neg z) ∷ []) (ap is_set kept ∙ h)
        ∙ ap or_zero kept)
]

amount-add_missing_new :
    (c : String) (refunds net : CurrencyAmounts)
    → is_set (entry c net) ≡ false
    → amount c (add_missing refunds net) ≡ neg (amount c refunds)
unfolding add_missing amount entry
amount-add_missing_new c [] net h = unset (entry c net) h
  where
    unset : (o : Option ℤ) → is_set o ≡ false → or_zero o ≡ ℤ.pos 0
    unset none h = refl
    unset (some z) h = cc
amount-add_missing_new c ((k, z) ∷ refunds) net h = elim (Bool-cases (k == c)) [
  | inl here ↦
      let e : k ≡ c = ground arith in
      let absent : is_set (entry k net) ≡ false = ap (λ i. is_set (entry i net)) e ∙ h in
      let new : entry c (net ++ (k, neg z) ∷ []) ≡ some (neg z) =
        entry-append_new c net ((k, neg z) ∷ []) h ∙ rw here refl in
      rw (here, absent)
        (amount-add_missing c refunds (net ++ (k, neg z) ∷ []) (ap is_set new) ∙ ap or_zero new)
  | inr other ↦ elim (Bool-cases (is_set (entry k net))) [
    | inl there ↦ rw (other, there) (amount-add_missing_new c refunds net h)
    | inr absent ↦
        let new : entry c (net ++ (k, neg z) ∷ []) ≡ none =
          entry-append_new c net ((k, neg z) ∷ []) h ∙ rw other refl in
        rw (other, absent)
          (amount-add_missing_new c refunds (net ++ (k, neg z) ∷ []) (ap is_set new))
  ]
]

-- The net of a currency is what was paid in it less what was refunded in it, whether the currency
-- has entries in both, in one or in none.
pub net_of_exact :
    (gross refunds : CurrencyAmounts) (currency : String)
    → amount currency (net_of gross refunds) ≡ amount currency gross -ℤ amount currency refunds
unfolding net_of
net_of_exact gross refunds c = elim (Bool-cases (is_set (entry c gross))) [
  | inl paid ↦
      amount-add_missing c refunds (less_refunds refunds gross)
        (entry-less_refunds c refunds gross ∙ paid)
      ∙ amount-less_refunds c refunds gross paid
  | inr unpaid ↦
      amount-add_missing_new c refunds (less_refunds refunds gross)
        (entry-less_refunds c refunds gross ∙ unpaid)
      ∙ sym (sub_from_zero (amount c refunds))
      ∙ ap (λ z. z -ℤ amount c refunds) (sym (nothing (entry c gross) unpaid))
]
  where
    nothing : (o : Option ℤ) → is_set o ≡ false → or_zero o ≡ ℤ.pos 0
    nothing none h = refl
    nothing (some z) h = cc
