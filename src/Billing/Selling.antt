-- ===== src/Billing/Selling.antt =====
-- What a session of Stripe's checkout or portal rests on: the price, the relationship and the
-- addresses that `checkout` and `portal` of platform/src/billing/billing.service.ts accept.
use evo_platform.Base.{
  ◌≡◌, refl, ◌∙◌, true, String, Option, none, some, List, [], ◌∷◌, arith, Bool-cases, Option-cases,
  inl, inr,
}
use evo_platform.Base.Rows.{filter, find-mem, mem-filter}
use evo_platform.Platform.{
  AppPrice, AppTenant, Db, Env, truthy, ok, ◌>>=◌, ◌>>◌, pure, bind-eq-ok, found_or-eq-ok,
}
use evo_platform.Billing.Stripe.{Client, CallingApp}
use evo_platform.Billing.Rows.{find_pair}
use evo_platform.Billing.Access.{
  require_relationship, is_registered_origin, assert_redirect_allowed, ensure_customer,
}
use evo_platform.Billing.Checkout.{
  CheckoutDto, fits_mode, in_mode, only_price, select, select_price, is_empty, is_sold_by,
  resolve_price, session_request, open_session, check_redirects, sell, checkout,
}
use mathlib.Core.List.{Memᴰ}

only_price-mem :
    (prices : List AppPrice) (d : Db) {p : AppPrice} {d' : Db}
    → only_price prices d ≡ (ok p, d')
    → Memᴰ p prices × (d' ≡ d)
only_price-mem [] d h = cc
only_price-mem (q ∷ []) d h = (Memᴰ.head (ground arith), ground arith)
only_price-mem (q ∷ r ∷ rest) d h = cc

select-mem :
    (dto : CheckoutDto) (prices : List AppPrice) (id tier : Option String) (d : Db) {p : AppPrice}
    {d' : Db}
    → select dto prices id tier d ≡ (ok p, d')
    → Memᴰ p prices × (d' ≡ d)
unfolding select
select-mem dto prices (some id) tier d h =
    let (found, same) = found_or-eq-ok _ _ d h in (find-mem _ prices found, same)
select-mem dto prices none (some tier) d h =
    let (found, same) = found_or-eq-ok _ _ d h in (find-mem _ prices found, same)
select-mem dto prices none none d h = only_price-mem prices d h

select_price-mem :
    (dto : CheckoutDto) (prices : List AppPrice) (d : Db) {p : AppPrice} {d' : Db}
    → select_price dto prices d ≡ (ok p, d')
    → Memᴰ p prices × (d' ≡ d)
unfolding select_price
select_price-mem dto prices d h = select-mem dto prices (truthy dto.price_id) (truthy dto.tier) d h

in_mode-fits :
    (env : Env) (q : AppPrice) (d : Db) {p : AppPrice} {d' : Db}
    → in_mode env q d ≡ (ok p, d')
    → (p ≡ q) × (fits_mode env.config.stripe_mode q ≡ true) × (d' ≡ d)
unfolding in_mode
in_mode-fits env q d h = ground arith

-- The price that `resolve_price` gives is a row of the prices that the calling app registered, and
-- was minted by the mode that the deployment runs; nothing is written.
pub resolve_price_sound :
    (env : Env) (dto : CheckoutDto) (app : CallingApp) (d : Db) {p : AppPrice} {d' : Db}
    → resolve_price env dto app d ≡ (ok p, d')
    → Memᴰ p d.app_prices
      × (is_sold_by app.id p ≡ true)
      × (fits_mode env.config.stripe_mode p ≡ true)
      × (d' ≡ d)
unfolding resolve_price
resolve_price_sound env dto app d {p} {d'} h =
    let prices = filter (is_sold_by app.id) d.app_prices in
    elim (Bool-cases (is_empty prices)) [
      | inl nothing_sold ↦ absurd (ground (arith, nothing_sold))
      | inr sold_here ↦
          let h' : (select_price dto prices >>= in_mode env) d ≡ (ok p, d') = rw sold_here at h in
          let (q, d2, chosen, later) = bind-eq-ok (select_price dto prices) (in_mode env) d h' in
          let (listed, same) = select_price-mem dto prices d chosen in
          let (same_p, fits, same') = in_mode-fits env q d2 later in
          let (registered, sold) = mem-filter (is_sold_by app.id) d.app_prices listed in
          (rw same_p registered, rw same_p sold, rw same_p fits, same' ∙ same)
    ]

-- The address has an origin, and one of the app's registered callback addresses has the same.
abbrev pub IsRegistered : Env → CallingApp → String → Type 0
IsRegistered env app url =
    (origin : String) × (env.url_origin url ≡ some origin)
    × (is_registered_origin env origin app ≡ true)

assert_redirect_allowed_sound :
    (env : Env) (url : String) (app : CallingApp) (d : Db) {u : Unit {0}} {d' : Db}
    → assert_redirect_allowed env url app d ≡ (ok u, d')
    → IsRegistered env app url × (d' ≡ d)
unfolding assert_redirect_allowed
assert_redirect_allowed_sound env url app d h = elim (Option-cases (env.url_origin url)) [
  | inl bad ↦ absurd (ground (arith, bad))
  | inr (origin, e) ↦ ((origin, e, ground arith), ground arith)
]

require_relationship_sound :
    (tenant_id : String) (app : CallingApp) (d : Db) {a : AppTenant} {d' : Db}
    → require_relationship tenant_id app d ≡ (ok a, d')
    → (find_pair tenant_id app.id d ≡ some a) × (d' ≡ d)
unfolding require_relationship
require_relationship_sound tenant_id app d h = found_or-eq-ok _ _ d h

check_redirects_sound :
    (env : Env) (dto : CheckoutDto) (app : CallingApp) (d : Db) {u : Unit {0}} {d' : Db}
    → check_redirects env dto app d ≡ (ok u, d')
    → IsRegistered env app dto.success_url × IsRegistered env app dto.cancel_url
unfolding check_redirects
check_redirects_sound env dto app d h =
    let (_, d1, success, cancel) =
      bind-eq-ok (assert_redirect_allowed env dto.success_url app)
        (λ _. assert_redirect_allowed env dto.cancel_url app) d h in
    (
      (assert_redirect_allowed_sound env dto.success_url app d success).0,
      (assert_redirect_allowed_sound env dto.cancel_url app d1 cancel).0,
    )

open_session_sound :
    (env : Env) (stripe : Option Client) (dto : CheckoutDto) (app : CallingApp) (price : AppPrice)
    (d : Db) {url : String} {d' : Db}
    → open_session env stripe dto app price d ≡ (ok url, d')
    → (client : Client) × (customer : String) × (stripe ≡ some client)
      × (url ≡ client.create_session (session_request dto app price customer))
unfolding open_session
open_session_sound env none dto app price d h = absurd (ground arith)
open_session_sound env (some client) dto app price d {url} h =
    let (customer, d1, _, h1) =
      bind-eq-ok (ensure_customer (some client) dto.tenant_id)
        (λ customer. pure (client.create_session (session_request dto app price customer))) d h in
    (client, customer, refl, ground (arith, h1))

-- A checkout that gives an address was made by Stripe for a price that this app registered and that
-- fits the mode, for a tenant that the app has a row for, with both of the redirect addresses
-- registered; the address is that of the session that is requested for this price.
pub checkout_sound :
    (env : Env) (stripe : Option Client) (dto : CheckoutDto) (app : CallingApp) (d : Db)
    {url : String} {d' : Db}
    → checkout env stripe dto app d ≡ (ok url, d')
    → (client : Client) × (price : AppPrice) × (customer : String) × (stripe ≡ some client)
      × (url ≡ client.create_session (session_request dto app price customer))
      × Memᴰ price d.app_prices
      × (is_sold_by app.id price ≡ true)
      × (fits_mode env.config.stripe_mode price ≡ true)
      × ((a : AppTenant) × (find_pair dto.tenant_id app.id d ≡ some a))
      × IsRegistered env app dto.success_url
      × IsRegistered env app dto.cancel_url
unfolding checkout sell
checkout_sound env stripe dto app d h =
    let (price, d1, priced, h1) =
      bind-eq-ok (resolve_price env dto app) (sell env stripe dto app) d h in
    let (a, d2, related, h2) =
      bind-eq-ok (require_relationship dto.tenant_id app)
        (λ _. check_redirects env dto app >> open_session env stripe dto app price) d1 h1 in
    let (_, d3, checked, h3) =
      bind-eq-ok (check_redirects env dto app) (λ _. open_session env stripe dto app price) d2 h2 in
    let (registered, sold, fits, same1) = resolve_price_sound env dto app d priced in
    let (row, _) = require_relationship_sound dto.tenant_id app d1 related in
    let (success_ok, cancel_ok) = check_redirects_sound env dto app d2 checked in
    let (client, customer, has_client, e) = open_session_sound env stripe dto app price d3 h3 in
    (
      client,
      price,
      customer,
      has_client,
      e,
      registered,
      sold,
      fits,
      (a, rw (← same1) row),
      success_ok,
      cancel_ok,
    )
