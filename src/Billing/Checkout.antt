-- ===== src/Billing/Checkout.antt =====
-- The calls of an app: `resolvePrice`, `checkout` and `portal` of
-- platform/src/billing/billing.service.ts.
use evo_platform.Base.{
  ℕ, Bool, true, false, ◌&&◌, not, String, ◌<>◌, Option, none, some, List, [], ◌∷◌, ◌==◌, string_eq,
  nat_eq, if◌then◌else◌, ltb,
}
use evo_platform.Base.Rows.{find, filter}
use evo_platform.Platform.{
  AppPrice, Env, StripeMode, truthy, Action, ◌>>=◌, ◌>>◌, pure, throw, query, found_or, throw_if,
  bad_request, internal,
}
use evo_platform.Billing.Stripe.{Client, CallingApp, Mode, SessionRequest}
use evo_platform.Billing.Access.{
  require_relationship, assert_redirect_allowed, require_stripe, ensure_customer,
}

pub record CheckoutDto : Type 0 where
  pub tenant_id : String
  pub price_id : Option String
  pub tier : Option String
  pub interval : Option String
  pub interval_count : Option ℕ
  pub quantity : Option ℕ
  pub success_url : String
  pub cancel_url : String

pub record PortalDto : Type 0 where
  pub tenant_id : String
  pub return_url : String

-- A one-time price, `ONCE`.
abbrev pub once : String
once = "once"

-- The price was minted by the mode whose keys the deployment runs.
unfoldable pub fits_mode : StripeMode → AppPrice → Bool
fits_mode StripeMode.unset p = true
fits_mode StripeMode.live p = p.livemode
fits_mode StripeMode.test p = not p.livemode

abbrev mode_name : StripeMode → String
mode_name StripeMode.unset = "unset"
mode_name StripeMode.test = "test"
mode_name StripeMode.live = "live"

abbrev minted : Bool → String
minted livemode = if livemode then "live" else "test"

abbrev mode_mismatch : StripeMode → AppPrice → String
mode_mismatch mode p =
    "Price \""
    <> p.stripe_price_id
    <> "\" is a "
    <> minted p.livemode
    <> " price, but this deployment is running "
    <> mode_name mode
    <> " keys. Register the "
    <> mode_name mode
    <> " price for this tier."

-- `assertPriceMode`, which hands the price on.
unfoldable pub in_mode : Env → AppPrice → Action AppPrice
unfolding fits_mode
in_mode env p = do
  throw_if (not (fits_mode env.config.stripe_mode p))
      (bad_request (mode_mismatch env.config.stripe_mode p))
  pure p

abbrev get_or {ℓ} : {A : Type ℓ} → A → Option A → A
get_or a none = a
get_or _ (some b) = b

abbrev is_billed : String → String → ℕ → AppPrice → Bool
is_billed tier interval count p =
    p.tier == tier && p.interval == interval && p.interval_count == count

-- Neither a price nor a tier is named: more than one price is a choice that is not guessed.
abbrev pub only_price : List AppPrice → Action AppPrice
only_price [] = throw internal
only_price (p ∷ []) = pure p
only_price (p ∷ q ∷ rest) =
    throw (bad_request "Specify tier (or priceId): this app sells more than one price")

-- A price that is named, or else a tier with its billing period, or else the one price there is.
unfoldable pub select :
    CheckoutDto → List AppPrice → Option String → Option String → Action AppPrice
select dto prices (some id) tier =
    found_or (bad_request "priceId is not one of this app's registered prices")
      (find (λ p. p.stripe_price_id == id) prices)
select dto prices none (some tier) =
    found_or (bad_request ("This app has no such price for the tier " <> tier))
      (find (is_billed tier (get_or "month" dto.interval) (get_or 1 dto.interval_count)) prices)
select dto prices none none = only_price prices

unfoldable pub select_price : CheckoutDto → List AppPrice → Action AppPrice
unfolding select
select_price dto prices = select dto prices (truthy dto.price_id) (truthy dto.tier)

abbrev pub is_empty : List AppPrice → Bool
is_empty [] = true
is_empty (_ ∷ _) = false

abbrev pub is_sold_by : String → AppPrice → Bool
is_sold_by app_id p = p.app_id == app_id

unfoldable pub resolve_price : Env → CheckoutDto → CallingApp → Action AppPrice
unfolding select_price in_mode
resolve_price env dto app = do
  prices ← query (λ d. filter (is_sold_by app.id) d.app_prices)
  throw_if (is_empty prices) (bad_request "This app has no Stripe prices configured")
  price ← select_price dto prices
  in_mode env price

-- What is sent to Stripe for a price: payment mode, with the metadata on the session itself, for a
-- one-time price, and subscription mode otherwise.
unfoldable pub session_request : CheckoutDto → CallingApp → AppPrice → String → SessionRequest
session_request dto app price customer =
    let is_once = price.interval == once in
    record {
      mode = if is_once then Mode.payment else Mode.subscription;
      customer = customer;
      price = price.stripe_price_id;
      quantity = get_or 1 dto.quantity;
      success_url = dto.success_url;
      cancel_url = dto.cancel_url;
      tenant_id = dto.tenant_id;
      app_id = app.id;
      app_client_id = app.client_id;
      tier = price.tier;
      on_session = is_once;
      trial_period_days =
          if is_once then none else if ltb 0 price.trial_days then some price.trial_days else none;
    }

-- The steps of `checkout` once the price is known, in two parts: the checks, and the calls of Stripe.
unfoldable pub open_session :
    Env → Option Client → CheckoutDto → CallingApp → AppPrice → Action String
unfolding require_stripe
open_session env stripe dto app price = do
  customer ← ensure_customer stripe dto.tenant_id
  client ← require_stripe stripe
  pure (client.create_session (session_request dto app price customer))

unfoldable pub check_redirects : Env → CheckoutDto → CallingApp → Action (Unit {0})
check_redirects env dto app = do
  assert_redirect_allowed env dto.success_url app
  assert_redirect_allowed env dto.cancel_url app

unfoldable pub sell : Env → Option Client → CheckoutDto → CallingApp → AppPrice → Action String
sell env stripe dto app price = do
  require_relationship dto.tenant_id app
  check_redirects env dto app >> open_session env stripe dto app price

unfoldable pub checkout : Env → Option Client → CheckoutDto → CallingApp → Action String
checkout env stripe dto app = resolve_price env dto app >>= sell env stripe dto app

unfoldable pub portal : Env → Option Client → PortalDto → CallingApp → Action String
portal env stripe dto app = do
  require_relationship dto.tenant_id app
  assert_redirect_allowed env dto.return_url app
  customer ← ensure_customer stripe dto.tenant_id
  client ← require_stripe stripe
  pure (client.create_portal customer dto.return_url)
