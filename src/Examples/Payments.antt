-- ===== src/Examples/Payments.antt =====
-- The theorems on billing, at concrete events and calls.
use evo_platform.Base.{
  ◌≡◌, ◌≤◌, ◌<◌, ◌+◌, ◌*◌, ◌↔◌, refl, String, Bool, true, false, none, some, [], ◌∷◌, string_eq,
  option_eq, nat_eq,
}
use evo_platform.Base.Rows.{find, filter, any, count_where}
use evo_platform.Platform.{
  Tenant, TenantStatus, AppPrice, AppTenant, AppTenantStatus, Db, is_suspended, day_ms, ok,
  record_event,
}
use evo_platform.Billing.Stripe.{
  CallingApp, Client, Subscription, Reference, Invoice, Event, invoice_subscription_id,
}
use evo_platform.Billing.Rows.{find_pair, subscription_taken, update_app_tenant}
use evo_platform.Billing.Access.{
  Entitlement, entitlement, entitlement_of, is_enabled, days_until, deadline, require_stripe,
  assert_redirect_allowed, require_relationship, ensure_customer, is_registered_origin,
}
use evo_platform.Billing.Checkout.{
  CheckoutDto, checkout, sell, resolve_price, select_price, select, in_mode, fits_mode, is_sold_by,
  check_redirects, open_session, session_request,
}
use evo_platform.Billing.Webhook.{
  handle_event, on_invoice_paid, on_payment_failed, lapsed_row, access_by_subscription_id,
  sync_subscription, sync_found, subscription_row, named_pair, billed_status, synced_row,
}
use evo_platform.Auth.Gate.{assert_app_enabled}
use evo_platform.Billing.Door.{entitlement-assert_app_enabled, days_until_exact, days_left-enabled}
use evo_platform.Billing.Isolation.{routed_pair, handle_event-Touches}
use evo_platform.Billing.Isolation.Steps.{Touches}
use evo_platform.Billing.Selling.{IsRegistered, checkout_sound}
use evo_platform.Billing.Lifecycle.{
  invoice_paid_keeps_suspended, replaced_subscription_suspends_none, payment_failed_reopens,
}
use evo_platform.Billing.Redelivery.{sync_subscription_redelivered}
use evo_platform.Examples.Tenancy.{
  env_at, acme, notes, access_at, enabled_row, token_of, db_with, db,
}
use mathlib.Core.List.{Memᴰ}

abbrev caller : CallingApp
caller = record { id = "a1"; client_id = "notes"; callback_urls = "https://notes.example" ∷ [] }

abbrev stripe : Client
stripe = record {
  create_customer = λ _ _ _. "cus_new";
  create_session = λ _. "https://checkout.example";
  create_portal = λ _ _. "https://portal.example";
  construct_event = λ _ _ _. none;
}

abbrev dto : CheckoutDto
dto = record {
  tenant_id = "t1";
  price_id = none;
  tier = some "pro";
  interval = none;
  interval_count = none;
  quantity = none;
  success_url = "https://notes.example";
  cancel_url = "https://notes.example";
}

abbrev sub_with : String → String → Subscription
sub_with id status = record {
  id = id;
  status = status;
  metadata = record { tenant_id = some "t1"; app_id = some "a1"; tier = none };
  price_id = some "price_pro";
}

abbrev invoice : Invoice
invoice = record { subscription = none; parent_subscription = some (Reference.bare "sub_1") }

abbrev suspended_row : AppTenant
suspended_row = access_at AppTenantStatus.suspended none

abbrev suspended_db : Db
suspended_db = db_with suspended_row (token_of none)

abbrev is_suspended_row : AppTenant → Bool
is_suspended_row r = is_suspended r.status

entitlement-assert_app_enabled_example :
    (e : Entitlement) × (entitlement (env_at 5) "t1" caller db ≡ (ok e, db))
    × ((e.enabled ≡ true) ↔ (assert_app_enabled 5 (some acme) (some "notes") db ≡ (ok tt, db)))
unfolding find string_eq
entitlement-assert_app_enabled_example =
    entitlement-assert_app_enabled (env_at 5) acme notes caller "notes" db refl refl refl

days_until_exact_example :
    (100 ≤ 40 + days_until 40 100 * day_ms)
    × (40 < 100 → 40 + days_until 40 100 * day_ms < 100 + day_ms)
    × ((days_until 40 100 ≡ 0) ↔ (100 ≤ 40))
days_until_exact_example = days_until_exact 40 100

days_left-enabled_example : (entitlement_of 5 (some enabled_row)).enabled ≡ true
unfolding entitlement_of deadline
days_left-enabled_example = days_left-enabled 5 enabled_row refl (λ h. cc)

abbrev suspended_acme : Tenant
suspended_acme = record acme { status = TenantStatus.suspended }

handle_event-Touches_example :
    Touches
      (routed_pair (Event.invoice_payment_failed invoice) db)
      db
      (handle_event (env_at 5) (Event.invoice_payment_failed invoice) db).1
handle_event-Touches_example =
    handle_event-Touches (env_at 5) (Event.invoice_payment_failed invoice) db

checkout_sound_example :
    (client : Client) × (price : AppPrice) × (customer : String) × (some stripe ≡ some client)
    × ("https://checkout.example"
        ≡ client.create_session (session_request dto caller price customer))
    × Memᴰ price db.app_prices
    × (is_sold_by "a1" price ≡ true)
    × (fits_mode (env_at 5).config.stripe_mode price ≡ true)
    × ((a : AppTenant) × (find_pair "t1" "a1" db ≡ some a))
    × IsRegistered (env_at 5) caller "https://notes.example"
    × IsRegistered (env_at 5) caller "https://notes.example"
unfolding checkout sell resolve_price select_price select in_mode fits_mode find filter
    require_relationship find_pair check_redirects assert_redirect_allowed is_registered_origin any
    open_session ensure_customer require_stripe string_eq nat_eq option_eq
checkout_sound_example =
    checkout_sound (env_at 5) (some stripe) dto caller db {url = "https://checkout.example"}
      {d' = db} refl

invoice_paid_keeps_suspended_example :
    filter is_suspended_row (on_invoice_paid invoice suspended_db).1.app_tenants
    ≡ filter is_suspended_row suspended_db.app_tenants
unfolding any
invoice_paid_keeps_suspended_example = invoice_paid_keeps_suspended invoice suspended_db (refl, tt)

replaced_subscription_suspends_none_example :
    count_where is_suspended_row
      (sync_subscription (env_at 5) (sub_with "sub_0" "canceled") db).1.app_tenants
    ≤ count_where is_suspended_row db.app_tenants
unfolding subscription_row named_pair find_pair find string_eq
replaced_subscription_suspends_none_example =
    replaced_subscription_suspends_none (env_at 5) (sub_with "sub_0" "canceled") enabled_row db refl
      refl

payment_failed_reopens_example :
    (is_enabled 5 suspended_row ≡ false)
    × (is_enabled 5 (lapsed_row (env_at 5) suspended_row) ≡ true)
    × (access_by_subscription_id
          (some "sub_1")
          (on_payment_failed (env_at 5) invoice suspended_db).1
        ≡ some (lapsed_row (env_at 5) suspended_row))
unfolding access_by_subscription_id invoice_subscription_id find_pair find any subscription_taken
    string_eq
payment_failed_reopens_example =
    payment_failed_reopens (env_at 5) invoice suspended_row suspended_db (refl, tt) refl refl refl
      refl refl

abbrev past_due_sub : Subscription
past_due_sub = sub_with "sub_1" "past_due"

sync_subscription_redelivered_example :
    (sync_subscription
      (env_at 9)
      past_due_sub
      (sync_subscription (env_at 5) past_due_sub db).1).1.app_tenants
    ≡ (sync_subscription (env_at 5) past_due_sub db).1.app_tenants
unfolding sync_subscription sync_found subscription_row named_pair find_pair find any
    subscription_taken update_app_tenant synced_row billed_status string_eq record_event
sync_subscription_redelivered_example =
    sync_subscription_redelivered (env_at 5) (env_at 9) past_due_sub enabled_row db refl refl
