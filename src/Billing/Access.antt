-- ===== src/Billing/Access.antt =====
-- The standing of a tenant on an app: `requireRelationship`, `assertRedirectAllowed`,
-- `entitlement`, `ensureCustomer` of platform/src/billing/billing.service.ts.
use evo_platform.Base.{
  ℕ, ◌+◌, ◌-◌, ◌/◌, Bool, false, ◌&&◌, not, String, ◌<>◌, Option, none, some, ◌==◌, ◌=?◌, string_eq,
  if◌then◌else◌, ltb,
}
use evo_platform.Base.Rows.{find, any, update_where}
use evo_platform.Platform.{
  Tenant, AppTenant, AppTenantStatus, is_trial, is_past_due, is_suspended, Env, day_ms, truthy,
  Action, ◌>>=◌, ◌>>◌, pure, throw, query, change, found_or, throw_if, bad_request, forbidden,
  not_found, unavailable,
}
use evo_platform.Billing.Stripe.{Client, CallingApp}
use evo_platform.Billing.Rows.{find_pair}

unfoldable pub require_relationship : String → CallingApp → Action AppTenant
unfolding find_pair
require_relationship tenant_id app = do
  found_or (forbidden "App is not enabled for this workspace")
      (← query (find_pair tenant_id app.id))

-- The target and a registered callback address share an origin; an address that does not parse
-- matches nothing.
unfoldable pub is_registered_origin : Env → String → CallingApp → Bool
is_registered_origin env origin app = any (λ cb. env.url_origin cb =? origin) app.callback_urls

unfoldable pub assert_redirect_allowed : Env → String → CallingApp → Action (Unit {0})
unfolding is_registered_origin
assert_redirect_allowed env url app = do
  origin ← found_or (bad_request ("Invalid redirect URL \"" <> url <> "\"")) (env.url_origin url)
  throw_if (not (is_registered_origin env origin app)) (
      bad_request
        ("Redirect origin " <> origin <> " is not registered as a callback URL for this app"))

-- An instant that is set and has passed.
abbrev pub has_passed : ℕ → Option ℕ → Bool
has_passed now none = false
has_passed now (some t) = ltb t now

pub record Entitlement : Type 0 where
  pub enabled : Bool
  pub status : Option AppTenantStatus
  pub plan : Option String
  pub trial_ends_at : Option ℕ
  pub grace_until : Option ℕ
  pub days_left : Option ℕ

unfoldable pub is_enabled : ℕ → AppTenant → Bool
is_enabled now a =
    let trial_expired = is_trial a.status && has_passed now a.trial_ends_at in
    let grace_expired = is_past_due a.status && has_passed now a.grace_until in
    not (is_suspended a.status) && not trial_expired && not grace_expired

-- The one instant that threatens access at this status.
unfoldable pub deadline : AppTenant → Option ℕ
deadline a =
    if is_trial a.status
    then a.trial_ends_at
    else if is_past_due a.status
    then a.grace_until
    else none

-- `Math.max(0, Math.ceil((deadline - now) / 86_400_000))`; the difference stops at 0, where the
-- maximum would put it.
unfoldable pub days_until : ℕ → ℕ → ℕ
days_until now t = (t - now + (day_ms - 1)) / day_ms

unfoldable pub entitlement_of : ℕ → Option AppTenant → Entitlement
unfolding is_enabled deadline days_until
entitlement_of now none = record {
  enabled = false;
  status = none;
  plan = none;
  trial_ends_at = none;
  grace_until = none;
  days_left = none;
}
entitlement_of now (some a) = record {
  enabled = is_enabled now a;
  status = some a.status;
  plan = some a.plan;
  trial_ends_at = a.trial_ends_at;
  grace_until = a.grace_until;
  days_left = elim (deadline a) [ none ↦ none | some t ↦ some (days_until now t) ];
}

unfoldable pub entitlement : Env → String → CallingApp → Action Entitlement
unfolding find_pair entitlement_of
entitlement env tenant_id app = do
  access ← query (find_pair tenant_id app.id)
  pure (entitlement_of env.now access)

unfoldable pub require_stripe : Option Client → Action Client
require_stripe = found_or (unavailable "Billing is not configured (STRIPE_SECRET_KEY unset)")

abbrev is_live_tenant : String → Tenant → Bool
is_live_tenant id t = t.id == id

abbrev not_deleted : Tenant → Action Tenant
not_deleted t = elim t.deleted_at [ none ↦ pure t | some _ ↦ throw (not_found "Tenant not found") ]

abbrev with_customer : String → Tenant → Tenant
with_customer customer t = record t { stripe_customer_id = some customer }

-- The customer that the tenant has, or a new one, stored before it is returned.
abbrev customer_of : Option Client → Tenant → Option String → Action String
customer_of stripe t (some customer) = pure customer
customer_of stripe t none = do
  client ← require_stripe stripe
  let customer = client.create_customer t.name t.id t.slug
  change (λ d. record d {
    tenants = update_where (is_live_tenant t.id) (with_customer customer) d.tenants;
  })
  pure customer

unfoldable pub ensure_customer : Option Client → String → Action String
unfolding require_stripe
ensure_customer stripe tenant_id = do
  found ← query (λ d. find (is_live_tenant tenant_id) d.tenants)
  t ← found_or (not_found "Tenant not found") found
  not_deleted t
  customer_of stripe t (truthy t.stripe_customer_id)
