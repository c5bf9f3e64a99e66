-- ===== src/Billing/Webhook.antt =====
-- The webhook: `verifyAndParseEvent` and `handleEvent` of platform/src/billing/billing.service.ts
-- with every handler. A handler returns the flag `handled`.
use evo_platform.Base.{
  ℕ, ◌+◌, ◌*◌, Bool, true, false, ◌&&◌, not, String, Option, none, some, [], ◌∷◌, ◌==◌, ◌=?◌,
  string_eq, if◌then◌else◌,
}
use evo_platform.Base.Rows.{find}
use evo_platform.Platform.{
  AppPrice, AppTenant, AppTenantStatus, is_past_due, is_suspended, Db, Env, truthy, day_ms, Detail,
  audit, Action, ◌>>=◌, ◌>>◌, pure, query, found_or, record_event, on_foreign_key, nullable,
  AuditEvent, bad_request, unavailable,
}
use evo_platform.Billing.Stripe.{
  Client, Metadata, Subscription, Invoice, Mode, Session, Event, invoice_subscription_id,
}
use evo_platform.Billing.Rows.{find_pair, create_app_tenant, update_app_tenant}
use evo_platform.Billing.Access.{require_stripe}

-- `verifyAndParseEvent`: the body and the signature are those of the request, if it has them.
unfoldable pub verify_and_parse_event :
    Env → Option Client → Option String → Option String → Action Event
unfolding require_stripe
verify_and_parse_event env stripe raw_body signature = do
  secret ←
      found_or (unavailable "Billing webhook is not configured") (truthy env.config.webhook_secret)
  body ← found_or (bad_request "Invalid webhook signature") raw_body
  sig ← found_or (bad_request "Invalid webhook signature") (truthy signature)
  client ← found_or (bad_request "Invalid webhook signature") stripe
  found_or (bad_request "Invalid webhook signature") (client.construct_event body sig secret)

unfoldable pub access_by_subscription_id : Option String → Db → Option AppTenant
access_by_subscription_id sub_id d = elim (truthy sub_id) [
  | none ↦ none
  | some s ↦ find (λ r. r.stripe_subscription_id =? s) d.app_tenants
]

-- The tier of the price that the subscription bills.
unfoldable pub tier_of : Subscription → Db → Option String
tier_of sub d = elim (truthy sub.price_id) [
  | none ↦ none
  | some id ↦ elim (find (λ (p : AppPrice). p.stripe_price_id == id) d.app_prices) [
    | none ↦ none
    | some p ↦ some p.tier
  ]
]

abbrev pub orphan_event : String → Metadata → String → AuditEvent
orphan_event sub_id meta stripe_status = audit "billing.orphan_subscription" none none (
    ("stripeSubscriptionId", Detail.text sub_id)
    ∷ ("tenantId", nullable meta.tenant_id)
    ∷ ("appId", nullable meta.app_id)
    ∷ ("stripeStatus", Detail.text stripe_status)
    ∷ [])

unfoldable pub acknowledge_orphan : String → Metadata → String → Action Bool
unfolding record_event
acknowledge_orphan sub_id meta stripe_status = do
  record_event (orphan_event sub_id meta stripe_status)
  pure false

unfoldable pub grace_deadline : Env → ℕ
grace_deadline env = env.now + env.config.grace_days * day_ms

abbrev is_active : String → Bool
is_active s = if s == "active" then true else s == "trialing"

-- The status that a Stripe status stands for.
unfoldable pub billed_status : String → AppTenantStatus
billed_status s =
    if is_active s
    then AppTenantStatus.active
    else if s == "past_due"
    then AppTenantStatus.past_due
    else AppTenantStatus.suspended

abbrev pub grace_of : Option AppTenant → Option ℕ
grace_of none = none
grace_of (some a) = a.grace_until

abbrev pub or_deadline : Env → Option ℕ → Option ℕ
or_deadline env none = some (grace_deadline env)
or_deadline env (some t) = some t

-- A window that runs already is kept.
unfoldable pub billed_grace : Env → String → Option AppTenant → Option ℕ
unfolding grace_deadline
billed_grace env s access =
    if is_active s
    then none
    else if s == "past_due"
    then or_deadline env (grace_of access)
    else none

-- Both halves of the key, if the metadata names them.
unfoldable pub named_pair : Metadata → Option (String × String)
named_pair meta = elim (truthy meta.tenant_id) [
  | none ↦ none
  | some t ↦ elim (truthy meta.app_id) [ none ↦ none | some a ↦ some (t, a) ]
]

abbrev pub row_for : Subscription → Db → Option (String × String) → Option AppTenant
row_for sub d none = access_by_subscription_id (some sub.id) d
row_for sub d (some (t, a)) = find_pair t a d

-- The row of the metadata stamped at checkout, or else the one that the subscription owns.
unfoldable pub subscription_row : Subscription → Db → Option AppTenant
subscription_row sub d = row_for sub d (named_pair sub.metadata)

abbrev plan_or : String → Option String → String
plan_or old none = old
plan_or old (some tier) = tier

-- The row that `syncSubscription` creates for a pair that has none: paying is enablement.
unfoldable pub enabled_row : Env → Subscription → String → String → Option String → AppTenant
unfolding billed_status billed_grace
enabled_row env sub tenant_id app_id tier = record {
  tenant_id = tenant_id;
  app_id = app_id;
  status = billed_status sub.status;
  plan = plan_or "free" (truthy tier);
  trial_ends_at = none;
  grace_until = billed_grace env sub.status none;
  stripe_subscription_id = some sub.id;
}

-- The `data` of the update in `syncSubscription`.
unfoldable pub synced_row : Env → Subscription → Option String → AppTenant → AppTenant
unfolding billed_status billed_grace
synced_row env sub tier r = record r {
  status = billed_status sub.status;
  grace_until = billed_grace env sub.status (some r);
  stripe_subscription_id = some sub.id;
  trial_ends_at = none;
  plan = plan_or r.plan (truthy tier);
}

-- A subscription other than this one owns the row.
abbrev pub is_owned_by_other : Subscription → AppTenant → Bool
is_owned_by_other sub a = elim (truthy a.stripe_subscription_id) [
  | none ↦ false
  | some s ↦ not (s == sub.id)
]

abbrev pub status_name : AppTenantStatus → String
status_name AppTenantStatus.trial = "TRIAL"
status_name AppTenantStatus.active = "ACTIVE"
status_name AppTenantStatus.past_due = "PAST_DUE"
status_name AppTenantStatus.suspended = "SUSPENDED"

abbrev pub synced_event : Subscription → AppTenant → AuditEvent
synced_event sub a = audit "billing.subscription_synced" (some a.tenant_id) none (
    ("appId", Detail.text a.app_id)
    ∷ ("stripeStatus", Detail.text sub.status)
    ∷ ("status", Detail.text (status_name (billed_status sub.status)))
    ∷ ("plan", Detail.text a.plan)
    ∷ [])

-- A subscription for a pair with no row: only if the metadata names a pair.
unfoldable pub sync_missing :
    Env → Subscription → Option String → Option (String × String) → Action Bool
sync_missing env sub tier none = pure false
sync_missing env sub tier (some (t, a)) =
    on_foreign_key (create_app_tenant (enabled_row env sub t a tier))
      (acknowledge_orphan sub.id sub.metadata sub.status)
      (λ row. record_event (synced_event sub row) >> pure true)

unfoldable pub sync_found : Env → Subscription → Option String → AppTenant → Action Bool
sync_found env sub tier a =
    if is_owned_by_other sub a && is_suspended (billed_status sub.status) then pure true else do
      row ← update_app_tenant a.tenant_id a.app_id (synced_row env sub tier)
      record_event (synced_event sub row)
      pure true

abbrev pub sync_row : Env → Subscription → Option String → Option AppTenant → Action Bool
sync_row env sub tier none = sync_missing env sub tier (named_pair sub.metadata)
sync_row env sub tier (some a) = sync_found env sub tier a

unfoldable pub sync_subscription : Env → Subscription → Action Bool
sync_subscription env sub = do
  access ← query (subscription_row sub)
  tier ← query (tier_of sub)
  sync_row env sub tier access

abbrev pub recovered_row : AppTenant → AppTenant
recovered_row r = record r { status = AppTenantStatus.active; grace_until = none }

abbrev pub recovered_event : AppTenant → AuditEvent
recovered_event a =
    audit "billing.payment_recovered" (some a.tenant_id) none (("appId", Detail.text a.app_id) ∷ [])

-- Only a past-due row is lifted.
unfoldable pub recover : Option AppTenant → Action Bool
recover none = pure false
recover (some a) = if not (is_past_due a.status) then pure true else do
  update_app_tenant a.tenant_id a.app_id recovered_row
  record_event (recovered_event a)
  pure true

unfoldable pub on_invoice_paid : Invoice → Action Bool
on_invoice_paid invoice = do
  access ← query (access_by_subscription_id (invoice_subscription_id invoice))
  recover access

abbrev pub lapsed_row : Env → AppTenant → AppTenant
lapsed_row env r = record r {
  status = AppTenantStatus.past_due;
  grace_until = or_deadline env r.grace_until;
}

abbrev pub failed_event : Env → AppTenant → AuditEvent
failed_event env a =
    audit "billing.payment_failed" (some a.tenant_id) none
      (("appId", Detail.text a.app_id) ∷ ("graceDays", Detail.number env.config.grace_days) ∷ [])

unfoldable pub lapse : Env → Option AppTenant → Action Bool
unfolding grace_deadline
lapse env none = pure false
lapse env (some a) = do
  update_app_tenant a.tenant_id a.app_id (lapsed_row env)
  record_event (failed_event env a)
  pure true

unfoldable pub on_payment_failed : Env → Invoice → Action Bool
on_payment_failed env invoice = do
  access ← query (access_by_subscription_id (invoice_subscription_id invoice))
  lapse env access

unfoldable pub purchased_row : String → String → Option String → AppTenant
purchased_row tenant_id app_id tier = record {
  tenant_id = tenant_id;
  app_id = app_id;
  status = AppTenantStatus.active;
  plan = plan_or "free" (truthy tier);
  trial_ends_at = none;
  grace_until = none;
  stripe_subscription_id = none;
}

abbrev pub repurchased_row : Option String → AppTenant → AppTenant
repurchased_row tier r = record r {
  status = AppTenantStatus.active;
  grace_until = none;
  trial_ends_at = none;
  plan = plan_or r.plan (truthy tier);
}

abbrev pub upsert_row : String → String → Option String → Option AppTenant → Action AppTenant
upsert_row tenant_id app_id tier none = create_app_tenant (purchased_row tenant_id app_id tier)
upsert_row tenant_id app_id tier (some _) =
    update_app_tenant tenant_id app_id (repurchased_row tier)

unfoldable pub upsert_purchase : String → String → Option String → Action AppTenant
upsert_purchase tenant_id app_id tier d =
    upsert_row tenant_id app_id tier (find_pair tenant_id app_id d) d

abbrev pub is_payment : Mode → Bool
is_payment Mode.payment = true
is_payment _ = false

abbrev pub purchased_event : Session → String × String → AuditEvent
purchased_event s (t, a) = audit "billing.purchase_completed" (some t) none (
    ("appId", Detail.text a)
    ∷ ("plan", nullable s.metadata.tier)
    ∷ ("mode", Detail.text "payment")
    ∷ [])

unfoldable pub purchase : Session → Option (String × String) → Action Bool
purchase s none = pure false
purchase s (some (t, a)) =
    on_foreign_key (upsert_purchase t a s.metadata.tier)
      (acknowledge_orphan s.id s.metadata "checkout_paid")
      (λ _. record_event (purchased_event s (t, a)) >> pure true)

unfoldable pub on_checkout_completed : Session → Action Bool
on_checkout_completed s =
    if is_payment s.mode && s.is_paid then purchase s (named_pair s.metadata) else pure false

unfoldable pub handle_event : Env → Event → Action Bool
handle_event env (Event.subscription_created sub) = sync_subscription env sub
handle_event env (Event.subscription_updated sub) = sync_subscription env sub
handle_event env (Event.subscription_deleted sub) = sync_subscription env sub
handle_event env (Event.invoice_paid invoice) = on_invoice_paid invoice
handle_event env (Event.invoice_payment_failed invoice) = on_payment_failed env invoice
handle_event env (Event.checkout_session_completed session) = on_checkout_completed session
handle_event env Event.other = pure false
