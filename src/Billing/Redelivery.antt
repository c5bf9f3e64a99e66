-- ===== src/Billing/Redelivery.antt =====
-- A subscription's event that is delivered twice (`syncSubscription`,
-- platform/src/billing/billing.service.ts).
use evo_platform.Base.{
  ◌≡◌, refl, ◌∙◌, ◌&&◌, Bool, true, false, String, Option, none, some, List, arith, Bool-cases, inl,
  inr, string_eq,
}
use evo_platform.Base.Rows.{find_sound, update_where, update_where_idem, find-update_where}
use evo_platform.Platform.{AppTenant, is_suspended, Db, Env, ok, is_ok, record_event}
use evo_platform.Billing.Stripe.{Subscription}
use evo_platform.Billing.Rows.{is_pair, find_pair, update_app_tenant}
use evo_platform.Billing.Webhook.{
  named_pair, row_for, subscription_row, billed_status, is_owned_by_other, sync_found, synced_row,
  sync_subscription, tier_of,
}
use evo_platform.Billing.Lifecycle.{is_owner, access_found, app_tenants-sync_found}

-- The row that an event of a subscription leads to, once the event has been handled, has the pair
-- of the row that it led to before.
row_for-synced :
    (env : Env) (sub : Subscription) (tier : Option String) (named : Option (String × String))
    (a : AppTenant) (d d' : Db)
    → row_for sub d named ≡ some a
    → d'.app_tenants
      ≡ update_where (is_pair a.tenant_id a.app_id) (synced_row env sub tier) d.app_tenants
    → (x : AppTenant) × (row_for sub d' named ≡ some (synced_row env sub tier x))
      × (is_pair a.tenant_id a.app_id x ≡ true)
unfolding find_pair is_owner synced_row
row_for-synced env sub tier none a d d' h e =
    let (s, same, owner, again) = access_found (some sub.id) d h in
    let (x, found, pair) =
      find-update_where (is_owner s) (is_pair a.tenant_id a.app_id) (synced_row env sub tier)
        d.app_tenants owner (ground arith) (λ x _. ground arith) in
    (x, rw (again d', e) found, pair)
row_for-synced env sub tier (some (t, c)) a d d' h e =
    let pair_a = find_sound (is_pair t c) d.app_tenants h in
    let (x, found, pair) =
      find-update_where (is_pair t c) (is_pair a.tenant_id a.app_id) (synced_row env sub tier)
        d.app_tenants h (ground arith) (λ x p. ground (arith, p, pair_a)) in
    (x, rw e found, pair)

-- Handling a row again writes what is there already.
synced_row_idem :
    (env env' : Env) (sub : Subscription) (tier : Option String) (r : AppTenant)
    → synced_row env' sub tier (synced_row env sub tier r) ≡ synced_row env sub tier r
unfolding synced_row
synced_row_idem env env' sub tier r = ground arith

abbrev is_stale : Subscription → AppTenant → Bool
is_stale sub a = is_owned_by_other sub a && is_suspended (billed_status sub.status)

update-is_ok :
    (t a : String) (f : AppTenant → AppTenant) (d : Db)
    → is_ok (update_app_tenant t a f d).0 ≡ true
    → ((update_app_tenant t a f d).1.app_tenants ≡ update_where (is_pair t a) f d.app_tenants)
      × ((update_app_tenant t a f d).1.app_prices ≡ d.app_prices)
unfolding update_app_tenant
update-is_ok t a f d h = ground arith

sync_found_stale :
    (env : Env) (sub : Subscription) (tier : Option String) (a : AppTenant) (d : Db)
    → is_stale sub a ≡ true
    → sync_found env sub tier a d ≡ (ok true, d)
unfolding sync_found
sync_found_stale env sub tier a d h = ground arith

sync_found_live :
    (env : Env) (sub : Subscription) (tier : Option String) (a : AppTenant) (d : Db)
    → is_stale sub a ≡ false
    → is_ok (sync_found env sub tier a d).0 ≡ true
    → ((sync_found env sub tier a d).1.app_tenants
        ≡ update_where (is_pair a.tenant_id a.app_id) (synced_row env sub tier) d.app_tenants)
      × ((sync_found env sub tier a d).1.app_prices ≡ d.app_prices)
unfolding sync_found record_event
sync_found_live env sub tier a d live h =
    ground (arith, update-is_ok a.tenant_id a.app_id (synced_row env sub tier) d)

tier_of-prices :
    (sub : Subscription) (d d' : Db) → d'.app_prices ≡ d.app_prices → tier_of sub d' ≡ tier_of sub d
unfolding tier_of
tier_of-prices sub d d' e = rw e refl

-- Handling again, after the event was handled and the row stands at `synced_row`.
sync_again :
    (env env' : Env) (sub : Subscription) (tier : Option String) (a x : AppTenant)
    (rows : List AppTenant) (d : Db)
    → d.app_tenants ≡ update_where (is_pair a.tenant_id a.app_id) (synced_row env sub tier) rows
    → is_pair a.tenant_id a.app_id x ≡ true
    → (sync_found env' sub tier (synced_row env sub tier x) d).1.app_tenants ≡ d.app_tenants
unfolding synced_row
sync_again env env' sub tier a x rows d e pair =
    elim (app_tenants-sync_found env' sub tier (synced_row env sub tier x) d) [
      | inl same ↦ same
      | inr (_, updated) ↦
          let same_t : x.tenant_id ≡ a.tenant_id = ground (arith, pair) in
          let same_a : x.app_id ≡ a.app_id = ground (arith, pair) in
          updated
          ∙ rw (same_t, same_a, e)
              (update_where_idem (is_pair a.tenant_id a.app_id) (synced_row env sub tier)
                (synced_row env' sub tier) rows
                (λ r h. (ground (arith, h), synced_row_idem env env' sub tier r)))
    ]

-- Stripe may deliver an event of a subscription twice. Once it was handled for a pair that has a
-- row, handling it again, at whatever later time, leaves every row of `app_tenants` as it is; in
-- particular a grace window that was opened is not extended.
pub sync_subscription_redelivered :
    (env env' : Env) (sub : Subscription) (a : AppTenant) (d : Db)
    → subscription_row sub d ≡ some a
    → is_ok (sync_subscription env sub d).0 ≡ true
    → (sync_subscription env' sub (sync_subscription env sub d).1).1.app_tenants
      ≡ (sync_subscription env sub d).1.app_tenants
unfolding sync_subscription subscription_row
sync_subscription_redelivered env env' sub a d found handled =
    let tier = tier_of sub d in
    elim (Bool-cases (is_stale sub a)) [
      | inl stale ↦ rw (
        found,
        sync_found_stale env sub tier a d stale,
        found,
        sync_found_stale env' sub tier a d stale,
      )
      | inr live ↦
          let d' = (sync_found env sub tier a d).1 in
          let (written, prices) = sync_found_live env sub tier a d live (rw found at handled) in
          let (x, again, pair) =
            row_for-synced env sub tier (named_pair sub.metadata) a d d' found written in
          rw (found, again, tier_of-prices sub d d' prices)
            (sync_again env env' sub tier a x d.app_tenants d' written pair)
    ]
