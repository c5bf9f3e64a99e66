-- ===== src/Billing/Door.antt =====
-- The standing that an app is told (`entitlement`, platform/src/billing/billing.service.ts) against
-- the gate of a login (`assertAppEnabled`, platform/src/auth/auth.service.ts).
use evo_platform.Base.{
  ℕ, ◌+◌, ◌*◌, ◌≤◌, ◌<◌, ◌≡◌, refl, ◌≢◌, ◌↔◌, true, false, String, Option, none, some, arith,
}
use evo_platform.Base.Rows.{find}
use evo_platform.Platform.{
  Tenant, App, AppTenant, Db, Env, truthy, day_ms, ok, forbidden, found_or, ◌>>=◌, is_suspended,
}
use evo_platform.Billing.Stripe.{CallingApp}
use evo_platform.Billing.Rows.{find_pair}
use evo_platform.Billing.Access.{Entitlement, days_until, entitlement_of, entitlement}
use evo_platform.Auth.Gate.{is_client, assert_admitted, assert_app_enabled}

-- The gate of an app for what the lookup of the enablement row gave.
enabled_iff_admitted :
    (now : ℕ) (o : Option AppTenant) (d : Db)
    → ((entitlement_of now o).enabled ≡ true) ↔ (
        (found_or (forbidden "App is not enabled for this workspace") o >>= assert_admitted now) d
        ≡ (ok tt, d))
unfolding entitlement_of assert_admitted
enabled_iff_admitted now none d = ground arith
enabled_iff_admitted now (some a) d = ground arith

gate_of_registered :
    (now : ℕ) (t : Tenant) (app : App) (client_id : String) (d : Db)
    → truthy (some client_id) ≡ some client_id
    → find (is_client client_id) d.apps ≡ some app
    → assert_app_enabled now (some t) (some client_id) d
      ≡ (found_or (forbidden "App is not enabled for this workspace") (find_pair t.id app.id d)
            >>= assert_admitted now)
          d
unfolding assert_app_enabled
gate_of_registered now t app client_id d named registered = ground arith

-- For an app that is registered under a client id that is not empty, and not deleted, the standing
-- says `enabled` exactly when a login scoped to the app passes the gate of the app; neither changes
-- the database.
pub entitlement-assert_app_enabled :
    (env : Env) (t : Tenant) (app : App) (caller : CallingApp) (client_id : String) (d : Db)
    → truthy (some client_id) ≡ some client_id
    → find (is_client client_id) d.apps ≡ some app
    → caller.id ≡ app.id
    → (e : Entitlement) × (entitlement env t.id caller d ≡ (ok e, d))
      × ((e.enabled ≡ true) ↔ (assert_app_enabled env.now (some t) (some client_id) d ≡ (ok tt, d)))
unfolding entitlement
entitlement-assert_app_enabled env t app caller client_id d named registered same = (
  entitlement_of env.now (find_pair t.id caller.id d),
  refl,
  rw (gate_of_registered env.now t app client_id d named registered, same)
      (enabled_iff_admitted env.now (find_pair t.id app.id d) d),
)

-- The countdown is the number of days, rounded up, from now to the deadline: that many days reach
-- it, one day less does not, and it is 0 exactly when the deadline is not ahead.
pub days_until_exact :
    (now t : ℕ)
    → (t ≤ now + days_until now t * day_ms)
      × (now < t → now + days_until now t * day_ms < t + day_ms)
      × ((days_until now t ≡ 0) ↔ (t ≤ now))
unfolding days_until
days_until_exact now t = (omega arith, λ h. omega arith, (λ h. omega arith, λ h. omega arith))

-- A row that is not suspended and whose countdown is not 0, or that shows none, is enabled.
pub days_left-enabled :
    (now : ℕ) (a : AppTenant)
    → is_suspended a.status ≡ false
    → (entitlement_of now (some a)).days_left ≢ some 0
    → (entitlement_of now (some a)).enabled ≡ true
unfolding entitlement_of
days_left-enabled now a live h = ground arith
