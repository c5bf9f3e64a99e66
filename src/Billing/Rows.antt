-- ===== src/Billing/Rows.antt =====
-- The rows of `app_tenants` (the model AppTenant of platform/prisma/schema.prisma), one for each
-- pair of a tenant and an app, and the writes that the service makes of them with the constraints
-- that the schema declares.
use evo_platform.Base.{
  Bool, false, ◌&&◌, ◌||◌, not, String, Option, none, some, List, [], ◌∷◌, ◌++◌, ◌==◌, ◌=?◌,
  string_eq, if◌then◌else◌,
}
use evo_platform.Base.Rows.{find, any, update_where}
use evo_platform.Platform.{
  Tenant, App, AppTenant, Db, Action, ok, err, database, p2002, p2003, internal,
}

-- The unique key `tenantId_appId`.
abbrev pub is_pair : String → String → AppTenant → Bool
is_pair tenant_id app_id r = r.tenant_id == tenant_id && r.app_id == app_id

unfoldable pub find_pair : String → String → Db → Option AppTenant
find_pair tenant_id app_id d = find (is_pair tenant_id app_id) d.app_tenants

-- Another row has the value of the unique column `stripeSubscriptionId`; nulls never clash.
unfoldable pub subscription_taken : AppTenant → List AppTenant → Bool
subscription_taken row rows = elim row.stripe_subscription_id [
  | none ↦ false
  | some s ↦
      any (λ r. not (is_pair row.tenant_id row.app_id r) && r.stripe_subscription_id =? s) rows
]

unfoldable pub create_app_tenant : AppTenant → Action AppTenant
create_app_tenant row d =
    if any (is_pair row.tenant_id row.app_id) d.app_tenants || subscription_taken row d.app_tenants
    then (err (database p2002), d)
    else if any (λ (t : Tenant). t.id == row.tenant_id) d.tenants
        && any (λ (a : App). a.id == row.app_id) d.apps
    then (ok row, record d { app_tenants = d.app_tenants ++ (row ∷ []) })
    else (err (database p2003), d)

-- An update of one row by its key; `f` leaves the key as it is.
unfoldable pub update_app_tenant : String → String → (AppTenant → AppTenant) → Action AppTenant
update_app_tenant tenant_id app_id f d = elim (find_pair tenant_id app_id d) [
  | none ↦ (err internal, d)
  | some row ↦ if subscription_taken (f row) d.app_tenants then (err (database p2002), d) else (
    ok (f row),
    record d { app_tenants = update_where (is_pair tenant_id app_id) f d.app_tenants },
  )
]
