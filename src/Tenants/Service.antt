-- ===== src/Tenants/Service.antt =====
-- The platform administrator's service of tenants: platform/src/tenants/tenants.service.ts. The
-- company profile, the configuration of mail and the export of a tenant are left out.
use evo_platform.Base.{
  ℕ, Bool, ◌&&◌, ◌||◌, String, ◌<>◌, Option, none, some, List, [], ◌∷◌, ◌++◌, map, ◌==◌, string_eq,
  not_set,
}
use evo_platform.Base.Rows.{find, filter, any, update_where, delete_where}
use evo_platform.Platform.{
  Tenant, TenantStatus, App, AppTenant, AppTenantStatus, AuditEvent, Db, Env, Detail, audit, Action,
  ◌>>=◌, ◌>>◌, pure, query, change, found_or, throw_if, record_event, database, p2002, not_found,
  conflict,
}
use evo_platform.People.Names.{or_stored, given_or}
use evo_platform.Billing.Rows.{find_pair, create_app_tenant, update_app_tenant}
use evo_platform.Billing.Webhook.{status_name}

pub record CreateTenantDto : Type 0 where
  pub slug : String
  pub name : String
  pub plan : Option String

pub record UpdateTenantDto : Type 0 where
  pub name : Option String
  pub plan : Option String

-- The instants are those of the texts of the request.
pub record SetAppAccessDto : Type 0 where
  pub status : Option AppTenantStatus
  pub plan : Option String
  pub trial_ends_at : Option ℕ
  pub grace_until : Option ℕ

abbrev pub has_tenant_id : String → Tenant → Bool
has_tenant_id id t = t.id == id

unfoldable pub list : Bool → Db → List Tenant
list include_deleted d = filter (λ (t : Tenant). include_deleted || not_set t.deleted_at) d.tenants

unfoldable pub get : String → Action Tenant
get id = do
  found_or (not_found "Tenant not found") (← query (λ d. find (has_tenant_id id) d.tenants))

unfoldable pub created_tenant : Env → CreateTenantDto → Tenant
created_tenant env dto = record {
  id = env.new_id;
  slug = dto.slug;
  name = dto.name;
  plan = given_or dto.plan "free";
  status = TenantStatus.active;
  stripe_customer_id = none;
  grace_until = none;
  deleted_at = none;
}

-- The row of an app that every new tenant is given.
abbrev pub enrolled : Tenant → App → AppTenant
enrolled t a = record {
  tenant_id = t.id;
  app_id = a.id;
  status = AppTenantStatus.active;
  plan = t.plan;
  trial_ends_at = none;
  grace_until = none;
  stripe_subscription_id = none;
}

unfoldable pub create : Env → CreateTenantDto → Action Tenant
unfolding created_tenant record_event
create env dto = do
  taken ← query (λ d. any (λ (t : Tenant). t.slug == dto.slug) d.tenants)
  throw_if taken (conflict ("Slug \"" <> dto.slug <> "\" is already taken"))
  let tenant = created_tenant env dto
  clash ← query (λ d. any (has_tenant_id tenant.id) d.tenants)
  throw_if clash (database p2002)
  change (λ d. record d { tenants = d.tenants ++ (tenant ∷ []) })
  apps ← query (λ d. filter (λ (a : App). a.auto_enroll) d.apps)
  change (λ d. record d { app_tenants = d.app_tenants ++ map (enrolled tenant) apps })
  record_event (audit "tenant.created" (some tenant.id) none (("slug", Detail.text dto.slug) ∷ []))
  pure tenant

abbrev find_app : String → Db → Option App
find_app id d = find (λ (a : App). a.id == id) d.apps

abbrev access_created : String → String → SetAppAccessDto → AppTenant
access_created tenant_id app_id dto = record {
  tenant_id = tenant_id;
  app_id = app_id;
  status = given_or dto.status AppTenantStatus.active;
  plan = given_or dto.plan "free";
  trial_ends_at = dto.trial_ends_at;
  grace_until = dto.grace_until;
  stripe_subscription_id = none;
}

abbrev access_changed : SetAppAccessDto → AppTenant → AppTenant
access_changed dto r = record r {
  status = given_or dto.status r.status;
  plan = given_or dto.plan r.plan;
  trial_ends_at = or_stored dto.trial_ends_at r.trial_ends_at;
  grace_until = or_stored dto.grace_until r.grace_until;
}

abbrev upsert_access : String → String → SetAppAccessDto → Option AppTenant → Action AppTenant
upsert_access tenant_id app_id dto none = create_app_tenant (access_created tenant_id app_id dto)
upsert_access tenant_id app_id dto (some _) =
    update_app_tenant tenant_id app_id (access_changed dto)

abbrev app_event : String → String → App → List (String × Detail) → AuditEvent
app_event action tenant_id app more = record {
  action = action;
  tenant_id = some tenant_id;
  user_id = none;
  app_client_id = some app.client_id;
  detail = ("app", Detail.text app.name) ∷ more;
}

unfoldable pub set_app_access : String → String → SetAppAccessDto → Action AppTenant
unfolding get find_pair create_app_tenant update_app_tenant record_event
set_app_access tenant_id app_id dto = do
  get tenant_id
  app ← found_or (not_found "App not found") (← query (find_app app_id))
  existing ← query (find_pair tenant_id app_id)
  access ← upsert_access tenant_id app_id dto existing
  record_event (
      app_event "tenant.app_access_set" tenant_id app (
        ("status", Detail.text (status_name access.status))
        ∷ ("plan", Detail.text access.plan)
        ∷ []))
  pure access

abbrev is_access : String → String → AppTenant → Bool
is_access tenant_id app_id r = r.tenant_id == tenant_id && r.app_id == app_id

unfoldable pub remove_app_access : String → String → Action (Unit {0})
unfolding get record_event
remove_app_access tenant_id app_id = do
  get tenant_id
  app ← found_or (not_found "App not found") (← query (find_app app_id))
  change (λ d. record d { app_tenants = delete_where (is_access tenant_id app_id) d.app_tenants })
  record_event (app_event "tenant.app_access_removed" tenant_id app [])

-- `tenant.update({ where: { id }, data })` of a tenant that is on record.
unfoldable pub write_tenant : String → (Tenant → Tenant) → Tenant → Action Tenant
write_tenant id f t = do
  change (λ d. record d { tenants = update_where (has_tenant_id id) f d.tenants })
  pure (f t)

abbrev updated_tenant : UpdateTenantDto → Tenant → Tenant
updated_tenant dto t = record t { name = given_or dto.name t.name; plan = given_or dto.plan t.plan }

unfoldable pub update : String → UpdateTenantDto → Action Tenant
unfolding get write_tenant
update id dto = get id >>= write_tenant id (updated_tenant dto)

-- A change of a tenant with its audit event, as `remove`, `restore`, `suspend` and `activate` have.
unfoldable pub write_recorded : String → String → (Tenant → Tenant) → Tenant → Action Tenant
unfolding write_tenant record_event
write_recorded action id f t = do
  written ← write_tenant id f t
  record_event (audit action (some id) none [])
  pure written

abbrev pub with_status : TenantStatus → Tenant → Tenant
with_status status t = record t { status = status }

unfoldable pub remove : Env → String → Action Tenant
unfolding get write_recorded
remove env id =
    get id >>= write_recorded "tenant.deleted" id (λ t. record t { deleted_at = some env.now })

unfoldable pub restore : String → Action Tenant
unfolding get write_recorded
restore id = get id >>= write_recorded "tenant.restored" id (λ t. record t { deleted_at = none })

unfoldable pub suspend : String → Action Tenant
unfolding get write_recorded
suspend id = get id >>= write_recorded "tenant.suspended" id (with_status TenantStatus.suspended)

unfoldable pub activate : String → Action Tenant
unfolding get write_recorded
activate id = get id >>= write_recorded "tenant.activated" id (with_status TenantStatus.active)
