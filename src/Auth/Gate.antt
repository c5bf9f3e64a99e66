-- ===== src/Auth/Gate.antt =====
-- Who may hold a session: `assertTenantUsable`, `assertAppEnabled` and `rolesForApp` of
-- platform/src/auth/auth.service.ts.
use evo_platform.Base.{
  ℕ, Bool, true, false, ◌&&◌, ◌||◌, not, not_set, String, Option, none, some, List, [], ◌∷◌, ◌==◌,
  string_eq, if◌then◌else◌, ltb,
}
use evo_platform.Base.Rows.{find, filter}
use evo_platform.Platform.{
  Tenant, TenantStatus, App, AppTenant, is_trial, is_past_due, is_suspended, Role, UserRole, User,
  Db, truthy, Action, ◌>>=◌, ◌>>◌, pure, query, found_or, throw_if, forbidden,
}
use evo_platform.Billing.Rows.{find_pair}

abbrev has_passed : ℕ → Option ℕ → Bool
has_passed now none = false
has_passed now (some t) = ltb t now

abbrev is_tenant_past_due : TenantStatus → Bool
is_tenant_past_due TenantStatus.past_due = true
is_tenant_past_due _ = false

abbrev is_tenant_suspended : TenantStatus → Bool
is_tenant_suspended TenantStatus.suspended = true
is_tenant_suspended _ = false

-- The condition of `assertTenantUsable`.
unfoldable pub is_unusable : ℕ → Tenant → Bool
is_unusable now t =
    let grace_expired = is_tenant_past_due t.status && has_passed now t.grace_until in
    not (not_set t.deleted_at) || is_tenant_suspended t.status || grace_expired

unfoldable pub assert_tenant_usable : ℕ → Option Tenant → Action (Unit {0})
unfolding is_unusable
assert_tenant_usable now none = pure tt
assert_tenant_usable now (some t) = throw_if (is_unusable now t) (forbidden "Tenant is suspended")

-- The app of a client id, unless it is deleted.
abbrev pub is_client : String → App → Bool
is_client client_id a = a.client_id == client_id && not_set a.deleted_at

unfoldable pub enablement_of : Tenant → String → Db → Option AppTenant
unfolding find_pair
enablement_of tenant client_id d = elim (find (is_client client_id) d.apps) [
  | none ↦ none
  | some app ↦ find_pair tenant.id app.id d
]

-- The checks of an enablement row, in the order of the code.
unfoldable pub assert_admitted : ℕ → AppTenant → Action (Unit {0})
assert_admitted now a = do
  throw_if (is_suspended a.status) (forbidden "App access is suspended for this workspace")
  throw_if (is_trial a.status && has_passed now a.trial_ends_at)
      (forbidden "Trial has ended for this workspace")
  throw_if (is_past_due a.status && has_passed now a.grace_until)
      (forbidden "App access is suspended for this workspace")

abbrev pub assert_scoped : ℕ → Tenant → String → Action (Unit {0})
assert_scoped now t client_id = do
  enablement ← query (enablement_of t client_id)
  a ← found_or (forbidden "App is not enabled for this workspace") enablement
  assert_admitted now a

abbrev pub assert_client : ℕ → Tenant → Option String → Action (Unit {0})
assert_client now t none = pure tt
assert_client now t (some c) = assert_scoped now t c

-- A session with no tenant, or with no app, is not gated here.
unfoldable pub assert_app_enabled : ℕ → Option Tenant → Option String → Action (Unit {0})
unfolding assert_admitted enablement_of
assert_app_enabled now none client_id = pure tt
assert_app_enabled now (some t) client_id = assert_client now t (truthy client_id)

-- The two checks that login and refresh share, in their order.
unfoldable pub admit : ℕ → Option Tenant → Option String → Action (Unit {0})
admit now tenant client_id = do
  assert_tenant_usable now tenant
  assert_app_enabled now tenant client_id

-- `ur.role` and `ur.role.app` of a row of `user_roles`.
abbrev role_of : UserRole → Db → Option Role
role_of ur d = find (λ (r : Role). r.id == ur.role_id) d.roles

abbrev app_of : Role → Db → Option App
app_of r d = find (λ (a : App). a.id == r.app_id) d.apps

-- `!clientId || ur.role.app.clientId === clientId`
abbrev is_in_scope : Option String → Role → Db → Bool
is_in_scope none r d = true
is_in_scope (some c) r d = elim (app_of r d) [ none ↦ false | some a ↦ a.client_id == c ]

unfoldable pub role_names : Option String → List UserRole → Db → List String
role_names scope [] d = []
role_names scope (ur ∷ urs) d =
    let rest = role_names scope urs d in
    elim (role_of ur d) [
      | none ↦ rest
      | some r ↦ if is_in_scope scope r d then r.name ∷ rest else rest
    ]

abbrev is_of_user : User → UserRole → Bool
is_of_user u ur = ur.user_id == u.id

unfoldable pub roles_for_app : User → Option String → Db → List String
unfolding role_names
roles_for_app user client_id d =
    role_names (truthy client_id) (filter (is_of_user user) d.user_roles) d
