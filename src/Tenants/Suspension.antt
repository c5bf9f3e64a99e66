-- ===== src/Tenants/Suspension.antt =====
-- A suspended tenant (`suspend` of platform/src/tenants/tenants.service.ts) at the login of
-- platform/src/auth/auth.service.ts.
use mathlib.Core.Bool.{true≢false}
use evo_platform.Base.{
  ℕ, ◌≡◌, refl, ◌∙◌, true, false, String, Option, none, some, string_eq, arith, Bool-cases, inl,
  inr,
}
use evo_platform.Base.Rows.{find, find_sound, update_where, find-update_where-same}
use evo_platform.Platform.{
  Tenant, TenantStatus, Db, Env, Result, ok, err, is_ok, truthy, record_event,
}
use evo_platform.Auth.Gate.{is_unusable}
use evo_platform.Auth.Sessions.{LoginDto, is_live_slug, login_tenant, login}
use evo_platform.Auth.Admission.{Admits, login_sound}
use evo_platform.Tenants.Service.{
  has_tenant_id, get, with_status, write_tenant, write_recorded, suspend,
}

tenants-suspend :
    (id : String) (t : Tenant) (d : Db)
    → find (has_tenant_id id) d.tenants ≡ some t
    → (suspend id d).1.tenants
      ≡ update_where (has_tenant_id id) (with_status TenantStatus.suspended) d.tenants
unfolding suspend get write_tenant write_recorded record_event
tenants-suspend id t d found = ground (arith, found)

succeeded : {A : Type 0} (r : Result A × Db) → is_ok r.0 ≡ true → (a : A) × (r ≡ (ok a, r.1))
succeeded (ok a, d) h = (a, refl)
succeeded (err e, d) h = absurd (ground arith)

login_tenant-live :
    (slug : String) (d : Db) (t : Tenant) {tenant : Option Tenant} {d' : Db}
    → find (is_live_slug slug) d.tenants ≡ some t
    → login_tenant (some slug) d ≡ (ok tenant, d')
    → tenant ≡ some t
login_tenant-live slug d t found h = ground (arith, found, h)

unusable-suspended :
    (now : ℕ) (t : Tenant) → is_unusable now (with_status TenantStatus.suspended t) ≡ true
unfolding is_unusable
unusable-suspended now t = ground arith

refused :
    (now : ℕ) (client_id : Option String) (tenant : Option Tenant) (t : Tenant) (d : Db)
    → tenant ≡ some t
    → is_unusable now t ≡ true
    → Admits now tenant client_id d
    → true ≡ false
refused now client_id none t d e h admits = cc
refused now client_id (some x) t d e h admits = ground (arith, e, h, admits.0)

live_after :
    (id slug : String) (t : Tenant) (d : Db)
    → find (has_tenant_id id) d.tenants ≡ some t
    → find (is_live_slug slug) d.tenants ≡ some t
    → find (is_live_slug slug) (suspend id d).1.tenants
      ≡ some (with_status TenantStatus.suspended t)
live_after id slug t d on_record live = rw (tenants-suspend id t d on_record) (
    find-update_where-same (is_live_slug slug) (has_tenant_id id)
      (with_status TenantStatus.suspended) d.tenants (λ x. refl) live
    ∙ ground (arith, find_sound (has_tenant_id id) d.tenants on_record))

-- Once a tenant is suspended, no login to its workspace succeeds, whatever the account, the password
-- and the app, and at whatever time.
pub suspend-login :
    (env : Env) (id slug : String) (t : Tenant) (dto : LoginDto) (d : Db)
    → find (has_tenant_id id) d.tenants ≡ some t
    → find (is_live_slug slug) d.tenants ≡ some t
    → truthy dto.tenant_slug ≡ some slug
    → is_ok (login env dto (suspend id d).1).0 ≡ false
suspend-login env id slug t dto d on_record live named =
    let d' = (suspend id d).1 in
    elim (Bool-cases (is_ok (login env dto d').0)) [
      | inr refused_already ↦ refused_already
      | inl admitted ↦
          let (tokens, e) = succeeded (login env dto d') admitted in
          let (tenant, user, workspace, is_proven, _, _) =
            login_sound env dto d' {tokens = tokens} {d' = (login env dto d').1} e in
          let is_tenant =
            login_tenant-live slug d' (with_status TenantStatus.suspended t)
              (live_after id slug t d on_record live) (rw named at workspace) in
          absurd (
            true≢false (
              refused env.now dto.client_id tenant (with_status TenantStatus.suspended t) d'
                is_tenant (unusable-suspended env.now t) is_proven.admits))
    ]
