-- ===== src/Tenants/Purge.antt =====
-- `purge` of platform/src/tenants/tenants.service.ts, the erasure of a tenant. The configuration of
-- mail, which it deletes too, is left out.
use evo_platform.Base.{
  ◌≡◌, refl, Bool, true, false, not, ◌&&◌, String, none, some, List, [], ◌∷◌, ◌++◌, ◌==◌, ◌=?◌,
  string_eq, not_set, arith,
}
use evo_platform.Base.Rows.{
  find, filter, any, count_where, delete_where, any-delete_where_none, any-delete_where_eq,
  filter-delete_where,
}
use evo_platform.Platform.{
  Tenant, User, UserRole, RefreshToken, Invite, AppTenant, AuditEvent, Db, Detail, audit, Action,
  Failure, ◌>>=◌, ◌>>◌, query, change, throw_if, record_event, conflict, ok, is_ok,
}
use evo_platform.Tenants.Service.{has_tenant_id, get}
use evo_platform.People.Users.{is_active_admin}

abbrev pub is_member_of : String → User → Bool
is_member_of id u = u.tenant_id =? id

abbrev pub is_access_of : String → AppTenant → Bool
is_access_of id r = r.tenant_id == id

abbrev pub is_invite_of : String → Invite → Bool
is_invite_of id i = i.tenant_id == id

abbrev pub is_event_of : String → AuditEvent → Bool
is_event_of id e = e.tenant_id =? id

-- A row that goes with an account of the tenant, by its foreign key.
abbrev goes_with : String → List User → String → Bool
goes_with id users user_id = any (λ u. is_member_of id u && u.id == user_id) users

-- The transaction of `purge`.
unfoldable pub erase_tenant : String → Db → Db
erase_tenant id d = record d {
  audit_events = delete_where (is_event_of id) d.audit_events;
  app_tenants = delete_where (is_access_of id) d.app_tenants;
  invites = delete_where (is_invite_of id) d.invites;
  users = delete_where (is_member_of id) d.users;
  user_roles = delete_where (λ (ur : UserRole). goes_with id d.users ur.user_id) d.user_roles;
  refresh_tokens =
      delete_where (λ (t : RefreshToken). goes_with id d.users t.user_id) d.refresh_tokens;
  tenants = delete_where (has_tenant_id id) d.tenants;
}

abbrev purged_event : String → Tenant → Db → AuditEvent
purged_event id t d = audit "tenant.purged" none none (
    ("slug", Detail.text t.slug)
    ∷ ("users", Detail.number (count_where (is_member_of id) d.users))
    ∷ ("auditEvents", Detail.number (count_where (is_event_of id) d.audit_events))
    ∷ [])

abbrev not_deleted : Failure
not_deleted = conflict "Purge requires the tenant to be soft-deleted first"

unfoldable pub purge_existing : String → Tenant → Action (Unit {0})
unfolding erase_tenant record_event
purge_existing id t = do
  throw_if (not_set t.deleted_at) not_deleted
  event ← query (purged_event id t)
  change (erase_tenant id)
  record_event event

unfoldable pub purge : String → Action (Unit {0})
unfolding get
purge id = get id >>= purge_existing id

purge-eq :
    (id : String) (t : Tenant) (d : Db)
    → find (has_tenant_id id) d.tenants ≡ some t
    → not_set t.deleted_at ≡ false
    → purge id d ≡ (
      ok tt,
      record (erase_tenant id d) {
        audit_events = (erase_tenant id d).audit_events ++ (purged_event id t d ∷ []);
      },
    )
unfolding purge get purge_existing record_event
purge-eq id t d found deleted = ground (arith, found, deleted)

-- Purging a tenant that is soft-deleted leaves no account, no row of an app's access, no invitation
-- of the tenant, and no tenant of the id; the accounts and the access rows of the
-- other tenants stand as they stood, in their order.
pub purge_erases :
    (id : String) (t : Tenant) (d : Db)
    → find (has_tenant_id id) d.tenants ≡ some t
    → not_set t.deleted_at ≡ false
    → let (r, d') = purge id d in
      (is_ok r ≡ true)
      × (any (has_tenant_id id) d'.tenants ≡ false)
      × (any (is_member_of id) d'.users ≡ false)
      × (any (is_access_of id) d'.app_tenants ≡ false)
      × (any (is_invite_of id) d'.invites ≡ false)
      × (filter (λ u. not (is_member_of id u)) d'.users
          ≡ filter (λ u. not (is_member_of id u)) d.users)
      × (filter (λ a. not (is_access_of id a)) d'.app_tenants
          ≡ filter (λ a. not (is_access_of id a)) d.app_tenants)
unfolding erase_tenant
purge_erases id t d found deleted = rw (purge-eq id t d found deleted) (
  refl,
  any-delete_where_none (has_tenant_id id) d.tenants,
  any-delete_where_none (is_member_of id) d.users,
  any-delete_where_none (is_access_of id) d.app_tenants,
  any-delete_where_none (is_invite_of id) d.invites,
  filter-delete_where (λ u. not (is_member_of id u)) (is_member_of id) d.users
      (λ x h. ground (arith, h)),
  filter-delete_where (λ a. not (is_access_of id a)) (is_access_of id) d.app_tenants
      (λ x h. ground (arith, h)),
)

-- Purging the tenant in which every active administrator of the platform has the account leaves the
-- platform with none.
pub purge_removes_last_admin :
    (id : String) (t : Tenant) (d : Db)
    → find (has_tenant_id id) d.tenants ≡ some t
    → not_set t.deleted_at ≡ false
    → any (λ u. is_active_admin u && not (is_member_of id u)) d.users ≡ false
    → (is_ok (purge id d).0 ≡ true) × (any is_active_admin (purge id d).1.users ≡ false)
unfolding erase_tenant
purge_removes_last_admin id t d found deleted none_elsewhere =
    rw (purge-eq id t d found deleted)
      (refl, rw (any-delete_where_eq is_active_admin (is_member_of id) d.users) none_elsewhere)
