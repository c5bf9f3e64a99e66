-- ===== src/People/Members.antt =====
-- The tenant administrator's service of members: platform/src/tenant/tenant.service.ts. The tenant
-- and the acting account come from the verified token.
use evo_platform.Base.{
  Bool, true, false, not, ◌&&◌, String, Option, none, some, List, [], ◌∷◌, ◌==◌, ◌=?◌, string_eq,
  option_eq, not_set, if◌then◌else◌,
}
use evo_platform.Base.Rows.{find, filter, any, length}
use evo_platform.Platform.{
  User, App, AppTenant, AppTenantStatus, Role, AuditEvent, Db, Env, Detail, audit, Action, ◌>>=◌,
  ◌>>◌, pure, query, found_or, throw_if, record_event, not_found, conflict,
}
use evo_platform.People.Names.{
  full_name, or_stored, given_or, is_account, save_user, deleted_at_instant, undeleted,
}
use evo_platform.People.Roles.{assert_roles_enabled, replace_roles}
use evo_platform.People.Users.{insert_recorded}

pub record CreateMemberDto : Type 0 where
  pub email : String
  pub password : String
  pub first_name : Option String
  pub last_name : Option String
  pub phone : Option String
  pub is_tenant_admin : Option Bool

pub record UpdateMemberDto : Type 0 where
  pub first_name : Option String
  pub last_name : Option String
  pub phone : Option String
  pub is_tenant_admin : Option Bool

unfoldable pub list : String → Db → List User
list tenant_id d = filter (λ u. u.tenant_id =? tenant_id) d.users

-- What the picker of roles offers of one app.
pub record RolePicker : Type 0 where
  pub app : String
  pub client_id : String
  pub status : AppTenantStatus
  pub roles : List Role

-- A row of access always has its app, by the foreign key.
abbrev with_app : Db → AppTenant → Option App → List RolePicker → List RolePicker
with_app d a none rest = rest
with_app d a (some app) rest =
    record {
      app = app.name;
      client_id = app.client_id;
      status = a.status;
      roles = filter (λ (r : Role). r.app_id == app.id) d.roles;
    }
    ∷ rest

abbrev pickers : Db → List AppTenant → List RolePicker
pickers d [] = []
pickers d (a ∷ access) =
    with_app d a (find (λ (app : App). app.id == a.app_id) d.apps) (pickers d access)

unfoldable pub list_roles : String → Db → List RolePicker
list_roles tenant_id d =
    pickers d (filter (λ (a : AppTenant). a.tenant_id == tenant_id) d.app_tenants)

-- An account of the tenant that does not administer the platform.
abbrev pub is_member : String → String → User → Bool
is_member tenant_id id u = u.id == id && u.tenant_id =? tenant_id && not u.is_platform_admin

unfoldable pub get_member : String → String → Action User
get_member tenant_id id = do
  found_or (not_found "Member not found") (← query (λ d. find (is_member tenant_id id) d.users))

unfoldable pub created_member : Env → String → CreateMemberDto → User
created_member env tenant_id dto = record {
  id = env.new_id;
  tenant_id = some tenant_id;
  email = env.to_lower_case dto.email;
  password_hash = env.bcrypt_hash dto.password;
  name = full_name env dto.first_name dto.last_name;
  first_name = dto.first_name;
  last_name = dto.last_name;
  phone = dto.phone;
  is_platform_admin = false;
  is_tenant_admin = given_or dto.is_tenant_admin false;
  email_verified_at = some env.now;
  deleted_at = none;
}

abbrev pub member_event : String → String → String → String → List (String × Detail) → AuditEvent
member_event action tenant_id actor_id id more =
    audit action (some tenant_id) (some actor_id) (("memberId", Detail.text id) ∷ more)

abbrev pub created_event : Env → String → String → CreateMemberDto → AuditEvent
created_event env tenant_id actor_id dto =
    member_event "tenant.member_created" tenant_id actor_id env.new_id
      (("email", Detail.text (env.to_lower_case dto.email)) ∷ [])

unfoldable pub create : Env → String → String → CreateMemberDto → Action User
unfolding insert_recorded
create env tenant_id actor_id dto = do
  taken ← query (λ d. any (is_account (some tenant_id) (env.to_lower_case dto.email)) d.users)
  throw_if taken (conflict "A member with that email already exists")
  insert_recorded (created_member env tenant_id dto) (created_event env tenant_id actor_id dto)

abbrev pub is_withdrawn : Option Bool → Bool
is_withdrawn (some false) = true
is_withdrawn _ = false

abbrev updated_name : Env → User → UpdateMemberDto → Option String
updated_name env existing dto =
    if not_set dto.first_name && not_set dto.last_name
    then existing.name
    else full_name env (or_stored dto.first_name existing.first_name)
        (or_stored dto.last_name existing.last_name)

unfoldable pub updated_member : Env → User → UpdateMemberDto → User → User
updated_member env existing dto u = record u {
  first_name = or_stored dto.first_name u.first_name;
  last_name = or_stored dto.last_name u.last_name;
  phone = or_stored dto.phone u.phone;
  name = updated_name env existing dto;
  is_tenant_admin = given_or dto.is_tenant_admin u.is_tenant_admin;
}

-- The last steps of a change of a member: the write, and the audit event.
unfoldable pub write_member : String → String → String → (User → User) → User → Action User
unfolding save_user record_event
write_member action tenant_id actor_id f member = do
  save_user member.id f
  record_event (member_event action tenant_id actor_id member.id [])
  pure (f member)

unfoldable pub update_existing : Env → String → String → UpdateMemberDto → User → Action User
update_existing env tenant_id actor_id dto existing =
    throw_if (existing.id == actor_id && is_withdrawn dto.is_tenant_admin)
      (conflict "You cannot remove your own tenant-admin role")
    >> write_member "tenant.member_updated" tenant_id actor_id (updated_member env existing dto)
        existing

unfoldable pub update : Env → String → String → String → UpdateMemberDto → Action User
unfolding get_member
update env tenant_id actor_id id dto =
    get_member tenant_id id >>= update_existing env tenant_id actor_id dto

unfoldable pub deactivate_existing : Env → String → String → User → Action User
deactivate_existing env tenant_id actor_id member =
    throw_if (member.id == actor_id) (conflict "You cannot deactivate your own account")
    >> write_member "tenant.member_deactivated" tenant_id actor_id (deleted_at_instant env) member

unfoldable pub deactivate : Env → String → String → String → Action User
unfolding get_member
deactivate env tenant_id actor_id id =
    get_member tenant_id id >>= deactivate_existing env tenant_id actor_id

unfoldable pub restore : String → String → String → Action User
unfolding get_member
restore tenant_id actor_id id =
    get_member tenant_id id >>= write_member "tenant.member_restored" tenant_id actor_id undeleted

-- `setRoles`, from its end: the audit event, the write, and the check of the roles.
abbrev pub roles_event : String → String → String → List String → AuditEvent
roles_event tenant_id actor_id id unique =
    member_event "tenant.member_roles_set" tenant_id actor_id id
      (("roleCount", Detail.number (length unique)) ∷ [])

abbrev pub roles_written : String → String → String → List String → Action User
roles_written tenant_id actor_id id unique = do
  record_event (roles_event tenant_id actor_id id unique)
  get_member tenant_id id

abbrev pub write_roles : String → String → String → List String → Action User
write_roles tenant_id actor_id id unique =
    replace_roles id unique >> roles_written tenant_id actor_id id unique

unfoldable pub set_member_roles : String → String → String → List String → Action User
unfolding get_member record_event
set_member_roles tenant_id actor_id id role_ids =
    assert_roles_enabled tenant_id role_ids >>= write_roles tenant_id actor_id id

unfoldable pub set_roles : String → String → String → List String → Action User
unfolding get_member
set_roles tenant_id actor_id id role_ids =
    get_member tenant_id id >>= λ _. set_member_roles tenant_id actor_id id role_ids
