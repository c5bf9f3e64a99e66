-- ===== src/People/Users.antt =====
-- The platform administrator's service of accounts: platform/src/users/users.service.ts.
use evo_platform.Base.{
  ℕ, Bool, true, false, not, ◌||◌, ◌&&◌, String, Option, none, some, List, [], ◌∷◌, ◌++◌, ◌==◌,
  string_eq, option_eq, nat_eq, not_set, if◌then◌else◌, ltb,
}
use evo_platform.Base.Rows.{filter, any, count_where, update_where, delete_where}
use evo_platform.Platform.{
  User, UserRole, RefreshToken, AuditEvent, Db, Env, truthy, Detail, audit, Action, ◌>>=◌, ◌>>◌,
  pure, query, change, found_or, Failure, throw_if, record_event, database, p2002, not_found,
  conflict,
}
use evo_platform.Auth.Sessions.{revoke_sessions}
use evo_platform.People.Names.{
  full_name, or_stored, given_or, has_id, is_account, find_user, save_user, deleted_at_instant,
  undeleted,
}
use evo_platform.People.Roles.{replace_roles}

pub record CreateUserDto : Type 0 where
  pub tenant_id : Option String
  pub email : String
  pub password : String
  pub name : Option String
  pub first_name : Option String
  pub last_name : Option String
  pub phone : Option String
  pub is_platform_admin : Option Bool
  pub is_tenant_admin : Option Bool

pub record UpdateUserDto : Type 0 where
  pub email : Option String
  pub password : Option String
  pub name : Option String
  pub first_name : Option String
  pub last_name : Option String
  pub phone : Option String
  pub is_platform_admin : Option Bool
  pub is_tenant_admin : Option Bool

abbrev is_in_tenant : Option (Option String) → User → Bool
is_in_tenant none u = true
is_in_tenant (some tenant_id) u = u.tenant_id == tenant_id

-- `list`; an undefined tenant selects every account, a null one those of the platform.
unfoldable pub list : Option (Option String) → Bool → Db → List User
list tenant_id include_deleted d =
    filter (λ u. is_in_tenant tenant_id u && (include_deleted || not_set u.deleted_at)) d.users

unfoldable pub get : String → Action User
get id = do found_or (not_found "User not found") (← query (find_user id))

abbrev created_name : Env → CreateUserDto → Option String
created_name env dto =
    if not_set (truthy dto.first_name) && not_set (truthy dto.last_name)
    then dto.name
    else full_name env dto.first_name dto.last_name

unfoldable pub created_user : Env → CreateUserDto → User
created_user env dto = record {
  id = env.new_id;
  tenant_id = dto.tenant_id;
  email = env.to_lower_case dto.email;
  password_hash = env.bcrypt_hash dto.password;
  name = created_name env dto;
  first_name = dto.first_name;
  last_name = dto.last_name;
  phone = dto.phone;
  is_platform_admin = given_or dto.is_platform_admin false;
  is_tenant_admin = given_or dto.is_tenant_admin false;
  email_verified_at = some env.now;
  deleted_at = none;
}

-- `user.create`, with the primary key of the table.
unfoldable pub insert_user : User → Action (Unit {0})
insert_user u = do
  taken ← query (λ d. any (has_id u.id) d.users)
  throw_if taken (database p2002)
  change (λ d. record d { users = d.users ++ (u ∷ []) })

abbrev pub recorded : {A : Type 0} → AuditEvent → A → Unit {0} → Action A
recorded event a _ = do record_event event; pure a

-- The end of the methods that create an account: the row, and the audit event.
unfoldable pub insert_recorded : User → AuditEvent → Action User
unfolding insert_user record_event
insert_recorded u event = insert_user u >>= recorded event u

abbrev pub created_event : Env → CreateUserDto → AuditEvent
created_event env dto = audit "user.created" dto.tenant_id (some env.new_id) []

unfoldable pub create : Env → CreateUserDto → Action User
unfolding insert_recorded
create env dto = do
  taken ← query (λ d. any (is_account dto.tenant_id (env.to_lower_case dto.email)) d.users)
  throw_if taken (conflict "A user with that email already exists")
  insert_recorded (created_user env dto) (created_event env dto)

abbrev pub is_active_admin : User → Bool
is_active_admin u = u.is_platform_admin && not_set u.deleted_at

abbrev pub is_other_admin : User → User → Bool
is_other_admin user u = is_active_admin u && not (u.id == user.id)

abbrev pub last_admin : Failure
last_admin =
    conflict "This is the last platform admin — promote another account before removing this one"

-- An administrator is not removed if no other is left.
unfoldable pub assert_not_last_platform_admin : User → Action (Unit {0})
assert_not_last_platform_admin user d =
    throw_if (is_active_admin user && count_where (is_other_admin user) d.users == 0) last_admin d

abbrev pub clashes : User → String → User → Bool
clashes existing email u =
    u.tenant_id == existing.tenant_id && u.email == email && not (u.id == existing.id)

abbrev pub checked_email : User → String → Action (Option String)
checked_email existing email = do
  taken ← query (λ d. not (email == existing.email) && any (clashes existing email) d.users)
  throw_if taken (conflict "A user with that email already exists")
  pure (some email)

-- The address to write, if the request names one.
unfoldable pub new_email : Env → User → Option String → Action (Option String)
new_email env existing none = pure none
new_email env existing (some e) = checked_email existing (env.to_lower_case e)

abbrev pub is_demotion : Option Bool → Bool
is_demotion (some false) = true
is_demotion _ = false

abbrev pub check_demotion : User → Option Bool → Action (Unit {0})
check_demotion existing flag =
    if is_demotion flag then assert_not_last_platform_admin existing else pure tt

-- The display name follows the parts, merged with those that are stored.
abbrev updated_name : Env → User → UpdateUserDto → Option String
updated_name env existing dto =
    if not_set dto.first_name && not_set dto.last_name
    then or_stored dto.name existing.name
    else full_name env (or_stored dto.first_name existing.first_name)
        (or_stored dto.last_name existing.last_name)

abbrev updated_hash : Env → Option String → String → String
updated_hash env none old = old
updated_hash env (some password) old = env.bcrypt_hash password

unfoldable pub updated_user : Env → User → UpdateUserDto → Option String → User → User
updated_user env existing dto email u = record u {
  first_name = or_stored dto.first_name u.first_name;
  last_name = or_stored dto.last_name u.last_name;
  phone = or_stored dto.phone u.phone;
  name = updated_name env existing dto;
  email = given_or email u.email;
  is_platform_admin = given_or dto.is_platform_admin u.is_platform_admin;
  is_tenant_admin = given_or dto.is_tenant_admin u.is_tenant_admin;
  password_hash = updated_hash env (truthy dto.password) u.password_hash;
}

abbrev revocation_event : UpdateUserDto → User → ℕ → AuditEvent
revocation_event dto existing count =
    audit "auth.sessions_revoked" existing.tenant_id (some existing.id) (
      ("count", Detail.number count)
      ∷ (
        "reason",
        Detail.text (if not_set (truthy dto.password) then "admin_demoted" else "password_changed"),
      )
      ∷ [])

-- A new password, or the loss of the administrator's flag, ends every session of the account.
unfoldable pub end_sessions : Env → User → UpdateUserDto → Action (Unit {0})
unfolding revoke_sessions record_event
end_sessions env existing dto =
    if not_set (truthy dto.password) && not (is_demotion dto.is_platform_admin) then pure tt else do
      count ← revoke_sessions env.now existing.id
      if ltb 0 count then record_event (revocation_event dto existing count) else pure tt

abbrev pub email_event : User → Option String → Action (Unit {0})
email_event existing none = pure tt
email_event existing (some email) =
    if email == existing.email
    then pure tt
    else record_event (
        audit "user.email_changed" existing.tenant_id (some existing.id)
          (("from", Detail.text existing.email) ∷ ("to", Detail.text email) ∷ []))

-- The writes of `update`, once the checks are passed.
unfoldable pub write_update : Env → UpdateUserDto → User → Option String → Action User
unfolding save_user end_sessions
write_update env dto existing email = do
  save_user existing.id (updated_user env existing dto email)
  end_sessions env existing dto
  email_event existing email
  pure (updated_user env existing dto email existing)

unfoldable pub update_existing : Env → UpdateUserDto → User → Action User
unfolding new_email
update_existing env dto existing = do
  email ← new_email env existing dto.email
  check_demotion existing dto.is_platform_admin >> write_update env dto existing email

unfoldable pub update : Env → String → UpdateUserDto → Action User
unfolding get
update env id dto = get id >>= update_existing env dto

abbrev pub write_removed : Env → User → Unit {0} → Action User
write_removed env existing _ = do
  save_user existing.id (deleted_at_instant env)
  record_event (audit "user.deleted" none (some existing.id) [])
  pure (deleted_at_instant env existing)

unfoldable pub remove_existing : Env → User → Action User
unfolding save_user record_event
remove_existing env existing =
    assert_not_last_platform_admin existing >>= write_removed env existing

unfoldable pub remove : Env → String → Action User
unfolding get
remove env id = get id >>= remove_existing env

unfoldable pub restore_existing : User → Action User
unfolding save_user
restore_existing existing = do save_user existing.id undeleted; pure (undeleted existing)

unfoldable pub restore : String → Action User
unfolding get
restore id = get id >>= restore_existing

abbrev is_event_of : String → AuditEvent → Bool
is_event_of id e = e.user_id == some id

abbrev unlinked : AuditEvent → AuditEvent
unlinked e = record e { user_id = none }

-- The transaction of `purge`: the audit log is unlinked, and the row is deleted with its roles and
-- tokens, which go with it by their foreign keys.
unfoldable pub erase_user : String → Db → Db
erase_user id d = record d {
  audit_events = update_where (is_event_of id) unlinked d.audit_events;
  users = delete_where (has_id id) d.users;
  user_roles = delete_where (λ (ur : UserRole). ur.user_id == id) d.user_roles;
  refresh_tokens = delete_where (λ (t : RefreshToken). t.user_id == id) d.refresh_tokens;
}

abbrev pub not_deleted : Failure
not_deleted = conflict "Purge requires the user to be soft-deleted first"

abbrev pub erase : User → Action (Unit {0})
erase user = do
  change (erase_user user.id)
  record_event (audit "user.purged" user.tenant_id none [])

unfoldable pub purge_existing : User → Action (Unit {0})
unfolding erase_user record_event
purge_existing user = throw_if (not_set user.deleted_at) not_deleted >> erase user

unfoldable pub purge : String → Action (Unit {0})
unfolding get
purge id = get id >>= purge_existing

unfoldable pub set_roles : String → List String → Action User
unfolding get
set_roles id role_ids = do get id; replace_roles id role_ids; get id
