-- ===== src/People/Invites.antt =====
-- Invitations: platform/src/tenant/invites.service.ts. The message that carries the link is sent by
-- another service and is left out; so is the collision of two random tokens.
use evo_platform.Base.{
  ℕ, ◌+◌, Bool, true, false, not, ◌&&◌, ◌||◌, String, Option, none, some, List, [], ◌∷◌, ◌++◌, map,
  ◌==◌, string_eq, option_eq, not_set, ltb,
}
use evo_platform.Base.Rows.{find, filter, any, update_where, delete_where}
use evo_platform.Platform.{
  Tenant, TenantStatus, User, Invite, AuditEvent, Db, Env, Detail, audit, Failure, Action, ◌>>=◌,
  ◌>>◌, pure, throw, query, change, found_or, throw_if, record_event, bad_request, not_found,
  conflict, internal,
}
use evo_platform.People.Names.{full_name, given_or, is_account}
use evo_platform.People.Roles.{assert_roles_enabled, still_enabled_roles, grant}
use evo_platform.People.Users.{insert_user}

pub record CreateInviteDto : Type 0 where
  pub email : String
  pub role_ids : Option (List String)
  pub is_tenant_admin : Option Bool

pub record AcceptInviteDto : Type 0 where
  pub token : String
  pub password : String
  pub first_name : Option String
  pub last_name : Option String
  pub phone : Option String

-- `INVITE_TTL_MS`
abbrev pub invite_ttl_ms : ℕ
invite_ttl_ms = 86_400_000

unfoldable pub list : String → Db → List Invite
list tenant_id d = filter (λ i. i.tenant_id == tenant_id) d.invites

-- An invitation of the address that was not accepted.
abbrev pub is_pending : String → String → Invite → Bool
is_pending tenant_id email i = i.tenant_id == tenant_id && i.email == email && not_set i.accepted_at

unfoldable pub new_invite : Env → String → String → CreateInviteDto → List String → Invite
new_invite env tenant_id actor_id dto role_ids = record {
  id = env.new_id;
  tenant_id = tenant_id;
  email = env.to_lower_case dto.email;
  role_ids = role_ids;
  is_tenant_admin = given_or dto.is_tenant_admin false;
  invited_by_id = some actor_id;
  token_hash = env.sha256 env.random_token;
  expires_at = env.now + invite_ttl_ms;
  accepted_at = none;
}

abbrev invite_event : String → String → Option String → String → AuditEvent
invite_event action tenant_id user_id email =
    audit action (some tenant_id) user_id (("email", Detail.text email) ∷ [])

-- One live invitation for an address: a new one replaces the old.
unfoldable pub store_invite : String → String → Invite → Action (Unit {0})
store_invite tenant_id email invite = change (λ d. record d {
  invites = delete_where (is_pending tenant_id email) d.invites ++ (invite ∷ []);
})

unfoldable pub create : Env → String → String → CreateInviteDto → Action Invite
unfolding store_invite record_event
create env tenant_id actor_id dto = do
  let email = env.to_lower_case dto.email
  member ← query (λ d. any (is_account (some tenant_id) email) d.users)
  throw_if member (conflict "Already a member of this workspace")
  role_ids ← assert_roles_enabled tenant_id (given_or dto.role_ids [])
  store_invite tenant_id email (new_invite env tenant_id actor_id dto role_ids)
  record_event (invite_event "tenant.invite_created" tenant_id (some actor_id) email)
  pure (new_invite env tenant_id actor_id dto role_ids)

abbrev pub is_invite : String → String → Invite → Bool
is_invite tenant_id id i = i.id == id && i.tenant_id == tenant_id

abbrev pub has_invite_id : String → Invite → Bool
has_invite_id id i = i.id == id

-- The invitation of the tenant, unless it was accepted.
unfoldable pub get_pending : String → String → Action Invite
get_pending tenant_id id = do
  invite ←
      found_or (not_found "Invite not found")
        (← query (λ d. find (is_invite tenant_id id) d.invites))
  throw_if (not (not_set invite.accepted_at)) (conflict "Invite was already accepted")
  pure invite

abbrev pub renewed : Env → Invite → Invite
renewed env i = record i {
  token_hash = env.sha256 env.random_token;
  expires_at = env.now + invite_ttl_ms;
}

unfoldable pub resend : Env → String → String → String → Action Invite
unfolding get_pending record_event
resend env tenant_id actor_id id = do
  invite ← get_pending tenant_id id
  change (λ d. record d { invites = update_where (has_invite_id id) (renewed env) d.invites })
  record_event (invite_event "tenant.invite_resent" tenant_id (some actor_id) invite.email)
  pure (renewed env invite)

unfoldable pub revoke : String → String → String → Action (Unit {0})
unfolding get_pending record_event
revoke tenant_id actor_id id = do
  invite ← get_pending tenant_id id
  change (λ d. record d { invites = delete_where (has_invite_id id) d.invites })
  record_event (invite_event "tenant.invite_revoked" tenant_id (some actor_id) invite.email)

abbrev pub is_hash_of : String → Invite → Bool
is_hash_of hash i = i.token_hash == hash

abbrev is_tenant_suspended : TenantStatus → Bool
is_tenant_suspended TenantStatus.suspended = true
is_tenant_suspended _ = false

abbrev pub invalid_invite : Failure
invalid_invite = bad_request "Invite link is invalid or has expired"

abbrev pub has_account : Failure
has_account = conflict "This email already has an account in the workspace"

unfoldable pub invited_user : Env → Invite → AcceptInviteDto → User
invited_user env i dto = record {
  id = env.new_id;
  tenant_id = some i.tenant_id;
  email = i.email;
  password_hash = env.bcrypt_hash dto.password;
  name = full_name env dto.first_name dto.last_name;
  first_name = dto.first_name;
  last_name = dto.last_name;
  phone = dto.phone;
  is_platform_admin = false;
  is_tenant_admin = i.is_tenant_admin;
  email_verified_at = some env.now;
  deleted_at = none;
}

abbrev pub accepted : Env → Invite → Invite
accepted env i = record i { accepted_at = some env.now }

abbrev pub enrol : Env → Invite → List String → Db → Db
enrol env i role_ids d = record d {
  user_roles = d.user_roles ++ map (grant env.new_id) role_ids;
  invites = update_where (has_invite_id i.id) (accepted env) d.invites;
}

-- The transaction of `accept`: the account, its roles, and the end of the invitation. The key of
-- the accounts' table is the only constraint that it can break.
unfoldable pub join : Env → Invite → AcceptInviteDto → List String → Action (Unit {0})
unfolding invited_user
join env i dto role_ids = insert_user (invited_user env i dto) >> change (enrol env i role_ids)

abbrev pub entered : Env → Invite → Unit {0} → Action (Unit {0})
entered env i _ =
    record_event (invite_event "tenant.invite_accepted" i.tenant_id (some env.new_id) i.email)

-- `accept` once nothing forbids it.
abbrev pub enter : Env → Invite → AcceptInviteDto → Action (Unit {0})
enter env i dto = do
  role_ids ← query (still_enabled_roles i.tenant_id i.role_ids)
  join env i dto role_ids >>= entered env i

abbrev pub is_spent : Env → Invite → Bool
is_spent env i = not (not_set i.accepted_at) || ltb i.expires_at env.now

abbrev pub is_closed : Tenant → Bool
is_closed tenant = not (not_set tenant.deleted_at) || is_tenant_suspended tenant.status

abbrev pub enter_new : Env → Invite → AcceptInviteDto → Action (Unit {0})
enter_new env i dto = do
  existing ← query (λ d. any (is_account (some i.tenant_id) i.email) d.users)
  throw_if existing has_account
  enter env i dto

-- `accept` for an invitation that is on record and its tenant.
unfoldable pub accept_invite : Env → AcceptInviteDto → Invite → Tenant → Action (Unit {0})
unfolding join record_event
accept_invite env dto i tenant =
    throw_if (is_spent env i) invalid_invite
    >> (throw_if (is_closed tenant) invalid_invite >> enter_new env i dto)

abbrev pub tenant_of_invite : Invite → Db → Option Tenant
tenant_of_invite i d = find (λ (t : Tenant). t.id == i.tenant_id) d.tenants

-- An invitation always has its tenant, by the foreign key of its table.
abbrev pub accept_with : Env → AcceptInviteDto → Invite → Option Tenant → Action (Unit {0})
accept_with env dto i none = throw internal
accept_with env dto i (some tenant) = accept_invite env dto i tenant

abbrev pub accept_found : Env → AcceptInviteDto → Option Invite → Action (Unit {0})
accept_found env dto none = throw invalid_invite
accept_found env dto (some i) = do tenant ← query (tenant_of_invite i); accept_with env dto i tenant

unfoldable pub accept : Env → AcceptInviteDto → Action (Unit {0})
accept env dto d = accept_found env dto (find (is_hash_of (env.sha256 dto.token)) d.invites) d
