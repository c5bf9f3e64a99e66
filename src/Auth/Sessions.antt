-- ===== src/Auth/Sessions.antt =====
-- `login`, `completeLogin`, `refresh`, `onRefreshReuse`, `logout` and `issueTokens` of
-- platform/src/auth/auth.service.ts.
use evo_platform.Base.{
  ℕ, ◌+◌, ◌*◌, Bool, true, false, ◌&&◌, not, String, Option, none, some, List, [], ◌∷◌, ◌++◌, ◌==◌,
  string_eq, option_eq, if◌then◌else◌, ltb, not_set,
}
use evo_platform.Base.Rows.{find, update_where, count_where}
use evo_platform.Platform.{
  Tenant, User, RefreshToken, Db, Env, Claims, truthy, day_ms, Detail, Action, ◌>>=◌, ◌>>◌, pure,
  throw, query, change, found_or, throw_if, record_event, AuditEvent, ok, unauthorized, forbidden,
  internal,
}
use evo_platform.Auth.Gate.{admit, roles_for_app}

pub record LoginDto : Type 0 where
  pub tenant_slug : Option String
  pub email : String
  pub password : String
  pub client_id : Option String

pub record Tokens : Type 0 where
  pub access_token : String
  pub refresh_token : String
  pub expires_in : ℕ
  pub user_id : String

abbrev pub refresh_reuse_grace_ms : ℕ
refresh_reuse_grace_ms = 10_000

abbrev pub tenant_field : (Tenant → String) → Option Tenant → Option String
tenant_field f none = none
tenant_field f (some t) = some (f t)

abbrev pub new_token : Env → User → Option String → RefreshToken
new_token env user client_id = record {
  id = env.new_id;
  user_id = user.id;
  token_hash = env.sha256 env.random_token;
  app_client_id = client_id;
  expires_at = env.now + env.config.refresh_ttl_days * day_ms;
  revoked_at = none;
}

unfoldable pub claims_of : User → Option Tenant → Option String → List String → Claims
claims_of user tenant client_id roles = record {
  sub = user.id;
  email = user.email;
  tenant_id = tenant_field (λ t. t.id) tenant;
  tenant_slug = tenant_field (λ t. t.slug) tenant;
  roles = roles;
  app = client_id;
  platform_admin = user.is_platform_admin;
  tenant_admin = user.is_tenant_admin;
}

unfoldable pub issue_tokens : Env → User → Option Tenant → Option String → Action Tokens
unfolding claims_of
issue_tokens env user tenant client_id = do
  roles ← query (roles_for_app user client_id)
  let claims = claims_of user tenant client_id roles
  change
      (λ d. record d { refresh_tokens = d.refresh_tokens ++ (new_token env user client_id ∷ []) })
  pure (record {
    access_token = env.sign claims env.config.access_ttl_sec;
    refresh_token = env.random_token;
    expires_in = env.config.access_ttl_sec;
    user_id = user.id;
  })

abbrev login_event : User → Option Tenant → Option String → String → AuditEvent
login_event user tenant client_id method = record {
  action = "auth.login";
  tenant_id = tenant_field (λ t. t.id) tenant;
  user_id = some user.id;
  app_client_id = client_id;
  detail = ("method", Detail.text method) ∷ [];
}

unfoldable pub sign_in : Env → User → Option Tenant → Option String → String → Action Tokens
unfolding issue_tokens record_event
sign_in env user tenant client_id method = do
  tokens ← issue_tokens env user tenant client_id
  record_event (login_event user tenant client_id method)
  pure tokens

-- The gate that every way to sign in ends with.
unfoldable pub complete_login : Env → User → Option Tenant → Option String → String → Action Tokens
complete_login env user tenant client_id method = do
  throw_if (not (not_set user.deleted_at)) (unauthorized "Invalid credentials")
  throw_if (not_set user.email_verified_at) (forbidden "Email not verified")
  admit env.now tenant client_id >> sign_in env user tenant client_id method

abbrev pub is_live_slug : String → Tenant → Bool
is_live_slug slug t = t.slug == slug && not_set t.deleted_at

abbrev pub login_tenant : Option String → Action (Option Tenant)
login_tenant none = pure none
login_tenant (some slug) = do
  t ←
      found_or (unauthorized "Invalid credentials")
        (← query (λ d. find (is_live_slug slug) d.tenants))
  pure (some t)

-- The account of an address in a tenant, or at the level of the platform.
abbrev pub is_live_account : Option String → String → User → Bool
is_live_account tenant_id email u =
    u.tenant_id == tenant_id && u.email == email && not_set u.deleted_at

-- The hash that is compared, so that a missing account costs the same.
abbrev pub hash_of : Env → Option User → String
hash_of env none = env.dummy_hash
hash_of env (some u) = u.password_hash

abbrev pub proven : Bool → Option User → Action User
proven ok_ none = throw (unauthorized "Invalid credentials")
proven false (some u) = throw (unauthorized "Invalid credentials")
proven true (some u) = pure u

-- `login` once the workspace is known.
unfoldable pub login_in : Env → LoginDto → Option Tenant → Action Tokens
login_in env dto tenant = do
  let tenant_id = tenant_field (λ t. t.id) tenant
  found ← query (λ d. find (is_live_account tenant_id (env.to_lower_case dto.email)) d.users)
  user ← proven (env.bcrypt_compare dto.password (hash_of env found)) found
  complete_login env user tenant dto.client_id "password"

unfoldable pub login : Env → LoginDto → Action Tokens
login env dto = login_tenant (truthy dto.tenant_slug) >>= login_in env dto

abbrev pub is_live_of : String → RefreshToken → Bool
is_live_of user_id t = t.user_id == user_id && not_set t.revoked_at

abbrev pub revoked : ℕ → RefreshToken → RefreshToken
revoked now t = record t { revoked_at = some now }

-- `refreshToken.updateMany({ where: { userId, revokedAt: null }, data: { revokedAt: now } })`,
-- with the number of the rows.
unfoldable pub revoke_sessions : ℕ → String → Action ℕ
revoke_sessions now user_id d = (
  ok (count_where (is_live_of user_id) d.refresh_tokens),
  record d { refresh_tokens = update_where (is_live_of user_id) (revoked now) d.refresh_tokens },
)

-- A revoked token came back; within the grace it is a race of two tabs.
abbrev pub is_race : ℕ → Option ℕ → Bool
is_race now none = false
is_race now (some t) = ltb now (t + refresh_reuse_grace_ms)

unfoldable pub on_refresh_reuse : Env → RefreshToken → User → Action (Unit {0})
unfolding revoke_sessions record_event
on_refresh_reuse env stored user = if is_race env.now stored.revoked_at then pure tt else do
  count ← revoke_sessions env.now stored.user_id
  record_event (record {
    action = "auth.refresh_reuse_detected";
    tenant_id = user.tenant_id;
    user_id = some stored.user_id;
    app_client_id = stored.app_client_id;
    detail = ("revoked", Detail.number count) ∷ [];
  })

abbrev pub tenant_of : User → Db → Option Tenant
tenant_of u d = elim u.tenant_id [
  | none ↦ none
  | some id ↦ find (λ (t : Tenant). t.id == id) d.tenants
]

abbrev pub has_hash : String → RefreshToken → Bool
has_hash hash t = t.token_hash == hash

abbrev pub has_token_id : String → RefreshToken → Bool
has_token_id id t = t.id == id

-- The used token is revoked, and a new pair issued.
unfoldable pub reissue : Env → RefreshToken → User → Option Tenant → Action Tokens
unfolding issue_tokens
reissue env stored user tenant = do
  change (λ d. record d {
    refresh_tokens = update_where (has_token_id stored.id) (revoked env.now) d.refresh_tokens;
  })
  issue_tokens env user tenant stored.app_client_id

-- The rest of `refresh`, for a token that is not revoked.
unfoldable pub rotate : Env → RefreshToken → User → Action Tokens
rotate env stored user = do
  throw_if (ltb stored.expires_at env.now) (unauthorized "Invalid refresh token")
  throw_if (not (not_set user.deleted_at)) (unauthorized "Invalid refresh token")
  throw_if (not_set user.email_verified_at) (forbidden "Email not verified")
  tenant ← query (tenant_of user)
  admit env.now tenant stored.app_client_id >> reissue env stored user tenant

abbrev pub owner_of : RefreshToken → Db → Option User
owner_of stored d = find (λ (u : User). u.id == stored.user_id) d.users

-- `refresh` for a token that is on record.
unfoldable pub refresh_stored : Env → RefreshToken → User → Action Tokens
refresh_stored env stored user =
    if not_set stored.revoked_at
    then rotate env stored user
    else (on_refresh_reuse env stored user >> throw (unauthorized "Invalid refresh token"))

-- A token always has its user, by the foreign key of its table.
abbrev pub refresh_owned : Env → RefreshToken → Option User → Action Tokens
refresh_owned env stored none = throw internal
refresh_owned env stored (some user) = refresh_stored env stored user

abbrev pub refresh_found : Env → Option RefreshToken → Action Tokens
refresh_found env none = throw (unauthorized "Invalid refresh token")
refresh_found env (some stored) = do user ← query (owner_of stored); refresh_owned env stored user

unfoldable pub refresh : Env → String → Action Tokens
refresh env raw_token d =
    refresh_found env (find (has_hash (env.sha256 raw_token)) d.refresh_tokens) d

abbrev pub is_live_hash : String → RefreshToken → Bool
is_live_hash hash t = t.token_hash == hash && not_set t.revoked_at

unfoldable pub logout : Env → String → Action (Unit {0})
logout env raw_token = change (λ d. record d {
  refresh_tokens =
      update_where (is_live_hash (env.sha256 raw_token)) (revoked env.now) d.refresh_tokens;
})
