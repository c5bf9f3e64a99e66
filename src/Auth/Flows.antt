-- ===== src/Auth/Flows.antt =====
-- Verification of an address and reset of a password: platform/src/auth/account-flows.service.ts. The
-- functions that sign and check links are parameters. A message is what it is sent to and the token or
-- the workspaces in it: its texts and the product that it names are left out.
use evo_platform.Base.{
  ℕ, ◌*◌, Bool, ◌&&◌, not, String, ◌<>◌, Option, none, some, List, [], ◌∷◌, ◌++◌, map, ◌==◌, ◌=?◌,
  string_eq, option_eq, if◌then◌else◌, not_set,
}
use evo_platform.Base.Rows.{find, filter, update_where}
use evo_platform.Platform.{
  Tenant, User, Db, Env, truthy, Failure, Action, ◌>>=◌, ◌>>◌, pure, throw, query, change, found_or,
  throw_if, record_event, audit, AuditEvent, bad_request,
}
use evo_platform.Auth.Sessions.{is_live_slug, is_live_account, revoked, is_live_of}
use evo_platform.Auth.Limiter.{Buckets, send_allowed}

-- The claims that the flows put into a link; a claim of another type counts as missing.
pub record LinkClaims : Type 0 where
  pub purpose : Option String
  pub sub : Option String
  pub app : Option String

pub record Links : Type 0 where
  -- `KeysService.sign` and `KeysService.verify`, which throws if the signature or the time is not good
  pub sign : LinkClaims → ℕ → String
  pub verify : String → Option LinkClaims
  -- `jwt.sign`, `jwt.decode` and `jwt.verify` with a secret
  pub sign_with : String → LinkClaims → ℕ → String
  pub decode : String → Option LinkClaims
  pub verify_with : String → String → Bool
  -- `createHmac` with the key of the deployment
  pub hmac : String → String

pub data Mail : Type 0 where
  verification : String → String → Mail
  password_reset : String → String → Mail
  workspace_list : String → List (String × String) → Mail

-- What the flows that send change: the database, the limiter's buckets, and what was sent.
pub record Post : Type 0 where
  pub db : Db
  pub buckets : Buckets
  pub sent : List Mail

pub record EmailDto : Type 0 where
  pub tenant_slug : Option String
  pub email : String
  pub client_id : Option String

abbrev pub verify_ttl_sec : ℕ
verify_ttl_sec = 24 * 3600

abbrev pub reset_ttl_sec : ℕ
reset_ttl_sec = 30 * 60

abbrev pub is_admin_of : String → User → Bool
is_admin_of email u = u.email == email && (not_set u.deleted_at && u.is_platform_admin)

-- The one row of a query, or none.
abbrev pub only {ℓ} : {A : Type ℓ} → List A → Option A
only (a ∷ []) = some a
only _ = none

abbrev pub in_tenant : String → Db → Option Tenant → Option User
in_tenant email d none = none
in_tenant email d (some t) = find (is_live_account (some t.id) email) d.users

abbrev pub or_admin : String → Db → Option User → Option User
or_admin email d (some u) = some u
or_admin email d none = only (filter (is_admin_of email) d.users)

abbrev pub find_in : Option String → String → Db → Option User
find_in (some slug) email d = in_tenant email d (find (is_live_slug slug) d.tenants)
find_in none email d = or_admin email d (find (is_live_account none email) d.users)

unfoldable pub find_by_email : Env → EmailDto → Db → Option User
find_by_email env dto d = find_in (truthy dto.tenant_slug) (env.to_lower_case dto.email) d

abbrev pub has_user_id : String → User → Bool
has_user_id id u = u.id == id

abbrev pub log_event : AuditEvent → Db → Db
log_event e d = record d { audit_events = d.audit_events ++ (e ∷ []) }

-- A message goes out if the limiter allows it, and is recorded.
abbrev pub send_once : String → String → Option String → ℕ → Mail → AuditEvent → Post → Post
send_once kind email ip now mail event p =
    let (allowed, buckets) = send_allowed kind email ip now p.buckets in
    if allowed
    then record { db = log_event event p.db; buckets = buckets; sent = p.sent ++ (mail ∷ []) }
    else record p { buckets = buckets }

unfoldable pub verify_claims : User → LinkClaims
verify_claims user = record { purpose = some "email_verify"; sub = some user.id; app = none }

abbrev pub send_verification_to : Env → Links → Option String → Option User → Post → Post
send_verification_to env links ip none p = p
send_verification_to env links ip (some user) p =
    if not (not_set user.email_verified_at)
    then p
    else send_once "verify" user.email ip env.now
        (Mail.verification user.email (links.sign (verify_claims user) verify_ttl_sec))
        (audit "auth.verification_sent" user.tenant_id (some user.id) []) p

unfoldable pub send_verification : Env → Links → EmailDto → Option String → Post → Post
unfolding find_by_email verify_claims
send_verification env links dto ip p =
    send_verification_to env links ip (find_by_email env dto p.db) p

abbrev pub invalid_link : Failure
invalid_link = bad_request "Invalid or expired link"

abbrev pub is_live_user : User → Bool
is_live_user u = not_set u.deleted_at

-- The subject of claims that have the purpose.
abbrev subject : String → LinkClaims → Option String
subject purpose c = if c.purpose =? purpose then c.sub else none

abbrev pub subject_of : String → Option LinkClaims → Option String
subject_of purpose none = none
subject_of purpose (some c) = subject purpose c

-- `user.findUnique` with the check that the account is not deleted.
abbrev pub live_user : Option User → Action User
live_user none = throw invalid_link
live_user (some u) = do throw_if (not (is_live_user u)) invalid_link; pure u

unfoldable pub user_of_link : String → Option LinkClaims → Action User
user_of_link purpose claims = do
  id ← found_or invalid_link (subject_of purpose claims)
  found ← query (λ d. find (has_user_id id) d.users)
  live_user found

abbrev pub verified_at : ℕ → User → User
verified_at now u = record u { email_verified_at = some now }

abbrev pub verify_user : Env → User → Db → Db
verify_user env user d = record d {
  users = update_where (has_user_id user.id) (verified_at env.now) d.users;
}

unfoldable pub mark_verified : Env → User → Action (Unit {0})
unfolding record_event
mark_verified env user = if not (not_set user.email_verified_at) then pure tt else do
  change (verify_user env user)
  record_event (audit "auth.email_verified" user.tenant_id (some user.id) [])

unfoldable pub confirm_verification : Env → Links → String → Action (Unit {0})
confirm_verification env links token =
    user_of_link "email_verify" (links.verify token) >>= mark_verified env

-- `resetSecret`
unfoldable pub reset_secret : Links → User → String
reset_secret links user = links.hmac ("reset:" <> (user.id <> (":" <> user.password_hash)))

unfoldable pub reset_claims : EmailDto → User → LinkClaims
reset_claims dto user = record {
  purpose = some "password_reset";
  sub = some user.id;
  app = truthy dto.client_id;
}

abbrev pub reset_event : EmailDto → User → AuditEvent
reset_event dto user = record {
  action = "auth.reset_requested";
  tenant_id = user.tenant_id;
  user_id = some user.id;
  app_client_id = dto.client_id;
  detail = [];
}

abbrev pub request_reset_of : Env → Links → EmailDto → Option String → Option User → Post → Post
request_reset_of env links dto ip none p = p
request_reset_of env links dto ip (some user) p =
    send_once "reset" user.email ip env.now
      (Mail.password_reset user.email
        (links.sign_with (reset_secret links user) (reset_claims dto user) reset_ttl_sec))
      (reset_event dto user) p

unfoldable pub request_reset : Env → Links → EmailDto → Option String → Post → Post
unfolding find_by_email reset_secret reset_claims
request_reset env links dto ip p = request_reset_of env links dto ip (find_by_email env dto p.db) p

-- Clicking the link proves the mailbox.
abbrev or_now : ℕ → Option ℕ → Option ℕ
or_now now none = some now
or_now now (some t) = some t

abbrev pub new_password : Env → User → String → User → User
new_password env user password u = record u {
  password_hash = env.bcrypt_hash password;
  email_verified_at = or_now env.now user.email_verified_at;
}

-- The transaction of a reset: the password, and the end of every session.
unfoldable pub write_password : Env → String → User → Db → Db
write_password env password user d = record d {
  users = update_where (has_user_id user.id) (new_password env user password) d.users;
  refresh_tokens = update_where (is_live_of user.id) (revoked env.now) d.refresh_tokens;
}

unfoldable pub reset_of : Env → Links → String → String → User → Action (Unit {0})
unfolding reset_secret write_password record_event
reset_of env links token password user = do
  throw_if (not (links.verify_with token (reset_secret links user))) invalid_link
  change (write_password env password user)
  record_event (audit "auth.password_reset" user.tenant_id (some user.id) [])

unfoldable pub reset_password : Env → Links → String → String → Action (Unit {0})
reset_password env links token password =
    user_of_link "password_reset" (links.decode token) >>= reset_of env links token password

abbrev is_member_account : String → User → Bool
is_member_account email u = u.email == email && (not_set u.deleted_at && not (not_set u.tenant_id))

abbrev live_tenant : Option Tenant → List Tenant
live_tenant none = []
live_tenant (some t) = if not_set t.deleted_at then t ∷ [] else []

abbrev tenant_of_account : Option String → Db → Option Tenant
tenant_of_account none d = none
tenant_of_account (some id) d = find (λ (t : Tenant). t.id == id) d.tenants

abbrev tenants_of : Db → List User → List Tenant
tenants_of d [] = []
tenants_of d (u ∷ us) = live_tenant (tenant_of_account u.tenant_id d) ++ tenants_of d us

-- `sort` by `localeCompare`, whose order of two texts is a parameter.
abbrev insert_slug : (String → String → Bool) → Tenant → List Tenant → List Tenant
insert_slug before t [] = t ∷ []
insert_slug before t (x ∷ xs) =
    let rest = insert_slug before t xs in if before x.slug t.slug then x ∷ rest else t ∷ (x ∷ xs)

abbrev sort_slugs : (String → String → Bool) → List Tenant → List Tenant
sort_slugs before [] = []
sort_slugs before (t ∷ ts) = insert_slug before t (sort_slugs before ts)

-- The workspaces that an address can sign in to.
unfoldable pub workspaces_of : (String → String → Bool) → String → Db → List (String × String)
workspaces_of before email d =
    map (λ (t : Tenant). (t.slug, t.name))
      (sort_slugs before (tenants_of d (filter (is_member_account email) d.users)))

abbrev first_id : List User → Option String
first_id [] = none
first_id (u ∷ _) = some u.id

abbrev list_them : Env → String → Option String → List (String × String) → Post → Post
list_them env email ip [] p = p
list_them env email ip (w ∷ ws) p =
    send_once "workspaces" email ip env.now (Mail.workspace_list email (w ∷ ws))
      (audit "auth.workspaces_listed" none (first_id (filter (is_member_account email) p.db.users))
        [])
      p

-- `listWorkspaces`: the answer is the same whatever is found.
unfoldable pub list_workspaces :
    (String → String → Bool) → Env → EmailDto → Option String → Post → Post
unfolding workspaces_of
list_workspaces before env dto ip p =
    let email = env.to_lower_case dto.email in
    list_them env email ip (workspaces_of before email p.db) p
