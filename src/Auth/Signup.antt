-- ===== src/Auth/Signup.antt =====
-- Self-service signup: platform/src/auth/signup.service.ts. The rows are those of the tables' models;
-- an audit event leaves out the address of the client.
use evo_platform.Base.{
  ℕ, ◌+◌, ◌*◌, Bool, true, false, not, ◌&&◌, String, ◌<>◌, Option, none, some, [], ◌∷◌, ◌++◌, ◌==◌,
  ◌=?◌, nat_eq, string_eq, option_eq, if◌then◌else◌, not_set,
}
use evo_platform.Base.Rows.{find, any}
use evo_platform.Platform.{
  Tenant, TenantStatus, User, App, AppTenant, AppTenantStatus, Db, Env, truthy, day_ms, Detail,
  Failure, Result, Action, ◌>>=◌, ◌>>◌, pure, throw, query, change, found_or, throw_if,
  record_event, AuditEvent, bad_request, forbidden, conflict, ok, err,
}
use evo_platform.Auth.Flows.{LinkClaims, Links, Post, send_verification}

pub data SignupMode : Type 0 where
  «open» invite closed : SignupMode

-- The settings of signups, the functions on texts and the random suffix.
pub record Signups : Type 0 where
  pub mode : SignupMode
  pub trial_days : ℕ
  pub slugify : String → String
  pub slice_34 : String → String
  pub suffix : String
  pub joined_name : Option String → Option String → Option String

pub record SignupDto : Type 0 where
  pub client_id : String
  pub company : String
  pub slug : Option String
  pub email : String
  pub password : String
  pub first_name : Option String
  pub last_name : Option String
  pub invite_token : Option String

pub record SignupResult : Type 0 where
  pub tenant_slug : String
  pub trial_ends_at : ℕ

abbrev stale_link : Failure
stale_link = forbidden "Signup link is invalid or has expired"

abbrev is_signup_link : Option LinkClaims → Bool
is_signup_link none = false
is_signup_link (some c) = c.purpose =? "signup_link"

abbrev assert_invited : Links → Option String → Action (Unit {0})
assert_invited links none = throw (forbidden "Signups are by invitation")
assert_invited links (some token) = throw_if (not (is_signup_link (links.verify token))) stale_link

unfoldable pub assert_signup_allowed : SignupMode → Links → Option String → Action (Unit {0})
assert_signup_allowed SignupMode.«open» links token = pure tt
assert_signup_allowed SignupMode.invite links token = assert_invited links (truthy token)
assert_signup_allowed SignupMode.closed links token = throw (forbidden "Signups are closed")

-- `issueSignupLink`: the claims, and the seconds that the link is good for; `hours` are whole.
unfoldable pub issue_signup_link : Links → ℕ → String
issue_signup_link links hours =
    let ttl = hours * 3600 in
    links.sign (record { purpose = some "signup_link"; sub = none; app = none })
      (if hours == 0 then 1 else ttl)

abbrev pub is_live_client : String → App → Bool
is_live_client client_id a = a.client_id == client_id && not_set a.deleted_at

abbrev pub has_slug : String → Tenant → Bool
has_slug slug t = t.slug == slug

abbrev pub taken_slug : String → Failure
taken_slug slug = conflict ("Workspace name \"" <> (slug <> "\" is already taken"))

abbrev or_workspace : Option String → String
or_workspace none = "workspace"
or_workspace (some s) = s

abbrev chosen_slug : String → Action String
chosen_slug slug = do
  taken ← query (λ d. any (has_slug slug) d.tenants)
  throw_if taken (taken_slug slug)
  pure slug

-- A conflict of a derived name gets a suffix, which is not looked up again.
abbrev derived_slug : Signups → String → Action String
derived_slug cfg slug d = (
  ok (if any (has_slug slug) d.tenants then cfg.slice_34 slug <> ("-" <> cfg.suffix) else slug),
  d,
)

unfoldable pub pick_slug : Signups → String → Option String → Action String
pick_slug cfg company none = derived_slug cfg (or_workspace (truthy (some (cfg.slugify company))))
pick_slug cfg company (some slug) = chosen_slug slug

unfoldable pub new_tenant : Env → SignupDto → String → Tenant
new_tenant env dto slug = record {
  id = env.new_id;
  slug = slug;
  name = dto.company;
  plan = "free";
  status = TenantStatus.active;
  stripe_customer_id = none;
  grace_until = none;
  deleted_at = none;
}

unfoldable pub founder : Env → Signups → SignupDto → User
founder env cfg dto = record {
  id = env.new_id;
  tenant_id = some env.new_id;
  email = env.to_lower_case dto.email;
  password_hash = env.bcrypt_hash dto.password;
  name = cfg.joined_name dto.first_name dto.last_name;
  first_name = dto.first_name;
  last_name = dto.last_name;
  phone = none;
  is_platform_admin = false;
  is_tenant_admin = true;
  email_verified_at = none;
  deleted_at = none;
}

abbrev pub trial_end : Env → Signups → ℕ
trial_end env cfg = env.now + cfg.trial_days * day_ms

unfoldable pub trial_row : Env → Signups → App → AppTenant
trial_row env cfg app = record {
  tenant_id = env.new_id;
  app_id = app.id;
  status = AppTenantStatus.trial;
  plan = "free";
  trial_ends_at = some (trial_end env cfg);
  grace_until = none;
  stripe_subscription_id = none;
}

abbrev pub with_workspace : Tenant → User → AppTenant → Db → Db
with_workspace tenant user row d = record d {
  tenants = d.tenants ++ (tenant ∷ []);
  users = d.users ++ (user ∷ []);
  app_tenants = d.app_tenants ++ (row ∷ []);
}

-- The transaction, whose only constraint that can fail is the index of the slugs; the refusal of the
-- index is answered as a taken name.
unfoldable pub create_workspace : Env → Signups → SignupDto → App → String → Action String
unfolding new_tenant founder trial_row
create_workspace env cfg dto app slug = do
  taken ← query (λ d. any (has_slug slug) d.tenants)
  throw_if taken (taken_slug slug)
  change (with_workspace (new_tenant env dto slug) (founder env cfg dto) (trial_row env cfg app))
  pure slug

-- `signup` up to the mail.
unfoldable pub open_workspace : Env → Signups → Links → SignupDto → Action String
open_workspace env cfg links dto = do
  assert_signup_allowed cfg.mode links dto.invite_token
  app ←
      found_or (bad_request "Unknown app")
        (← query (λ d. find (is_live_client dto.client_id) d.apps))
  slug ← pick_slug cfg dto.company (truthy dto.slug)
  create_workspace env cfg dto app slug

abbrev signup_event : Env → Signups → SignupDto → String → AuditEvent
signup_event env cfg dto slug = record {
  action = "auth.signup";
  tenant_id = some env.new_id;
  user_id = none;
  app_client_id = some dto.client_id;
  detail =
      ("slug", Detail.text slug)
      ∷ ("email", Detail.text (env.to_lower_case dto.email))
      ∷ ("trialEndsAt", Detail.instant (trial_end env cfg))
      ∷ [];
}

abbrev signed_up : Env → Signups → Links → SignupDto → String → Post → Result SignupResult × Post
signed_up env cfg links dto slug p =
    let sent =
      send_verification env links
        (record { tenant_slug = some slug; email = env.to_lower_case dto.email; client_id = none })
        none p in
    (
      ok (record { tenant_slug = slug; trial_ends_at = trial_end env cfg }),
      record sent { db = (record_event (signup_event env cfg dto slug) sent.db).1 },
    )

abbrev finish_signup :
    Env → Signups → Links → SignupDto → Result String → Post → Result SignupResult × Post
finish_signup env cfg links dto (err e) p = (err e, p)
finish_signup env cfg links dto (ok slug) p = signed_up env cfg links dto slug p

unfoldable pub signup : Env → Signups → Links → SignupDto → Post → Result SignupResult × Post
unfolding record_event
signup env cfg links dto p =
    let (r, d) = open_workspace env cfg links dto p.db in
    finish_signup env cfg links dto r (record p { db = d })
