-- ===== src/Examples/Tenancy.antt =====
-- One tenant with one app, its accounts and its tokens, and an environment for its requests. The
-- functions of libraries are stood for by simple ones: a text is its own hash and its own origin.
use evo_platform.Base.{ℕ, true, false, Option, none, some, [], ◌∷◌, ◌==◌, string_eq}
use evo_platform.Platform.{
  Tenant, TenantStatus, User, App, AppPrice, AppTenant, AppTenantStatus, RefreshToken, Db, Env,
  Config, StripeMode,
}

abbrev pub config : Config
config = record {
  access_ttl_sec = 900;
  refresh_ttl_days = 30;
  stripe_mode = StripeMode.test;
  webhook_secret = some "whsec";
  grace_days = 7;
}

abbrev pub env_at : ℕ → Env
env_at now = record {
  now = now;
  new_id = "fresh";
  random_token = "next";
  config = config;
  to_lower_case = λ s. s;
  trim = λ s. s;
  url_origin = λ s. some s;
  sha256 = λ s. s;
  bcrypt_hash = λ s. s;
  bcrypt_compare = λ a b. a == b;
  dummy_hash = "";
  sign = λ _ _. "signed";
}

abbrev pub acme : Tenant
acme = record {
  id = "t1";
  slug = "acme";
  name = "Acme";
  plan = "free";
  status = TenantStatus.active;
  stripe_customer_id = some "cus_1";
  grace_until = none;
  deleted_at = none;
}

abbrev pub notes : App
notes = record {
  id = "a1";
  client_id = "notes";
  client_secret_hash = "secret";
  name = "Notes";
  display_name = none;
  callback_urls = "https://notes.example" ∷ [];
  auto_enroll = false;
  deleted_at = none;
}

abbrev pub pro_price : AppPrice
pro_price = record {
  id = "p1";
  app_id = "a1";
  stripe_price_id = "price_pro";
  stripe_product_id = "prod_1";
  product_name = "Notes";
  tier = "pro";
  livemode = false;
  unit_amount = 900;
  currency = "eur";
  interval = "month";
  interval_count = 1;
  sellable = true;
  trial_days = 14;
  sort_order = 0;
}

abbrev pub access_at : AppTenantStatus → Option ℕ → AppTenant
access_at status grace_until = record {
  tenant_id = "t1";
  app_id = "a1";
  status = status;
  plan = "pro";
  trial_ends_at = none;
  grace_until = grace_until;
  stripe_subscription_id = some "sub_1";
}

abbrev pub ada : User
ada = record {
  id = "u1";
  tenant_id = none;
  email = "ada@example";
  password_hash = "pw";
  name = none;
  first_name = none;
  last_name = none;
  phone = none;
  is_platform_admin = true;
  is_tenant_admin = false;
  email_verified_at = some 1;
  deleted_at = none;
}

abbrev pub bob : User
bob = record {
  id = "u2";
  tenant_id = some "t1";
  email = "bob@example";
  password_hash = "pw";
  name = none;
  first_name = some "Bob";
  last_name = none;
  phone = none;
  is_platform_admin = false;
  is_tenant_admin = true;
  email_verified_at = some 1;
  deleted_at = none;
}

abbrev pub token_of : Option ℕ → RefreshToken
token_of revoked_at = record {
  id = "r1";
  user_id = "u2";
  token_hash = "raw";
  app_client_id = some "notes";
  expires_at = 1_000_000;
  revoked_at = revoked_at;
}

abbrev pub db_with : AppTenant → RefreshToken → Db
db_with access token = record {
  tenants = acme ∷ [];
  users = ada ∷ bob ∷ [];
  apps = notes ∷ [];
  app_prices = pro_price ∷ [];
  app_tenants = access ∷ [];
  roles = [];
  user_roles = [];
  refresh_tokens = token ∷ [];
  invites = [];
  audit_events = [];
}

abbrev pub enabled_row : AppTenant
enabled_row = access_at AppTenantStatus.active none

abbrev pub db : Db
db = db_with enabled_row (token_of none)
