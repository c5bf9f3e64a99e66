-- ===== src/Platform/Schema.antt =====
-- The tables of platform/prisma/schema.prisma. An instant is the number of its milliseconds, as
-- `Date.getTime` gives it. Columns that no modelled operation reads or writes are left out.
use evo_platform.Base.{ℕ, Bool, true, false, String, Option, List}

pub data TenantStatus : Type 0 where
  active suspended past_due : TenantStatus

pub record Tenant : Type 0 where
  pub id : String
  pub slug : String
  pub name : String
  pub plan : String
  pub status : TenantStatus
  pub stripe_customer_id : Option String
  pub grace_until : Option ℕ
  pub deleted_at : Option ℕ

pub record User : Type 0 where
  pub id : String
  pub tenant_id : Option String
  pub email : String
  pub password_hash : String
  pub name : Option String
  pub first_name : Option String
  pub last_name : Option String
  pub phone : Option String
  pub is_platform_admin : Bool
  pub is_tenant_admin : Bool
  pub email_verified_at : Option ℕ
  pub deleted_at : Option ℕ

pub record App : Type 0 where
  pub id : String
  pub client_id : String
  pub client_secret_hash : String
  pub name : String
  pub display_name : Option String
  pub callback_urls : List String
  pub auto_enroll : Bool
  pub deleted_at : Option ℕ

pub record AppPrice : Type 0 where
  pub id : String
  pub app_id : String
  pub stripe_price_id : String
  pub stripe_product_id : String
  pub product_name : String
  pub tier : String
  pub livemode : Bool
  pub unit_amount : ℕ
  pub currency : String
  pub interval : String
  pub interval_count : ℕ
  pub sellable : Bool
  pub trial_days : ℕ
  pub sort_order : ℕ

pub data AppTenantStatus : Type 0 where
  trial active past_due suspended : AppTenantStatus

pub record AppTenant : Type 0 where
  pub tenant_id : String
  pub app_id : String
  pub status : AppTenantStatus
  pub plan : String
  pub trial_ends_at : Option ℕ
  pub grace_until : Option ℕ
  pub stripe_subscription_id : Option String

pub record Role : Type 0 where
  pub id : String
  pub app_id : String
  pub name : String
  pub description : Option String

pub record UserRole : Type 0 where
  pub user_id : String
  pub role_id : String

pub record RefreshToken : Type 0 where
  pub id : String
  pub user_id : String
  pub token_hash : String
  pub app_client_id : Option String
  pub expires_at : ℕ
  pub revoked_at : Option ℕ

pub record Invite : Type 0 where
  pub id : String
  pub tenant_id : String
  pub email : String
  pub role_ids : List String
  pub is_tenant_admin : Bool
  pub invited_by_id : Option String
  pub token_hash : String
  pub expires_at : ℕ
  pub accepted_at : Option ℕ

-- A value in the JSON record of an audit event.
pub data Detail : Type 0 where
  null : Detail
  text : String → Detail
  number : ℕ → Detail
  instant : ℕ → Detail
  flag : Bool → Detail
  texts : List String → Detail
  changed : Detail → Detail → Detail

pub record AuditEvent : Type 0 where
  pub action : String
  pub tenant_id : Option String
  pub user_id : Option String
  pub app_client_id : Option String
  pub detail : List (String × Detail)

pub record Db : Type 0 where
  pub tenants : List Tenant
  pub users : List User
  pub apps : List App
  pub app_prices : List AppPrice
  pub app_tenants : List AppTenant
  pub roles : List Role
  pub user_roles : List UserRole
  pub refresh_tokens : List RefreshToken
  pub invites : List Invite
  pub audit_events : List AuditEvent

-- `status === 'TRIAL'` and its like
abbrev pub is_trial : AppTenantStatus → Bool
is_trial AppTenantStatus.trial = true
is_trial _ = false

abbrev pub is_past_due : AppTenantStatus → Bool
is_past_due AppTenantStatus.past_due = true
is_past_due _ = false

abbrev pub is_suspended : AppTenantStatus → Bool
is_suspended AppTenantStatus.suspended = true
is_suspended _ = false
