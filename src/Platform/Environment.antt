-- ===== src/Platform/Environment.antt =====
-- What a request takes from outside the repository, as one value: the clock, the random values
-- drawn for it, the configuration (platform/src/config.ts), and the functions of libraries: text
-- folding, hashing, token signing, address parsing. A request reads the clock once.
use evo_platform.Base.{ℕ, Bool, String, Option, none, some, List, ◌==◌, string_eq}
use evo_platform.Base.{if◌then◌else◌}

-- `stripeMode`: which keys the deployment runs
pub data StripeMode : Type 0 where
  unset test live : StripeMode

pub record Config : Type 0 where
  pub access_ttl_sec : ℕ
  pub refresh_ttl_days : ℕ
  pub stripe_mode : StripeMode
  pub webhook_secret : Option String
  pub grace_days : ℕ

-- The claims of an access token, which `issueTokens` signs.
pub record Claims : Type 0 where
  pub sub : String
  pub email : String
  pub tenant_id : Option String
  pub tenant_slug : Option String
  pub roles : List String
  pub app : Option String
  pub platform_admin : Bool
  pub tenant_admin : Bool

pub record Env : Type 0 where
  pub now : ℕ
  pub new_id : String
  pub random_token : String
  pub config : Config
  pub to_lower_case : String → String
  pub trim : String → String
  pub url_origin : String → Option String
  pub sha256 : String → String
  pub bcrypt_hash : String → String
  pub bcrypt_compare : String → String → Bool
  pub dummy_hash : String
  pub sign : Claims → ℕ → String

abbrev pub day_ms : ℕ
day_ms = 86_400_000

-- A text that is missing or empty is falsy.
abbrev pub truthy : Option String → Option String
truthy none = none
truthy (some s) = if s == "" then none else some s
