-- ===== src/Billing/Stripe.antt =====
-- The parts of Stripe's objects that billing.service.ts reads, and Stripe's client as a parameter:
-- each method is a function from what is sent to what is answered.
use evo_platform.Base.{ℕ, Bool, String, Option, none, some, List}

-- `metadata` as `checkout` stamps it.
pub record Metadata : Type 0 where
  pub tenant_id : Option String
  pub app_id : Option String
  pub tier : Option String

pub record Subscription : Type 0 where
  pub id : String
  pub status : String
  pub metadata : Metadata
  -- `items.data[0].price.id`
  pub price_id : Option String

-- A reference is an id, or the object itself when it was expanded.
pub data Reference : Type 0 where
  bare expanded : String → Reference

pub record Invoice : Type 0 where
  pub subscription : Option Reference
  -- `parent.subscription_details.subscription`
  pub parent_subscription : Option Reference

pub data Mode : Type 0 where
  payment subscription setup : Mode

pub record Session : Type 0 where
  pub id : String
  pub mode : Mode
  pub is_paid : Bool
  pub metadata : Metadata

pub data Event : Type 0 where
  subscription_created subscription_updated subscription_deleted : Subscription → Event
  invoice_paid invoice_payment_failed : Invoice → Event
  checkout_session_completed : Session → Event
  other : Event

pub record SessionRequest : Type 0 where
  pub mode : Mode
  pub customer : String
  pub price : String
  pub quantity : ℕ
  pub success_url : String
  pub cancel_url : String
  pub tenant_id : String
  pub app_id : String
  pub app_client_id : String
  pub tier : String
  -- the metadata rides on the session itself, not on `subscription_data`
  pub on_session : Bool
  pub trial_period_days : Option ℕ

pub record Client : Type 0 where
  -- name, tenant id and slug to customer id
  pub create_customer : String → String → String → String
  -- to the session's url
  pub create_session : SessionRequest → String
  -- customer and return url to the session's url
  pub create_portal : String → String → String
  -- body, signature and secret; `none` for a refused signature
  pub construct_event : String → String → String → Option Event

-- The calling app, as ClientGuard attaches it to the request.
pub record CallingApp : Type 0 where
  pub id : String
  pub client_id : String
  pub callback_urls : List String

abbrev reference_id : Reference → String
reference_id (bare s) = s
reference_id (expanded s) = s

abbrev or_else : Option Reference → Option Reference → Option Reference
or_else none r = r
or_else (some r) _ = some r

-- `invoiceSubscriptionId`, over both shapes of the interface.
unfoldable pub invoice_subscription_id : Invoice → Option String
invoice_subscription_id i = elim (or_else i.subscription i.parent_subscription) [
  | none ↦ none
  | some r ↦ some (reference_id r)
]
