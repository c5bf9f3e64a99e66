-- ===== src/Apps/Prices.antt =====
-- What an app sells: the prices of platform/src/apps/apps.service.ts, with `describePrice` and
-- `listPrices` of platform/src/billing/billing.service.ts. Stripe's answer to the retrieval of a price
-- is a parameter. The audit event of a refresh leaves out the list of the changed fields.
use evo_platform.Base.{
  ℕ, Bool, true, not, ◌&&◌, ◌||◌, String, ◌<>◌, Option, none, some, List, [], ◌∷◌, ◌++◌, ◌==◌,
  string_eq, option_eq, nat_eq, if◌then◌else◌, leb, ltb,
}
use evo_platform.Base.Rows.{find, filter, any, update_where, delete_where}
use evo_platform.Platform.{
  App, AppPrice, Db, Env, StripeMode, Detail, Failure, Action, ◌>>=◌, ◌>>◌, pure, throw, query,
  change, found_or, throw_if, record_event, conflict, not_found, bad_request, unavailable,
}
use evo_platform.People.Names.{given_or}
use evo_platform.Apps.Registry.{get, app_event}

-- The product of a price: its id alone, one that was deleted, or the object.
pub data Product : Type 0 where
  bare deleted : String → Product
  expanded : String → Option String → Product

pub record StripePrice : Type 0 where
  pub active : Bool
  pub product : Product
  pub unit_amount : Option ℕ
  pub currency : String
  pub recurring : Option (String × ℕ)
  pub livemode : Bool

pub record PriceFacts : Type 0 where
  pub stripe_product_id : String
  pub product_name : String
  pub unit_amount : ℕ
  pub currency : String
  pub interval : String
  pub interval_count : ℕ
  pub livemode : Bool

-- `prices.retrieve`, if a key is set; none where it throws.
abbrev pub Retrieve : Type 0
Retrieve = Option (String → Option StripePrice)

abbrev product_id : Product → String
product_id (Product.bare id) = id
product_id (Product.deleted id) = id
product_id (Product.expanded id _) = id

abbrev product_name : Product → String
product_name (Product.expanded _ (some name)) = name
product_name _ = ""

abbrev period : Option (String × ℕ) → String × ℕ
period none = ("once", 1)
period (some p) = p

unfoldable pub facts_of : StripePrice → PriceFacts
facts_of p = record {
  stripe_product_id = product_id p.product;
  product_name = product_name p.product;
  unit_amount = given_or p.unit_amount 0;
  currency = p.currency;
  interval = (period p.recurring).0;
  interval_count = (period p.recurring).1;
  livemode = p.livemode;
}

unfoldable pub describe_price : Retrieve → String → Action PriceFacts
unfolding facts_of
describe_price none price_id =
    throw (unavailable "Cannot read a price while STRIPE_SECRET_KEY is unset")
describe_price (some retrieve) price_id = do
  price ←
      found_or (bad_request ("Stripe has no price \"" <> (price_id <> "\""))) (retrieve price_id)
  throw_if (not price.active)
      (bad_request ("Stripe price \"" <> (price_id <> "\" is archived, so checkout would fail")))
  pure (facts_of price)

-- The order of a pricing table.
abbrev comes_before : AppPrice → AppPrice → Bool
comes_before a b =
    ltb a.sort_order b.sort_order
    || (a.sort_order == b.sort_order && leb a.unit_amount b.unit_amount)

abbrev insert_price : AppPrice → List AppPrice → List AppPrice
insert_price p [] = p ∷ []
insert_price p (x ∷ xs) =
    let rest = insert_price p xs in if comes_before p x then p ∷ (x ∷ xs) else x ∷ rest

abbrev ordered : List AppPrice → List AppPrice
ordered [] = []
ordered (p ∷ ps) = insert_price p (ordered ps)

abbrev pub is_price_of : String → AppPrice → Bool
is_price_of app_id p = p.app_id == app_id

unfoldable pub list_prices : String → Action (List AppPrice)
unfolding get
list_prices app_id = do get app_id; query (λ d. ordered (filter (is_price_of app_id) d.app_prices))

abbrev in_mode : StripeMode → AppPrice → Bool
in_mode StripeMode.unset p = true
in_mode StripeMode.live p = p.livemode
in_mode StripeMode.test p = not p.livemode

-- `listPrices` of the billing service, for the app itself.
unfoldable pub sellable_prices : StripeMode → String → Db → List AppPrice
sellable_prices mode app_id d =
    ordered (filter (λ p. is_price_of app_id p && (p.sellable && in_mode mode p)) d.app_prices)

pub record AddPriceDto : Type 0 where
  pub stripe_price_id : String
  pub tier : String
  pub sort_order : Option ℕ

abbrev pub has_price_id : String → AppPrice → Bool
has_price_id id p = p.id == id

abbrev pub is_stripe_price : String → AppPrice → Bool
is_stripe_price id p = p.stripe_price_id == id

abbrev pub sells : String → String → String → ℕ → AppPrice → Bool
sells app_id tier interval count p =
    p.app_id == app_id && (p.tier == tier && (p.interval == interval && p.interval_count == count))

abbrev pub with_facts : PriceFacts → AppPrice → AppPrice
with_facts f p = record p {
  stripe_product_id = f.stripe_product_id;
  product_name = f.product_name;
  unit_amount = f.unit_amount;
  currency = f.currency;
  interval = f.interval;
  interval_count = f.interval_count;
  livemode = f.livemode;
}

unfoldable pub new_price : Env → String → AddPriceDto → PriceFacts → AppPrice
new_price env app_id dto f = record {
  id = env.new_id;
  app_id = app_id;
  stripe_price_id = dto.stripe_price_id;
  stripe_product_id = f.stripe_product_id;
  product_name = f.product_name;
  tier = dto.tier;
  livemode = f.livemode;
  unit_amount = f.unit_amount;
  currency = f.currency;
  interval = f.interval;
  interval_count = f.interval_count;
  sellable = true;
  trial_days = 0;
  sort_order = given_or dto.sort_order 0;
}

-- The refusals name the app that owns the price, or the tier; their texts are shortened.
abbrev pub owned_price : Failure
owned_price = conflict "That price is already registered"

abbrev pub sold_already : Failure
sold_already = conflict "This app already sells that tier at that period"

-- `addPrice` once the facts are read.
unfoldable pub store_price : Env → App → AddPriceDto → PriceFacts → Action AppPrice
unfolding new_price record_event
store_price env app dto f = do
  owned ← query (λ d. any (is_stripe_price dto.stripe_price_id) d.app_prices)
  throw_if owned owned_price
  clash ← query (λ d. any (sells app.id dto.tier f.interval f.interval_count) d.app_prices)
  throw_if clash sold_already
  change (λ d. record d { app_prices = d.app_prices ++ (new_price env app.id dto f ∷ []) })
  record_event (
      app_event "app.price_added" (some app.client_id) (
        ("tier", Detail.text dto.tier)
        ∷ ("stripePriceId", Detail.text dto.stripe_price_id)
        ∷ ("interval", Detail.text f.interval)
        ∷ []))
  pure (new_price env app.id dto f)

unfoldable pub add_price : Env → Retrieve → String → AddPriceDto → Action AppPrice
unfolding get describe_price
add_price env retrieve app_id dto = do
  app ← get app_id
  facts ← describe_price retrieve dto.stripe_price_id
  store_price env app dto facts

-- The price of the app, or none: another app's price is not found.
unfoldable pub own_price : String → String → Action AppPrice
own_price app_id id = do
  price ←
      found_or (not_found "Price not found") (← query (λ d. find (has_price_id id) d.app_prices))
  throw_if (not (price.app_id == app_id)) (not_found "Price not found")
  pure price

abbrev pub moves : AppPrice → PriceFacts → Bool
moves p f = not (f.interval == p.interval) || not (f.interval_count == p.interval_count)

abbrev pub clashes : AppPrice → PriceFacts → AppPrice → Bool
clashes p f x = sells p.app_id p.tier f.interval f.interval_count x && not (x.id == p.id)

unfoldable pub correct_price : App → AppPrice → PriceFacts → Action AppPrice
unfolding record_event
correct_price app price f = do
  clash ← query (λ d. moves price f && any (clashes price f) d.app_prices)
  throw_if clash sold_already
  change (λ d. record d {
    app_prices = update_where (has_price_id price.id) (with_facts f) d.app_prices;
  })
  record_event (
      app_event "app.price_refreshed" (some app.client_id) (
        ("tier", Detail.text price.tier)
        ∷ ("stripePriceId", Detail.text price.stripe_price_id)
        ∷ []))
  pure (with_facts f price)

unfoldable pub refresh_price : Retrieve → String → String → Action AppPrice
unfolding get own_price describe_price
refresh_price retrieve app_id id = do
  app ← get app_id
  price ← own_price app_id id
  facts ← describe_price retrieve price.stripe_price_id
  correct_price app price facts

unfoldable pub remove_price : String → String → Action (Unit {0})
unfolding get own_price record_event
remove_price app_id id = do
  app ← get app_id
  price ← own_price app_id id
  change (λ d. record d { app_prices = delete_where (has_price_id id) d.app_prices })
  record_event (
      app_event "app.price_removed" (some app.client_id) (
        ("tier", Detail.text price.tier)
        ∷ ("stripePriceId", Detail.text price.stripe_price_id)
        ∷ []))
