-- ===== src/Examples/Registry.antt =====
-- The theorem on the catalogue of prices, at a concrete request.
use evo_platform.Base.{refl, true, false, String, Option, none, some, string_eq, nat_eq}
use evo_platform.Base.Rows.{any}
use evo_platform.Apps.Prices.{StripePrice, Product, AddPriceDto}
use evo_platform.Apps.Catalogue.{IsCatalogue, PriceRequest, serve, serve-IsCatalogue}
use evo_platform.Examples.Tenancy.{env_at, db}

-- What Stripe knows: one yearly price.
abbrev retrieve : String → Option StripePrice
retrieve _ = some (record {
  active = true;
  product = Product.bare "prod_1";
  unit_amount = some 9_900;
  currency = "eur";
  recurring = some ("year", 1);
  livemode = false;
})

abbrev yearly : AddPriceDto
yearly = record { stripe_price_id = "price_year"; tier = "pro"; sort_order = none }

serve-IsCatalogue_example :
    IsCatalogue (serve (env_at 5) (some retrieve) (PriceRequest.add "a1" yearly) db).app_prices
unfolding any string_eq
serve-IsCatalogue_example =
    serve-IsCatalogue (env_at 5) (some retrieve) (PriceRequest.add "a1" yearly) db refl
      (record { ids = (refl, tt); stripe_prices = (refl, tt); offers = (refl, tt) })
