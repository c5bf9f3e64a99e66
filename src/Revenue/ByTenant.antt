-- ===== src/Revenue/ByTenant.antt =====
-- The view of the figures by tenant (`byTenant`, platform/src/revenue/revenue.service.ts), from the report.
use evo_platform.Base.{
  Bool, true, false, ◌&&◌, String, ◌<>◌, Option, none, some, List, [], ◌∷◌, ◌++◌, map, ◌==◌,
  string_eq, if◌then◌else◌, leb, contains,
}
use evo_platform.Base.Rows.{find, filter}
use evo_platform.Base.Integers.{ℤ}
use evo_platform.Platform.{AppTenant, AppTenantStatus, Tenant, Db}
use evo_platform.Revenue.Amounts.{CurrencyAmounts, entry, net_of, sum_cents, or_empty}
use evo_platform.Revenue.Report.{Billed, Snapshot, RevenueReport, app_name_of}

pub record SubscriptionLine : Type 0 where
  pub app : String
  pub plan : String
  pub status : AppTenantStatus

pub record TenantRevenue : Type 0 where
  pub tenant_id : String
  pub slug : String
  pub name : String
  pub stripe_customer_id : String
  pub gross_ytd : CurrencyAmounts
  pub refunds_ytd : CurrencyAmounts
  pub net_ytd : CurrencyAmounts
  pub subscriptions : List SubscriptionLine

abbrev keys : {A : Type 0} → List (String × A) → List String
keys [] = []
keys ((k, _) ∷ es) = k ∷ keys es

-- `[...new Set(xs)]`, from what has been seen.
unfoldable pub distinct : List String → List String → List String
unfolding contains
distinct seen [] = []
distinct seen (x ∷ xs) =
    let rest = distinct seen xs in
    let rest' = distinct (x ∷ seen) xs in if contains x seen then rest else x ∷ rest'

abbrev is_customer : String → Tenant → Bool
is_customer customer t = truthy_is t.stripe_customer_id
  where
    truthy_is : Option String → Bool
    truthy_is none = false
    truthy_is (some c) = c == customer

abbrev has_subscription : String → AppTenant → Bool
has_subscription tenant_id r = r.tenant_id == tenant_id && set r.stripe_subscription_id
  where
    set : Option String → Bool
    set none = false
    set (some _) = true

abbrev line_of : Db → AppTenant → SubscriptionLine
line_of d r = record { app = app_name_of r.app_id d; plan = r.plan; status = r.status }

abbrev row_of : Db → String → Option Tenant → CurrencyAmounts → CurrencyAmounts → TenantRevenue
row_of d customer none gross refunds = record {
  tenant_id = "";
  slug = "";
  name = "(no tenant for " <> (customer <> ")");
  stripe_customer_id = customer;
  gross_ytd = gross;
  refunds_ytd = refunds;
  net_ytd = net_of gross refunds;
  subscriptions = [];
}
row_of d customer (some t) gross refunds = record {
  tenant_id = t.id;
  slug = t.slug;
  name = t.name;
  stripe_customer_id = customer;
  gross_ytd = gross;
  refunds_ytd = refunds;
  net_ytd = net_of gross refunds;
  subscriptions = map (line_of d) (filter (has_subscription t.id) d.app_tenants);
}

unfoldable pub tenant_row : Db → Billed → String → TenantRevenue
unfolding entry net_of
tenant_row d b customer =
    row_of d customer (find (is_customer customer) d.tenants)
      (or_empty (entry customer b.gross_by_customer))
      (or_empty (entry customer b.refunds_by_customer))

-- `a <= b`
abbrev le_ℤ : ℤ → ℤ → Bool
le_ℤ (ℤ.pos a) (ℤ.pos b) = leb a b
le_ℤ (ℤ.negsuc a) (ℤ.pos b) = true
le_ℤ (ℤ.pos a) (ℤ.negsuc b) = false
le_ℤ (ℤ.negsuc a) (ℤ.negsuc b) = leb b a

abbrev insert_payer : TenantRevenue → List TenantRevenue → List TenantRevenue
insert_payer r [] = r ∷ []
insert_payer r (x ∷ xs) =
    let rest = insert_payer r xs in
    if le_ℤ (sum_cents x.net_ytd) (sum_cents r.net_ytd) then r ∷ (x ∷ xs) else x ∷ rest

abbrev biggest_first : List TenantRevenue → List TenantRevenue
biggest_first [] = []
biggest_first (r ∷ rs) = insert_payer r (biggest_first rs)

unfoldable pub customers_of : Billed → List String
unfolding distinct
customers_of b = distinct [] (keys b.gross_by_customer ++ keys b.refunds_by_customer)

abbrev tenants_of : Db → Option Snapshot → List TenantRevenue
tenants_of d none = []
tenants_of d (some s) = biggest_first (map (tenant_row d s.billed) (customers_of s.billed))

-- `byTenant`, from the report.
unfoldable pub by_tenant : Db → RevenueReport → Bool × List TenantRevenue
unfolding tenant_row customers_of sum_cents
by_tenant d r = (r.stale, tenants_of d r.snapshot)
