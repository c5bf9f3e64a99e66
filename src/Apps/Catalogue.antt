-- ===== src/Apps/Catalogue.antt =====
-- The catalogue of prices stays sound (platform/src/apps/apps.service.ts).
use mathlib.Core.List.{Memᴰ}
use mathlib.Core.Option.{some-injective}
use evo_platform.Base.{
  ℕ, ◌≡◌, refl, sym, subst, ap, ◌∙◌, Bool, true, false, not, ◌&&◌, String, ◌<>◌, Option, none, some,
  List, [], ◌∷◌, ◌==◌, string_eq, nat_eq, ==_refl, arith, Bool-cases, inl, inr,
}
use evo_platform.Base.Rows.{
  find, any, update_where, delete_where, find_sound, find-mem, mem-cases,
  update_where-eq_of_not_any,
}
use evo_platform.Base.Keyed.{
  NodupKeys, append-NodupKeys, delete_where-NodupKeys, update_where-NodupKeys,
}
use evo_platform.Platform.{
  App, AppPrice, Db, Env, Result, Action, ok, err, ◌>>=◌, ◌>>◌, change, throw_if, record_event,
  bind-eq-ok, found_or-eq-ok, Failure, Detail, bad_request, found_or, not_found, pure,
}
use evo_platform.Apps.Registry.{get, has_app_id, app_event}
use evo_platform.Apps.Prices.{
  facts_of, describe_price, own_price, add_price, refresh_price, remove_price, PriceFacts, Retrieve,
  AddPriceDto, has_price_id, is_stripe_price, sells, new_price, store_price, correct_price,
  with_facts, clashes, moves,
}

abbrev pub same_price_id : AppPrice → AppPrice → Bool
same_price_id a x = x.id == a.id

abbrev pub same_stripe_price : AppPrice → AppPrice → Bool
same_stripe_price a x = x.stripe_price_id == a.stripe_price_id

abbrev pub same_offer : AppPrice → AppPrice → Bool
same_offer a x = sells a.app_id a.tier a.interval a.interval_count x

-- One row for an id, for a price of Stripe, and for a tier of an app at a period.
pub record IsCatalogue (prices : List AppPrice) : Type 0 where
  pub ids : NodupKeys same_price_id prices
  pub stripe_prices : NodupKeys same_stripe_price prices
  pub offers : NodupKeys same_offer prices

same_offer_comm : (a b : AppPrice) → same_offer a b ≡ same_offer b a
same_offer_comm a b = ground arith

same_offer_refl : (a : AppPrice) → same_offer a a ≡ true
same_offer_refl a = ground arith

-- An update of the rows of one test, which gives them the key that `target` tests and no other row has.
module _ {A : Type 0} (key : A → A → Bool) (k target : A → Bool) (f : A → A) where
  any-moved :
      (r : A) (rows : List A)
      → target r ≡ false
      → ((x : A) → Memᴰ x rows → k x ≡ true → key r (f x) ≡ target r)
      → any (key r) rows ≡ false
      → any (key r) (update_where k f rows) ≡ false
  unfolding any update_where
  any-moved r [] h g fresh = refl
  any-moved r (x ∷ rows) h g fresh =
      ground (arith, h, g x (Memᴰ.head refl), any-moved r rows h (λ y m. g y (Memᴰ.tail m)))

  any_target :
      (r : A) (rows : List A)
      → ((y : A) → key r y ≡ target y)
      → any k rows ≡ false
      → any (λ x. target x && not (k x)) rows ≡ false
      → any (key r) rows ≡ false
  unfolding any
  any_target r [] g h apart = refl
  any_target r (x ∷ rows) g h apart = ground (arith, g x, any_target r rows g)

  pub update_where-moved :
      (id : A → A → Bool) (rows : List A)
      → NodupKeys id rows
      → ((x y : A) → k x ≡ true → id x y ≡ k y)
      → any (λ x. target x && not (k x)) rows ≡ false
      → ((x y : A) → Memᴰ x rows → k x ≡ true → (key (f x) y ≡ target y) × (key y (f x) ≡ target y))
      → NodupKeys key rows
      → NodupKeys key (update_where k f rows)
  unfolding update_where any
  update_where-moved id [] ids by_id apart g u = tt
  update_where-moved id (r ∷ rows) (one, ids) by_id apart g (fresh, u) = elim (Bool-cases (k r)) [
    | inl here ↦
        let none_else : any k rows ≡ false = any_ext rows (λ y. by_id r y here) one in
        let rest : update_where k f rows ≡ rows = update_where-eq_of_not_any k f rows none_else in
        rw (here, rest)
          (
            any_target (f r) rows (λ y. (g r y (Memᴰ.head refl) here).0) none_else
                (ground (arith, here)),
            u,
          )
    | inr other ↦ rw other (
      any-moved r rows (ground (arith, apart, other)) (λ x m h. (g x r (Memᴰ.tail m) h).1) fresh,
      update_where-moved id rows ids by_id (ground (arith, apart, other))
          (λ x y m. g x y (Memᴰ.tail m)) u,
    )
  ]
    where
      any_ext :
          {p q : A → Bool} (xs : List A)
          → ((y : A) → p y ≡ q y)
          → any p xs ≡ false
          → any q xs ≡ false
      any_ext [] e h = refl
      any_ext (x ∷ xs) e h = ground (arith, e x, any_ext xs e)

any_of_clash :
    (app_id tier interval : String) (count : ℕ) (y : AppPrice) (prices : List AppPrice)
    → ((x : AppPrice) → same_offer y x ≡ sells app_id tier interval count x)
    → any (sells app_id tier interval count) prices ≡ false
    → any (same_offer y) prices ≡ false
unfolding any
any_of_clash app_id tier interval count y [] e h = refl
any_of_clash app_id tier interval count y (x ∷ prices) e h =
    ground (arith, e x, any_of_clash app_id tier interval count y prices e)

store_price-IsCatalogue :
    (env : Env) (app : App) (dto : AddPriceDto) (f : PriceFacts) (d : Db)
    → any (has_price_id env.new_id) d.app_prices ≡ false
    → IsCatalogue d.app_prices
    → IsCatalogue (store_price env app dto f d).1.app_prices
unfolding store_price new_price record_event
store_price-IsCatalogue env app dto f d unused c =
    elim (Bool-cases (any (is_stripe_price dto.stripe_price_id) d.app_prices)) [
      | inl owned ↦ rw owned c
      | inr free ↦
          elim (Bool-cases (any (sells app.id dto.tier f.interval f.interval_count) d.app_prices)) [
            | inl clash ↦ rw (free, clash) c
            | inr open_ ↦
                let price = new_price env app.id dto f in
                rw (free, open_)
                  (record {
                    ids =
                        append-NodupKeys same_price_id (λ a. ==_refl a.id) (λ a b. ground arith)
                          price d.app_prices unused c.ids;
                    stripe_prices =
                        append-NodupKeys same_stripe_price (λ a. ==_refl a.stripe_price_id)
                          (λ a b. ground arith) price d.app_prices free c.stripe_prices;
                    offers =
                        append-NodupKeys same_offer same_offer_refl same_offer_comm price
                          d.app_prices open_ c.offers;
                  })
          ]
    ]

one_price :
    (prices : List AppPrice) (p x : AppPrice)
    → NodupKeys same_price_id prices
    → find (has_price_id p.id) prices ≡ some p
    → Memᴰ x prices
    → x.id ≡ p.id
    → x ≡ p
unfolding find any
one_price [] p x u found m e = elim m [ ]
one_price (r ∷ prices) p x (fresh, u) found m e = elim (Bool-cases (has_price_id p.id r)) [
  | inl here ↦ elim (mem-cases m) [
    | inl first ↦ first ∙ some-injective r p (ground (arith, found, here))
    | inr later ↦ absurd (distinct r prices later (ground (arith, e, here)) fresh)
  ]
  | inr other ↦ elim (mem-cases m) [
    | inl first ↦ absurd (ground (arith, other, e, ap (λ (y : AppPrice). y.id) first))
    | inr later ↦ one_price prices p x u (ground (arith, found, other)) later e
  ]
]
  where
    distinct :
        {y : AppPrice} (z : AppPrice) (rows : List AppPrice)
        → Memᴰ y rows
        → y.id ≡ z.id
        → any (same_price_id z) rows ≡ false
        → ⊥
    distinct z [] m e h = elim m [ ]
    distinct z (w ∷ rows) m e h = elim (mem-cases m) [
      | inl first ↦ ground (arith, h, e, ap (λ (y : AppPrice). y.id) first)
      | inr later ↦ distinct z rows later e (ground (arith, h))
    ]

any_both_false :
    (q k : AppPrice → Bool) (rows : List AppPrice)
    → any q rows ≡ false
    → any (λ x. q x && not (k x)) rows ≡ false
unfolding any
any_both_false q k [] h = refl
any_both_false q k (x ∷ rows) h = ground (arith, any_both_false q k rows)

any-mem_false :
    (q : AppPrice → Bool) (rows : List AppPrice) {x : AppPrice}
    → any q rows ≡ false
    → Memᴰ x rows
    → q x ≡ false
unfolding any
any-mem_false q [] h m = elim m [ ]
any-mem_false q (y ∷ rows) h m = elim (mem-cases m) [
  | inl e ↦ rw e (ground (arith, h))
  | inr later ↦ any-mem_false q rows (ground (arith, h)) later
]

-- Nothing else is offered as a price of the catalogue is.
offered_alone :
    (p : AppPrice) (rows : List AppPrice)
    → NodupKeys same_offer rows
    → find (has_price_id p.id) rows ≡ some p
    → any (λ x. same_offer p x && not (has_price_id p.id x)) rows ≡ false
unfolding find any
offered_alone p [] u found = refl
offered_alone p (r ∷ rows) (fresh, u) found = elim (Bool-cases (has_price_id p.id r)) [
  | inl here ↦
      let e : r ≡ p = some-injective r p (ground (arith, found, here)) in
      let rest : any (same_offer p) rows ≡ false =
        ap (λ y. any (same_offer y) rows) (sym e) ∙ fresh in
      ground (arith, here, any_both_false (same_offer p) (has_price_id p.id) rows rest)
  | inr other ↦
      let found' : find (has_price_id p.id) rows ≡ some p = ground (arith, found, other) in
      let apart =
        any-mem_false (same_offer r) rows fresh (find-mem (has_price_id p.id) rows found') in
      ground (arith, same_offer_comm p r, apart, offered_alone p rows u found')
]

-- The new facts clash with no other row.
module _ (p : AppPrice) (f : PriceFacts) (prices : List AppPrice)
    (found : find (has_price_id p.id) prices ≡ some p) where
  unclashed :
      NodupKeys same_offer prices
      → (moves p f && any (clashes p f) prices) ≡ false
      → any (clashes p f) prices ≡ false
  unclashed u h = elim (Bool-cases (moves p f)) [
    | inl moved ↦ ground (arith, h, moved)
    | inr stays ↦
        let interval : f.interval ≡ p.interval = ground (arith, stays) in
        let count : f.interval_count ≡ p.interval_count = ground (arith, stays) in
        rw (interval, count) (offered_alone p prices u found)
  ]

  with_facts-offers :
      NodupKeys same_price_id prices
      → NodupKeys same_offer prices
      → any (clashes p f) prices ≡ false
      → NodupKeys same_offer (update_where (has_price_id p.id) (with_facts f) prices)
  with_facts-offers ids u apart =
      update_where-moved same_offer (has_price_id p.id)
        (sells p.app_id p.tier f.interval f.interval_count) (with_facts f) same_price_id prices ids
        (λ x y own. ground (arith, own)) apart
        (λ x y m own.
          let e = one_price prices p x ids found m (ground (arith, own)) in
          rw e (refl, same_offer_comm y (with_facts f p)))
        u

correct_price-IsCatalogue :
    (app : App) (p : AppPrice) (f : PriceFacts) (d : Db)
    → find (has_price_id p.id) d.app_prices ≡ some p
    → IsCatalogue d.app_prices
    → IsCatalogue (correct_price app p f d).1.app_prices
unfolding correct_price record_event
correct_price-IsCatalogue app p f d found c =
    elim (Bool-cases (moves p f && any (clashes p f) d.app_prices)) [
      | inl clash ↦ rw clash c
      | inr free ↦ rw free (record {
        ids =
            update_where-NodupKeys same_price_id (λ a. ==_refl a.id) (λ a b. ground arith)
              (has_price_id p.id) (with_facts f) d.app_prices (λ k x. (refl, refl)) c.ids;
        stripe_prices =
            update_where-NodupKeys same_stripe_price (λ a. ==_refl a.stripe_price_id)
              (λ a b. ground arith) (has_price_id p.id) (with_facts f) d.app_prices
              (λ k x. (refl, refl)) c.stripe_prices;
        offers =
            with_facts-offers p f d.app_prices found c.ids c.offers
              (unclashed p f d.app_prices found c.offers free);
      })
    ]

ok-injective : {A : Type 0} (a b : A) → Result.ok a ≡ Result.ok b → a ≡ b
ok-injective a b h = cc

-- A first step that reads only.
bind-keeps :
    {A B : Type 0} (P : Db → Type 0) (m : Action A) (k : A → Action B) (d : Db)
    → (m d).1 ≡ d
    → ((a : A) → m d ≡ (ok a, d) → P (k a d).1)
    → P d
    → P ((m >>= k) d).1
bind-keeps {A} {B} P m k d same h p = cases (m d) refl same
  where
    cases :
        (r : Result A × Db)
        → m d ≡ r
        → r.1 ≡ d
        → P (elim r.0 as (λ _. Result B × Db) [ err x ↦ (err x, r.1) | ok a ↦ k a r.1 ]).1
    cases (err x, e) at same = rw same p
    cases (ok a, e) at same =
        subst (λ e'. P (k a e').1) (sym same) (h a (at ∙ ap (λ e'. (ok a, e')) same))

found_or-reads : {A : Type 0} (x : Failure) (o : Option A) (d : Db) → (found_or x o d).1 ≡ d
found_or-reads x none d = refl
found_or-reads x (some a) d = refl

throw_if-reads : (b : Bool) (x : Failure) (d : Db) → (throw_if b x d).1 ≡ d
throw_if-reads true x d = refl
throw_if-reads false x d = refl

get-reads : (id : String) (d : Db) → (get id d).1 ≡ d
unfolding get
get-reads id d = found_or-reads (not_found "App not found") (find (has_app_id id) d.apps) d

-- A row that is checked reads only.
checked-reads :
    {A : Type 0} (x y : Failure) (o : Option A) (bad : A → Bool) {B : Type 0} (f : A → B) (d : Db)
    → ((found_or x o >>= λ a. throw_if (bad a) y >> pure (f a)) d).1 ≡ d
checked-reads x y o bad f d =
    bind-keeps (λ e. e ≡ d) (found_or x o) (λ a. throw_if (bad a) y >> pure (f a)) d
      (found_or-reads x o d)
      (λ a _.
        bind-keeps (λ e. e ≡ d) (throw_if (bad a) y) (λ _. pure (f a)) d
          (throw_if-reads (bad a) y d) (λ _ _. refl) refl)
      refl

describe_price-reads :
    (retrieve : Retrieve) (id : String) (d : Db) → (describe_price retrieve id d).1 ≡ d
unfolding describe_price
describe_price-reads none id d = refl
describe_price-reads (some retrieve) id d =
    checked-reads (bad_request ("Stripe has no price \"" <> (id <> "\"")))
      (bad_request ("Stripe price \"" <> (id <> "\" is archived, so checkout would fail")))
      (retrieve id) (λ price. not price.active) facts_of d

own_price-reads : (app_id id : String) (d : Db) → (own_price app_id id d).1 ≡ d
unfolding own_price
own_price-reads app_id id d =
    checked-reads (not_found "Price not found") (not_found "Price not found")
      (find (has_price_id id) d.app_prices) (λ p. not (p.app_id == app_id)) (λ p. p) d

own_price_sound :
    (app_id id : String) (d : Db) {p : AppPrice}
    → own_price app_id id d ≡ (ok p, d)
    → find (has_price_id p.id) d.app_prices ≡ some p
unfolding own_price
own_price_sound app_id id d {p} h =
    let rest : AppPrice → Action AppPrice =
      λ q. throw_if (not (q.app_id == app_id)) (not_found "Price not found") >> pure q in
    let (q, e, found, h') =
      bind-eq-ok (found_or (not_found "Price not found") (find (has_price_id id) d.app_prices)) rest
        d h in
    let (there, _) =
      found_or-eq-ok (not_found "Price not found") (find (has_price_id id) d.app_prices) d found in
    let (_, e', _, h'') =
      bind-eq-ok (throw_if (not (q.app_id == app_id)) (not_found "Price not found")) (λ _. pure q) e
        h' in
    let is : q ≡ p = ok-injective q p (ap (λ (r : Result AppPrice × Db). r.0) h'') in
    let here : find (has_price_id id) d.app_prices ≡ some p = there ∙ ap some is in
    let same_id : p.id ≡ id = ground (arith, find_sound (has_price_id id) d.app_prices here) in
    ap (λ i. find (has_price_id i) d.app_prices) same_id ∙ here

-- The requests that change the prices of an app.
pub data PriceRequest : Type 0 where
  add : String → AddPriceDto → PriceRequest
  refresh remove : String → String → PriceRequest

unfoldable pub serve : Env → Retrieve → PriceRequest → Db → Db
unfolding add_price refresh_price remove_price
serve env retrieve (PriceRequest.add app_id dto) d = (add_price env retrieve app_id dto d).1
serve env retrieve (PriceRequest.refresh app_id id) d = (refresh_price retrieve app_id id d).1
serve env retrieve (PriceRequest.remove app_id id) d = (remove_price app_id id d).1

abbrev Catalogued : Db → Type 0
Catalogued d = IsCatalogue d.app_prices

erase-IsCatalogue :
    (id : String) (prices : List AppPrice)
    → IsCatalogue prices
    → IsCatalogue (delete_where (has_price_id id) prices)
erase-IsCatalogue id prices c = record {
  ids =
      delete_where-NodupKeys same_price_id (λ a. ==_refl a.id) (λ a b. ground arith)
        (has_price_id id) prices c.ids;
  stripe_prices =
      delete_where-NodupKeys same_stripe_price (λ a. ==_refl a.stripe_price_id)
        (λ a b. ground arith) (has_price_id id) prices c.stripe_prices;
  offers =
      delete_where-NodupKeys same_offer same_offer_refl same_offer_comm (has_price_id id) prices
        c.offers;
}

-- The catalogue stays sound under every request that changes prices, whatever Stripe answers and
-- whether the request succeeds or not, if the id drawn for a new row is unused: one row for an id, one
-- for a price of Stripe, over all apps, and one for a tier of an app at a period.
pub serve-IsCatalogue :
    (env : Env) (retrieve : Retrieve) (q : PriceRequest) (d : Db)
    → any (has_price_id env.new_id) d.app_prices ≡ false
    → IsCatalogue d.app_prices
    → IsCatalogue (serve env retrieve q d).app_prices
unfolding serve add_price refresh_price remove_price record_event
serve-IsCatalogue env retrieve (PriceRequest.add app_id dto) d unused c =
    bind-keeps Catalogued (get app_id)
      (λ app. describe_price retrieve dto.stripe_price_id >>= store_price env app dto) d
      (get-reads app_id d)
      (λ app _.
        bind-keeps Catalogued (describe_price retrieve dto.stripe_price_id)
          (store_price env app dto) d (describe_price-reads retrieve dto.stripe_price_id d)
          (λ f _. store_price-IsCatalogue env app dto f d unused c) c)
      c
serve-IsCatalogue env retrieve (PriceRequest.refresh app_id id) d unused c =
    bind-keeps Catalogued (get app_id)
      (λ app. own_price app_id id >>= λ p.
        describe_price retrieve p.stripe_price_id >>= correct_price app p)
      d (get-reads app_id d)
      (λ app _.
        bind-keeps Catalogued (own_price app_id id)
          (λ p. describe_price retrieve p.stripe_price_id >>= correct_price app p) d
          (own_price-reads app_id id d)
          (λ p h.
            bind-keeps Catalogued (describe_price retrieve p.stripe_price_id) (correct_price app p)
              d (describe_price-reads retrieve p.stripe_price_id d)
              (λ f _. correct_price-IsCatalogue app p f d (own_price_sound app_id id d h) c) c)
          c)
      c
serve-IsCatalogue env retrieve (PriceRequest.remove app_id id) d unused c =
    bind-keeps Catalogued (get app_id) (λ app. own_price app_id id >>= λ p. erase_price app p) d
      (get-reads app_id d)
      (λ app _.
        bind-keeps Catalogued (own_price app_id id) (erase_price app) d
          (own_price-reads app_id id d) (λ p _. erase-IsCatalogue id d.app_prices c) c)
      c
  where
    erase_price : App → AppPrice → Action (Unit {0})
    erase_price app p =
        change (λ d. record d { app_prices = delete_where (has_price_id id) d.app_prices })
        >> record_event (
            app_event "app.price_removed" (some app.client_id) (
              ("tier", Detail.text p.tier) ∷ ("stripePriceId", Detail.text p.stripe_price_id) ∷ []))
