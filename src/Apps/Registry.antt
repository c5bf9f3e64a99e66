-- ===== src/Apps/Registry.antt =====
-- The apps of platform/src/apps/apps.service.ts. The brand record is left out.
use evo_platform.Base.{
  ℕ, Bool, true, false, not, ◌&&◌, ◌||◌, String, ◌<>◌, Option, none, some, List, [], ◌∷◌, ◌++◌,
  ◌==◌, string_eq, option_eq, nat_eq, not_set,
}
use evo_platform.Base.Rows.{find, filter, any, update_where, delete_where, count_where}
use evo_platform.Platform.{
  Tenant, App, AppPrice, AppTenant, Role, UserRole, Db, Env, Detail, Action, ◌>>=◌, ◌>>◌, pure,
  query, change, found_or, throw_if, record_event, audit, AuditEvent, conflict, not_found, nullable,
  database, p2002,
}
use evo_platform.People.Names.{or_stored, given_or}

pub record CreateAppDto : Type 0 where
  pub name : String
  pub display_name : Option String
  pub callback_urls : Option (List String)
  pub auto_enroll : Option Bool

pub record UpdateAppDto : Type 0 where
  pub name : Option String
  pub display_name : Option String
  pub callback_urls : Option (List String)
  pub auto_enroll : Option Bool

abbrev pub has_app_id : String → App → Bool
has_app_id id a = a.id == id

-- An audit event of an app.
abbrev pub app_event : String → Option String → List (String × Detail) → AuditEvent
app_event action client_id detail = record (audit action none none detail) {
  app_client_id = client_id;
}

unfoldable pub list : Bool → Db → List App
list include_deleted d = filter (λ a. include_deleted || not_set a.deleted_at) d.apps

unfoldable pub get : String → Action App
get id = do found_or (not_found "App not found") (← query (λ d. find (has_app_id id) d.apps))

abbrev write_app : String → (App → App) → Db → Db
write_app id f d = record d { apps = update_where (has_app_id id) f d.apps }

abbrev set_deleted : Option ℕ → App → App
set_deleted at a = record a { deleted_at = at }

unfoldable pub remove : Env → String → Action App
unfolding get record_event
remove env id = do
  app ← get id
  throw_if (not (not_set app.deleted_at)) (conflict "App is already deleted")
  change (write_app id (set_deleted (some env.now)))
  record_event (app_event "app.deleted" (some app.client_id) [])
  pure (set_deleted (some env.now) app)

unfoldable pub restore : String → Action App
unfolding get record_event
restore id = do
  app ← get id
  throw_if (not_set app.deleted_at) (conflict "App is not deleted")
  change (write_app id (set_deleted none))
  record_event (app_event "app.restored" (some app.client_id) [])
  pure (set_deleted none app)

abbrev is_role_of : String → Role → Bool
is_role_of app_id r = r.app_id == app_id

abbrev is_access_to : String → AppTenant → Bool
is_access_to app_id r = r.app_id == app_id

abbrev is_price_of : String → AppPrice → Bool
is_price_of app_id p = p.app_id == app_id

abbrev grants_of : String → List Role → UserRole → Bool
grants_of app_id roles ur = any (λ r. is_role_of app_id r && r.id == ur.role_id) roles

-- `app.delete`, with the rows that go by their foreign keys.
unfoldable pub erase_app : String → Db → Db
erase_app id d = record d {
  user_roles = delete_where (grants_of id d.roles) d.user_roles;
  roles = delete_where (is_role_of id) d.roles;
  app_tenants = delete_where (is_access_to id) d.app_tenants;
  app_prices = delete_where (is_price_of id) d.app_prices;
  apps = delete_where (has_app_id id) d.apps;
}

abbrev purged_event : App → Db → AuditEvent
purged_event app d = app_event "app.purged" none (
    ("name", Detail.text app.name)
    ∷ ("clientId", Detail.text app.client_id)
    ∷ ("roles", Detail.number (count_where (is_role_of app.id) d.roles))
    ∷ ("tenants", Detail.number (count_where (is_access_to app.id) d.app_tenants))
    ∷ [])

unfoldable pub purge : String → Action (Unit {0})
unfolding get erase_app record_event
purge id = do
  app ← get id
  throw_if (not_set app.deleted_at) (conflict "Purge requires the app to be soft-deleted first")
  event ← query (purged_event app)
  change (erase_app id)
  record_event event

abbrev has_name : String → App → Bool
has_name name a = a.name == name

unfoldable pub created_app : Env → String → CreateAppDto → App
created_app env client_hex dto = record {
  id = env.new_id;
  client_id = "app_" <> client_hex;
  client_secret_hash = env.bcrypt_hash env.random_token;
  name = dto.name;
  display_name = dto.display_name;
  callback_urls = given_or dto.callback_urls [];
  auto_enroll = given_or dto.auto_enroll true;
  deleted_at = none;
}

-- `create`, with the digits drawn for the id of the client; the secret itself is in the answer alone.
unfoldable pub create : Env → String → CreateAppDto → Action (App × String)
unfolding created_app record_event
create env client_hex dto = do
  taken ← query (λ d. any (has_name dto.name) d.apps)
  throw_if taken (conflict ("App \"" <> (dto.name <> "\" already exists")))
  let app = created_app env client_hex dto
  change (λ d. record d { apps = d.apps ++ (app ∷ []) })
  record_event (app_event "app.created" (some app.client_id) (("name", Detail.text dto.name) ∷ []))
  pure (app, env.random_token)

unfoldable pub updated_app : UpdateAppDto → App → App
updated_app dto a = record a {
  name = given_or dto.name a.name;
  display_name = or_stored dto.display_name a.display_name;
  callback_urls = given_or dto.callback_urls a.callback_urls;
  auto_enroll = given_or dto.auto_enroll a.auto_enroll;
}

abbrev same_texts : List String → List String → Bool
same_texts [] [] = true
same_texts (x ∷ xs) (y ∷ ys) = x == y && same_texts xs ys
same_texts _ _ = false

abbrev same_flag : Bool → Bool → Bool
same_flag true b = b
same_flag false b = not b

abbrev if_changed : Bool → String → Detail → Detail → List (String × Detail)
if_changed true field from to = []
if_changed false field from to = (field, Detail.changed from to) ∷ []

-- The fields that an update has changed, with the old value and the new.
unfoldable pub changes_of : App → App → List (String × Detail)
changes_of a b =
    if_changed (a.name == b.name) "name" (Detail.text a.name) (Detail.text b.name)
    ++ (if_changed (a.display_name == b.display_name) "displayName" (nullable a.display_name)
          (nullable b.display_name)
        ++ (if_changed (same_texts a.callback_urls b.callback_urls) "callbackUrls"
              (Detail.texts a.callback_urls) (Detail.texts b.callback_urls)
            ++ if_changed (same_flag a.auto_enroll b.auto_enroll) "autoEnroll"
                (Detail.flag a.auto_enroll) (Detail.flag b.auto_enroll)))

abbrev record_changes : App → List (String × Detail) → Action (Unit {0})
record_changes app [] = pure tt
record_changes app (c ∷ cs) = record_event (app_event "app.updated" (some app.client_id) (c ∷ cs))

abbrev takes_name : String → String → App → Bool
takes_name id name a = a.name == name && not (a.id == id)

-- `update`: the index of the names refuses a name of another app.
unfoldable pub update : String → UpdateAppDto → Action App
unfolding get updated_app changes_of record_event
update id dto = do
  before ← get id
  taken ← query (λ d. any (takes_name id (given_or dto.name before.name)) d.apps)
  throw_if taken (database p2002)
  change (write_app id (updated_app dto))
  record_changes before (changes_of before (updated_app dto before))
  pure (updated_app dto before)

abbrev with_secret : String → App → App
with_secret hash a = record a { client_secret_hash = hash }

unfoldable pub rotate_secret : Env → String → Action (String × String)
unfolding get record_event
rotate_secret env id = do
  app ← get id
  change (write_app id (with_secret (env.bcrypt_hash env.random_token)))
  record_event (app_event "app.secret_rotated" (some app.client_id) [])
  pure (app.client_id, env.random_token)

abbrev access_of : String → String → Db → Option AppTenant
access_of app_id tenant_id d =
    find (λ r. r.app_id == app_id && r.tenant_id == tenant_id) d.app_tenants

abbrev with_access : String → Db → List Tenant → List (Tenant × Option AppTenant)
with_access app_id d [] = []
with_access app_id d (t ∷ ts) = (t, access_of app_id t.id d) ∷ with_access app_id d ts

unfoldable pub list_tenants : String → Action (List (Tenant × Option AppTenant))
unfolding get
list_tenants app_id = do
  get app_id
  query (λ d. with_access app_id d (filter (λ (t : Tenant). not_set t.deleted_at) d.tenants))
