-- ===== src/People/Names.antt =====
-- `fullName`, as platform/src/users/users.service.ts, platform/src/tenant/tenant.service.ts and
-- platform/src/tenant/invites.service.ts have it, and the queries of an account by its key.
use evo_platform.Base.{Bool, ◌&&◌, String, ◌<>◌, Option, none, some, ◌==◌, string_eq, option_eq}
use evo_platform.Base.Rows.{find, update_where}
use evo_platform.Platform.{User, Db, Env, truthy, Action, change}

-- `[first, last].filter(Boolean).join(' ')`
abbrev joined : Option String → Option String → String
joined none none = ""
joined none (some b) = b
joined (some a) none = a
joined (some a) (some b) = a <> " " <> b

unfoldable pub full_name : Env → Option String → Option String → Option String
full_name env first last = truthy (some (env.trim (joined (truthy first) (truthy last))))

-- `given ?? stored`
abbrev pub or_stored {ℓ} : {A : Type ℓ} → Option A → Option A → Option A
or_stored none old = old
or_stored (some new) old = some new

-- A field of an update that is written only if the request names it.
abbrev pub given_or {ℓ} : {A : Type ℓ} → Option A → A → A
given_or none old = old
given_or (some new) old = new

abbrev pub has_id : String → User → Bool
has_id id u = u.id == id

-- The account of an address in a tenant, deleted or not.
abbrev pub is_account : Option String → String → User → Bool
is_account tenant_id email u = u.tenant_id == tenant_id && u.email == email

unfoldable pub find_user : String → Db → Option User
find_user id d = find (has_id id) d.users

-- `user.update({ where: { id }, data })`
unfoldable pub save_user : String → (User → User) → Action (Unit {0})
save_user id f = change (λ d. record d { users = update_where (has_id id) f d.users })

abbrev pub deleted_at_instant : Env → User → User
deleted_at_instant env u = record u { deleted_at = some env.now }

abbrev pub undeleted : User → User
undeleted u = record u { deleted_at = none }
