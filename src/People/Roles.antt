-- ===== src/People/Roles.antt =====
-- The role set of an account: `setRoles` of platform/src/users/users.service.ts and of
-- platform/src/tenant/tenant.service.ts, and the checks of roles of
-- platform/src/tenant/invites.service.ts.
use evo_platform.Base.{
  Bool, false, not, ◌||◌, ◌&&◌, String, List, [], ◌∷◌, ◌++◌, map, ◌==◌, string_eq, nat_eq, contains,
  if◌then◌else◌,
}
use evo_platform.Base.Rows.{filter, any, all, delete_where, length}
use evo_platform.Platform.{
  Role, UserRole, AppTenant, Db, Action, ◌>>◌, pure, throw_if, ok, err, database, p2002, p2003,
  not_found, forbidden,
}

-- `[...new Set(ids)]`: the first occurrence of each.
unfoldable pub unique : List String → List String
unique [] = []
unique (x ∷ xs) = x ∷ delete_where (λ y. y == x) (unique xs)

unfoldable pub has_repetition : List String → Bool
unfolding contains
has_repetition [] = false
has_repetition (x ∷ xs) = contains x xs || has_repetition xs

abbrev pub is_role : String → Role → Bool
is_role id r = r.id == id

abbrev pub is_role_of : String → UserRole → Bool
is_role_of user_id ur = ur.user_id == user_id

abbrev pub grant : String → String → UserRole
grant user_id role_id = record { user_id = user_id; role_id = role_id }

-- The transaction that deletes the account's roles and creates the given ones. A repetition breaks
-- the key of the table and an unknown role the foreign key; either rolls back.
unfoldable pub replace_roles : String → List String → Action (Unit {0})
unfolding has_repetition
replace_roles user_id role_ids d =
    if has_repetition role_ids
    then (err (database p2002), d)
    else if all (λ id. any (is_role id) d.roles) role_ids
    then (
      ok tt,
      record d {
        user_roles = delete_where (is_role_of user_id) d.user_roles ++ map (grant user_id) role_ids;
      },
    )
    else (err (database p2003), d)

abbrev pub is_listed : List String → Role → Bool
is_listed ids r = contains r.id ids

abbrev pub is_enabled_for : String → List AppTenant → Role → Bool
is_enabled_for tenant_id rows r =
    any (λ (a : AppTenant). a.tenant_id == tenant_id && a.app_id == r.app_id) rows

-- The checks of `assertRolesEnabled`, on a list without repetitions: every role exists, and belongs
-- to an app that has a row for the tenant.
unfoldable pub check_roles : String → List String → List Role → List AppTenant → Action (Unit {0})
check_roles tenant_id ids roles rows = do
  throw_if (not (length roles == length ids)) (not_found "Role not found")
  throw_if (any (λ r. not (is_enabled_for tenant_id rows r)) roles)
      (forbidden "Role belongs to an app not enabled for this workspace")

unfoldable pub assert_roles_enabled : String → List String → Action (List String)
unfolding check_roles unique
assert_roles_enabled tenant_id role_ids d =
    let ids = unique role_ids in
    (check_roles tenant_id ids (filter (is_listed ids) d.roles) d.app_tenants >> pure ids) d

-- `stillEnabledRoles`: those of the roles that exist and whose app has a row for the tenant.
unfoldable pub still_enabled_roles : String → List String → Db → List String
still_enabled_roles tenant_id role_ids d =
    map (λ (r : Role). r.id)
      (filter (is_enabled_for tenant_id d.app_tenants) (filter (is_listed role_ids) d.roles))
