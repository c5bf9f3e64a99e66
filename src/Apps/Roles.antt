-- ===== src/Apps/Roles.antt =====
-- The roles of an app: platform/src/apps/apps.service.ts.
use evo_platform.Base.{
  Bool, not, ◌&&◌, String, ◌<>◌, Option, none, some, List, [], ◌∷◌, ◌++◌, ◌==◌, string_eq,
  option_eq,
}
use evo_platform.Base.Rows.{find, filter, any, update_where, delete_where, count_where}
use evo_platform.Platform.{
  Role, UserRole, Env, truthy, Detail, Failure, Action, ◌>>=◌, ◌>>◌, pure, query, change, found_or,
  throw_if, record_event, conflict, not_found,
}
use evo_platform.People.Names.{or_stored, given_or}
use evo_platform.Apps.Registry.{get, app_event}

pub record CreateRoleDto : Type 0 where
  pub name : String
  pub description : Option String

pub record UpdateRoleDto : Type 0 where
  pub name : Option String
  pub description : Option String

abbrev pub is_named : String → String → Role → Bool
is_named app_id name r = r.app_id == app_id && r.name == name

abbrev pub is_role : String → String → Role → Bool
is_role app_id id r = r.id == id && r.app_id == app_id

abbrev has_role_id : String → Role → Bool
has_role_id id r = r.id == id

abbrev taken_role : String → Failure
taken_role name = conflict ("Role \"" <> (name <> "\" already exists for this app"))

unfoldable pub created_role : Env → String → CreateRoleDto → Role
created_role env app_id dto = record {
  id = env.new_id;
  app_id = app_id;
  name = dto.name;
  description = dto.description;
}

unfoldable pub add_role : Env → String → CreateRoleDto → Action Role
unfolding get created_role
add_role env app_id dto = do
  get app_id
  taken ← query (λ d. any (is_named app_id dto.name) d.roles)
  throw_if taken (taken_role dto.name)
  change (λ d. record d { roles = d.roles ++ (created_role env app_id dto ∷ []) })
  pure (created_role env app_id dto)

unfoldable pub list_roles : String → Action (List Role)
unfolding get
list_roles app_id = do get app_id; query (λ d. filter (λ (r : Role). r.app_id == app_id) d.roles)

abbrev updated_role : UpdateRoleDto → Role → Role
updated_role dto r = record r {
  name = given_or dto.name r.name;
  description = or_stored dto.description r.description;
}

-- A name that is new for the role is not that of another role of the app.
abbrev check_rename : String → Role → Option String → Action (Unit {0})
check_rename app_id role none = pure tt
check_rename app_id role (some name) = do
  taken ← query (λ d. not (name == role.name) && any (is_named app_id name) d.roles)
  throw_if taken (taken_role name)

abbrev renamed_event : Role → Role → List (String × Detail)
renamed_event role updated = ("from", Detail.text role.name) ∷ ("to", Detail.text updated.name) ∷ []

unfoldable pub update_role : String → String → UpdateRoleDto → Action Role
unfolding record_event
update_role app_id role_id dto = do
  role ←
      found_or (not_found "Role not found") (← query (λ d. find (is_role app_id role_id) d.roles))
  check_rename app_id role (truthy dto.name)
  change (λ d. record d { roles = update_where (has_role_id role_id) (updated_role dto) d.roles })
  record_event (app_event "app.role_renamed" none (renamed_event role (updated_role dto role)))
  pure (updated_role dto role)

abbrev is_grant_of : String → UserRole → Bool
is_grant_of role_id ur = ur.role_id == role_id

-- `removeRole`, with the number of the assignments that go with the role.
unfoldable pub remove_role : String → String → Action (Unit {0})
unfolding record_event
remove_role app_id role_id = do
  role ←
      found_or (not_found "Role not found") (← query (λ d. find (is_role app_id role_id) d.roles))
  removed ← query (λ d. count_where (is_grant_of role_id) d.user_roles)
  change (λ d. record d {
    user_roles = delete_where (is_grant_of role_id) d.user_roles;
    roles = delete_where (has_role_id role_id) d.roles;
  })
  record_event (
      app_event "app.role_deleted" none
        (("role", Detail.text role.name) ∷ ("assignmentsRemoved", Detail.number removed) ∷ []))
