-- ===== src/People/Administered.antt =====
-- Every sequence of requests to the services of accounts: platform/src/users/users.service.ts,
-- platform/src/tenant/tenant.service.ts and `accept` of platform/src/tenant/invites.service.ts.
use evo_platform.Base.{
  ◌≡◌, refl, Bool, true, false, String, Option, none, some, List, [], ◌∷◌, ◌++◌, string_eq,
}
use evo_platform.Base.Rows.{find, any}
use evo_platform.Platform.{
  User, Tenant, Invite, Db, Env, Action, database, p2002, ◌>>=◌, ◌>>◌, change, throw_if,
  record_event,
}
use evo_platform.People.Names.{has_id, is_account}
use evo_platform.People.Users
use evo_platform.People.Users.{CreateUserDto, UpdateUserDto, insert_user}
use evo_platform.People.Members
use evo_platform.People.Members.{CreateMemberDto, UpdateMemberDto}
use evo_platform.People.Invites
use evo_platform.People.Invites.{
  AcceptInviteDto, accept_invite, accept_with, accept_found, join, invited_user,
}
use evo_platform.People.Roles.{still_enabled_roles}
use evo_platform.People.Admins.{same_id, IsAdministered, Change, same, added, Change-IsAdministered}
use evo_platform.People.Administration.{
  throw_if-Change, update-Change, remove-Change, restore-Change, purge-Change,
}
use evo_platform.People.Operations.{
  create-Change, set_roles-Leaves, create_member-Change, update_member-Change, deactivate-Change,
  restore_member-Change, set_member_roles-Leaves,
}

-- A request, with the environment of its run.
pub data Request : Type 0 where
  create_user : Env → CreateUserDto → Request
  update_user : Env → String → UpdateUserDto → Request
  remove_user : Env → String → Request
  restore_user purge_user : String → Request
  set_user_roles : String → List String → Request
  create_member : Env → String → String → CreateMemberDto → Request
  update_member : Env → String → String → String → UpdateMemberDto → Request
  deactivate_member : Env → String → String → String → Request
  restore_member : String → String → String → Request
  set_member_roles : String → String → String → List String → Request
  accept_invitation : Env → AcceptInviteDto → Request

-- The database after a request, whether it threw or not.
unfoldable pub perform : Request → Db → Db
perform (create_user env dto) d = (Users.create env dto d).1
perform (update_user env id dto) d = (Users.update env id dto d).1
perform (remove_user env id) d = (Users.remove env id d).1
perform (restore_user id) d = (Users.restore id d).1
perform (purge_user id) d = (Users.purge id d).1
perform (set_user_roles id role_ids) d = (Users.set_roles id role_ids d).1
perform (create_member env tenant_id actor_id dto) d =
    (Members.create env tenant_id actor_id dto d).1
perform (update_member env tenant_id actor_id id dto) d =
    (Members.update env tenant_id actor_id id dto d).1
perform (deactivate_member env tenant_id actor_id id) d =
    (Members.deactivate env tenant_id actor_id id d).1
perform (restore_member tenant_id actor_id id) d = (Members.restore tenant_id actor_id id d).1
perform (set_member_roles tenant_id actor_id id role_ids) d =
    (Members.set_roles tenant_id actor_id id role_ids d).1
perform (accept_invitation env dto) d = (Invites.accept env dto d).1

unfoldable pub serve : List Request → Db → Db
serve [] d = d
serve (r ∷ rs) d = serve rs (perform r d)

-- The transaction of an invitation, whether or not the key of the new account is taken.
join_taken-Change :
    {B : Type 0} (taken : Bool) (u : User) (g : Db → Db) (k : Unit {0} → Action B) (d : Db)
    → any (same_id u) d.users ≡ taken
    → ((e : Db) → (k tt (g e)).1.users ≡ e.users)
    → Change d.users
        ((((throw_if taken (database p2002)
                >> change (λ e. record e { users = e.users ++ (u ∷ []) }))
              >> change g)
            >>= k)
          d).1.users
join_taken-Change true u g k d h hk = same refl
join_taken-Change false u g k d h hk = added u h (hk (record d { users = d.users ++ (u ∷ []) }))

accept_invite-Change :
    (env : Env) (dto : AcceptInviteDto) (i : Invite) (t : Tenant) (d : Db)
    → Change d.users (accept_invite env dto i t d).1.users
unfolding accept_invite join insert_user record_event invited_user
accept_invite-Change env dto i t d =
    throw_if-Change (Invites.is_spent env i) Invites.invalid_invite
      (λ _. throw_if (Invites.is_closed t) Invites.invalid_invite >> Invites.enter_new env i dto) d
      (λ _.
        throw_if-Change (Invites.is_closed t) Invites.invalid_invite
          (λ _. Invites.enter_new env i dto) d
          (λ _.
            throw_if-Change (any (is_account (some i.tenant_id) i.email) d.users)
              Invites.has_account (λ _. Invites.enter env i dto) d
              (λ _.
                join_taken-Change (any (has_id env.new_id) d.users) (invited_user env i dto)
                  (Invites.enrol env i (still_enabled_roles i.tenant_id i.role_ids d))
                  (Invites.entered env i) d refl (λ e. refl))))

accept_with-Change :
    (env : Env) (dto : AcceptInviteDto) (i : Invite) (t : Option Tenant) (d : Db)
    → Change d.users (accept_with env dto i t d).1.users
accept_with-Change env dto i none d = same refl
accept_with-Change env dto i (some t) d = accept_invite-Change env dto i t d

accept_found-Change :
    (env : Env) (dto : AcceptInviteDto) (i : Option Invite) (d : Db)
    → Change d.users (accept_found env dto i d).1.users
accept_found-Change env dto none d = same refl
accept_found-Change env dto (some i) d =
    accept_with-Change env dto i (Invites.tenant_of_invite i d) d

perform-Change : (r : Request) (d : Db) → Change d.users (perform r d).users
unfolding perform Invites.accept
perform-Change (create_user env dto) d = create-Change env dto d
perform-Change (update_user env id dto) d = update-Change env id dto d
perform-Change (remove_user env id) d = remove-Change env id d
perform-Change (restore_user id) d = restore-Change id d
perform-Change (purge_user id) d = purge-Change id d
perform-Change (set_user_roles id role_ids) d = same (set_roles-Leaves id role_ids d)
perform-Change (create_member env tenant_id actor_id dto) d =
    create_member-Change env tenant_id actor_id dto d
perform-Change (update_member env tenant_id actor_id id dto) d =
    update_member-Change env tenant_id actor_id id dto d
perform-Change (deactivate_member env tenant_id actor_id id) d =
    deactivate-Change env tenant_id actor_id id d
perform-Change (restore_member tenant_id actor_id id) d =
    restore_member-Change tenant_id actor_id id d
perform-Change (set_member_roles tenant_id actor_id id role_ids) d =
    same (set_member_roles-Leaves tenant_id actor_id id role_ids d)
perform-Change (accept_invitation env dto) d =
    accept_found-Change env dto (find (Invites.is_hash_of (env.sha256 dto.token)) d.invites) d

-- However many requests the services of accounts answer, in whatever order, and whether they throw
-- or not: if the ids of the accounts differ and one that is not deleted administers the platform
-- before, then so it is after.
pub serve-IsAdministered :
    (rs : List Request) (d : Db) → IsAdministered d.users → IsAdministered (serve rs d).users
unfolding serve
serve-IsAdministered [] d v = v
serve-IsAdministered (r ∷ rs) d v =
    serve-IsAdministered rs (perform r d) (Change-IsAdministered (perform-Change r d) v)
