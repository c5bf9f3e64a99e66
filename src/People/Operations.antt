-- ===== src/People/Operations.antt =====
-- Sequences of the operations on accounts of platform/src/users/users.service.ts, of
-- platform/src/tenant/tenant.service.ts and of platform/src/tenant/invites.service.ts.
use evo_platform.Base.{
  ◌≡◌, refl, ◌∙◌, inl, inr, ◌&&◌, Bool, true, false, String, Option, none, some, List, [], ◌∷◌,
  ◌++◌, arith, ◌==◌, string_eq, option_eq,
}
use evo_platform.Base.Rows.{find, find_sound, any}
use evo_platform.Platform.{
  User, AuditEvent, Db, Env, Action, Result, Failure, ok, err, database, p2002, ◌>>=◌, ◌>>◌, change,
  record_event, throw_if, found_or, conflict, not_found,
}
use evo_platform.People.Names.{
  has_id, find_user, save_user, deleted_at_instant, undeleted, is_account,
}
use evo_platform.People.Users
use evo_platform.People.Users.{
  CreateUserDto, UpdateUserDto, is_active_admin, insert_user, recorded, insert_recorded,
  created_event, created_user,
}
use evo_platform.People.Members
use evo_platform.People.Members.{
  CreateMemberDto, UpdateMemberDto, is_member, get_member, write_member, created_member,
  updated_member, set_member_roles, member_event, is_withdrawn,
}
use evo_platform.People.Roles.{replace_roles, assert_roles_enabled, check_roles}
use evo_platform.People.Admins.{same_id, Change, same, saved, added}
use evo_platform.People.Administration.{throw_if-Change, get_member-Change}

-- A method that leaves the table of accounts.
abbrev Leaves : {A : Type 0} → Action A → Type 0
Leaves m = (d : Db) → (m d).1.users ≡ d.users

bind-Leaves_result :
    {A B : Type 0} (r : Result A × Db) (k : A → Action B) (users : List User)
    → r.1.users ≡ users
    → ((a : A) → Leaves (k a))
    → (elim r.0 as (λ _. Result B × Db) [ err e ↦ (err e, r.1) | ok a ↦ k a r.1 ]).1.users ≡ users
bind-Leaves_result (ok a, e) k users h hk = hk a e ∙ h
bind-Leaves_result (err x, e) k users h hk = h

bind-Leaves :
    {A B : Type 0} (m : Action A) (k : A → Action B)
    → Leaves m
    → ((a : A) → Leaves (k a))
    → Leaves (m >>= k)
bind-Leaves m k h hk d = bind-Leaves_result (m d) k d.users (h d) hk

found_or-Leaves :
    {A : Type 0} (e : Failure) (o : Option A) (d : Db) → (found_or e o d).1.users ≡ d.users
found_or-Leaves e none d = refl
found_or-Leaves e (some a) d = refl

replace_roles-Leaves : (id : String) (role_ids : List String) → Leaves (replace_roles id role_ids)
unfolding replace_roles
replace_roles-Leaves id role_ids d = ground arith

throw_if-Leaves : (b : Bool) (e : Failure) → Leaves (throw_if b e)
throw_if-Leaves true e d = refl
throw_if-Leaves false e d = refl

get-Leaves : (id : String) → Leaves (Users.get id)
unfolding Users.get
get-Leaves id d = found_or-Leaves (not_found "User not found") (find_user id d) d

pub set_roles-Leaves : (id : String) (role_ids : List String) → Leaves (Users.set_roles id role_ids)
unfolding Users.set_roles
set_roles-Leaves id role_ids =
    bind-Leaves (Users.get id) (λ _. replace_roles id role_ids >> Users.get id) (get-Leaves id)
      (λ _.
        bind-Leaves (replace_roles id role_ids) (λ _. Users.get id)
          (replace_roles-Leaves id role_ids) (λ _. get-Leaves id))

insert-Change :
    {B : Type 0} (taken : Bool) (u : User) (k : Unit {0} → Action B) (d : Db)
    → any (same_id u) d.users ≡ taken
    → ((e : Db) → (k tt e).1.users ≡ e.users)
    → Change d.users
        (((throw_if taken (database p2002)
              >> change (λ e. record e { users = e.users ++ (u ∷ []) }))
            >>= k)
          d).1.users
insert-Change true u k d h hk = same refl
insert-Change false u k d h hk = added u h (hk (record d { users = d.users ++ (u ∷ []) }))

insert_user-Change :
    {B : Type 0} (u : User) (k : Unit {0} → Action B) (d : Db)
    → ((e : Db) → (k tt e).1.users ≡ e.users)
    → Change d.users ((insert_user u >>= k) d).1.users
unfolding insert_user
insert_user-Change u k d h = insert-Change (any (has_id u.id) d.users) u k d refl h

insert_recorded-Change :
    (u : User) (event : AuditEvent) (d : Db) → Change d.users (insert_recorded u event d).1.users
unfolding insert_recorded record_event
insert_recorded-Change u event d = insert_user-Change u (recorded event u) d (λ e. refl)

pub create-Change :
    (env : Env) (dto : CreateUserDto) (d : Db) → Change d.users (Users.create env dto d).1.users
unfolding Users.create
create-Change env dto d =
    throw_if-Change (any (is_account dto.tenant_id (env.to_lower_case dto.email)) d.users)
      (conflict "A user with that email already exists")
      (λ _. insert_recorded (created_user env dto) (created_event env dto)) d
      (λ _. insert_recorded-Change (created_user env dto) (created_event env dto) d)

pub create_member-Change :
    (env : Env) (tenant_id actor_id : String) (dto : CreateMemberDto) (d : Db)
    → Change d.users (Members.create env tenant_id actor_id dto d).1.users
unfolding Members.create
create_member-Change env tenant_id actor_id dto d =
    throw_if-Change (any (is_account (some tenant_id) (env.to_lower_case dto.email)) d.users)
      (conflict "A member with that email already exists")
      (λ _.
        insert_recorded (created_member env tenant_id dto)
          (Members.created_event env tenant_id actor_id dto))
      d
      (λ _.
        insert_recorded-Change (created_member env tenant_id dto)
          (Members.created_event env tenant_id actor_id dto) d)

-- A member is not an administrator of the platform.
member_inactive :
    (tenant_id id : String) (u : User) → is_member tenant_id id u ≡ true → is_active_admin u ≡ false
member_inactive tenant_id id u h = ground (arith, h)

write_member-Change :
    (action tenant_id actor_id id : String) (f : User → User) (u : User) (d : Db)
    → ((x : User) → (f x).id ≡ x.id)
    → find (is_member tenant_id id) d.users ≡ some u
    → Change d.users (write_member action tenant_id actor_id f u d).1.users
unfolding write_member save_user record_event
write_member-Change action tenant_id actor_id id f u d keeps found =
    saved (is_member tenant_id id) u f found keeps
      (inr
        (inl (member_inactive tenant_id id u (find_sound (is_member tenant_id id) d.users found))))
      refl

pub update_member-Change :
    (env : Env) (tenant_id actor_id id : String) (dto : UpdateMemberDto) (d : Db)
    → Change d.users (Members.update env tenant_id actor_id id dto d).1.users
unfolding Members.update Members.update_existing updated_member
update_member-Change env tenant_id actor_id id dto d =
    get_member-Change tenant_id id (Members.update_existing env tenant_id actor_id dto) d
      (λ u found.
        throw_if-Change (u.id == actor_id && is_withdrawn dto.is_tenant_admin)
          (conflict "You cannot remove your own tenant-admin role")
          (λ _.
            write_member "tenant.member_updated" tenant_id actor_id (updated_member env u dto) u)
          d
          (λ _.
            write_member-Change "tenant.member_updated" tenant_id actor_id id
              (updated_member env u dto) u d (λ x. refl) found))

pub deactivate-Change :
    (env : Env) (tenant_id actor_id id : String) (d : Db)
    → Change d.users (Members.deactivate env tenant_id actor_id id d).1.users
unfolding Members.deactivate Members.deactivate_existing
deactivate-Change env tenant_id actor_id id d =
    get_member-Change tenant_id id (Members.deactivate_existing env tenant_id actor_id) d
      (λ u found.
        throw_if-Change (u.id == actor_id) (conflict "You cannot deactivate your own account")
          (λ _.
            write_member "tenant.member_deactivated" tenant_id actor_id (deleted_at_instant env) u)
          d
          (λ _.
            write_member-Change "tenant.member_deactivated" tenant_id actor_id id
              (deleted_at_instant env) u d (λ x. refl) found))

pub restore_member-Change :
    (tenant_id actor_id id : String) (d : Db)
    → Change d.users (Members.restore tenant_id actor_id id d).1.users
unfolding Members.restore
restore_member-Change tenant_id actor_id id d =
    get_member-Change tenant_id id
      (write_member "tenant.member_restored" tenant_id actor_id undeleted) d
      (λ u found.
        write_member-Change "tenant.member_restored" tenant_id actor_id id undeleted u d (λ x. refl)
          found)

assert_roles_enabled-Leaves :
    (tenant_id : String) (role_ids : List String) → Leaves (assert_roles_enabled tenant_id role_ids)
unfolding assert_roles_enabled check_roles
assert_roles_enabled-Leaves tenant_id role_ids d = ground arith

get_member-Leaves : (tenant_id id : String) → Leaves (get_member tenant_id id)
unfolding get_member
get_member-Leaves tenant_id id d =
    found_or-Leaves (not_found "Member not found") (find (is_member tenant_id id) d.users) d

pub set_member_roles-Leaves :
    (tenant_id actor_id id : String) (role_ids : List String)
    → Leaves (Members.set_roles tenant_id actor_id id role_ids)
unfolding Members.set_roles set_member_roles record_event
set_member_roles-Leaves tenant_id actor_id id role_ids =
    bind-Leaves (get_member tenant_id id) (λ _. set_member_roles tenant_id actor_id id role_ids)
      (get_member-Leaves tenant_id id)
      (λ _.
        bind-Leaves (assert_roles_enabled tenant_id role_ids)
          (Members.write_roles tenant_id actor_id id)
          (assert_roles_enabled-Leaves tenant_id role_ids)
          (λ unique.
            bind-Leaves (replace_roles id unique)
              (λ _. Members.roles_written tenant_id actor_id id unique)
              (replace_roles-Leaves id unique)
              (λ _ d. get_member-Leaves tenant_id id (record d {
                audit_events =
                    d.audit_events ++ (Members.roles_event tenant_id actor_id id unique ∷ []);
              }))))
