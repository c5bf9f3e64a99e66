-- ===== src/People/Administration.antt =====
-- The operations on accounts of platform/src/users/users.service.ts and of
-- platform/src/tenant/tenant.service.ts, each as a change that keeps an administrator.
use evo_platform.Base.{
  ◌≡◌, refl, inl, inr, ◌&&◌, Bool, true, false, not, not_set, String, Option, none, some, arith,
  Bool-cases, ◌==◌, string_eq, nat_eq,
}
use evo_platform.Base.Rows.{find, any, count_where, update_where, any_of_count}
use evo_platform.Platform.{
  User, Failure, found_or, Db, Env, Action, ◌>>=◌, ◌>>◌, record_event, throw_if, pure, conflict,
  not_found,
}
use evo_platform.People.Names.{has_id, find_user, save_user, deleted_at_instant, undeleted}
use evo_platform.People.Users
use evo_platform.People.Users.{
  checked_email, clashes, write_removed, not_deleted, erase, erase_user, last_admin, check_demotion,
  CreateUserDto, UpdateUserDto, is_active_admin, is_other_admin, is_demotion,
  assert_not_last_platform_admin, insert_user, updated_user, new_email, write_update, end_sessions,
  update_existing, remove_existing, restore_existing, purge_existing,
}
use evo_platform.People.Members.{is_member, get_member}
use evo_platform.People.Admins.{same_id, IsSafe, Change, same, saved, erased}

pub found_or-Change :
    {A B : Type 0} (e : Failure) (o : Option A) (k : A → Action B) (d : Db)
    → ((a : A) → o ≡ some a → Change d.users (k a d).1.users)
    → Change d.users ((found_or e o >>= k) d).1.users
found_or-Change e none k d h = same refl
found_or-Change e (some a) k d h = h a refl

pub throw_if-Change :
    {B : Type 0} (b : Bool) (e : Failure) (k : Unit {0} → Action B) (d : Db)
    → (b ≡ false → Change d.users (k tt d).1.users)
    → Change d.users ((throw_if b e >>= k) d).1.users
throw_if-Change true e k d h = same refl
throw_if-Change false e k d h = h refl

throw_if_pure-Change :
    {A B : Type 0} (b : Bool) (e : Failure) (a : A) (k : A → Action B) (d : Db)
    → (b ≡ false → Change d.users (k a d).1.users)
    → Change d.users (((throw_if b e >> pure a) >>= k) d).1.users
throw_if_pure-Change true e a k d h = same refl
throw_if_pure-Change false e a k d h = h refl

get-Change :
    {A : Type 0} (id : String) (k : User → Action A) (d : Db)
    → ((u : User) → find (has_id id) d.users ≡ some u → Change d.users (k u d).1.users)
    → Change d.users ((Users.get id >>= k) d).1.users
unfolding Users.get find_user
get-Change id k d h = found_or-Change (not_found "User not found") (find (has_id id) d.users) k d h

pub get_member-Change :
    {A : Type 0} (tenant_id id : String) (k : User → Action A) (d : Db)
    → ((u : User) → find (is_member tenant_id id) d.users ≡ some u → Change d.users (k u d).1.users)
    → Change d.users ((get_member tenant_id id >>= k) d).1.users
unfolding get_member
get_member-Change tenant_id id k d h =
    found_or-Change (not_found "Member not found") (find (is_member tenant_id id) d.users) k d h

-- The end of an operation on the table, by the rows that it has written.
users-write_update :
    (env : Env) (dto : UpdateUserDto) (u : User) (email : Option String) (d : Db)
    → (write_update env dto u email d).1.users
      ≡ update_where (same_id u) (updated_user env u dto email) d.users
unfolding write_update record_event
users-write_update env dto u none d = ground arith
users-write_update env dto u (some e) d = ground arith

-- After the check, another administrator is left or the account was none.
IsSafe-checked :
    (u : User) (f : User → User) (d : Db)
    → is_active_admin u && count_where (is_other_admin u) d.users == 0 ≡ false
    → IsSafe u f d.users
IsSafe-checked u f d h = elim (Bool-cases (is_active_admin u)) [
  | inr inactive ↦ inr (inl inactive)
  | inl active ↦
      inl (
        any_of_count (is_other_admin u) d.users (λ none_left. ground (arith, h, active, none_left)))
]

demoted-Change :
    (env : Env) (dto : UpdateUserDto) (flag : Option Bool) (q : User → Bool) (u : User)
    (email : Option String) (d : Db)
    → dto.is_platform_admin ≡ flag
    → find q d.users ≡ some u
    → Change d.users ((check_demotion u flag >> write_update env dto u email) d).1.users
unfolding assert_not_last_platform_admin updated_user
demoted-Change env dto (some false) q u email d e found =
    throw_if-Change (is_active_admin u && count_where (is_other_admin u) d.users == 0) last_admin
      (λ _. write_update env dto u email) d
      (λ checked.
        saved q u (updated_user env u dto email) found (λ x. refl)
          (IsSafe-checked u (updated_user env u dto email) d checked)
          (users-write_update env dto u email d))
demoted-Change env dto (some true) q u email d e found =
    saved q u (updated_user env u dto email) found (λ x. refl)
      (inr (inr (λ x h. ground (arith, e, h)))) (users-write_update env dto u email d)
demoted-Change env dto none q u email d e found =
    saved q u (updated_user env u dto email) found (λ x. refl)
      (inr (inr (λ x h. ground (arith, e, h)))) (users-write_update env dto u email d)

checked_email-Change :
    (env : Env) (dto : UpdateUserDto) (email : String) (q : User → Bool) (u : User) (d : Db)
    → find q d.users ≡ some u
    → Change d.users
        ((checked_email u email >>= λ e.
            check_demotion u dto.is_platform_admin >> write_update env dto u e)
          d).1.users
checked_email-Change env dto email q u d found =
    throw_if_pure-Change (not (email == u.email) && any (clashes u email) d.users)
      (conflict "A user with that email already exists") (some email)
      (λ e. check_demotion u dto.is_platform_admin >> write_update env dto u e) d
      (λ _. demoted-Change env dto dto.is_platform_admin q u (some email) d refl found)

update_existing-Change :
    (env : Env) (dto : UpdateUserDto) (address : Option String) (q : User → Bool) (u : User)
    (d : Db)
    → find q d.users ≡ some u
    → Change d.users
        ((new_email env u address >>= λ email.
            check_demotion u dto.is_platform_admin >> write_update env dto u email)
          d).1.users
unfolding new_email
update_existing-Change env dto none q u d found =
    demoted-Change env dto dto.is_platform_admin q u none d refl found
update_existing-Change env dto (some e) q u d found =
    checked_email-Change env dto (env.to_lower_case e) q u d found

pub update-Change :
    (env : Env) (id : String) (dto : UpdateUserDto) (d : Db)
    → Change d.users (Users.update env id dto d).1.users
unfolding Users.update Users.update_existing
update-Change env id dto d =
    get-Change id (Users.update_existing env dto) d
      (λ u found. update_existing-Change env dto dto.email (has_id id) u d found)

pub remove-Change :
    (env : Env) (id : String) (d : Db) → Change d.users (Users.remove env id d).1.users
unfolding Users.remove remove_existing assert_not_last_platform_admin save_user record_event
remove-Change env id d = get-Change id (remove_existing env) d (λ u found.
    throw_if-Change (is_active_admin u && count_where (is_other_admin u) d.users == 0) last_admin
      (write_removed env u) d
      (λ checked.
        saved (has_id id) u (deleted_at_instant env) found (λ x. refl)
          (IsSafe-checked u (deleted_at_instant env) d checked) refl))

pub restore-Change : (id : String) (d : Db) → Change d.users (Users.restore id d).1.users
unfolding Users.restore restore_existing save_user
restore-Change id d = get-Change id restore_existing d (λ u found.
    saved (has_id id) u undeleted found (λ x. refl) (inr (inr (λ x h. ground (arith, h)))) refl)

pub purge-Change : (id : String) (d : Db) → Change d.users (Users.purge id d).1.users
unfolding Users.purge purge_existing erase_user record_event
purge-Change id d = get-Change id purge_existing d (λ u found.
    throw_if-Change (not_set u.deleted_at) not_deleted (λ _. erase u) d
      (λ deleted. erased (has_id id) u found (ground (arith, deleted)) refl))
