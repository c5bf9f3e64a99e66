-- ===== src/People/Admins.antt =====
-- The platform keeps an administrator that is not deleted: every operation of
-- platform/src/users/users.service.ts and of platform/src/tenant/tenant.service.ts on accounts.
use evo_platform.Base.{
  ◌≡◌, ◌⊎◌, inl, inr, ◌&&◌, Bool, true, false, not, some, List, [], ◌∷◌, ◌++◌, arith, ==_refl,
  string_eq, nat_eq,
}
use evo_platform.Base.Rows.{
  find, any, update_where, delete_where, any-update_where_others, any-update_where_kept,
  any-append_left, any-delete_where,
}
use evo_platform.Base.Keyed.{
  NodupKeys, any_of_other, update_where-NodupKeys, delete_where-NodupKeys, append-NodupKeys,
}
use evo_platform.Platform.{User}
use evo_platform.People.Names.{has_id}
use evo_platform.People.Users.{is_active_admin}

-- The primary key of the table of accounts.
abbrev pub same_id : User → User → Bool
same_id a x = has_id a.id x

same_id_comm : (a b : User) → same_id a b ≡ same_id b a
same_id_comm a b = ground arith

-- The ids differ, and some account administers the platform and is not deleted.
pub record IsAdministered (users : List User) : Type 0 where
  pub unique : NodupKeys same_id users
  pub admin : any is_active_admin users ≡ true

-- What keeps an administrator when the account `u` is written by `f`: another one, that `u` is not
-- one, or that `f` makes no one else of one.
abbrev pub IsSafe : User → (User → User) → List User → Type 0
IsSafe u f users =
    (any (λ x. is_active_admin x && not (same_id u x)) users ≡ true)
    ⊎ (is_active_admin u ≡ false)
    ⊎ ((x : User) → is_active_admin x ≡ true → is_active_admin (f x) ≡ true)

-- A change of the table of accounts, as the operations make them.
pub data Change (users : List User) (users' : List User) : Type 0 where
  same : users' ≡ users → Change users users'
  saved :
      (q : User → Bool) (u : User) (f : User → User)
      → find q users ≡ some u
      → ((x : User) → (f x).id ≡ x.id)
      → IsSafe u f users
      → users' ≡ update_where (same_id u) f users
      → Change users users'
  added :
      (u : User) → any (same_id u) users ≡ false → users' ≡ users ++ u ∷ [] → Change users users'
  erased :
      (q : User → Bool) (u : User)
      → find q users ≡ some u
      → is_active_admin u ≡ false
      → users' ≡ delete_where (same_id u) users
      → Change users users'

others_of_inactive :
    (q : User → Bool) (u : User) (users : List User)
    → IsAdministered users
    → find q users ≡ some u
    → is_active_admin u ≡ false
    → any (λ x. is_active_admin x && not (same_id u x)) users ≡ true
others_of_inactive q u users v found inactive =
    any_of_other same_id (λ a. ==_refl a.id) same_id_comm q is_active_admin users v.unique found
      inactive v.admin

admin-saved :
    (q : User → Bool) (u : User) (f : User → User) (users : List User)
    → IsAdministered users
    → find q users ≡ some u
    → IsSafe u f users
    → any is_active_admin (update_where (same_id u) f users) ≡ true
admin-saved q u f users v found (inl others) =
    any-update_where_others is_active_admin (same_id u) f users others
admin-saved q u f users v found (inr (inl inactive)) =
    any-update_where_others is_active_admin (same_id u) f users
      (others_of_inactive q u users v found inactive)
admin-saved q u f users v found (inr (inr kept)) =
    any-update_where_kept is_active_admin (same_id u) f users kept v.admin

-- Every such change keeps the invariant.
pub Change-IsAdministered :
    {users users' : List User} → Change users users' → IsAdministered users → IsAdministered users'
Change-IsAdministered (same e) v = rw e v
Change-IsAdministered {users} (saved q u f found keeps safe e) v = rw e (record {
  unique =
      update_where-NodupKeys same_id (λ a. ==_refl a.id) same_id_comm (same_id u) f users
        (λ k x. (ground (arith, keeps x), ground (arith, keeps k))) v.unique;
  admin = admin-saved q u f users v found safe;
})
Change-IsAdministered {users} (added u fresh e) v = rw e (record {
  unique = append-NodupKeys same_id (λ a. ==_refl a.id) same_id_comm u users fresh v.unique;
  admin = any-append_left is_active_admin users (u ∷ []) v.admin;
})
Change-IsAdministered {users} (erased q u found inactive e) v = rw e (record {
  unique =
      delete_where-NodupKeys same_id (λ a. ==_refl a.id) same_id_comm (same_id u) users v.unique;
  admin =
      any-delete_where is_active_admin (same_id u) users
        (others_of_inactive q u users v found inactive);
})
