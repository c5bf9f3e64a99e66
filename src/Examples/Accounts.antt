-- ===== src/Examples/Accounts.antt =====
-- The theorems on sessions and accounts, at concrete requests.
use evo_platform.Base.{
  ◌≡◌, refl, false, Option, some, none, List, [], ◌∷◌, ◌++◌, ◌==◌, string_eq, option_eq, arith, not,
}
use evo_platform.Base.Rows.{find, filter, any, count_where, update_where}
use evo_platform.Platform.{
  Invite, Tenant, User, RefreshToken, Db, Result, record_event, unauthorized, ok, err, is_ok,
}
use evo_platform.Billing.Rows.{find_pair}
use evo_platform.Auth.Gate.{
  admit, assert_tenant_usable, assert_app_enabled, assert_admitted, enablement_of, is_unusable,
  role_names, roles_for_app,
}
use evo_platform.Auth.Sessions.{
  has_hash, owner_of, is_live_of, login_tenant, new_token, LoginDto, Tokens, login, login_in,
  complete_login, sign_in, issue_tokens, claims_of, refresh, logout, rotate, refresh_stored,
  reissue,
}
use evo_platform.Auth.Admission.{IsProven, login_sound}
use evo_platform.Auth.Rotation.{
  IsRotated, refresh_sound, refresh_single_use, logout_ends, refresh_reuse_revokes,
  refresh_race_keeps,
}
use evo_platform.People.Admins.{IsAdministered}
use evo_platform.People.Administered.{Request, serve, serve-IsAdministered}
use evo_platform.People.Invites
use evo_platform.People.Invites.{AcceptInviteDto, is_hash_of, invited_user, join, accept_invite}
use evo_platform.People.Users.{insert_user}
use evo_platform.People.Roles.{still_enabled_roles}
use evo_platform.People.Joining.{IsJoined, accept_sound, accept_single_use}
use evo_platform.Examples.Tenancy.{env_at, enabled_row, bob, token_of, db_with, db}

abbrev login_dto : LoginDto
login_dto = record {
  tenant_slug = some "acme";
  email = "bob@example";
  password = "pw";
  client_id = some "notes";
}

abbrev bob_tokens : Tokens
bob_tokens = record {
  access_token = "signed";
  refresh_token = "next";
  expires_in = 900;
  user_id = "u2";
}

login_sound_example :
    (tenant : Option Tenant) × (user : User) × (login_tenant (some "acme") db ≡ (ok tenant, db))
    × IsProven (env_at 5) login_dto db tenant user
    × ("u2" ≡ user.id)
    × ((login (env_at 5) login_dto db).1.refresh_tokens
        ≡ db.refresh_tokens ++ new_token (env_at 5) user (some "notes") ∷ [])
unfolding login login_in complete_login admit assert_tenant_usable assert_app_enabled
    assert_admitted enablement_of is_unusable find_pair find sign_in issue_tokens roles_for_app
    role_names claims_of record_event string_eq option_eq
login_sound_example =
    login_sound (env_at 5) login_dto db {tokens = bob_tokens}
      {d' = (login (env_at 5) login_dto db).1} refl

abbrev first_refresh : Result Tokens × Db
first_refresh = refresh (env_at 5) "raw" db

refresh_sound_example :
    (stored : RefreshToken) × (find (has_hash "raw") db.refresh_tokens ≡ some stored)
    × (user : User) × (owner_of stored db ≡ some user)
    × IsRotated (env_at 5) stored user db first_refresh.1
unfolding refresh refresh_stored rotate admit assert_tenant_usable assert_app_enabled
    assert_admitted enablement_of is_unusable find_pair find reissue issue_tokens roles_for_app
    role_names claims_of update_where string_eq option_eq
refresh_sound_example =
    refresh_sound (env_at 5) "raw" db {tokens = bob_tokens} {d' = first_refresh.1} refl

refresh_single_use_example : is_ok (refresh (env_at 6) "raw" first_refresh.1).0 ≡ false
unfolding refresh refresh_stored rotate admit assert_tenant_usable assert_app_enabled
    assert_admitted enablement_of is_unusable find_pair find reissue issue_tokens roles_for_app
    role_names claims_of update_where string_eq option_eq
refresh_single_use_example =
    refresh_single_use (env_at 5) (env_at 6) "raw" db {tokens = bob_tokens} {d' = first_refresh.1}
      refl refl

logout_ends_example : is_ok (refresh (env_at 6) "raw" (logout (env_at 5) "raw" db).1).0 ≡ false
logout_ends_example = logout_ends (env_at 5) (env_at 6) "raw" db refl

abbrev used_token : RefreshToken
used_token = token_of (some 100)

abbrev used_db : Db
used_db = db_with enabled_row used_token

refresh_reuse_revokes_example :
    let (r, d') = refresh (env_at 20_000) "raw" used_db in
    (r ≡ err (unauthorized "Invalid refresh token"))
    × (count_where (is_live_of "u2") d'.refresh_tokens ≡ 0)
    × (filter (λ (x : RefreshToken). not (x.user_id == "u2")) d'.refresh_tokens
        ≡ filter (λ (x : RefreshToken). not (x.user_id == "u2")) used_db.refresh_tokens)
unfolding find string_eq
refresh_reuse_revokes_example =
    refresh_reuse_revokes (env_at 20_000) "raw" used_token bob 100 used_db refl refl refl
      (omega arith)

refresh_race_keeps_example :
    let (r, d') = refresh (env_at 200) "raw" used_db in
    (r ≡ err (unauthorized "Invalid refresh token")) × (d'.refresh_tokens ≡ used_db.refresh_tokens)
unfolding find string_eq
refresh_race_keeps_example =
    refresh_race_keeps (env_at 200) "raw" used_token bob 100 used_db refl refl refl (omega arith)

abbrev requests : List Request
requests =
    Request.remove_user (env_at 5) "u1" ∷ Request.deactivate_member (env_at 6) "t1" "u1" "u2" ∷ []

serve-IsAdministered_example : IsAdministered (serve requests db).users
unfolding any string_eq
serve-IsAdministered_example =
    serve-IsAdministered requests db (record { unique = (refl, (refl, tt)); admin = refl })

abbrev invite : Invite
invite = record {
  id = "i1";
  tenant_id = "t1";
  email = "eve@example";
  role_ids = [];
  is_tenant_admin = false;
  invited_by_id = some "u2";
  token_hash = "link";
  expires_at = 100;
  accepted_at = none;
}

abbrev invited_db : Db
invited_db = record db { invites = invite ∷ [] }

abbrev accept_dto : AcceptInviteDto
accept_dto = record {
  token = "link";
  password = "secret";
  first_name = none;
  last_name = none;
  phone = none;
}

abbrev joined_db : Db
joined_db = (Invites.accept (env_at 5) accept_dto invited_db).1

accept_sound_example :
    (i : Invite) × (find (is_hash_of "link") invited_db.invites ≡ some i)
    × IsJoined (env_at 5) accept_dto i invited_db joined_db
unfolding Invites.accept accept_invite join insert_user invited_user still_enabled_roles
    record_event find any filter update_where string_eq option_eq
accept_sound_example = accept_sound (env_at 5) accept_dto invited_db {u = tt} {d' = joined_db} refl

accept_single_use_example : is_ok (Invites.accept (env_at 6) accept_dto joined_db).0 ≡ false
unfolding Invites.accept accept_invite join insert_user invited_user still_enabled_roles
    record_event find any filter update_where string_eq option_eq
accept_single_use_example =
    accept_single_use (env_at 5) (env_at 6) accept_dto accept_dto invited_db {u = tt}
      {d' = joined_db} refl refl
