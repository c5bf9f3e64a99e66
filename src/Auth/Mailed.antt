-- ===== src/Auth/Mailed.antt =====
-- The links that the account flows mail, followed (platform/src/auth/account-flows.service.ts).
use evo_platform.Base.{
  ◌≡◌, refl, ap, ◌∙◌, true, String, Option, none, some, List, [], ◌∷◌, ◌++◌, string_eq, option_eq,
  not_set, ==_refl, arith,
}
use evo_platform.Base.Rows.{find, filter, find_sound, find-update_where-same, mem-filter}
use mathlib.Core.List.{Memᴰ}
use evo_platform.Platform.{Tenant, User, Db, Env, truthy, is_ok, audit}
use evo_platform.Auth.Sessions.{is_live_slug, is_live_account}
use evo_platform.Auth.Limiter.{send_allowed}
use evo_platform.Auth.Flows.{
  Links, Mail, Post, EmailDto, find_by_email, find_in, in_tenant, or_admin, only, is_admin_of,
  has_user_id, send_verification, verify_claims, verify_user, subject_of, confirm_verification,
  reset_secret, reset_claims, reset_event, request_reset, new_password, write_password,
  reset_password, is_live_user, verify_ttl_sec, reset_ttl_sec, log_event, verified_at,
}
use evo_platform.Auth.Recovery.{IsSubject, reset_password_complete, confirm_verification_complete}

only-mem : {A : Type 0} (xs : List A) {a : A} → only xs ≡ some a → Memᴰ a xs
only-mem [] h = cc
only-mem (x ∷ []) h = Memᴰ.head (ground arith)
only-mem (x ∷ y ∷ xs) h = cc

or_admin-live :
    (email : String) (d : Db) (o : Option User) {user : User}
    → ((u : User) → o ≡ some u → is_live_user u ≡ true)
    → or_admin email d o ≡ some user
    → is_live_user user ≡ true
or_admin-live email d (some u) live h = live _ h
or_admin-live email d none live h =
    let (_, admin) =
      mem-filter (is_admin_of email) d.users (only-mem (filter (is_admin_of email) d.users) h) in
    ground (arith, admin)

in_tenant-live :
    (email : String) (d : Db) (o : Option Tenant) {user : User}
    → in_tenant email d o ≡ some user
    → is_live_user user ≡ true
in_tenant-live email d none h = cc
in_tenant-live email d (some t) h =
    ground (arith, find_sound (is_live_account (some t.id) email) d.users h)

find_in-live :
    (slug : Option String) (email : String) (d : Db) {user : User}
    → find_in slug email d ≡ some user
    → is_live_user user ≡ true
find_in-live (some slug) email d h = in_tenant-live email d (find (is_live_slug slug) d.tenants) h
find_in-live none email d h =
    or_admin-live email d (find (is_live_account none email) d.users)
      (λ u found. ground (arith, find_sound (is_live_account none email) d.users found)) h

-- The account of an address is never one that was deleted.
find_by_email-live :
    (env : Env) (dto : EmailDto) (d : Db) {user : User}
    → find_by_email env dto d ≡ some user
    → is_live_user user ≡ true
unfolding find_by_email
find_by_email-live env dto d h =
    find_in-live (truthy dto.tenant_slug) (env.to_lower_case dto.email) d h

-- The account whose password is new is found, with it.
found_after_write :
    (env : Env) (password : String) (user : User) (d : Db)
    → find (has_user_id user.id) d.users ≡ some user
    → find (has_user_id user.id) (write_password env password user d).users
      ≡ some (new_password env user password user)
unfolding write_password
found_after_write env password user d found =
    let same_id : has_user_id user.id user ≡ true = ==_refl user.id in
    find-update_where-same (has_user_id user.id) (has_user_id user.id)
      (new_password env user password) d.users (λ x. refl) found
    ∙ rw same_id refl

-- The link that a request of a reset mails.
abbrev pub reset_link : Links → EmailDto → User → String
reset_link links dto user =
    links.sign_with (reset_secret links user) (reset_claims dto user) reset_ttl_sec

unfoldable pub verify_link : Links → User → String
verify_link links user = links.sign (verify_claims user) verify_ttl_sec

-- From the mail to the new password. Where the link that is signed for the account decodes to its claims
-- and is good under the secret that it was signed with, the account is the one of its id, and the
-- limiter allows it: a request of a reset for an address with an account mails that link, and no more,
-- to the account's address, and the link, followed with a password, succeeds and stores its hash for
-- the account.
pub request_reset-reset_password :
    (env env' : Env) (links : Links) (dto : EmailDto) (ip : Option String) (password : String)
    (p : Post) (user : User)
    → links.decode (reset_link links dto user) ≡ some (reset_claims dto user)
    → links.verify_with (reset_link links dto user) (reset_secret links user) ≡ true
    → find_by_email env dto p.db ≡ some user
    → find (has_user_id user.id) p.db.users ≡ some user
    → (send_allowed "reset" user.email ip env.now p.buckets).0 ≡ true
    → let p' = request_reset env links dto ip p in
      let (r, d') = reset_password env' links (reset_link links dto user) password p'.db in
      (p'.sent ≡ p.sent ++ Mail.password_reset user.email (reset_link links dto user) ∷ [])
      × (is_ok r ≡ true)
      × (find (has_user_id user.id) d'.users ≡ some (new_password env' user password user))
unfolding request_reset reset_claims string_eq
request_reset-reset_password env env' links dto ip password p user decodes verifies known found
      allowed =
    let live = find_by_email-live env dto p.db known in
    let logged = log_event (reset_event dto user) p.db in
    let subject : IsSubject "password_reset" (links.decode (reset_link links dto user)) logged
        user =
      record { names = ap (subject_of "password_reset") decodes; found = found; live = live } in
    let done =
      reset_password_complete env' links (reset_link links dto user) password logged user subject
        verifies in
    rw (known, allowed)
      (
        refl,
        ap (λ r. is_ok r.0) done,
        ap (λ r. find (has_user_id user.id) r.1.users) done
            ∙ found_after_write env' password user logged found,
      )

fresh : (user : User) → user.email_verified_at ≡ none → not_set user.email_verified_at ≡ true
fresh user e = rw e refl

found_after_verify :
    (env : Env) (user : User) (d : Db)
    → find (has_user_id user.id) d.users ≡ some user
    → find (has_user_id user.id) (verify_user env user d).users ≡ some (verified_at env.now user)
found_after_verify env user d found =
    let same_id : has_user_id user.id user ≡ true = ==_refl user.id in
    find-update_where-same (has_user_id user.id) (has_user_id user.id) (verified_at env.now) d.users
      (λ x. refl) found
    ∙ rw same_id refl

-- From the mail to the verified address, under the same conditions on the links of verification, for
-- an account that is not verified: the link succeeds, and the account is verified as of then.
pub send_verification-confirm_verification :
    (env env' : Env) (links : Links) (dto : EmailDto) (ip : Option String) (p : Post) (user : User)
    → links.verify (verify_link links user) ≡ some (verify_claims user)
    → find_by_email env dto p.db ≡ some user
    → find (has_user_id user.id) p.db.users ≡ some user
    → user.email_verified_at ≡ none
    → (send_allowed "verify" user.email ip env.now p.buckets).0 ≡ true
    → let p' = send_verification env links dto ip p in
      let (r, d') = confirm_verification env' links (verify_link links user) p'.db in
      (p'.sent ≡ p.sent ++ Mail.verification user.email (verify_link links user) ∷ [])
      × (is_ok r ≡ true)
      × (find (has_user_id user.id) d'.users ≡ some (verified_at env'.now user))
unfolding send_verification verify_link verify_claims string_eq
send_verification-confirm_verification env env' links dto ip p user verifies known found unverified
      allowed =
    let live = find_by_email-live env dto p.db known in
    let logged = log_event (audit "auth.verification_sent" user.tenant_id (some user.id) []) p.db in
    let subject : IsSubject "email_verify" (links.verify (verify_link links user)) logged user =
      record { names = ap (subject_of "email_verify") verifies; found = found; live = live } in
    let done =
      confirm_verification_complete env' links (verify_link links user) logged user subject
        unverified in
    rw (known, fresh user unverified, allowed)
      (
        refl,
        ap (λ r. is_ok r.0) done,
        ap (λ r. find (has_user_id user.id) r.1.users) done
            ∙ found_after_verify env' user logged found,
      )
