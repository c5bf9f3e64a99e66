-- ===== src/Auth/Recovery.antt =====
-- What the links of the account flows do (platform/src/auth/account-flows.service.ts).
use mathlib.Core.List.{Memᴰ}
use mathlib.Core.Option.{some-injective}
use text.Mathlib.TextLemmas.{append_cancel_left}
use evo_platform.Base.{
  ℕ, ◌≡◌, ◌≢◌, refl, sym, ap, ◌∙◌, true, false, not, String, ◌<>◌, Option, none, some, [], ◌==◌,
  string_eq, option_eq, if◌then◌else◌, not_set, ==_refl, arith, Bool-cases, inl, inr,
}
use evo_platform.Base.Rows.{
  find, filter, find_sound, count_where, find-mem, find-update_where-same, filter-update_where,
  count_where-update_where_none,
}
use evo_platform.Platform.{
  User, RefreshToken, Db, Env, Action, Result, ok, is_ok, ◌>>◌, change, found_or, throw_if, pure,
  record_event, audit, bind-eq-ok, found_or-eq-ok, throw_if-eq-ok, Result-cases, bind-ok,
}
use evo_platform.Auth.Sessions.{revoked, is_live_of}
use evo_platform.Auth.Flows.{
  LinkClaims, Links, has_user_id, verify_user, subject_of, user_of_link, mark_verified,
  confirm_verification, reset_secret, new_password, write_password, reset_of, reset_password,
  is_live_user, live_user, invalid_link, log_event,
}

-- Claims name a live account by its id.
pub record IsSubject (purpose : String) (claims : Option LinkClaims) (d : Db) (user : User)
    : Type 0 where
  pub names : subject_of purpose claims ≡ some user.id
  pub found : find (has_user_id user.id) d.users ≡ some user
  pub live : is_live_user user ≡ true

live_user-eq-ok :
    (o : Option User) (d : Db) {user : User} {d' : Db}
    → live_user o d ≡ (ok user, d')
    → (o ≡ some user) × (is_live_user user ≡ true) × (d' ≡ d)
live_user-eq-ok none d h = cc
live_user-eq-ok (some u) d h = elim (Bool-cases (is_live_user u)) [
  | inl live ↦ ground (arith, h, live)
  | inr gone ↦ ground (arith, h, gone)
]

module _ (purpose : String) (claims : Option LinkClaims) (d : Db) where
  abbrev live_user_of : String → Action User
  live_user_of id d' = live_user (find (has_user_id id) d'.users) d'

  pub user_of_link_sound :
      {user : User} {d' : Db}
      → user_of_link purpose claims d ≡ (ok user, d')
      → IsSubject purpose claims d user × (d' ≡ d)
  unfolding user_of_link
  user_of_link_sound {user} h =
      let (id, e, named, h') =
        bind-eq-ok (found_or invalid_link (subject_of purpose claims)) (λ id. live_user_of id) d
          h in
      let (names, same) = found_or-eq-ok invalid_link (subject_of purpose claims) d named in
      let (found, live, same') = live_user-eq-ok (find (has_user_id id) e.users) e h' in
      let is_id : user.id ≡ id = ground (arith, find_sound (has_user_id id) e.users found) in
      (
        record {
          names = names ∙ ap some (sym is_id);
          found =
              ap (λ i. find (has_user_id i) d.users) is_id
              ∙ ap (λ (x : Db). find (has_user_id id) x.users) (sym same)
              ∙ found;
          live = live;
        },
        same' ∙ same,
      )

  pub user_of_link_complete :
      (user : User) → IsSubject purpose claims d user → user_of_link purpose claims d ≡ (ok user, d)
  unfolding user_of_link
  user_of_link_complete user s = rw (s.names, s.found, s.live) refl

-- A reset that succeeded: what it rested on, and what it did.
pub record IsReset (env : Env) (links : Links) (token password : String) (d d' : Db) (user : User)
    : Type 0 where
  pub subject : IsSubject "password_reset" (links.decode token) d user
  -- the link is signed with the secret of the password that the account had
  pub signed : links.verify_with token (reset_secret links user) ≡ true
  pub written :
      d'
      ≡ log_event
          (audit "auth.password_reset" user.tenant_id (some user.id) [])
          (write_password env password user d)

module _ (env : Env) (links : Links) (token password : String) (d : Db) where
  abbrev after_check : User → Action (Unit {0})
  after_check user =
      change (write_password env password user)
      >> record_event (audit "auth.password_reset" user.tenant_id (some user.id) [])

  reset_of_sound :
      (user : User) {u : Unit {0}} {d' : Db}
      → reset_of env links token password user d ≡ (ok u, d')
      → (links.verify_with token (reset_secret links user) ≡ true)
        × (d'
            ≡ log_event
                (audit "auth.password_reset" user.tenant_id (some user.id) [])
                (write_password env password user d))
  unfolding reset_of record_event
  reset_of_sound user {u} {d'} h =
      let (_, e, passed, h') =
        bind-eq-ok (throw_if (not (links.verify_with token (reset_secret links user))) invalid_link)
          (λ _. after_check user) d h in
      let (good, same) =
        throw_if-eq-ok (not (links.verify_with token (reset_secret links user))) invalid_link d
          passed in
      let written : after_check user d ≡ (ok u, d') = ap (after_check user) (sym same) ∙ h' in
      (ground (arith, good), ap (λ (x : Result (Unit {0}) × Db). x.1) (sym written))

  reset_password-IsReset :
      {u : Unit {0}} {d' : Db}
      → reset_password env links token password d ≡ (ok u, d')
      → (user : User) × IsReset env links token password d d' user
  unfolding reset_password
  reset_password-IsReset h =
      let (user, e, found, h') =
        bind-eq-ok (user_of_link "password_reset" (links.decode token))
          (reset_of env links token password) d h in
      let (subject, same) = user_of_link_sound "password_reset" (links.decode token) d found in
      let (signed, written) =
        reset_of_sound user (ap (reset_of env links token password user) (sym same) ∙ h') in
      (user, record { subject = subject; signed = signed; written = written })

pub reset_password_complete :
    (env : Env) (links : Links) (token password : String) (d : Db) (user : User)
    → IsSubject "password_reset" (links.decode token) d user
    → links.verify_with token (reset_secret links user) ≡ true
    → reset_password env links token password d ≡ (
      ok tt,
      log_event
          (audit "auth.password_reset" user.tenant_id (some user.id) [])
          (write_password env password user d),
    )
unfolding reset_password reset_of record_event
reset_password_complete env links token password d user subject signed =
    bind-ok (user_of_link "password_reset" (links.decode token)) (reset_of env links token password)
      d (user_of_link_complete "password_reset" (links.decode token) d user subject)
    ∙ rw signed refl

-- The first confirmation of an address.
pub confirm_verification_complete :
    (env : Env) (links : Links) (token : String) (d : Db) (user : User)
    → IsSubject "email_verify" (links.verify token) d user
    → user.email_verified_at ≡ none
    → confirm_verification env links token d ≡ (
      ok tt,
      log_event
          (audit "auth.email_verified" user.tenant_id (some user.id) [])
          (verify_user env user d),
    )
unfolding confirm_verification mark_verified record_event
confirm_verification_complete env links token d user subject unverified =
    bind-ok (user_of_link "email_verify" (links.verify token)) (mark_verified env) d
      (user_of_link_complete "email_verify" (links.verify token) d user subject)
    ∙ marked user.email_verified_at unverified
  where
    marked :
        (at : Option ℕ)
        → at ≡ none
        → (if not (not_set at)
              then pure tt
              else change (verify_user env user)
                >> record_event (audit "auth.email_verified" user.tenant_id (some user.id) []))
            d
          ≡ (
            ok tt,
            log_event
                (audit "auth.email_verified" user.tenant_id (some user.id) [])
                (verify_user env user d),
          )
    marked none e = refl
    marked (some t) e = cc

-- A reset that returned: the link names a live account and is signed with the secret of the password
-- that the account had; the account has the new password afterwards and no live session, and the
-- accounts and sessions of all others are as they were.
pub reset_password_sound :
    (env : Env) (links : Links) (token password : String) (d : Db) {u : Unit {0}} {d' : Db}
    → reset_password env links token password d ≡ (ok u, d')
    → (user : User) × IsSubject "password_reset" (links.decode token) d user
      × (links.verify_with token (reset_secret links user) ≡ true)
      × (find (has_user_id user.id) d'.users ≡ some (new_password env user password user))
      × (count_where (is_live_of user.id) d'.refresh_tokens ≡ 0)
      × (filter (λ (x : User). not (has_user_id user.id x)) d'.users
          ≡ filter (λ (x : User). not (has_user_id user.id x)) d.users)
      × (filter (λ (t : RefreshToken). not (t.user_id == user.id)) d'.refresh_tokens
          ≡ filter (λ (t : RefreshToken). not (t.user_id == user.id)) d.refresh_tokens)
unfolding write_password
reset_password_sound env links token password d h =
    let (user, r) = reset_password-IsReset env links token password d h in
    let p = has_user_id user.id in
    let same_id : p user ≡ true = ==_refl user.id in
    (
      user,
      r.subject,
      r.signed,
      ap (λ (x : Db). find p x.users) r.written
          ∙ find-update_where-same p p (new_password env user password) d.users (λ x. refl)
              r.subject.found
          ∙ rw same_id refl,
      ap (λ (x : Db). count_where (is_live_of user.id) x.refresh_tokens) r.written
          ∙ count_where-update_where_none (is_live_of user.id) (is_live_of user.id)
              (revoked env.now) d.refresh_tokens (λ x _. ground arith) (λ x h'. h'),
      ap (λ (x : Db). filter (λ (a : User). not (p a)) x.users) r.written
          ∙ filter-update_where (λ (a : User). not (p a)) p (new_password env user password) d.users
              (λ x own. (rw own refl, rw own refl)),
      ap (λ (x : Db). filter (λ (t : RefreshToken). not (t.user_id == user.id)) x.refresh_tokens)
            r.written
          ∙ filter-update_where (λ (t : RefreshToken). not (t.user_id == user.id))
              (is_live_of user.id) (revoked env.now) d.refresh_tokens
              (λ x own. (ground (arith, own), ground (arith, own))),
    )

-- The secret of an account changes with the hash of its password, where the keyed hash has no
-- collision.
reset_secret-changes :
    (links : Links) (u v : User)
    → ((a b : String) → links.hmac a ≡ links.hmac b → a ≡ b)
    → u.id ≡ v.id
    → reset_secret links u ≡ reset_secret links v
    → u.password_hash ≡ v.password_hash
unfolding reset_secret
reset_secret-changes links u v injective same_id e =
    let texts =
      injective ("reset:" <> (u.id <> (":" <> u.password_hash)))
        ("reset:" <> (v.id <> (":" <> v.password_hash))) e in
    let tails =
      append_cancel_left "reset:" (u.id <> (":" <> u.password_hash))
        (v.id <> (":" <> v.password_hash)) texts in
    let tails' : u.id <> (":" <> u.password_hash) ≡ u.id <> (":" <> v.password_hash) =
      tails ∙ ap (λ i. i <> (":" <> v.password_hash)) (sym same_id) in
    append_cancel_left ":" u.password_hash v.password_hash
      (append_cancel_left u.id (":" <> u.password_hash) (":" <> v.password_hash) tails')

-- A link resets a password once. The signatures are those of one secret each, the keyed hash has no
-- collision, and the hash of the new password is not the stored one of any account (it is salted):
-- after a reset with a link, the same link is refused, for any password and at any time.
pub reset_password_single_use :
    (env env' : Env) (links : Links) (token password password' : String) (d : Db) {u : Unit {0}}
    {d' : Db}
    → ((t a b : String) → links.verify_with t a ≡ true → links.verify_with t b ≡ true → a ≡ b)
    → ((a b : String) → links.hmac a ≡ links.hmac b → a ≡ b)
    → ((x : User) → Memᴰ x d.users → env.bcrypt_hash password ≢ x.password_hash)
    → reset_password env links token password d ≡ (ok u, d')
    → is_ok (reset_password env' links token password' d').0 ≡ false
reset_password_single_use env env' links token password password' d {u} {d'} one_secret injective
      fresh h =
    let (user, subject, signed, found, _, _, _) =
      reset_password_sound env links token password d h in
    elim (Result-cases (reset_password env' links token password' d')) [
      | inl refused ↦ refused
      | inr (v, d'', again) ↦
          let (user', subject', signed', _, _, _, _) =
            reset_password_sound env' links token password' d' again in
          let same_id : user'.id ≡ user.id =
            some-injective user'.id user.id (sym subject'.names ∙ subject.names) in
          let stored : user' ≡ new_password env user password user =
            some-injective user' (new_password env user password user)
              (sym subject'.found ∙ ap (λ i. find (has_user_id i) d'.users) same_id ∙ found) in
          let secrets =
            one_secret token (reset_secret links user') (reset_secret links user) signed' signed in
          absurd (
            fresh user (find-mem (has_user_id user.id) d.users subject.found) (
              sym (ap (λ (x : User). x.password_hash) stored)
              ∙ reset_secret-changes links user' user injective same_id secrets))
    ]
