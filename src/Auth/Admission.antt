-- ===== src/Auth/Admission.antt =====
-- Every session passes the same gate (`login`, `completeLogin` and `refresh` of
-- platform/src/auth/auth.service.ts).
use evo_platform.Base.{
  ℕ, ◌≡◌, Bool, true, false, not_set, String, Option, none, some, arith, Bool-cases, Option-cases,
  inl, inr, [], ◌∷◌, ◌++◌,
}
use evo_platform.Base.Rows.{find}
use evo_platform.Platform.{
  found_or, Tenant, User, AppTenant, Db, Env, truthy, ok, forbidden, ◌>>=◌, ◌>>◌, bind-eq-ok,
}
use evo_platform.Billing.Access.{is_enabled}
use evo_platform.Auth.Gate.{
  is_unusable, assert_tenant_usable, enablement_of, assert_admitted, assert_client,
  assert_app_enabled, admit,
}
use evo_platform.Auth.Sessions.{
  LoginDto, Tokens, sign_in, complete_login, is_live_account, login_in, login, login_tenant,
  new_token, tenant_field, hash_of, proven,
}

abbrev AppAdmits : ℕ → Tenant → Option String → Db → Type 0
AppAdmits now t none d = Unit
AppAdmits now t (some c) d =
    (a : AppTenant) × (enablement_of t c d ≡ some a) × (is_enabled now a ≡ true)

-- Who may hold a session, stated without the code's order of tests: the tenant, if there is one, is
-- usable, and its row for the app, if the session is for an app, is enabled.
abbrev pub Admits : ℕ → Option Tenant → Option String → Db → Type 0
Admits now none client_id d = Unit {0}
Admits now (some t) client_id d = (is_unusable now t ≡ false) × AppAdmits now t (truthy client_id) d

admitted_row :
    (now : ℕ) (t : Tenant) (c : String) (d : Db) {u : Unit {0}} {d' : Db}
    → (found_or (forbidden "App is not enabled for this workspace") (enablement_of t c d)
          >>= assert_admitted now)
        d
      ≡ (ok u, d')
    → (a : AppTenant) × (enablement_of t c d ≡ some a) × (is_enabled now a ≡ true) × (d' ≡ d)
unfolding assert_admitted is_enabled
admitted_row now t c d h = elim (Option-cases (enablement_of t c d)) [
  | inl missing ↦ absurd (ground (arith, missing))
  | inr (a, found) ↦ (a, found, ground (arith, found), ground (arith, found))
]

admit_client :
    (now : ℕ) (t : Tenant) (scope : Option String) (d : Db) {u : Unit {0}} {d' : Db}
    → assert_client now t scope d ≡ (ok u, d')
    → AppAdmits now t scope d × (d' ≡ d)
admit_client now t none d h = (tt, ground arith)
admit_client now t (some c) d h =
    let (a, found, enabled, same) = admitted_row now t c d h in ((a, found, enabled), same)

pub admit_sound :
    (now : ℕ) (tenant : Option Tenant) (client_id : Option String) (d : Db) {u : Unit {0}} {d' : Db}
    → admit now tenant client_id d ≡ (ok u, d')
    → Admits now tenant client_id d × (d' ≡ d)
unfolding admit assert_tenant_usable assert_app_enabled
admit_sound now none client_id d h = (tt, ground arith)
admit_sound now (some t) client_id d {u} {d'} h = elim (Bool-cases (is_unusable now t)) [
  | inl unusable ↦ absurd (ground (arith, unusable))
  | inr usable ↦
      let h' : assert_client now t (truthy client_id) d ≡ (ok u, d') = rw usable at h in
      let (admits, same) = admit_client now t (truthy client_id) d h' in ((usable, admits), same)
]

complete_login_sound :
    (env : Env) (user : User) (tenant : Option Tenant) (client_id : Option String) (method : String)
    (d : Db) {tokens : Tokens} {d' : Db}
    → complete_login env user tenant client_id method d ≡ (ok tokens, d')
    → (not_set user.deleted_at ≡ true)
      × (not_set user.email_verified_at ≡ false)
      × Admits env.now tenant client_id d
      × (sign_in env user tenant client_id method d ≡ (ok tokens, d'))
unfolding complete_login
complete_login_sound env user tenant client_id method d {tokens} {d'} h =
    elim (Bool-cases (not_set user.deleted_at)) [
      | inr deleted ↦ absurd (ground (arith, deleted))
      | inl live ↦ elim (Bool-cases (not_set user.email_verified_at)) [
        | inl unproven ↦ absurd (ground (arith, live, unproven))
        | inr verified ↦
            let h' : (admit env.now tenant client_id >> sign_in env user tenant client_id method) d
                ≡ (ok tokens, d') =
              rw (live, verified) at h in
            let (_, d1, gate, signed) =
              bind-eq-ok (admit env.now tenant client_id)
                (λ _. sign_in env user tenant client_id method) d h' in
            let (admits, same) = admit_sound env.now tenant client_id d gate in
            (live, verified, admits, rw same at signed)
      ]
    ]

sign_in_tokens :
    (env : Env) (user : User) (tenant : Option Tenant) (client_id : Option String) (method : String)
    (d : Db) {tokens : Tokens} {d' : Db}
    → sign_in env user tenant client_id method d ≡ (ok tokens, d')
    → (tokens.user_id ≡ user.id)
      × (tokens.refresh_token ≡ env.random_token)
      × (d'.refresh_tokens ≡ d.refresh_tokens ++ new_token env user client_id ∷ [])
unfolding sign_in
sign_in_tokens env user tenant client_id method d h = ground arith

proven_sound :
    (b : Bool) (found : Option User) (d : Db) {user : User} {d' : Db}
    → proven b found d ≡ (ok user, d')
    → (found ≡ some user) × (b ≡ true) × (d' ≡ d)
proven_sound b none d h = cc
proven_sound false (some u) d h = cc
proven_sound true (some u) d h = ground arith

login_tenant_keeps :
    (slug : Option String) (d : Db) {tenant : Option Tenant} {d' : Db}
    → login_tenant slug d ≡ (ok tenant, d')
    → d' ≡ d
login_tenant_keeps none d h = ground arith
login_tenant_keeps (some slug) d h = ground arith

-- Who a successful password login is for: the live account of the address in the workspace, whose
-- password was proven, whose mailbox was verified, and whom the gate admits.
pub record IsProven (env : Env) (dto : LoginDto) (d : Db) (tenant : Option Tenant) (user : User)
    : Type 0 where
  pub account :
      find (is_live_account (tenant_field (λ t. t.id) tenant) (env.to_lower_case dto.email)) d.users
      ≡ some user
  pub password : env.bcrypt_compare dto.password user.password_hash ≡ true
  pub verified : not_set user.email_verified_at ≡ false
  pub admits : Admits env.now tenant dto.client_id d

login_in_sound :
    (env : Env) (dto : LoginDto) (tenant : Option Tenant) (d : Db) {tokens : Tokens} {d' : Db}
    → login_in env dto tenant d ≡ (ok tokens, d')
    → (user : User) × IsProven env dto d tenant user
      × (tokens.user_id ≡ user.id)
      × (d'.refresh_tokens ≡ d.refresh_tokens ++ new_token env user dto.client_id ∷ [])
unfolding login_in
login_in_sound env dto tenant d {tokens} {d'} h =
    let found =
      find (is_live_account (tenant_field (λ t. t.id) tenant) (env.to_lower_case dto.email))
        d.users in
    let (user, d1, proof, h1) =
      bind-eq-ok (proven (env.bcrypt_compare dto.password (hash_of env found)) found)
        (λ user. complete_login env user tenant dto.client_id "password") d h in
    let (account, password, same) = proven_sound _ found d proof in
    let h2 : complete_login env user tenant dto.client_id "password" d ≡ (ok tokens, d') =
      rw same at h1 in
    let (_, verified, admits, signed) =
      complete_login_sound env user tenant dto.client_id "password" d h2 in
    let (mine, _, stored) = sign_in_tokens env user tenant dto.client_id "password" d signed in
    (
      user,
      record {
        account = account;
        password = rw account at password;
        verified = verified;
        admits = admits;
      },
      mine,
      stored,
    )

-- A login that gives tokens was made with the password of a live and verified account that the gate
-- admits, in the workspace of the slug, and stores one refresh token, for that account and app.
pub login_sound :
    (env : Env) (dto : LoginDto) (d : Db) {tokens : Tokens} {d' : Db}
    → login env dto d ≡ (ok tokens, d')
    → (tenant : Option Tenant) × (user : User) × (login_tenant (truthy dto.tenant_slug) d
        ≡ (ok tenant, d))
      × IsProven env dto d tenant user
      × (tokens.user_id ≡ user.id)
      × (d'.refresh_tokens ≡ d.refresh_tokens ++ new_token env user dto.client_id ∷ [])
unfolding login
login_sound env dto d {tokens} {d'} h =
    let (tenant, d1, workspace, h1) =
      bind-eq-ok (login_tenant (truthy dto.tenant_slug)) (login_in env dto) d h in
    let same = login_tenant_keeps (truthy dto.tenant_slug) d workspace in
    let h2 : login_in env dto tenant d ≡ (ok tokens, d') = rw same at h1 in
    let (user, is_proven, mine, stored) = login_in_sound env dto tenant d h2 in
    (tenant, user, rw same at workspace, is_proven, mine, stored)
