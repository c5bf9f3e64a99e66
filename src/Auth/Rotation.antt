-- ===== src/Auth/Rotation.antt =====
-- Refresh tokens: one use each, and what a second use does (`refresh`, `onRefreshReuse` and `logout`
-- of platform/src/auth/auth.service.ts).
use evo_platform.Base.{
  ℕ, ◌+◌, ◌≤◌, ◌<◌, ◌≡◌, refl, ◌∙◌, true, false, not, not_set, String, Option, none, some, [], ◌∷◌,
  ◌++◌, arith, Bool-cases, Option-cases, inl, inr, ltb, if◌then◌else◌, ◌==◌, string_eq,
}
use evo_platform.Base.Rows.{
  find, find_sound, filter, count_where, update_where, find-update_where-same,
  find-update_where-none, find-append_left, filter-update_where, count_where-update_where_none,
}
use evo_platform.Platform.{
  Tenant, User, RefreshToken, Db, Env, ok, err, is_ok, unauthorized, ◌>>◌, bind-eq-ok,
}
use evo_platform.Auth.Gate.{admit}
use evo_platform.Auth.Sessions.{
  Tokens, new_token, tenant_of, is_live_of, revoked, on_refresh_reuse, has_hash, has_token_id,
  rotate, reissue, refresh_stored, refresh_owned, refresh_found, owner_of, refresh, is_live_hash,
  logout, refresh_reuse_grace_ms,
}
use evo_platform.Auth.Admission.{Admits, admit_sound}

-- What a successful refresh rests on, and what it writes.
pub record IsRotated (env : Env) (stored : RefreshToken) (user : User) (d d' : Db) : Type 0 where
  pub live : not_set stored.revoked_at ≡ true
  pub unexpired : ltb stored.expires_at env.now ≡ false
  pub undeleted : not_set user.deleted_at ≡ true
  pub verified : not_set user.email_verified_at ≡ false
  pub admits : Admits env.now (tenant_of user d) stored.app_client_id d
  pub written :
      d'.refresh_tokens
      ≡ update_where (has_token_id stored.id) (revoked env.now) d.refresh_tokens
        ++ new_token env user stored.app_client_id ∷ []

reissue_writes :
    (env : Env) (stored : RefreshToken) (user : User) (tenant : Option Tenant) (d : Db)
    {tokens : Tokens} {d' : Db}
    → reissue env stored user tenant d ≡ (ok tokens, d')
    → d'.refresh_tokens
      ≡ update_where (has_token_id stored.id) (revoked env.now) d.refresh_tokens
        ++ new_token env user stored.app_client_id ∷ []
unfolding reissue
reissue_writes env stored user tenant d h = ground arith

rotate_sound :
    (env : Env) (stored : RefreshToken) (user : User) (d : Db) {tokens : Tokens} {d' : Db}
    → not_set stored.revoked_at ≡ true
    → rotate env stored user d ≡ (ok tokens, d')
    → IsRotated env stored user d d'
unfolding rotate
rotate_sound env stored user d {tokens} {d'} live h =
    elim (Bool-cases (ltb stored.expires_at env.now)) [
      | inl expired ↦ absurd (ground (arith, expired))
      | inr unexpired ↦ elim (Bool-cases (not_set user.deleted_at)) [
        | inr deleted ↦ absurd (ground (arith, unexpired, deleted))
        | inl undeleted ↦ elim (Bool-cases (not_set user.email_verified_at)) [
          | inl unproven ↦ absurd (ground (arith, unexpired, undeleted, unproven))
          | inr verified ↦
              let tenant = tenant_of user d in
              let h' : (admit env.now tenant stored.app_client_id >> reissue env stored user tenant)
                    d
                  ≡ (ok tokens, d') =
                rw (unexpired, undeleted, verified) at h in
              let (_, d1, gate, issued) =
                bind-eq-ok (admit env.now tenant stored.app_client_id)
                  (λ _. reissue env stored user tenant) d h' in
              let (admits, same) = admit_sound env.now tenant stored.app_client_id d gate in
              record {
                live = live;
                unexpired = unexpired;
                undeleted = undeleted;
                verified = verified;
                admits = admits;
                written = reissue_writes env stored user tenant d (rw same at issued);
              }
        ]
      ]
    ]

refresh_stored_sound :
    (env : Env) (stored : RefreshToken) (user : User) (d : Db) {tokens : Tokens} {d' : Db}
    → refresh_stored env stored user d ≡ (ok tokens, d')
    → IsRotated env stored user d d'
unfolding refresh_stored
refresh_stored_sound env stored user d h = elim (Bool-cases (not_set stored.revoked_at)) [
  | inl live ↦ rotate_sound env stored user d live (rw live at h)
  | inr used ↦ absurd (ground (arith, used))
]

refresh_owned_sound :
    (env : Env) (stored : RefreshToken) (owner : Option User) (d : Db) {tokens : Tokens} {d' : Db}
    → refresh_owned env stored owner d ≡ (ok tokens, d')
    → (user : User) × (owner ≡ some user) × IsRotated env stored user d d'
refresh_owned_sound env stored none d h = absurd (ground arith)
refresh_owned_sound env stored (some user) d h =
    (user, refl, refresh_stored_sound env stored user d h)

refresh_found_sound :
    (env : Env) (found : Option RefreshToken) (d : Db) {tokens : Tokens} {d' : Db}
    → refresh_found env found d ≡ (ok tokens, d')
    → (stored : RefreshToken) × (found ≡ some stored)
      × (user : User) × (owner_of stored d ≡ some user)
      × IsRotated env stored user d d'
refresh_found_sound env none d h = absurd (ground arith)
refresh_found_sound env (some stored) d h =
    let (user, owned, rotated) = refresh_owned_sound env stored (owner_of stored d) d h in
    (stored, refl, user, owned, rotated)

-- A refresh that gives tokens was made with a live token that has not expired, of an account that is
-- not deleted and is verified, and passed the gate of a login for the account's tenant and the
-- token's app; it revokes the token and stores one new one, for the same account and app.
pub refresh_sound :
    (env : Env) (raw_token : String) (d : Db) {tokens : Tokens} {d' : Db}
    → refresh env raw_token d ≡ (ok tokens, d')
    → (stored : RefreshToken) × (find (has_hash (env.sha256 raw_token)) d.refresh_tokens
        ≡ some stored)
      × (user : User) × (owner_of stored d ≡ some user)
      × IsRotated env stored user d d'
unfolding refresh
refresh_sound env raw_token d h =
    refresh_found_sound env (find (has_hash (env.sha256 raw_token)) d.refresh_tokens) d h

-- A token on record that is revoked refreshes nothing.
refresh_owned_revoked :
    (env : Env) (stored : RefreshToken) (owner : Option User) (d : Db)
    → not_set stored.revoked_at ≡ false
    → is_ok (refresh_owned env stored owner d).0 ≡ false
unfolding refresh_stored
refresh_owned_revoked env stored none d used = refl
refresh_owned_revoked env stored (some user) d used = ground arith

refresh_found_revoked :
    (env : Env) (stored : RefreshToken) (d : Db)
    → not_set stored.revoked_at ≡ false
    → is_ok (refresh_found env (some stored) d).0 ≡ false
refresh_found_revoked env stored d used =
    refresh_owned_revoked env stored (owner_of stored d) d used

-- A refresh token works once: after a refresh that gave tokens, a second one with a token of the same
-- hash is refused, at whatever time it comes.
pub refresh_single_use :
    (env env' : Env) (raw_token : String) (d : Db) {tokens : Tokens} {d' : Db}
    → env'.sha256 raw_token ≡ env.sha256 raw_token
    → refresh env raw_token d ≡ (ok tokens, d')
    → is_ok (refresh env' raw_token d').0 ≡ false
unfolding refresh
refresh_single_use env env' raw_token d {tokens} {d'} same_hash h =
    let (stored, found, user, _, rotated) = refresh_sound env raw_token d h in
    let is_it = has_hash (env.sha256 raw_token) in
    let mark = update_where (has_token_id stored.id) (revoked env.now) d.refresh_tokens in
    let marked : find is_it mark ≡ some (revoked env.now stored) =
      find-update_where-same is_it (has_token_id stored.id) (revoked env.now) d.refresh_tokens
        (λ x. refl) found
      ∙ ground arith in
    let again : find is_it d'.refresh_tokens ≡ some (revoked env.now stored) =
      rw (rotated.written)
        (find-append_left is_it mark (new_token env user stored.app_client_id ∷ []) marked) in
    rw (same_hash, again) (refresh_found_revoked env' (revoked env.now stored) d' refl)

-- After a logout with a token, no refresh with a token of the same hash succeeds.
pub logout_ends :
    (env env' : Env) (raw_token : String) (d : Db)
    → env'.sha256 raw_token ≡ env.sha256 raw_token
    → is_ok (refresh env' raw_token (logout env raw_token d).1).0 ≡ false
unfolding refresh logout
logout_ends env env' raw_token d same_hash =
    let hash = env.sha256 raw_token in
    let d' = (logout env raw_token d).1 in
    rw same_hash (elim (Option-cases (find (has_hash hash) d.refresh_tokens)) [
      | inl unknown ↦ rw (
          find-update_where-none (has_hash hash) (is_live_hash hash) (revoked env.now)
            d.refresh_tokens (λ x. refl) unknown)
      | inr (a, found) ↦
          rw
            (find-update_where-same (has_hash hash) (is_live_hash hash) (revoked env.now)
              d.refresh_tokens (λ x. refl) found)
            (refresh_found_revoked env' _ d'
              (ground (arith, find_sound (has_hash hash) d.refresh_tokens found)))
    ])

-- The replay of a revoked token.
reuse_stored :
    (env : Env) (stored : RefreshToken) (owner : Option User) (d : Db) {user : User} {t : ℕ}
    → owner ≡ some user
    → stored.revoked_at ≡ some t
    → let (r, d') = refresh_owned env stored owner d in
      (r ≡ err (unauthorized "Invalid refresh token"))
      × (d'.refresh_tokens ≡ (
          if ltb env.now (t + refresh_reuse_grace_ms)
          then d.refresh_tokens
          else update_where (is_live_of stored.user_id) (revoked env.now) d.refresh_tokens))
unfolding refresh_stored on_refresh_reuse
reuse_stored env stored none d owned used = cc
reuse_stored env stored (some u) d owned used = ground arith

-- A revoked token that comes back once the grace has passed is taken for theft: the refresh is
-- refused, no live session of the account is left, and the tokens of all other accounts stand as
-- they stood.
pub refresh_reuse_revokes :
    (env : Env) (raw_token : String) (stored : RefreshToken) (user : User) (t : ℕ) (d : Db)
    → find (has_hash (env.sha256 raw_token)) d.refresh_tokens ≡ some stored
    → owner_of stored d ≡ some user
    → stored.revoked_at ≡ some t
    → t + refresh_reuse_grace_ms ≤ env.now
    → let (r, d') = refresh env raw_token d in
      (r ≡ err (unauthorized "Invalid refresh token"))
      × (count_where (is_live_of stored.user_id) d'.refresh_tokens ≡ 0)
      × (filter (λ x. not (x.user_id == stored.user_id)) d'.refresh_tokens
          ≡ filter (λ x. not (x.user_id == stored.user_id)) d.refresh_tokens)
unfolding refresh
refresh_reuse_revokes env raw_token stored user t d found owned used late =
    let (refused, written) = reuse_stored env stored (owner_of stored d) d owned used in
    let swept : (refresh_owned env stored (owner_of stored d) d).1.refresh_tokens
        ≡ update_where (is_live_of stored.user_id) (revoked env.now) d.refresh_tokens =
      ground (arith, written) in
    rw found (
      refused,
      rw swept (
          count_where-update_where_none (is_live_of stored.user_id) (is_live_of stored.user_id)
            (revoked env.now) d.refresh_tokens (λ x h. ground arith) (λ x h. h)),
      rw swept (
          filter-update_where (λ x. not (x.user_id == stored.user_id)) (is_live_of stored.user_id)
            (revoked env.now) d.refresh_tokens (λ x h. ground (arith, h))),
    )

-- Within the grace it is taken for a race of two tabs: the refresh is refused, and every token stays
-- as it is.
pub refresh_race_keeps :
    (env : Env) (raw_token : String) (stored : RefreshToken) (user : User) (t : ℕ) (d : Db)
    → find (has_hash (env.sha256 raw_token)) d.refresh_tokens ≡ some stored
    → owner_of stored d ≡ some user
    → stored.revoked_at ≡ some t
    → env.now < t + refresh_reuse_grace_ms
    → let (r, d') = refresh env raw_token d in
      (r ≡ err (unauthorized "Invalid refresh token")) × (d'.refresh_tokens ≡ d.refresh_tokens)
unfolding refresh
refresh_race_keeps env raw_token stored user t d found owned used early =
    let (refused, written) = reuse_stored env stored (owner_of stored d) d owned used in
    rw found (refused, ground (arith, written))
