-- ===== src/Passkeys/Ceremony.antt =====
-- What a ceremony of a passkey proves (platform/src/passkeys/passkeys.service.ts).
use evo_platform.Base.{
  ℕ, ◌≡◌, ◌≢◌, refl, sym, ap, ◌∙◌, true, false, not, String, ◌<>◌, Option, none, some, ◌==◌,
  string_eq, option_eq, ==_refl, arith,
}
use evo_platform.Base.Rows.{find, find_sound, update_where, filter, filter-update_where}
use evo_platform.Platform.{truthy, Result, ok, err, Env}
use evo_platform.Passkeys.Tickets.{
  Vault, TicketClaims, RpContext, Ticket, ticket_claims, challenge_token, decoy_token, read_claims,
  read_challenge_token, expired, complete,
}
use evo_platform.Passkeys.Service.{
  PasskeyCredential, Store, Response, WebAuthn, is_credential, has_passkey_id, used,
  accept_assertion, login_row, login_ticket, verify_login,
}

truthy_of : (s : String) → s ≢ "" → truthy (some s) ≡ some s
truthy_of s h = ground (arith, h)

-- A challenge goes round: where a token verifies to the claims that were signed and a ciphertext is
-- not empty and decrypts to what was encrypted, the token of a ceremony reads as the account, the
-- challenge, the relying party and the origin that it was made for, if these are not empty, and for
-- another purpose it is refused.
pub challenge_token-read_challenge_token :
    (vault : Vault) (ttl : ℕ) (purpose other uid challenge : String) (rp : RpContext)
    → ((c : TicketClaims) (n : ℕ) → vault.verify (vault.sign c n) ≡ some c)
    → ((s : String) → vault.decrypt (vault.encrypt s) ≡ some s)
    → ((s : String) → vault.encrypt s ≢ "")
    → challenge ≢ ""
    → rp.rp_id ≢ ""
    → rp.origin ≢ ""
    → purpose ≢ other
    → let token = challenge_token vault ttl purpose uid challenge rp in
      (read_challenge_token vault purpose token
        ≡ ok (record { uid = uid; challenge = challenge; rp_id = rp.rp_id; origin = rp.origin }))
      × (read_challenge_token vault other token ≡ err expired)
unfolding challenge_token read_challenge_token ticket_claims
challenge_token-read_challenge_token vault ttl purpose other uid challenge rp verifies decrypts full
      c r o apart =
    let claims = ticket_claims vault purpose (vault.encrypt uid) challenge rp in
    let same : (purpose == purpose) ≡ true = ground arith in
    let differ : (purpose == other) ≡ false = ground (arith, apart) in
    (
      ap (read_claims vault purpose) (verifies claims ttl)
          ∙ rw
              (
                same,
                truthy_of (vault.encrypt uid) (full uid),
                truthy_of challenge c,
                truthy_of rp.rp_id r,
                truthy_of rp.origin o,
                decrypts uid,
              )
              refl,
      ap (read_claims vault other) (verifies claims ttl) ∙ rw differ refl,
    )

-- A sign-in with a passkey that succeeded.
pub record IsAsserted (env : Env) (w : WebAuthn) (vault : Vault) (r : Response) (token : String)
    (s s' : Store) (user_id : String) : Type 0 where
  pub ticket : Ticket
  pub row : PasskeyCredential
  pub counter : ℕ
  pub read : read_challenge_token vault "webauthn_auth" token ≡ ok ticket
  pub found : find (is_credential r.id ticket.uid) s.passkeys ≡ some row
  pub verified : w.verify_authentication r ticket row ≡ some counter
  pub user : user_id ≡ ticket.uid
  pub credential : row.credential_id ≡ r.id
  pub written : s' ≡ record s {
    passkeys = update_where (has_passkey_id row.id) (used env.now counter) s.passkeys;
  }

module _ (env : Env) (w : WebAuthn) (vault : Vault) (r : Response) (token : String)
    (s : Store) where
  accept_assertion_sound :
      (ticket : Ticket) (row : PasskeyCredential) (o : Option ℕ) {user_id : String} {s' : Store}
      → read_challenge_token vault "webauthn_auth" token ≡ ok ticket
      → find (is_credential r.id ticket.uid) s.passkeys ≡ some row
      → w.verify_authentication r ticket row ≡ o
      → accept_assertion env row o s ≡ (ok user_id, s')
      → IsAsserted env w vault r token s s' user_id
  accept_assertion_sound ticket row none read found e h = absurd (not_returned h)
    where
      not_returned :
          {user_id : String} {s' : Store} → accept_assertion env row none s ≡ (ok user_id, s') → ⊥
      not_returned h = cc
  accept_assertion_sound ticket row (some counter) {user_id} {s'} read found e h =
      let own = find_sound (is_credential r.id ticket.uid) s.passkeys found in
      record {
        ticket = ticket;
        row = row;
        counter = counter;
        read = read;
        found = found;
        verified = e;
        user = ground (arith, own, h);
        credential = ground (arith, own);
        written = ap (λ (x : Result String × Store). x.1) (sym h);
      }

  login_row_sound :
      (ticket : Ticket) (o : Option PasskeyCredential) {user_id : String} {s' : Store}
      → read_challenge_token vault "webauthn_auth" token ≡ ok ticket
      → find (is_credential r.id ticket.uid) s.passkeys ≡ o
      → login_row env w ticket r o s ≡ (ok user_id, s')
      → IsAsserted env w vault r token s s' user_id
  login_row_sound ticket none read found h = absurd (not_returned h)
    where
      not_returned :
          {user_id : String} {s' : Store} → login_row env w ticket r none s ≡ (ok user_id, s') → ⊥
      not_returned h = cc
  login_row_sound ticket (some row) read found h =
      accept_assertion_sound ticket row (w.verify_authentication r ticket row) read found refl h

  login_ticket_sound :
      (t : Result Ticket) {user_id : String} {s' : Store}
      → read_challenge_token vault "webauthn_auth" token ≡ t
      → login_ticket env w r t s ≡ (ok user_id, s')
      → IsAsserted env w vault r token s s' user_id
  login_ticket_sound (err e) read h = absurd (not_returned h)
    where
      not_returned :
          {user_id : String} {s' : Store} → login_ticket env w r (err e) s ≡ (ok user_id, s') → ⊥
      not_returned h = cc
  login_ticket_sound (ok ticket) read h =
      login_row_sound ticket (find (is_credential r.id ticket.uid) s.passkeys) read refl h

-- A passkey signs in one account: if the sign-in returns an id, the token is a good one of a login and
-- names that account, the credential that the response names is a row of that account, the library has
-- verified the response against the token and that row, and the row takes the new counter; no row of
-- another id is touched, and nothing else.
pub verify_login_sound :
    (env : Env) (w : WebAuthn) (vault : Vault) (r : Response) (token : String) (s : Store)
    {user_id : String} {s' : Store}
    → verify_login env w vault r token s ≡ (ok user_id, s')
    → (a : IsAsserted env w vault r token s s' user_id) × (s'.db ≡ s.db)
      × (filter (λ (c : PasskeyCredential). not (c.id == a.row.id)) s'.passkeys
          ≡ filter (λ (c : PasskeyCredential). not (c.id == a.row.id)) s.passkeys)
unfolding verify_login
verify_login_sound env w vault r token s h =
    let a =
      login_ticket_sound env w vault r token s (read_challenge_token vault "webauthn_auth" token)
        refl h in
    (
      a,
      ap (λ (x : Store). x.db) a.written,
      ap (λ (x : Store). filter (λ (c : PasskeyCredential). not (c.id == a.row.id)) x.passkeys)
            a.written
          ∙ filter-update_where (λ (c : PasskeyCredential). not (c.id == a.row.id))
              (has_passkey_id a.row.id) (used env.now a.counter) s.passkeys
              (λ x own. (rw own refl, rw own refl)),
    )

truthy-some : (s : String) {u : String} → truthy (some s) ≡ some u → s ≡ u
truthy-some s h = ground (arith, h)

complete_refused :
    (vault : Vault) (uid challenge rp_id origin : Option String)
    → ((u : String) → uid ≡ some u → vault.decrypt u ≡ none)
    → complete vault uid challenge rp_id origin ≡ err expired
complete_refused vault none challenge rp_id origin h = refl
complete_refused vault (some uid) none rp_id origin h = refl
complete_refused vault (some uid) (some challenge) none origin h = refl
complete_refused vault (some uid) (some challenge) (some rp_id) none h = refl
complete_refused vault (some uid) (some challenge) (some rp_id) (some origin) h =
    rw (h uid refl) refl

-- The token that an unknown account gets is refused, where its `uid` does not decrypt: like one that
-- has expired.
pub decoy_token_refused :
    (env : Env) (w : WebAuthn) (vault : Vault) (ttl : ℕ) (challenge : String) (rp : RpContext)
    (r : Response) (s : Store)
    → ((c : TicketClaims) (n : ℕ) → vault.verify (vault.sign c n) ≡ some c)
    → vault.decrypt ("decoy:" <> challenge) ≡ none
    → verify_login env w vault r (decoy_token vault ttl challenge rp) s ≡ (err expired, s)
unfolding verify_login decoy_token read_challenge_token ticket_claims
decoy_token_refused env w vault ttl challenge rp r s verifies refused =
    let claims = ticket_claims vault "webauthn_auth" ("decoy:" <> challenge) challenge rp in
    let purpose : String = "webauthn_auth" in
    let same : (purpose == purpose) ≡ true = ==_refl purpose in
    let read : read_claims vault purpose (some claims) ≡ err expired = rw same (
      complete_refused vault (truthy (some ("decoy:" <> challenge))) (truthy (some challenge))
        (truthy (some rp.rp_id)) (truthy (some rp.origin))
        (λ u h. ap vault.decrypt (sym (truthy-some ("decoy:" <> challenge) h)) ∙ refused)) in
    ap (λ c. login_ticket env w r (read_claims vault "webauthn_auth" c) s) (verifies claims ttl)
    ∙ ap (λ t. login_ticket env w r t s) read
