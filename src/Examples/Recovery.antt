-- ===== src/Examples/Recovery.antt =====
-- The theorems on the recovery of accounts and on passkeys, at concrete requests.
use mathlib.Core.List.{Memᴰ}
use evo_platform.Base.{
  ◌≡◌, ◌≢◌, refl, true, false, not, String, none, some, [], ◌∷◌, ◌++◌, ◌==◌, string_eq, option_eq,
  nat_eq, arith, inl, inr,
}
use evo_platform.Base.Rows.{find, filter, count_where, mem-cases}
use evo_platform.Platform.{User, RefreshToken, is_ok, record_event}
use evo_platform.Auth.Limiter.{Buckets, send_allowed, allow_send, Requests, run_requests}
use evo_platform.Auth.Budget.{Within, run_requests_spends_all}
use evo_platform.Auth.Sessions.{is_live_of}
use evo_platform.Auth.Flows.{
  LinkClaims, Links, Mail, Post, EmailDto, find_by_email, has_user_id, user_of_link, request_reset,
  reset_claims, reset_secret, reset_of, reset_password, new_password, write_password,
}
use evo_platform.Auth.Recovery.{IsSubject, reset_password_sound, reset_password_single_use}
use evo_platform.Auth.Mailed.{reset_link, request_reset-reset_password}
use evo_platform.Passkeys.Tickets.{Vault, TicketClaims, read_challenge_token}
use evo_platform.Passkeys.Service.{PasskeyCredential, Store, Response, WebAuthn, verify_login}
use evo_platform.Passkeys.Ceremony.{IsAsserted, verify_login_sound}
use evo_platform.Examples.Tenancy.{env_at, bob, db}

abbrev bob_dto : EmailDto
bob_dto = record { tenant_slug = some "acme"; email = "bob@example"; client_id = none }

abbrev bob_claims : LinkClaims
bob_claims = record { purpose = some "password_reset"; sub = some "u2"; app = none }

-- Links that are their own secrets, all for one account.
abbrev links : Links
links = record {
  sign = λ _ _. "link";
  verify = λ _. none;
  sign_with = λ secret _ _. secret;
  decode = λ _. some bob_claims;
  verify_with = λ token secret. token == secret;
  hmac = λ s. s;
}

abbrev bob_link : String
bob_link = "reset:u2:pw"

reset_password_sound_example :
    let d' = (reset_password (env_at 5) links bob_link "new" db).1 in
    (user : User) × IsSubject "password_reset" (links.decode bob_link) db user
    × (links.verify_with bob_link (reset_secret links user) ≡ true)
    × (find (has_user_id user.id) d'.users ≡ some (new_password (env_at 5) user "new" user))
    × (count_where (is_live_of user.id) d'.refresh_tokens ≡ 0)
    × (filter (λ (x : User). not (has_user_id user.id x)) d'.users
        ≡ filter (λ (x : User). not (has_user_id user.id x)) db.users)
    × (filter (λ (t : RefreshToken). not (t.user_id == user.id)) d'.refresh_tokens
        ≡ filter (λ (t : RefreshToken). not (t.user_id == user.id)) db.refresh_tokens)
unfolding reset_password user_of_link reset_of reset_secret write_password record_event find
    string_eq option_eq
reset_password_sound_example = reset_password_sound (env_at 5) links bob_link "new" db refl

one_secret : (t a b : String) → links.verify_with t a ≡ true → links.verify_with t b ≡ true → a ≡ b
one_secret t a b h k = ground (arith, h, k)

apart : (a b : String) → (a == b) ≡ false → a ≢ b
apart a b h = ground (arith, h)

fresh : (x : User) → Memᴰ x db.users → "new" ≢ x.password_hash
unfolding string_eq
fresh x m = elim (mem-cases m) [
  | inl e ↦ rw e differs
  | inr m' ↦ elim (mem-cases m') [ inl e ↦ rw e differs | inr none_left ↦ elim none_left [ ] ]
]
  where
    new : String
    new = "new"

    differs : new ≢ "pw"
    differs = apart new "pw" refl

reset_password_single_use_example :
    is_ok
      (reset_password
        (env_at 6)
        links
        bob_link
        "other"
        (reset_password (env_at 5) links bob_link "new" db).1).0
    ≡ false
unfolding reset_password user_of_link reset_of reset_secret write_password record_event find
    string_eq option_eq
reset_password_single_use_example =
    reset_password_single_use (env_at 5) (env_at 6) links bob_link "new" "other" db
      {d' = (reset_password (env_at 5) links bob_link "new" db).1} one_secret (λ a b e. e) fresh
      refl

abbrev no_buckets : Buckets
no_buckets _ = none

abbrev office : Post
office = record { db = db; buckets = no_buckets; sent = [] }

request_reset-reset_password_example :
    let p' = request_reset (env_at 5) links bob_dto none office in
    let (r, d') = reset_password (env_at 6) links (reset_link links bob_dto bob) "new" p'.db in
    (p'.sent ≡ [] ++ Mail.password_reset "bob@example" (reset_link links bob_dto bob) ∷ [])
    × (is_ok r ≡ true)
    × (find (has_user_id "u2") d'.users ≡ some (new_password (env_at 6) bob "new" bob))
unfolding find_by_email reset_claims reset_secret send_allowed allow_send find string_eq option_eq
request_reset-reset_password_example =
    request_reset-reset_password (env_at 5) (env_at 6) links bob_dto none "new" office bob refl refl
      refl refl refl

-- One client, who asks 20 times in a minute; then the owner of the address.
abbrev nineteen : Requests
nineteen =
    (some "6.6.6.6", 3)
    ∷ (some "6.6.6.6", 4)
    ∷ (some "6.6.6.6", 5)
    ∷ (some "6.6.6.6", 6)
    ∷ (some "6.6.6.6", 7)
    ∷ (some "6.6.6.6", 8)
    ∷ (some "6.6.6.6", 9)
    ∷ (some "6.6.6.6", 10)
    ∷ (some "6.6.6.6", 11)
    ∷ (some "6.6.6.6", 12)
    ∷ (some "6.6.6.6", 13)
    ∷ (some "6.6.6.6", 14)
    ∷ (some "6.6.6.6", 15)
    ∷ (some "6.6.6.6", 16)
    ∷ (some "6.6.6.6", 17)
    ∷ (some "6.6.6.6", 18)
    ∷ (some "6.6.6.6", 19)
    ∷ (some "6.6.6.6", 20)
    ∷ (some "6.6.6.6", 21)
    ∷ []

within : Within 900_002 nineteen
within = (
  omega arith,
  (
    omega arith,
    (
      omega arith,
      (
        omega arith,
        (
          omega arith,
          (
            omega arith,
            (
              omega arith,
              (
                omega arith,
                (
                  omega arith,
                  (
                    omega arith,
                    (
                      omega arith,
                      (
                        omega arith,
                        (
                          omega arith,
                          (
                            omega arith,
                            (
                              omega arith,
                              (omega arith, (omega arith, (omega arith, (omega arith, tt)))),
                            ),
                          ),
                        ),
                      ),
                    ),
                  ),
                ),
              ),
            ),
          ),
        ),
      ),
    ),
  ),
)

run_requests_spends_all_example :
    (send_allowed "reset" "bob@example"
      (some "1.2.3.4")
      60_000
      (run_requests "reset" "bob@example" ((some "6.6.6.6", 2) ∷ nineteen) no_buckets).1).0
    ≡ false
run_requests_spends_all_example =
    run_requests_spends_all "reset" "bob@example" (some "6.6.6.6") 2 nineteen no_buckets
      (some "1.2.3.4") 60_000 refl within (omega arith) (omega arith)

abbrev ticket_of_bob : TicketClaims
ticket_of_bob = record {
  purpose = some "webauthn_auth";
  uid = some "u2";
  challenge = some "c";
  rp_id = some "acme.example";
  origin = some "https://acme.example";
}

abbrev vault : Vault
vault = record {
  sign = λ _ _. "token";
  verify = λ _. some ticket_of_bob;
  encrypt = λ s. s;
  decrypt = λ s. some s;
}

abbrev bob_key : PasskeyCredential
bob_key = record {
  id = "k1";
  tenant_id = some "t1";
  user_id = "u2";
  credential_id = "cred";
  public_key = "key";
  sign_count = 3;
  transports = none;
  aaguid = none;
  nickname = "Laptop";
  last_used_at = none;
}

abbrev web_authn : WebAuthn
web_authn = record {
  challenge = "c";
  ttl = 300;
  verify_registration = λ _ _. none;
  verify_authentication = λ _ _ _. some 4;
  decoys = λ _ _. [];
  short = λ s. s;
}

abbrev response : Response
response = record { id = "cred"; transports = none; body = "" }

abbrev keyring : Store
keyring = record { db = db; passkeys = bob_key ∷ [] }

verify_login_sound_example :
    let s' = (verify_login (env_at 5) web_authn vault response "token" keyring).1 in
    (a : IsAsserted (env_at 5) web_authn vault response "token" keyring s' "u2") × (s'.db ≡ db)
    × (filter (λ (c : PasskeyCredential). not (c.id == a.row.id)) s'.passkeys
        ≡ filter (λ (c : PasskeyCredential). not (c.id == a.row.id)) keyring.passkeys)
unfolding verify_login read_challenge_token find string_eq
verify_login_sound_example =
    verify_login_sound (env_at 5) web_authn vault response "token" keyring refl
