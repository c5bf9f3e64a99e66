-- ===== src/Passkeys/Service.antt =====
-- The methods of platform/src/passkeys/passkeys.service.ts. What the library of the ceremony makes of
-- a response is a parameter; a response that does not verify and one at which it throws are none.
use evo_platform.Base.{
  ℕ, Bool, ◌&&◌, String, Option, none, some, List, [], ◌∷◌, ◌++◌, map, ◌==◌, string_eq, option_eq,
  nat_eq, if◌then◌else◌, not_set,
}
use evo_platform.Base.Rows.{find, any, filter, update_where, delete_where, count_where}
use evo_platform.Platform.{
  Tenant, User, Db, Env, truthy, Detail, Failure, Result, ok, err, unauthorized, bad_request, audit,
  AuditEvent, database, p2002,
}
use evo_platform.Auth.Sessions.{is_live_slug, is_live_account}
use evo_platform.Passkeys.Tickets.{
  Vault, RpContext, Ticket, challenge_token, decoy_token, read_challenge_token,
}

pub record PasskeyCredential : Type 0 where
  pub id : String
  pub tenant_id : Option String
  pub user_id : String
  pub credential_id : String
  pub public_key : String
  pub sign_count : ℕ
  pub transports : Option String
  pub aaguid : Option String
  pub nickname : String
  pub last_used_at : Option ℕ

-- The database, with the table of the credentials.
pub record Store : Type 0 where
  pub db : Db
  pub passkeys : List PasskeyCredential

pub record RegistrationInfo : Type 0 where
  pub credential_id : String
  pub public_key : String
  pub counter : ℕ
  pub aaguid : Option String

-- A response of an authenticator: the id that it names, its transports, and the rest of it.
pub record Response : Type 0 where
  pub id : String
  pub transports : Option String
  pub body : String

pub record WebAuthn : Type 0 where
  pub challenge : String
  pub ttl : ℕ
  -- a response, against the challenge, the relying party and the origin
  pub verify_registration : Response → Ticket → Option RegistrationInfo
  -- the same, against a credential with its key and its counter; the new counter
  pub verify_authentication : Response → Ticket → PasskeyCredential → Option ℕ
  pub decoys : Option String → String → List String
  -- `trim().slice(0, 100)`
  pub short : String → String

-- The options of a ceremony: the ids of the credentials that it excludes or allows.
pub record Options : Type 0 where
  pub challenge : String
  pub credentials : List String
  pub token : String

abbrev is_live_id : String → User → Bool
is_live_id id u = u.id == id && not_set u.deleted_at

abbrev or_unauthorized : Option User → Result User
or_unauthorized none = err (unauthorized "Invalid credentials")
or_unauthorized (some u) = ok u

unfoldable pub require_user : String → Db → Result User
require_user id d = or_unauthorized (find (is_live_id id) d.users)

abbrev pub is_passkey_of : String → PasskeyCredential → Bool
is_passkey_of user_id c = c.user_id == user_id

abbrev credential_of : PasskeyCredential → String
credential_of c = c.credential_id

unfoldable pub credentials_of : String → Store → List String
credentials_of user_id s = map credential_of (filter (is_passkey_of user_id) s.passkeys)

abbrev registration_options_of : WebAuthn → Vault → RpContext → Store → Result User → Result Options
registration_options_of w vault rp s (err e) = err e
registration_options_of w vault rp s (ok user) = ok (record {
  challenge = w.challenge;
  credentials = credentials_of user.id s;
  token = challenge_token vault w.ttl "webauthn_reg" user.id w.challenge rp;
})

unfoldable pub registration_options : WebAuthn → Vault → String → RpContext → Store → Result Options
unfolding require_user credentials_of challenge_token
registration_options w vault user_id rp s =
    registration_options_of w vault rp s (require_user user_id s.db)

abbrev nickname_of : WebAuthn → Option String → Option String
nickname_of w none = truthy (some (w.short "Passkey"))
nickname_of w (some n) = truthy (some (w.short n))

abbrev or_passkey : Option String → String
or_passkey none = "Passkey"
or_passkey (some n) = n

unfoldable pub new_passkey :
    Env → WebAuthn → User → Response → RegistrationInfo → Option String → PasskeyCredential
new_passkey env w user r info nickname = record {
  id = env.new_id;
  tenant_id = user.tenant_id;
  user_id = user.id;
  credential_id = info.credential_id;
  public_key = info.public_key;
  sign_count = info.counter;
  transports = truthy r.transports;
  aaguid = truthy info.aaguid;
  nickname = or_passkey (nickname_of w nickname);
  last_used_at = none;
}

abbrev pub log_event : AuditEvent → Store → Store
log_event e s = record s { db = record s.db { audit_events = s.db.audit_events ++ (e ∷ []) } }

abbrev pub unverified_key : Failure
unverified_key = bad_request "Passkey registration could not be verified"

abbrev names_credential : String → PasskeyCredential → Bool
names_credential id c = c.credential_id == id

-- The index of the credentials' ids refuses one that is taken.
abbrev enrol_passkey :
    Env
    → WebAuthn
    → User
    → Response
    → Option String
    → Option RegistrationInfo
    → Store
    → Result PasskeyCredential × Store
enrol_passkey env w user r nickname none s = (err unverified_key, s)
enrol_passkey env w user r nickname (some info) s =
    let row = new_passkey env w user r info nickname in
    if any (names_credential info.credential_id) s.passkeys then (err (database p2002), s) else (
      ok row,
      log_event
          (audit "auth.passkey_registered" user.tenant_id (some user.id)
            (("nickname", Detail.text row.nickname) ∷ []))
          (record s { passkeys = s.passkeys ++ (row ∷ []) }),
    )

abbrev register_user :
    Env
    → WebAuthn
    → Ticket
    → Response
    → Option String
    → Result User
    → Store
    → Result PasskeyCredential × Store
register_user env w ticket r nickname (err e) s = (err e, s)
register_user env w ticket r nickname (ok user) s =
    enrol_passkey env w user r nickname (w.verify_registration r ticket) s

abbrev register_ticket :
    Env
    → WebAuthn
    → String
    → Response
    → Option String
    → Result Ticket
    → Store
    → Result PasskeyCredential × Store
register_ticket env w user_id r nickname (err e) s = (err e, s)
register_ticket env w user_id r nickname (ok ticket) s =
    if ticket.uid == user_id
    then register_user env w ticket r nickname (require_user user_id s.db) s
    else (err (unauthorized "Passkey ceremony expired — try again"), s)

unfoldable pub verify_registration :
    Env
    → WebAuthn
    → Vault
    → String
    → Response
    → String
    → Option String
    → Store
    → Result PasskeyCredential × Store
unfolding require_user new_passkey read_challenge_token
verify_registration env w vault user_id r token nickname s =
    register_ticket env w user_id r nickname (read_challenge_token vault "webauthn_reg" token) s

abbrev account_in : String → Db → Option Tenant → Option User
account_in email d none = none
account_in email d (some t) = find (is_live_account (some t.id) email) d.users

abbrev account_at : String → Db → Option String → Option User
account_at email d none = find (is_live_account none email) d.users
account_at email d (some slug) = account_in email d (find (is_live_slug slug) d.tenants)

unfoldable pub find_login_user : Env → Option String → String → Db → Option User
find_login_user env slug email d = account_at (env.to_lower_case email) d (truthy slug)

abbrev decoy_options : WebAuthn → Vault → Option String → String → RpContext → Options
decoy_options w vault slug email rp = record {
  challenge = w.challenge;
  credentials = w.decoys slug email;
  token = decoy_token vault w.ttl w.challenge rp;
}

abbrev options_with :
    WebAuthn → Vault → Option String → String → RpContext → User → List String → Options
options_with w vault slug email rp user [] = decoy_options w vault slug email rp
options_with w vault slug email rp user (c ∷ cs) = record {
  challenge = w.challenge;
  credentials = c ∷ cs;
  token = challenge_token vault w.ttl "webauthn_auth" user.id w.challenge rp;
}

abbrev options_for :
    WebAuthn → Vault → Option String → String → RpContext → Store → Option User → Options
options_for w vault slug email rp s none = decoy_options w vault slug email rp
options_for w vault slug email rp s (some user) =
    options_with w vault slug email rp user (credentials_of user.id s)

unfoldable pub login_options :
    Env → WebAuthn → Vault → Option String → String → RpContext → Store → Options
unfolding find_login_user credentials_of challenge_token decoy_token
login_options env w vault slug email rp s =
    options_for w vault slug email rp s (find_login_user env slug email s.db)

abbrev pub unverified_login : Failure
unverified_login = unauthorized "Passkey sign-in could not be verified"

abbrev pub is_credential : String → String → PasskeyCredential → Bool
is_credential credential_id user_id c = c.credential_id == credential_id && c.user_id == user_id

abbrev pub has_passkey_id : String → PasskeyCredential → Bool
has_passkey_id id c = c.id == id

abbrev pub used : ℕ → ℕ → PasskeyCredential → PasskeyCredential
used now counter c = record c { sign_count = counter; last_used_at = some now }

abbrev pub accept_assertion : Env → PasskeyCredential → Option ℕ → Store → Result String × Store
accept_assertion env row none s = (err unverified_login, s)
accept_assertion env row (some counter) s = (
  ok row.user_id,
  record s { passkeys = update_where (has_passkey_id row.id) (used env.now counter) s.passkeys },
)

abbrev pub login_row :
    Env → WebAuthn → Ticket → Response → Option PasskeyCredential → Store → Result String × Store
login_row env w ticket r none s = (err unverified_login, s)
login_row env w ticket r (some row) s =
    accept_assertion env row (w.verify_authentication r ticket row) s

abbrev pub login_ticket : Env → WebAuthn → Response → Result Ticket → Store → Result String × Store
login_ticket env w r (err e) s = (err e, s)
login_ticket env w r (ok ticket) s =
    login_row env w ticket r (find (is_credential r.id ticket.uid) s.passkeys) s

-- `verifyLogin`: the id of the user, whose account is checked by the caller.
unfoldable pub verify_login :
    Env → WebAuthn → Vault → Response → String → Store → Result String × Store
verify_login env w vault r token s =
    login_ticket env w r (read_challenge_token vault "webauthn_auth" token) s

unfoldable pub list : String → Store → List PasskeyCredential
list user_id s = filter (is_passkey_of user_id) s.passkeys

abbrev pub is_own : String → String → PasskeyCredential → Bool
is_own user_id id c = c.id == id && c.user_id == user_id

unfoldable pub remove : String → String → Store → Result (Unit {0}) × Store
remove user_id id s =
    if count_where (is_own user_id id) s.passkeys == 0
    then (err (bad_request "Passkey not found"), s)
    else (
      ok tt,
      log_event
          (audit "auth.passkey_deleted" none (some user_id)
            (("credentialRowId", Detail.text id) ∷ []))
          (record s { passkeys = delete_where (is_own user_id id) s.passkeys }),
    )
