-- ===== src/Passkeys/Tickets.antt =====
-- The challenge tokens of platform/src/passkeys/passkeys.service.ts. The signature
-- (`KeysService`) and the encryption (`encryptSecret`, `decryptSecret`) are parameters.
use evo_platform.Base.{
  ℕ, Bool, not, String, ◌<>◌, Option, none, some, List, [], ◌∷◌, ◌==◌, ◌=?◌, ◌||◌, contains,
  string_eq, option_eq, if◌then◌else◌,
}
use evo_platform.Base.Rows.{find}
use evo_platform.Platform.{truthy, Failure, Result, ok, err, unauthorized}

-- A claim that is not a text counts as missing.
pub record TicketClaims : Type 0 where
  pub purpose : Option String
  pub uid : Option String
  pub challenge : Option String
  pub rp_id : Option String
  pub origin : Option String

pub record Vault : Type 0 where
  pub sign : TicketClaims → ℕ → String
  -- none where it throws
  pub verify : String → Option TicketClaims
  pub encrypt : String → String
  pub decrypt : String → Option String

pub record RpContext : Type 0 where
  pub rp_id : String
  pub origin : String

pub record Ticket : Type 0 where
  pub uid : String
  pub challenge : String
  pub rp_id : String
  pub origin : String

unfoldable pub ticket_claims : Vault → String → String → String → RpContext → TicketClaims
ticket_claims vault purpose uid challenge rp = record {
  purpose = some purpose;
  uid = some uid;
  challenge = some challenge;
  rp_id = some rp.rp_id;
  origin = some rp.origin;
}

unfoldable pub challenge_token : Vault → ℕ → String → String → String → RpContext → String
unfolding ticket_claims
challenge_token vault ttl purpose user_id challenge rp =
    vault.sign (ticket_claims vault purpose (vault.encrypt user_id) challenge rp) ttl

-- The token of a login for an account that is not there: its `uid` is no ciphertext.
unfoldable pub decoy_token : Vault → ℕ → String → RpContext → String
unfolding ticket_claims
decoy_token vault ttl challenge rp =
    vault.sign (ticket_claims vault "webauthn_auth" ("decoy:" <> challenge) challenge rp) ttl

abbrev pub expired : Failure
expired = unauthorized "Passkey ceremony expired — try again"

abbrev decrypted : String → String → String → Option String → Result Ticket
decrypted challenge rp_id origin none = err expired
decrypted challenge rp_id origin (some uid) =
    ok (record { uid = uid; challenge = challenge; rp_id = rp_id; origin = origin })

abbrev pub complete :
    Vault → Option String → Option String → Option String → Option String → Result Ticket
complete vault (some uid) (some challenge) (some rp_id) (some origin) =
    decrypted challenge rp_id origin (vault.decrypt uid)
complete vault _ _ _ _ = err expired

abbrev pub read_claims : Vault → String → Option TicketClaims → Result Ticket
read_claims vault purpose none = err expired
read_claims vault purpose (some c) =
    if c.purpose =? purpose
    then complete vault (truthy c.uid) (truthy c.challenge) (truthy c.rp_id) (truthy c.origin)
    else err expired

unfoldable pub read_challenge_token : Vault → String → String → Result Ticket
read_challenge_token vault purpose token = read_claims vault purpose (vault.verify token)

-- What the URL library reads of the `Origin` header; the host is in lower case.
pub record OriginUrl : Type 0 where
  pub protocol : String
  pub host : String
  pub origin : String

abbrev is_web : String → Bool
is_web protocol = protocol == "http:" || protocol == "https:"

abbrev is_loopback : String → Bool
is_loopback host = contains host ("localhost" ∷ "127.0.0.1" ∷ "::1" ∷ "[::1]" ∷ [])

-- `host === base || host.endsWith('.' + base)`; the test of the end is the text library's.
abbrev pub is_under : (String → String → Bool) → String → String → Bool
is_under ends_with host base = host == base || ends_with host ("." <> base)

abbrev context : OriginUrl → Option String → Option RpContext
context url none = none
context url (some base) = some (record { rp_id = base; origin = url.origin })

-- `deriveRpContext` of platform/src/passkeys/rp.ts, from the header's URL, if it has one; `unbracketed`
-- takes the brackets off an address.
unfoldable pub derive_rp_context :
    (String → String → Bool) → (String → String) → List String → Option OriginUrl → Option RpContext
unfolding contains find
derive_rp_context ends_with unbracketed domains none = none
derive_rp_context ends_with unbracketed domains (some url) =
    if not (is_web url.protocol)
    then none
    else if is_loopback url.host
    then some (record { rp_id = unbracketed url.host; origin = url.origin })
    else context url (find (is_under ends_with url.host) domains)
