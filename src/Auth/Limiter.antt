-- ===== src/Auth/Limiter.antt =====
-- How many messages the account flows send (`allowSend` and `sendAllowed` of
-- platform/src/auth/account-flows.service.ts). The buckets are a map in the memory of the process.
use text.Mathlib.TextPositions.{len-append}
use Prim.Native.String.{len}
use evo_platform.Base.{
  ℕ, suc, ◌+◌, ◌≡◌, ◌≢◌, refl, ap, Bool, true, false, String, ◌<>◌, Option, none, some, List, [],
  ◌∷◌, ◌==◌, string_eq, nat_eq, if◌then◌else◌, ltb, leb, arith,
}
use evo_platform.Platform.{truthy}

pub record Bucket : Type 0 where
  pub count : ℕ
  pub reset_at : ℕ

-- `new Map<string, …>()`
abbrev pub Buckets : Type 0
Buckets = String → Option Bucket

-- `buckets.set`
abbrev pub set_bucket : String → Bucket → Buckets → Buckets
set_bucket key b buckets k = if k == key then some b else buckets k

-- 15 minutes
abbrev pub window_ms : ℕ
window_ms = 900_000

abbrev pub new_window : String → ℕ → Buckets → Bool × Buckets
new_window key now buckets =
    (true, set_bucket key (record { count = 1; reset_at = now + window_ms }) buckets)

-- `bucket.count += 1` is done whatever the answer is.
abbrev pub counted : String → ℕ → Bucket → Buckets → Bool × Buckets
counted key max b buckets =
    (leb (suc b.count) max, set_bucket key (record b { count = suc b.count }) buckets)

abbrev pub charge : String → ℕ → ℕ → Option Bucket → Buckets → Bool × Buckets
charge key max now none buckets = new_window key now buckets
charge key max now (some b) buckets =
    if ltb b.reset_at now then new_window key now buckets else counted key max b buckets

unfoldable pub allow_send : String → ℕ → ℕ → Buckets → Bool × Buckets
allow_send key max now buckets = charge key max now (buckets key) buckets

abbrev pub per_address : ℕ
per_address = 20

abbrev pub per_client : ℕ
per_client = 5

abbrev pub client_of : Option String → String
client_of none = "unknown"
client_of (some ip) = ip

abbrev pub address_key : String → String → String
address_key kind email = kind <> (":" <> email)

abbrev pub client_key : String → String → String → String
client_key kind client email = kind <> (":" <> (client <> (":" <> email)))

-- The second bucket is charged only where the first allows.
unfoldable pub send_allowed : String → String → Option String → ℕ → Buckets → Bool × Buckets
unfolding allow_send
send_allowed kind email ip now buckets =
    let (address_ok, buckets') = allow_send (address_key kind email) per_address now buckets in
    let (client_ok, buckets'') =
      allow_send (client_key kind (client_of (truthy ip)) email) per_client now buckets' in
    if address_ok then (client_ok, buckets'') else (false, buckets')

-- Requests for one address, each from a client at an instant.
abbrev pub Requests : Type 0
Requests = List (Option String × ℕ)

unfoldable pub run_requests : String → String → Requests → Buckets → ℕ × Buckets
unfolding send_allowed
run_requests kind email [] buckets = (0, buckets)
run_requests kind email ((ip, now) ∷ rs) buckets =
    let (sent, buckets') = send_allowed kind email ip now buckets in
    let (n, buckets'') = run_requests kind email rs buckets' in
    (if sent then suc n else n, buckets'')

-- The two keys differ, since one text is longer.
pub client_key-longer :
    (kind client email : String) → client_key kind client email ≢ address_key kind email
client_key-longer kind client email e =
    let lengths = ap len e in
    absurd (
      omega (
        arith,
        lengths,
        len-append kind (":" <> (client <> (":" <> email))),
        len-append ":" (client <> (":" <> email)),
        len-append client (":" <> email),
        len-append ":" email,
        len-append kind (":" <> email),
        colon,
      ))
  where
    colon : len ":" ≡ 1
    colon = refl
