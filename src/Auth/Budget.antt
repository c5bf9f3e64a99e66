-- ===== src/Auth/Budget.antt =====
-- The budget of messages for one address in one window (`sendAllowed`,
-- platform/src/auth/account-flows.service.ts).
use evo_platform.Base.{
  ℕ, suc, ◌+◌, ◌-◌, ◌≤◌, ◌≡◌, ◌≢◌, refl, ap, ◌∙◌, false, String, Option, none, some, [], ◌∷◌,
  string_eq, nat_eq, ltb, leb, arith, Bool-cases, inl, inr, ==_refl,
}
use evo_platform.Base.Rows.{length}
use evo_platform.Auth.Limiter.{
  Bucket, Buckets, set_bucket, allow_send, window_ms, per_address, per_client, client_of,
  address_key, client_key, send_allowed, charge, Requests, run_requests, client_key-longer,
}
use evo_platform.Platform.{truthy}

-- The requests come before the end of the window.
abbrev pub Within : ℕ → Requests → Type 0
Within end [] = Unit
Within end ((ip, now) ∷ rs) = (now ≤ end) × Within end rs

abbrev fresh : ℕ → Bucket
fresh now = record { count = 1; reset_at = now + window_ms }

set_bucket-other :
    (k key : String) (b : Bucket) (buckets : Buckets)
    → key ≢ k
    → set_bucket key b buckets k ≡ buckets k
set_bucket-other k key b buckets apart = ground (arith, apart)

set_bucket-same :
    (key : String) (b : Bucket) (buckets : Buckets) → set_bucket key b buckets key ≡ some b
set_bucket-same key b buckets = rw (==_refl key) refl

-- A charge of another bucket leaves a bucket alone.
charge-other :
    (k key : String) (max now : ℕ) (found : Option Bucket) (buckets : Buckets)
    → key ≢ k
    → (charge key max now found buckets).1 k ≡ buckets k
charge-other k key max now none buckets apart = set_bucket-other k key (fresh now) buckets apart
charge-other k key max now (some b) buckets apart = elim (Bool-cases (ltb b.reset_at now)) [
  | inl over ↦ rw over (set_bucket-other k key (fresh now) buckets apart)
  | inr live ↦ rw live (set_bucket-other k key (record b { count = suc b.count }) buckets apart)
]

-- A request in the window of the address's bucket.
module _ (kind email : String) (ip : Option String) (now : ℕ) (b : Bucket) (buckets : Buckets) where
  abbrev key : String
  key = address_key kind email

  abbrev counted_up : Bucket
  counted_up = record b { count = suc b.count }

  send_allowed-counts :
      buckets key ≡ some b
      → now ≤ b.reset_at
      → (send_allowed kind email ip now buckets).1 key ≡ some counted_up
  unfolding send_allowed allow_send
  send_allowed-counts found live =
      let in_time : ltb b.reset_at now ≡ false = ground (arith, live) in
      elim (Bool-cases (leb (suc b.count) per_address)) [
        | inl sent ↦
            let after = set_bucket key counted_up buckets in
            let other = client_key kind (client_of (truthy ip)) email in
            rw (found, in_time, sent)
              (charge-other key other per_client now (after other) after
                  (client_key-longer kind (client_of (truthy ip)) email)
                ∙ set_bucket-same key counted_up buckets)
        | inr refused ↦ rw (found, in_time, refused) (set_bucket-same key counted_up buckets)
      ]

  send_allowed-spent :
      buckets key ≡ some b
      → now ≤ b.reset_at
      → per_address ≤ b.count
      → (send_allowed kind email ip now buckets).0 ≡ false
  unfolding send_allowed allow_send
  send_allowed-spent found live spent =
      let in_time : ltb b.reset_at now ≡ false = ground (arith, live) in
      let refused : leb (suc b.count) per_address ≡ false = ground (arith, spent) in
      rw (found, in_time, refused) refl

-- Requests within the window of the address's bucket.
module _ (kind email : String) where
  run_requests-bound :
      (rs : Requests) (b : Bucket) (buckets : Buckets)
      → buckets (address_key kind email) ≡ some b
      → Within b.reset_at rs
      → (run_requests kind email rs buckets).0 ≤ per_address - b.count
  unfolding run_requests
  run_requests-bound [] b buckets found within = omega arith
  run_requests-bound ((ip, now) ∷ rs) b buckets found (live, within) =
      let after = (send_allowed kind email ip now buckets).1 in
      let rest =
        run_requests-bound rs (counted_up kind email ip now b buckets) after
          (send_allowed-counts kind email ip now b buckets found live) within in
      elim (Bool-cases (leb per_address b.count)) [
        | inl spent ↦
            rw (send_allowed-spent kind email ip now b buckets found live (ground (arith, spent)))
              (omega (arith, rest))
        | inr left ↦ ground (arith, rest, left)
      ]

  run_requests-counts :
      (rs : Requests) (b : Bucket) (buckets : Buckets)
      → buckets (address_key kind email) ≡ some b
      → Within b.reset_at rs
      → (run_requests kind email rs buckets).1 (address_key kind email)
        ≡ some (record b { count = b.count + length rs })
  unfolding run_requests
  run_requests-counts [] b buckets found within =
      found ∙ ap (λ n. some (record b { count = n })) (omega arith)
  run_requests-counts ((ip, now) ∷ rs) b buckets found (live, within) =
      run_requests-counts rs (counted_up kind email ip now b buckets)
        (send_allowed kind email ip now buckets).1
        (send_allowed-counts kind email ip now b buckets found live) within
      ∙ ap (λ n. some (record b { count = n })) (omega arith)

-- The first request for an address opens its window.
send_allowed-opens :
    (kind email : String) (ip : Option String) (now : ℕ) (buckets : Buckets)
    → buckets (address_key kind email) ≡ none
    → (send_allowed kind email ip now buckets).1 (address_key kind email) ≡ some (fresh now)
unfolding send_allowed allow_send
send_allowed-opens kind email ip now buckets found =
    let key = address_key kind email in
    let other = client_key kind (client_of (truthy ip)) email in
    let after = set_bucket key (fresh now) buckets in
    rw found (
      charge-other key other per_client now (after other) after
        (client_key-longer kind (client_of (truthy ip)) email)
      ∙ set_bucket-same key (fresh now) buckets)

-- An address that has no bucket yet gets at most 20 messages of one kind for the requests of the 15
-- minutes from the first, whoever makes them and however many there are.
pub run_requests_bounded :
    (kind email : String) (ip : Option String) (now : ℕ) (rs : Requests) (buckets : Buckets)
    → buckets (address_key kind email) ≡ none
    → Within (now + window_ms) rs
    → (run_requests kind email ((ip, now) ∷ rs) buckets).0 ≤ per_address
unfolding run_requests
run_requests_bounded kind email ip now rs buckets found within =
    let after = (send_allowed kind email ip now buckets).1 in
    let rest =
      run_requests-bound kind email rs (fresh now) after
        (send_allowed-opens kind email ip now buckets found) within in
    elim (Bool-cases (send_allowed kind email ip now buckets).0) [
      | inl sent ↦ rw sent (omega (arith, rest))
      | inr refused ↦ rw refused (omega (arith, rest))
    ]

-- Of an address that has no bucket yet: after 20 requests or more within the 15 minutes from the
-- first, any further request within them is refused, whoever makes it. It does not matter who made
-- the others, nor whether they were sent.
pub run_requests_spends_all :
    (kind email : String) (ip : Option String) (now : ℕ) (rs : Requests) (buckets : Buckets)
    (owner : Option String) (later : ℕ)
    → buckets (address_key kind email) ≡ none
    → Within (now + window_ms) rs
    → 19 ≤ length rs
    → later ≤ now + window_ms
    → (send_allowed kind email owner later (run_requests kind email ((ip, now) ∷ rs) buckets).1).0
      ≡ false
unfolding run_requests
run_requests_spends_all kind email ip now rs buckets owner later found within many live =
    let after = (send_allowed kind email ip now buckets).1 in
    send_allowed-spent kind email owner later (record (fresh now) { count = 1 + length rs })
      (run_requests kind email rs after).1
      (run_requests-counts kind email rs (fresh now) after
        (send_allowed-opens kind email ip now buckets found) within)
      live (omega (arith, many))
