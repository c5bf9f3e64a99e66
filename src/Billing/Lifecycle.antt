-- ===== src/Billing/Lifecycle.antt =====
-- The status of a pair under the events of Stripe (`handleEvent`,
-- platform/src/billing/billing.service.ts).
use mathlib.Core.Option.{none-ne-some}
use evo_platform.Base.{
  ◌≤◌, ◌≡◌, refl, ◌&&◌, Bool, true, false, String, Option, none, some, List, arith, Bool-cases, inl,
  inr, ◌==◌, ◌=?◌, ◌⊎◌, string_eq,
}
use evo_platform.Base.Rows.{
  find, find_sound, filter, update_where, count_where, count_where-update_where,
}
use evo_platform.Base.Keyed.{NodupKeys, filter-update_found, find-update_found}
use evo_platform.Platform.{
  AppTenant, AppTenantStatus, is_suspended, is_past_due, Db, Env, record_event,
}
use evo_platform.Billing.Stripe.{Subscription, Invoice, invoice_subscription_id}
use evo_platform.Billing.Rows.{is_pair, find_pair, subscription_taken, update_app_tenant}
use evo_platform.Billing.Access.{is_enabled}
use evo_platform.Billing.Webhook.{
  access_by_subscription_id, subscription_row, billed_status, is_owned_by_other, sync_found,
  synced_row, sync_subscription, recovered_row, recover, on_invoice_paid, lapsed_row, lapse,
  on_payment_failed, tier_of, grace_deadline,
}

-- The primary key of the table.
abbrev same_pair : AppTenant → AppTenant → Bool
same_pair a x = is_pair a.tenant_id a.app_id x

same_pair_refl : (a : AppTenant) → same_pair a a ≡ true
same_pair_refl a = ground arith

same_pair_comm : (a b : AppTenant) → same_pair a b ≡ same_pair b a
same_pair_comm a b = ground arith

-- No two rows have one pair.
abbrev pub NodupPairs : List AppTenant → Type 0
NodupPairs rows = NodupKeys same_pair rows

unfoldable pub is_owner : String → AppTenant → Bool
is_owner s r = r.stripe_subscription_id =? s

pub access_found :
    (id : Option String) (d : Db) {a : AppTenant}
    → access_by_subscription_id id d ≡ some a
    → (s : String) × (id ≡ some s)
      × (find (is_owner s) d.app_tenants ≡ some a)
      × ((d' : Db) → access_by_subscription_id id d' ≡ find (is_owner s) d'.app_tenants)
unfolding access_by_subscription_id is_owner
access_found none d h = absurd (none-ne-some _ h)
access_found (some s) d h = elim (Bool-cases (s == "")) [
  | inl empty ↦ absurd (ground (arith, empty))
  | inr named ↦ (s, refl, ground arith, λ d'. rw (named, access_by_subscription_id))
]

-- An update by key leaves the table alone, or makes the update of the rows with the key.
app_tenants-update :
    (t a : String) (f : AppTenant → AppTenant) (d : Db)
    → ((update_app_tenant t a f d).1.app_tenants ≡ d.app_tenants)
      ⊎ ((update_app_tenant t a f d).1.app_tenants ≡ update_where (is_pair t a) f d.app_tenants)
unfolding update_app_tenant
app_tenants-update t a f d = ground arith

-- What `recover` does to the table, by the row that it is given.
app_tenants-recover :
    (a : AppTenant) (d : Db)
    → ((recover (some a) d).1.app_tenants ≡ d.app_tenants)
      ⊎ ((is_past_due a.status ≡ true)
          × ((recover (some a) d).1.app_tenants
              ≡ update_where (is_pair a.tenant_id a.app_id) recovered_row d.app_tenants))
unfolding recover record_event
app_tenants-recover a d = ground (arith, app_tenants-update a.tenant_id a.app_id recovered_row d)

recover_keeps_suspended :
    (id : Option String) (access : Option AppTenant) (d : Db)
    → access_by_subscription_id id d ≡ access
    → NodupPairs d.app_tenants
    → filter (λ r. is_suspended r.status) (recover access d).1.app_tenants
      ≡ filter (λ r. is_suspended r.status) d.app_tenants
unfolding recover
recover_keeps_suspended id none d e u = refl
recover_keeps_suspended id (some a) d e u =
    let (s, _, owner, _) = access_found id d e in
    elim (app_tenants-recover a d) [
      | inl same ↦ rw same
      | inr (past_due, updated) ↦ rw updated (
          filter-update_found same_pair same_pair_refl same_pair_comm (is_owner s) recovered_row
            d.app_tenants u owner (λ r. is_suspended r.status) (ground arith) refl)
    ]

-- Where no two rows have one pair, a paid invoice leaves every suspended row as it is, whether
-- billing or an administrator suspended it: the suspended rows before and after are the same, in the same order.
pub invoice_paid_keeps_suspended :
    (invoice : Invoice) (d : Db)
    → NodupPairs d.app_tenants
    → filter (λ r. is_suspended r.status) (on_invoice_paid invoice d).1.app_tenants
      ≡ filter (λ r. is_suspended r.status) d.app_tenants
unfolding on_invoice_paid
invoice_paid_keeps_suspended invoice d u =
    recover_keeps_suspended (invoice_subscription_id invoice)
      (access_by_subscription_id (invoice_subscription_id invoice) d) d refl u

-- What an event of a subscription does to the table, by the row that it is given.
pub app_tenants-sync_found :
    (env : Env) (sub : Subscription) (tier : Option String) (a : AppTenant) (d : Db)
    → ((sync_found env sub tier a d).1.app_tenants ≡ d.app_tenants)
      ⊎ ((is_owned_by_other sub a && is_suspended (billed_status sub.status) ≡ false)
          × ((sync_found env sub tier a d).1.app_tenants
              ≡ update_where
                  (is_pair a.tenant_id a.app_id)
                  (synced_row env sub tier)
                  d.app_tenants))
unfolding sync_found record_event
app_tenants-sync_found env sub tier a d =
    ground (arith, app_tenants-update a.tenant_id a.app_id (synced_row env sub tier) d)

-- Where the row of an event of a subscription is owned by another subscription, the event suspends
-- nothing: there are no more suspended rows than before.
pub replaced_subscription_suspends_none :
    (env : Env) (sub : Subscription) (a : AppTenant) (d : Db)
    → subscription_row sub d ≡ some a
    → is_owned_by_other sub a ≡ true
    → count_where (λ r. is_suspended r.status) (sync_subscription env sub d).1.app_tenants
      ≤ count_where (λ r. is_suspended r.status) d.app_tenants
unfolding sync_subscription synced_row
replaced_subscription_suspends_none env sub a d found other =
    rw found (elim (app_tenants-sync_found env sub (tier_of sub d) a d) [
      | inl same ↦ rw same (omega arith)
      | inr (live, updated) ↦ rw updated (
          count_where-update_where (λ r. is_suspended r.status) (is_pair a.tenant_id a.app_id)
            (synced_row env sub (tier_of sub d)) d.app_tenants (λ r. ground (arith, live, other)))
    ])

update_app_tenant-ok :
    (t a : String) (f : AppTenant → AppTenant) (d : Db) {r : AppTenant}
    → find_pair t a d ≡ some r
    → subscription_taken (f r) d.app_tenants ≡ false
    → (update_app_tenant t a f d).1.app_tenants ≡ update_where (is_pair t a) f d.app_tenants
unfolding update_app_tenant
update_app_tenant-ok t a f d found free = ground arith

app_tenants-lapse :
    (env : Env) (a : AppTenant) (d : Db)
    → (lapse env (some a) d).1.app_tenants
      ≡ (update_app_tenant a.tenant_id a.app_id (lapsed_row env) d).1.app_tenants
unfolding lapse record_event
app_tenants-lapse env a d = ground arith

-- A failed payment reopens a suspended row that has no grace window, where no two rows have one pair
-- or one subscription: it becomes past due with a new window, so that the row, which
-- was not enabled, is enabled at once, and it is the row that the subscription has afterwards.
pub payment_failed_reopens :
    (env : Env) (invoice : Invoice) (a : AppTenant) (d : Db)
    → NodupPairs d.app_tenants
    → access_by_subscription_id (invoice_subscription_id invoice) d ≡ some a
    → find_pair a.tenant_id a.app_id d ≡ some a
    → subscription_taken (lapsed_row env a) d.app_tenants ≡ false
    → a.status ≡ AppTenantStatus.suspended
    → a.grace_until ≡ none
    → (is_enabled env.now a ≡ false)
      × (is_enabled env.now (lapsed_row env a) ≡ true)
      × (access_by_subscription_id
            (invoice_subscription_id invoice)
            (on_payment_failed env invoice d).1
          ≡ some (lapsed_row env a))
unfolding on_payment_failed is_enabled grace_deadline is_owner
payment_failed_reopens env invoice a d u found keyed free suspended open_ended =
    let (s, _, owner, again) = access_found (invoice_subscription_id invoice) d found in
    (
      ground arith,
      ground arith,
      rw
          (
            again _,
            found,
            app_tenants-lapse env a d,
            update_app_tenant-ok a.tenant_id a.app_id (lapsed_row env) d keyed free,
          )
          (find-update_found same_pair same_pair_refl same_pair_comm (is_owner s) (lapsed_row env)
            d.app_tenants u owner (ground (arith, find_sound (is_owner s) d.app_tenants owner))),
    )
