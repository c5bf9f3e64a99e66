-- ===== src/Billing/Isolation.antt =====
-- An event of Stripe changes one row of `app_tenants`, that of the pair that it is routed to, and
-- the audit log (`handleEvent`, platform/src/billing/billing.service.ts).
pub mod Steps
use evo_platform.Base.{
  ◌≡◌, refl, ap, ◌&&◌, Bool, true, false, not, String, Option, none, some, arith, inl, inr,
  Option-cases, Bool-cases, string_eq, ◌==◌,
}
use evo_platform.Base.Rows.{filter, find, find_sound}
use evo_platform.Platform.{
  AppTenant, is_suspended, is_past_due, AuditEvent, Db, Env, truthy, record_event, pure, ◌>>◌,
}
use evo_platform.Billing.Stripe.{
  Metadata, Subscription, Invoice, Session, Event, invoice_subscription_id,
}
use evo_platform.Billing.Rows.{is_pair, find_pair, create_app_tenant, update_app_tenant}
use evo_platform.Billing.Webhook.{
  access_by_subscription_id, acknowledge_orphan, named_pair, subscription_row, row_for, sync_row,
  upsert_row, tier_of, billed_status, is_owned_by_other, sync_missing, sync_found,
  sync_subscription, on_invoice_paid, on_payment_failed, on_checkout_completed, is_payment,
  upsert_purchase, purchase, recover, lapse, recovered_row, lapsed_row, repurchased_row,
  synced_event, recovered_event, failed_event, purchased_event, handle_event, enabled_row,
  synced_row, purchased_row,
}
use Steps.{
  Touches, Touches-refl, Touches-record_event, Touches-update_app_tenant, Touches-create_app_tenant,
  Touches-on_foreign_key, Touches-update_event, Touches-finish,
}

abbrev row_key : Option AppTenant → String × String
row_key none = ("", "")
row_key (some r) = (r.tenant_id, r.app_id)

-- The pair that a subscription's event is about: the one its metadata names, or else that of the
-- row that the subscription owns.
abbrev pair_for : Subscription → Db → Option (String × String) → String × String
pair_for sub d none = row_key (access_by_subscription_id (some sub.id) d)
pair_for sub d (some p) = p

abbrev subscription_pair : Subscription → Db → String × String
subscription_pair sub d = pair_for sub d (named_pair sub.metadata)

abbrev invoice_pair : Invoice → Db → String × String
invoice_pair i d = row_key (access_by_subscription_id (invoice_subscription_id i) d)

abbrev pair_or_empty : Option (String × String) → String × String
pair_or_empty none = ("", "")
pair_or_empty (some p) = p

abbrev session_pair : Session → String × String
session_pair s = pair_or_empty (named_pair s.metadata)

-- The pair that an event is routed to.
abbrev pub routed_pair : Event → Db → String × String
routed_pair (Event.subscription_created sub) d = subscription_pair sub d
routed_pair (Event.subscription_updated sub) d = subscription_pair sub d
routed_pair (Event.subscription_deleted sub) d = subscription_pair sub d
routed_pair (Event.invoice_paid i) d = invoice_pair i d
routed_pair (Event.invoice_payment_failed i) d = invoice_pair i d
routed_pair (Event.checkout_session_completed s) d = session_pair s
routed_pair Event.other d = ("", "")

key_of_found :
    (t a : String) (d : Db) (r : AppTenant)
    → find_pair t a d ≡ some r
    → (r.tenant_id ≡ t) × (r.app_id ≡ a)
unfolding find_pair
key_of_found t a d r h = ground (arith, find_sound (is_pair t a) d.app_tenants h)

Touches-acknowledge_orphan :
    (p : String × String) (s : String) (meta : Metadata) (st : String) (d d' : Db)
    → Touches p d d'
    → Touches p d (acknowledge_orphan s meta st d').1
unfolding acknowledge_orphan
Touches-acknowledge_orphan p s meta st d d' h = Touches-record_event p _ d d' h

Touches-sync_found :
    (env : Env) (sub : Subscription) (tier : Option String) (r : AppTenant) (d : Db)
    → Touches (r.tenant_id, r.app_id) d (sync_found env sub tier r d).1
unfolding sync_found synced_row
Touches-sync_found env sub tier r d =
    elim (Bool-cases (is_owned_by_other sub r && is_suspended (billed_status sub.status))) [
      | inl old ↦ rw old (Touches-refl _ d)
      | inr live ↦ rw live (
          Touches-update_event r.tenant_id r.app_id (synced_row env sub tier) (synced_event sub) d
            (λ x. (refl, refl)))
    ]

Touches-sync_missing :
    (env : Env) (sub : Subscription) (tier : Option String) (t a : String) (d : Db)
    → Touches (t, a) d (sync_missing env sub tier (some (t, a)) d).1
unfolding sync_missing enabled_row
Touches-sync_missing env sub tier t a d =
    Touches-on_foreign_key (t, a) (create_app_tenant (enabled_row env sub t a tier))
      (acknowledge_orphan sub.id sub.metadata sub.status)
      (λ row. record_event (synced_event sub row) >> pure true) d
      (Touches-create_app_tenant (enabled_row env sub t a tier) d)
      (λ d' h. Touches-acknowledge_orphan (t, a) sub.id sub.metadata sub.status d d' h)
      (λ row d' h. Touches-finish (t, a) (synced_event sub row) true d d' h)

-- The row and the pair are those that the metadata leads to.
Touches-sync_row :
    (env : Env) (sub : Subscription) (tier : Option String) (named : Option (String × String))
    (access : Option AppTenant) (d : Db)
    → named_pair sub.metadata ≡ named
    → row_for sub d named ≡ access
    → Touches (pair_for sub d named) d (sync_row env sub tier access d).1
unfolding sync_missing
Touches-sync_row env sub tier none none d e f = rw e (Touches-refl _ d)
Touches-sync_row env sub tier none (some r) d e f = rw f (Touches-sync_found env sub tier r d)
Touches-sync_row env sub tier (some (t, a)) none d e f =
    rw e (Touches-sync_missing env sub tier t a d)
Touches-sync_row env sub tier (some (t, a)) (some r) d e f =
    let (same_t, same_a) = key_of_found t a d r f in
    rw (← same_t, ← same_a) (Touches-sync_found env sub tier r d)

Touches-sync_subscription :
    (env : Env) (sub : Subscription) (d : Db)
    → Touches (subscription_pair sub d) d (sync_subscription env sub d).1
unfolding sync_subscription subscription_row
Touches-sync_subscription env sub d =
    Touches-sync_row env sub (tier_of sub d) (named_pair sub.metadata) (subscription_row sub d) d
      refl refl

Touches-upsert_row :
    (t a : String) (tier : Option String) (access : Option AppTenant) (d : Db)
    → Touches (t, a) d (upsert_row t a tier access d).1
unfolding purchased_row
Touches-upsert_row t a tier none d = Touches-create_app_tenant (purchased_row t a tier) d
Touches-upsert_row t a tier (some _) d =
    Touches-update_app_tenant t a (repurchased_row tier) d (λ x. (refl, refl))

Touches-purchase :
    (s : Session) (named : Option (String × String)) (d : Db)
    → Touches (pair_or_empty named) d (purchase s named d).1
unfolding purchase upsert_purchase
Touches-purchase s none d = Touches-refl _ d
Touches-purchase s (some (t, a)) d =
    Touches-on_foreign_key (t, a) (upsert_purchase t a s.metadata.tier)
      (acknowledge_orphan s.id s.metadata "checkout_paid")
      (λ _. record_event (purchased_event s (t, a)) >> pure true) d
      (Touches-upsert_row t a s.metadata.tier (find_pair t a d) d)
      (λ d' h. Touches-acknowledge_orphan (t, a) s.id s.metadata "checkout_paid" d d' h)
      (λ _ d' h. Touches-finish (t, a) (purchased_event s (t, a)) true d d' h)

Touches-on_checkout_completed :
    (s : Session) (d : Db) → Touches (session_pair s) d (on_checkout_completed s d).1
unfolding on_checkout_completed
Touches-on_checkout_completed s d = elim (Bool-cases (is_payment s.mode && s.is_paid)) [
  | inl paid ↦ rw paid (Touches-purchase s (named_pair s.metadata) d)
  | inr unpaid ↦ rw unpaid (Touches-refl _ d)
]

Touches-recover :
    (access : Option AppTenant) (d : Db) → Touches (row_key access) d (recover access d).1
unfolding recover
Touches-recover none d = Touches-refl _ d
Touches-recover (some r) d = elim (Bool-cases (not (is_past_due r.status))) [
  | inl other ↦ rw other (Touches-refl _ d)
  | inr past_due ↦ rw past_due (
      Touches-update_event r.tenant_id r.app_id recovered_row (λ _. recovered_event r) d
        (λ x. (refl, refl)))
]

Touches-lapse :
    (env : Env) (access : Option AppTenant) (d : Db)
    → Touches (row_key access) d (lapse env access d).1
unfolding lapse
Touches-lapse env none d = Touches-refl _ d
Touches-lapse env (some r) d =
    Touches-update_event r.tenant_id r.app_id (lapsed_row env) (λ _. failed_event env r) d
      (λ x. (refl, refl))

-- Whatever the event and however it ends, every row of `app_tenants` of a pair other than the one
-- that the event is routed to stands as it stood, and no table changes but that one and the log.
pub handle_event-Touches :
    (env : Env) (e : Event) (d : Db) → Touches (routed_pair e d) d (handle_event env e d).1
unfolding handle_event on_invoice_paid on_payment_failed
handle_event-Touches env (Event.subscription_created sub) d = Touches-sync_subscription env sub d
handle_event-Touches env (Event.subscription_updated sub) d = Touches-sync_subscription env sub d
handle_event-Touches env (Event.subscription_deleted sub) d = Touches-sync_subscription env sub d
handle_event-Touches env (Event.invoice_paid i) d =
    Touches-recover (access_by_subscription_id (invoice_subscription_id i) d) d
handle_event-Touches env (Event.invoice_payment_failed i) d =
    Touches-lapse env (access_by_subscription_id (invoice_subscription_id i) d) d
handle_event-Touches env (Event.checkout_session_completed s) d = Touches-on_checkout_completed s d
handle_event-Touches env Event.other d = Touches-refl _ d
