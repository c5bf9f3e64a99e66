-- ===== src/Billing/Isolation/Steps.antt =====
-- The relation between two databases that differ in one row of `app_tenants` and in the audit log,
-- and the steps of the webhook's handlers (platform/src/billing/billing.service.ts) that keep to it.
use evo_platform.Base.{
  ◌≡◌, refl, ap, ◌&&◌, ◌||◌, Bool, true, not, String, List, [], ◌∷◌, ◌++◌, arith, inl, inr,
  Option-cases, Bool-cases, string_eq, ◌==◌,
}
use evo_platform.Base.Rows.{any, filter, filter-update_where, update_where}
use evo_platform.Platform.{
  Tenant, App, Result, Failure, Constraint, ◌>>=◌, ◌>>◌, rescue, AppTenant, AuditEvent, Db, Action,
  ok, err, pure, record_event, on_foreign_key,
}
use evo_platform.Billing.Rows.{
  subscription_taken, is_pair, find_pair, create_app_tenant, update_app_tenant,
}

abbrev pub is_outside : String × String → AppTenant → Bool
is_outside p r = not (is_pair p.0 p.1 r)

-- From `d` to `d'`, every row of another pair stands as it stood, in its place, and the only other
-- table that may differ is the audit log.
pub record Touches (p : String × String) (d d' : Db) : Type 0 where
  pub others : filter (is_outside p) d'.app_tenants ≡ filter (is_outside p) d.app_tenants
  pub rest : d' ≡ record d { app_tenants = d'.app_tenants; audit_events = d'.audit_events }

pub Touches-refl : (p : String × String) (d : Db) → Touches p d d
Touches-refl p d = record { others = refl; rest = refl }

pub Touches-record_event :
    (p : String × String) (e : AuditEvent) (d d' : Db)
    → Touches p d d'
    → Touches p d (record_event e d').1
unfolding record_event
Touches-record_event p e d d' h = record {
  others = h.others;
  rest = ap (λ (x : Db). record x { audit_events = d'.audit_events ++ e ∷ [] }) h.rest;
}

-- A write that keeps the key of a row.
abbrev pub KeepsKey : (AppTenant → AppTenant) → Type 0
KeepsKey f = (r : AppTenant) → ((f r).tenant_id ≡ r.tenant_id) × ((f r).app_id ≡ r.app_id)

filter-update_pair :
    (t a : String) (f : AppTenant → AppTenant) (rows : List AppTenant)
    → KeepsKey f
    → filter (is_outside (t, a)) (update_where (is_pair t a) f rows)
      ≡ filter (is_outside (t, a)) rows
filter-update_pair t a f rows keeps =
    filter-update_where (is_outside (t, a)) (is_pair t a) f rows (λ r h. ground (arith, keeps r))

pub Touches-update_app_tenant :
    (t a : String) (f : AppTenant → AppTenant) (d : Db)
    → KeepsKey f
    → Touches (t, a) d (update_app_tenant t a f d).1
unfolding update_app_tenant
Touches-update_app_tenant t a f d keeps = elim (Option-cases (find_pair t a d)) [
  | inl missing ↦ rw (missing, update_app_tenant) (Touches-refl (t, a) d)
  | inr (r, found) ↦ elim (Bool-cases (subscription_taken (f r) d.app_tenants)) [
    | inl taken ↦ rw (found, update_app_tenant, taken) (Touches-refl (t, a) d)
    | inr free ↦
        rw (found, update_app_tenant, free)
          (record { others = filter-update_pair t a f d.app_tenants keeps; rest = refl })
  ]
]

filter_of_outside :
    (row : AppTenant) (rows : List AppTenant)
    → filter (is_outside (row.tenant_id, row.app_id)) (rows ++ row ∷ [])
      ≡ filter (is_outside (row.tenant_id, row.app_id)) rows
unfolding filter
filter_of_outside row [] = ground arith
filter_of_outside row (r ∷ rows) = ground (arith, filter_of_outside row rows)

pub Touches-create_app_tenant :
    (row : AppTenant) (d : Db) → Touches (row.tenant_id, row.app_id) d (create_app_tenant row d).1
unfolding create_app_tenant
Touches-create_app_tenant row d =
    elim (Bool-cases (
      any (is_pair row.tenant_id row.app_id) d.app_tenants
      || subscription_taken row d.app_tenants)) [
        | inl taken ↦ rw taken (Touches-refl _ d)
        | inr free ↦
            elim (Bool-cases (
              any (λ (t : Tenant). t.id == row.tenant_id) d.tenants
              && any (λ (a : App). a.id == row.app_id) d.apps)) [
                | inl known ↦
                    rw (free, known)
                      (record { others = filter_of_outside row d.app_tenants; rest = refl })
                | inr unknown ↦ rw (free, unknown) (Touches-refl _ d)
              ]
      ]

-- The handler of a foreign key error, over parts that touch the pair.
pub Touches-on_foreign_key :
    {A : Type 0} (p : String × String) (m : Action A) (h : Action Bool) (k : A → Action Bool)
    (d : Db)
    → Touches p d (m d).1
    → ((d' : Db) → Touches p d d' → Touches p d (h d').1)
    → ((x : A) (d' : Db) → Touches p d d' → Touches p d (k x d').1)
    → Touches p d (on_foreign_key m h k d).1
Touches-on_foreign_key {A} p m h k d here handled goes = go (m d) here
  where
    go : (r : Result A × Db) → Touches p d r.1 → Touches p d (rescue h k r.0 r.1).1
    go (ok x, d') t = goes x d' t
    go (err (Failure.database Constraint.p2003), d') t = handled d' t
    go (err _, d') t = t

-- A step of a method, over parts that touch the pair.
pub Touches->>= :
    {A : Type 0} (p : String × String) (m : Action A) (k : A → Action Bool) (d : Db)
    → Touches p d (m d).1
    → ((x : A) (d' : Db) → Touches p d d' → Touches p d (k x d').1)
    → Touches p d ((m >>= k) d).1
Touches->>= {A} p m k d here goes = go (m d) here
  where
    go :
        (r : Result A × Db)
        → Touches p d r.1
        → Touches p d
            (elim r.0 as (λ _. Result Bool × Db) [ err e ↦ (err e, r.1) | ok x ↦ k x r.1 ]).1
    go (ok x, d') t = goes x d' t
    go (err e, d') t = t

-- The end of a handler: an audit event, and the flag.
pub Touches-finish :
    (p : String × String) (e : AuditEvent) (b : Bool) (d d' : Db)
    → Touches p d d'
    → Touches p d ((record_event e >> pure b) d').1
unfolding record_event
Touches-finish p e b d d' h = Touches-record_event p e d d' h

-- An update of one row by its key, an audit event, and the flag.
pub Touches-update_event :
    (t a : String) (f : AppTenant → AppTenant) (e : AppTenant → AuditEvent) (d : Db)
    → KeepsKey f
    → Touches (t, a) d ((update_app_tenant t a f >>= λ row. record_event (e row) >> pure true) d).1
Touches-update_event t a f e d keeps =
    Touches->>= (t, a) (update_app_tenant t a f) (λ row. record_event (e row) >> pure true) d
      (Touches-update_app_tenant t a f d keeps)
      (λ row d' h. Touches-finish (t, a) (e row) true d d' h)
