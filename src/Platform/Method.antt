-- ===== src/Platform/Method.antt =====
-- A service method: it reads and writes the database, and may throw. What was written before a
-- throw stays written, since only `$transaction` rolls back.
use evo_platform.Base.{
  ◌≡◌, refl, ap, ◌⊎◌, inl, inr, arith, String, Bool, true, false, Option, none, some, List, [], ◌∷◌,
  ◌++◌,
}
use evo_platform.Platform.Schema.{Db, AuditEvent, Detail}

-- The client's error codes: a unique constraint, a foreign key.
pub data Constraint : Type 0 where
  p2002 p2003 : Constraint

-- What a method throws: the HTTP exceptions with their messages, and errors of the database.
pub data Failure : Type 0 where
  bad_request unauthorized forbidden not_found conflict unavailable : String → Failure
  database : Constraint → Failure
  internal : Failure

pub data Result {ℓ} (A : Type ℓ) : Type ℓ where
  ok : A → Result A
  err : Failure → Result A

abbrev pub Action : Type 0 → Type 0
Action A = Db → Result A × Db

infixl 5 ◌>>=◌ ◌>>◌
abbrev pub ◌>>=◌ : {A B : Type 0} → Action A → (A → Action B) → Action B
◌>>=◌ m k d = let (r, d') = m d in elim r [ err e ↦ (err e, d') | ok a ↦ k a d' ]

abbrev pub ◌>>◌ : {A B : Type 0} → Action A → Action B → Action B
m >> k = m >>= λ _. k

module _ {A : Type 0} where
  abbrev pub pure : A → Action A
  pure a d = (ok a, d)

  abbrev pub throw : Failure → Action A
  throw e d = (err e, d)

  abbrev pub query : (Db → A) → Action A
  query f d = (ok (f d), d)

  -- `if (!row) throw …`
  abbrev pub found_or : Failure → Option A → Action A
  found_or e none = throw e
  found_or e (some a) = pure a

abbrev pub change : (Db → Db) → Action (Unit {0})
change f d = (ok tt, f d)

abbrev pub throw_if : Bool → Failure → Action (Unit {0})
throw_if true e = throw e
throw_if false e = pure tt

-- `AuditService.record`
unfoldable pub record_event : AuditEvent → Action (Unit {0})
record_event e = change (λ d. record d { audit_events = d.audit_events ++ (e ∷ []) })

abbrev pub audit : String → Option String → Option String → List (String × Detail) → AuditEvent
audit action tenant_id user_id detail = record {
  action = action;
  tenant_id = tenant_id;
  user_id = user_id;
  app_client_id = none;
  detail = detail;
}

-- The handler of `try { row = await m } catch (e) { if (e.code !== 'P2003') throw e; return h }`.
abbrev pub rescue : {A B : Type 0} → Action B → (A → Action B) → Result A → Action B
rescue h k (ok a) = k a
rescue h k (err (database p2003)) = h
rescue h k (err e) = throw e

abbrev pub on_foreign_key : {A B : Type 0} → Action A → Action B → (A → Action B) → Action B
on_foreign_key m h k d = let (r, d') = m d in rescue h k r d'

-- `value ?? null` in a detail record
abbrev pub nullable : Option String → Detail
nullable none = Detail.null
nullable (some s) = Detail.text s

-- A method that succeeds: each of its steps has succeeded.
bind_inv :
    {A B : Type 0} (r : Result A × Db) (k : A → Action B) {b : B} {d' : Db}
    → (elim r.0 as (λ _. Result B × Db) [ err e ↦ (err e, r.1) | ok a ↦ k a r.1 ]) ≡ (ok b, d')
    → (a : A) × (e : Db) × (r ≡ (ok a, e)) × (k a e ≡ (ok b, d'))
bind_inv (ok a, e) k h = (a, e, refl, h)
bind_inv (err x, e) k h = cc

pub bind-eq-ok :
    {A B : Type 0} (m : Action A) (k : A → Action B) (d : Db) {b : B} {d' : Db}
    → (m >>= k) d ≡ (ok b, d')
    → (a : A) × (e : Db) × (m d ≡ (ok a, e)) × (k a e ≡ (ok b, d'))
bind-eq-ok m k d h = bind_inv (m d) k h

pub found_or-eq-ok :
    {A : Type 0} (x : Failure) (o : Option A) (d : Db) {a : A} {d' : Db}
    → found_or x o d ≡ (ok a, d')
    → (o ≡ some a) × (d' ≡ d)
found_or-eq-ok x none d h = cc
found_or-eq-ok x (some b) d h = ground arith

pub throw_if-eq-ok :
    (b : Bool) (x : Failure) (d : Db) {u : Unit {0}} {d' : Db}
    → throw_if b x d ≡ (ok u, d')
    → (b ≡ false) × (d' ≡ d)
throw_if-eq-ok true x d h = cc
throw_if-eq-ok false x d h = ground arith

-- The method returned, and did not throw.
abbrev pub is_ok {ℓ} : {A : Type ℓ} → Result A → Bool
is_ok (ok _) = true
is_ok (err _) = false

pub Result-cases :
    {A : Type 0} (r : Result A × Db) → (is_ok r.0 ≡ false) ⊎ ((a : A) × (d : Db) × (r ≡ (ok a, d)))
Result-cases (ok a, d) = inr (a, d, refl)
Result-cases (err e, d) = inl refl

-- The rest of a method, after a step that succeeded.
pub bind-ok :
    {A B : Type 0} (m : Action A) (k : A → Action B) (d : Db) {a : A} {e : Db}
    → m d ≡ (ok a, e)
    → (m >>= k) d ≡ k a e
bind-ok {A} {B} m k d h =
    ap
      (λ (x : Result A × Db). elim x.0 as (λ _. Result B × Db) [
        | err f ↦ (err f, x.1)
        | ok a ↦ k a x.1
      ])
      h
