-- ===== src/People/Joining.antt =====
-- The acceptance of an invitation (`accept`, platform/src/tenant/invites.service.ts).
use evo_platform.Base.{
  ◌≡◌, refl, ◌∙◌, true, false, Option, none, some, [], ◌∷◌, ◌++◌, map, arith, Bool-cases, inl, inr,
  string_eq,
}
use evo_platform.Base.Rows.{find, any, update_where, find-update_where-same}
use evo_platform.Platform.{Tenant, Invite, Db, Env, ok, is_ok, record_event}
use evo_platform.People.Names.{is_account}
use evo_platform.People.Users.{insert_user}
use evo_platform.People.Roles.{grant, still_enabled_roles}
use evo_platform.People.Invites
use evo_platform.People.Invites.{
  AcceptInviteDto, is_hash_of, has_invite_id, is_spent, is_closed, invited_user, accepted,
  enter_new, join, accept_invite, accept_with, accept_found, tenant_of_invite,
}

-- What an acceptance that succeeds rests on, and what it writes.
pub record IsJoined (env : Env) (dto : AcceptInviteDto) (i : Invite) (d d' : Db) : Type 0 where
  pub unspent : is_spent env i ≡ false
  pub tenant : Tenant
  pub invited_to : tenant_of_invite i d ≡ some tenant
  pub open_tenant : is_closed tenant ≡ false
  pub fresh : any (is_account (some i.tenant_id) i.email) d.users ≡ false
  pub users : d'.users ≡ d.users ++ invited_user env i dto ∷ []
  pub roles :
      d'.user_roles
      ≡ d.user_roles ++ map (grant env.new_id) (still_enabled_roles i.tenant_id i.role_ids d)
  pub invites : d'.invites ≡ update_where (has_invite_id i.id) (accepted env) d.invites

enter_new_sound :
    (env : Env) (i : Invite) (dto : AcceptInviteDto) (d : Db) {u : Unit {0}} {d' : Db}
    → enter_new env i dto d ≡ (ok u, d')
    → (any (is_account (some i.tenant_id) i.email) d.users ≡ false)
      × (d'.users ≡ d.users ++ invited_user env i dto ∷ [])
      × (d'.user_roles
          ≡ d.user_roles ++ map (grant env.new_id) (still_enabled_roles i.tenant_id i.role_ids d))
      × (d'.invites ≡ update_where (has_invite_id i.id) (accepted env) d.invites)
unfolding join insert_user record_event
enter_new_sound env i dto d h = ground arith

accept_with_sound :
    (env : Env) (dto : AcceptInviteDto) (i : Invite) (t : Option Tenant) (d : Db) {u : Unit {0}}
    {d' : Db}
    → tenant_of_invite i d ≡ t
    → accept_with env dto i t d ≡ (ok u, d')
    → IsJoined env dto i d d'
unfolding accept_invite
accept_with_sound env dto i none d e h = absurd (ground arith)
accept_with_sound env dto i (some t) d {u} {d'} e h = elim (Bool-cases (is_spent env i)) [
  | inl spent ↦ absurd (ground (arith, spent))
  | inr unspent ↦ elim (Bool-cases (is_closed t)) [
    | inl closed ↦ absurd (ground (arith, unspent, closed))
    | inr open_ ↦
        let h' : enter_new env i dto d ≡ (ok u, d') = rw (unspent, open_) at h in
        let (fresh, users, roles, invites) = enter_new_sound env i dto d h' in
        record {
          unspent = unspent;
          tenant = t;
          invited_to = e;
          open_tenant = open_;
          fresh = fresh;
          users = users;
          roles = roles;
          invites = invites;
        }
  ]
]

accept_found_sound :
    (env : Env) (dto : AcceptInviteDto) (found : Option Invite) (d : Db) {u : Unit {0}} {d' : Db}
    → accept_found env dto found d ≡ (ok u, d')
    → (i : Invite) × (found ≡ some i) × IsJoined env dto i d d'
accept_found_sound env dto none d h = absurd (ground arith)
accept_found_sound env dto (some i) d h =
    (i, refl, accept_with_sound env dto i (tenant_of_invite i d) d refl h)

-- An acceptance that succeeds used the token of an invitation that is neither accepted nor expired,
-- to a tenant that is neither deleted nor suspended, for an address that has no account there; it
-- adds one account, of the invitation's tenant and address, grants it the roles of the invitation
-- whose apps are enabled for the tenant, and marks the invitation as accepted.
pub accept_sound :
    (env : Env) (dto : AcceptInviteDto) (d : Db) {u : Unit {0}} {d' : Db}
    → Invites.accept env dto d ≡ (ok u, d')
    → (i : Invite) × (find (is_hash_of (env.sha256 dto.token)) d.invites ≡ some i)
      × IsJoined env dto i d d'
unfolding Invites.accept
accept_sound env dto d h =
    accept_found_sound env dto (find (is_hash_of (env.sha256 dto.token)) d.invites) d h

accept_with_spent :
    (env : Env) (dto : AcceptInviteDto) (i : Invite) (t : Option Tenant) (d : Db)
    → is_spent env i ≡ true
    → is_ok (accept_with env dto i t d).0 ≡ false
unfolding accept_invite
accept_with_spent env dto i none d spent = refl
accept_with_spent env dto i (some t) d spent = rw spent refl

-- An invitation works once: after an acceptance that succeeded, a second one with a token of the same
-- hash is refused, whatever it asks for and at whatever time.
pub accept_single_use :
    (env env' : Env) (dto dto' : AcceptInviteDto) (d : Db) {u : Unit {0}} {d' : Db}
    → env'.sha256 dto'.token ≡ env.sha256 dto.token
    → Invites.accept env dto d ≡ (ok u, d')
    → is_ok (Invites.accept env' dto' d').0 ≡ false
unfolding Invites.accept
accept_single_use env env' dto dto' d {u} {d'} same_hash h =
    let (i, found, joined) = accept_sound env dto d h in
    let is_it = is_hash_of (env.sha256 dto.token) in
    let again : find is_it d'.invites ≡ some (accepted env i) = rw (joined.invites) (
      find-update_where-same is_it (has_invite_id i.id) (accepted env) d.invites (λ x. refl) found
      ∙ ground arith) in
    rw (same_hash, again)
      (accept_with_spent env' dto' (accepted env i) (tenant_of_invite (accepted env i) d') d' refl)
