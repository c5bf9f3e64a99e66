-- ===== src/Offline/Convergence.antt =====
-- The client and the server of the synchronisation together (`runSync`,
-- templates/next/src/lib/sync/client.ts; `POST`, templates/next/src/app/api/sync/route.ts), where the
-- client has nothing to send and nobody else writes.
use mathlib.Core.List.{Memᴰ}
use evo_platform.Base.{
  ℕ, zero, suc, ◌+◌, ◌*◌, ◌≤◌, ◌<◌, ◌≡◌, ◌⊎◌, ◌&&◌, refl, sym, subst, ap, ◌∙◌, inl, inr, true,
  false, String, Option, none, some, List, [], ◌==◌, string_eq, nat_eq, arith, Bool-cases, leb, ltb,
}
use evo_platform.Base.Keyed.{NodupKeys}
use evo_platform.Base.Rows.{any, find, delete_where}
use evo_platform.Sync.Server.{Project, Store, apply_mutations}
use evo_platform.Sync.Pull.{project_version, project_page, pull_changes}
use evo_platform.Sync.GapFree.{project_page-cases, pull_changes-projects}
use evo_platform.Sync.Pages.{
  IsVersioned, same_project, mem-page, pull_changes-reaches, pull_changes-bound,
}
use evo_platform.Offline.Outbox.{
  snapshot_for_drain, collect, delete_applied, delete_seqs, has_pending,
}
use evo_platform.Offline.Local.{Replica, TenantDatabase}
use evo_platform.Sync.Route.{SyncRequest, Reply, is_behind, page_limit, serve, post}
use evo_platform.Offline.Client.{
  SyncStatus, apply_projects, apply_tasks, cursor_of, settle_outbox, take_answer, request_of,
  settle_loop, sync_round, sync_loop, sync_once,
}
use evo_platform.Offline.Mirror.{shown, shown_in, apply_projects-shown, apply_tasks-projects}

-- A project of the page is a project of the table.
project_page-mem :
    (tenant_id : String) (cursor limit : ℕ) (rows : List Project) (p : Project)
    → Memᴰ p (project_page tenant_id cursor limit rows)
    → Memᴰ p rows
unfolding project_page
project_page-mem tenant_id cursor limit rows p m =
    mem-page project_version limit (λ q. q.tenant_id == tenant_id && ltb cursor q.row_version) rows
      m

-- A page that is the last has every project after the cursor.
project_page-whole :
    (tenant_id : String) (cursor limit : ℕ) (s : Store) (p : Project)
    → IsVersioned s
    → (pull_changes tenant_id cursor limit s).has_more ≡ false
    → Memᴰ p s.projects
    → p.tenant_id ≡ tenant_id
    → cursor < p.row_version
    → Memᴰ p (pull_changes tenant_id cursor limit s).projects
unfolding pull_changes
project_page-whole tenant_id cursor limit s p v last m own after =
    elim (project_page-cases tenant_id cursor limit s.projects p v.projects_differ m own after) [
      | inl there ↦ there
      | inr (cut, _) ↦ absurd (ground (arith, last, cut))
    ]

module _ (tenant_id : String) (s : Store) where
  -- The replica shows the tenant's projects up to a version as the server has them.
  unfoldable pub Mirrors : ℕ → Replica → Type 0
  unfolding shown_in shown
  Mirrors n r =
      (p : Project)
      → Memᴰ p s.projects
      → p.tenant_id ≡ tenant_id
      → p.row_version ≤ n
      → shown_in p.id r ≡ shown p

  -- It shows all of them.
  unfoldable pub MirrorsAll : Replica → Type 0
  unfolding shown_in shown
  MirrorsAll r =
      (p : Project) → Memᴰ p s.projects → p.tenant_id ≡ tenant_id → shown_in p.id r ≡ shown p

-- What the server has to be, for one tenant.
pub record IsServed (s : Store) : Type 0 where
  pub versions : IsVersioned s
  pub ids : NodupKeys (λ (a x : Project). x.id == a.id) s.projects

-- The replica after a page, of a client with nothing to send.
abbrev paged : String → ℕ → ℕ → Store → Replica → Replica
paged tenant_id cursor limit s r =
    let p = pull_changes tenant_id cursor limit s in
    apply_tasks [] p.tasks (apply_projects [] p.projects r)

paged-shown :
    (tenant_id : String) (cursor limit : ℕ) (s : Store) (r : Replica) (p : Project)
    → IsServed s
    → Memᴰ p s.projects
    → Memᴰ p (pull_changes tenant_id cursor limit s).projects ⊎ (shown_in p.id r ≡ shown p)
    → shown_in p.id (paged tenant_id cursor limit s r) ≡ shown p
unfolding shown_in pull_changes has_pending any
paged-shown tenant_id cursor limit s r p served m h =
    let page = project_page tenant_id cursor limit s.projects in
    ap (λ rows. find (λ x. x.id == p.id) rows)
      (apply_tasks-projects [] (pull_changes tenant_id cursor limit s).tasks
        (apply_projects [] page r))
    ∙ apply_projects-shown [] page p r refl
        (λ q there same.
          same_project s.projects p q served.ids m
            (project_page-mem tenant_id cursor limit s.projects q there) same)
        h

paged-Mirrors :
    (tenant_id : String) (cursor limit : ℕ) (s : Store) (r : Replica)
    → IsServed s
    → 0 < limit
    → Mirrors tenant_id s cursor r
    → Mirrors tenant_id s
        (pull_changes tenant_id cursor limit s).cursor
        (paged tenant_id cursor limit s r)
unfolding Mirrors
paged-Mirrors tenant_id cursor limit s r served positive before p m own reached =
    paged-shown tenant_id cursor limit s r p served m
      (elim (Bool-cases (leb p.row_version cursor)) [
        | inl old ↦ inr (before p m own (ground (arith, old)))
        | inr new ↦ inl (
            pull_changes-projects tenant_id cursor limit s p positive
              served.versions.projects_differ m own (ground (arith, new)) reached)
      ])

paged-MirrorsAll :
    (tenant_id : String) (cursor limit : ℕ) (s : Store) (r : Replica)
    → IsServed s
    → (pull_changes tenant_id cursor limit s).has_more ≡ false
    → Mirrors tenant_id s cursor r
    → MirrorsAll tenant_id s (paged tenant_id cursor limit s r)
unfolding Mirrors MirrorsAll
paged-MirrorsAll tenant_id cursor limit s r served last before p m own =
    paged-shown tenant_id cursor limit s r p served m
      (elim (Bool-cases (leb p.row_version cursor)) [
        | inl old ↦ inr (before p m own (ground (arith, old)))
        | inr new ↦ inl (
            project_page-whole tenant_id cursor limit s p served.versions last m own
              (ground (arith, new)))
      ])

-- The server as the client of a tenant meets it.
unfoldable pub served : ℕ → Option ℕ → String → SyncRequest → Store → Reply × Store
unfolding post
served now horizon tenant_id q s = post now horizon (some tenant_id) (some q) s

-- The database of a client with nothing to send.
abbrev quiet : TenantDatabase → TenantDatabase
quiet d = record d { outbox = [] }

abbrev after_page : String → Store → TenantDatabase → TenantDatabase
after_page tenant_id s d = record d {
  outbox = [];
  replica = paged tenant_id (cursor_of d.cursor) 1000 s d.replica;
  cursor = some (pull_changes tenant_id (cursor_of d.cursor) 1000 s).cursor;
}

module _ (now sent : ℕ) (horizon : Option ℕ) (tenant_id : String) (s : Store) where
  round-more :
      (synced : Option ℕ) (d : TenantDatabase)
      → is_behind horizon (cursor_of d.cursor) ≡ false
      → (pull_changes tenant_id (cursor_of d.cursor) 1000 s).has_more ≡ true
      → sync_round (served now horizon tenant_id) sent synced (quiet d) s
        ≡ (none, (after_page tenant_id s d, s))
  unfolding sync_round served post serve request_of snapshot_for_drain collect apply_mutations
      page_limit take_answer settle_outbox delete_applied delete_seqs delete_where
  round-more synced d level more = rw (level, more) refl

  round-last :
      (synced : Option ℕ) (d : TenantDatabase)
      → is_behind horizon (cursor_of d.cursor) ≡ false
      → (pull_changes tenant_id (cursor_of d.cursor) 1000 s).has_more ≡ false
      → sync_round (served now horizon tenant_id) sent synced (quiet d) s ≡ (
        some (SyncStatus.idle (some sent)),
        (record (after_page tenant_id s d) { last_synced_at = some sent }, s),
      )
  unfolding sync_round served post serve request_of snapshot_for_drain collect apply_mutations
      page_limit take_answer settle_outbox delete_applied delete_seqs delete_where
  round-last synced d level last = rw (level, last) refl

  -- The end of a synchronisation: idle, the server untouched, and all projects shown.
  abbrev pub Synced : SyncStatus × (TenantDatabase × Store) → Type 0
  Synced (status, (d', s')) =
      (status ≡ SyncStatus.idle (some sent)) × (s' ≡ s) × MirrorsAll tenant_id s d'.replica

  loop-step :
      (n : ℕ) (synced : Option ℕ) (d : TenantDatabase)
      {r : Option SyncStatus × (TenantDatabase × Store)}
      → sync_round (served now horizon tenant_id) sent synced d s ≡ r
      → sync_loop (served now horizon tenant_id) sent (suc n) synced d s
        ≡ settle_loop r.0 r.1 (sync_loop (served now horizon tenant_id) sent n synced r.1.0 r.1.1)
  unfolding sync_loop
  loop-step n synced d e =
      ap
        (λ r.
          settle_loop r.0 r.1 (sync_loop (served now horizon tenant_id) sent n synced r.1.0 r.1.1))
        e

  loop-Synced :
      (n : ℕ) (synced : Option ℕ) (d : TenantDatabase)
      → IsServed s
      → ((c : ℕ) → cursor_of d.cursor ≤ c → is_behind horizon c ≡ false)
      → cursor_of d.cursor ≤ s.last_version
      → s.last_version < cursor_of d.cursor + n * 1000
      → Mirrors tenant_id s (cursor_of d.cursor) d.replica
      → Synced (sync_loop (served now horizon tenant_id) sent n synced (quiet d) s)
  loop-Synced zero synced d served_ level within enough before = absurd (omega arith)
  loop-Synced (suc n) synced d served_ level within enough before =
      elim (Bool-cases (pull_changes tenant_id (cursor_of d.cursor) 1000 s).has_more) [
        | inr last ↦
            rw
              (loop-step n synced (quiet d)
                (round-last synced d (level (cursor_of d.cursor) (omega arith)) last))
              (
                refl,
                refl,
                paged-MirrorsAll tenant_id (cursor_of d.cursor) 1000 s d.replica served_ last
                    before,
              )
        | inl more ↦
            let reaches =
              pull_changes-reaches tenant_id (cursor_of d.cursor) 1000 s served_.versions more in
            let bound =
              pull_changes-bound tenant_id (cursor_of d.cursor) 1000 s served_.versions within in
            rw
              (loop-step n synced (quiet d)
                (round-more synced d (level (cursor_of d.cursor) (omega arith)) more))
              (loop-Synced n synced (after_page tenant_id s d) served_
                (λ c h. level c (omega (arith, reaches, h))) bound
                (omega (arith, reaches, bound, enough))
                (paged-Mirrors tenant_id (cursor_of d.cursor) 1000 s d.replica served_ (omega arith)
                  before))
      ]

-- A client that has nothing to send, and whose replica shows the projects of its tenant up to its
-- cursor, against a server whose project ids and whose versions are unique: if the cursor is not past
-- the server's last number, fewer than 50000 numbers were given since, and neither the cursor nor any
-- later one is behind the horizon of the purged tombstones, then its 50 iterations are enough. It ends
-- idle, the server is as it was, and the replica shows every project of the tenant as the server has
-- it, and none that was deleted.
pub sync_once-Synced :
    (now sent : ℕ) (horizon : Option ℕ) (tenant_id : String) (s : Store) (d : TenantDatabase)
    → IsServed s
    → d.outbox ≡ []
    → ((c : ℕ) → cursor_of d.cursor ≤ c → is_behind horizon c ≡ false)
    → cursor_of d.cursor ≤ s.last_version
    → s.last_version < cursor_of d.cursor + 50000
    → Mirrors tenant_id s (cursor_of d.cursor) d.replica
    → Synced now sent horizon tenant_id s (sync_once (served now horizon tenant_id) sent d s)
unfolding sync_once
sync_once-Synced now sent horizon tenant_id s d served_ empty level within enough before =
    let e : quiet d ≡ d = ap (λ outbox. record d { outbox = outbox }) (sym empty) in
    subst
      (λ d'.
        Synced now sent horizon tenant_id s
          (sync_loop (served now horizon tenant_id) sent 50 d.last_synced_at d' s))
      e
      (loop-Synced now sent horizon tenant_id s 50 d.last_synced_at d served_ level within
        (omega (arith, enough)) before)
