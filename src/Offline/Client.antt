-- ===== src/Offline/Client.antt =====
-- The client of the synchronisation: templates/next/src/lib/sync/client.ts. What the network and the
-- server do is a parameter, with a state of its own; the user writes nothing between a request and
-- its answer. The exceptions of the local database, and the text of an error status, are left out.
use evo_platform.Base.{
  ℕ, zero, suc, true, false, Option, none, some, List, [], ◌∷◌, map, if◌then◌else◌, not_set,
}
use evo_platform.Sync.Server.{Mutation, RejectReason, Project, Task}
use evo_platform.Offline.Outbox.{DrainSnapshot, snapshot_for_drain, delete_applied, has_pending}
use evo_platform.Offline.Local.{
  LocalProject, LocalTask, Replica, TenantDatabase, put_local_project, put_local_task, drop_project,
  drop_task,
}
use evo_platform.Sync.Route.{SyncRequest, SyncResponse, Reply}

pub data SyncError : Type 0 where
  session_expired : SyncError
  http : ℕ → SyncError
  did_not_converge : SyncError

pub data SyncStatus : Type 0 where
  idle : Option ℕ → SyncStatus
  error : SyncError → Option ℕ → SyncStatus
  offline : Option ℕ → SyncStatus

abbrev pub max_pull_loops : ℕ
max_pull_loops = 50

abbrev pub local_project : Project → LocalProject
local_project p = record {
  id = p.id;
  name = p.name;
  description = p.description;
  status = p.status;
}

abbrev pub local_task : Task → LocalTask
local_task t = record { id = t.id; project_id = t.project_id; title = t.title; done = t.done }

-- A project that was pulled: one with a pending write is left alone.
unfoldable pub apply_project : List Mutation → Project → Replica → Replica
unfolding has_pending put_local_project drop_project
apply_project outbox p r =
    if has_pending true p.id outbox
    then r
    else if not_set p.deleted_at
    then put_local_project (local_project p) r
    else drop_project p.id r

unfoldable pub apply_task : List Mutation → Task → Replica → Replica
unfolding has_pending put_local_task drop_task
apply_task outbox t r =
    if has_pending false t.id outbox
    then r
    else if not_set t.deleted_at
    then put_local_task (local_task t) r
    else drop_task t.id r

unfoldable pub apply_projects : List Mutation → List Project → Replica → Replica
unfolding apply_project
apply_projects outbox [] r = r
apply_projects outbox (p ∷ ps) r = apply_projects outbox ps (apply_project outbox p r)

unfoldable pub apply_tasks : List Mutation → List Task → Replica → Replica
unfolding apply_task
apply_tasks outbox [] r = r
apply_tasks outbox (t ∷ ts) r = apply_tasks outbox ts (apply_task outbox t r)

abbrev pub cursor_of : Option ℕ → ℕ
cursor_of none = 0
cursor_of (some n) = n

abbrev seq_of_rejected : ℕ × RejectReason → ℕ
seq_of_rejected r = r.0

-- What is left in the queue after the answer: neither what was applied nor what was rejected.
unfoldable pub settle_outbox : DrainSnapshot → SyncResponse → List Mutation → List Mutation
unfolding delete_applied
settle_outbox snapshot a outbox =
    delete_applied snapshot (map seq_of_rejected a.rejected)
      (delete_applied snapshot a.applied outbox)

-- The rest of the loop's body, from an answer that asks for no new start.
unfoldable pub take_answer : DrainSnapshot → SyncResponse → TenantDatabase → TenantDatabase
unfolding settle_outbox apply_projects apply_tasks
take_answer snapshot a d =
    let outbox = settle_outbox snapshot a d.outbox in
    record d {
      outbox = outbox;
      replica = apply_tasks outbox a.tasks (apply_projects outbox a.projects d.replica);
      cursor = some a.cursor;
    }

-- The wipe of the replica: the queue stays.
unfoldable pub wipe : TenantDatabase → TenantDatabase
wipe d = record d { replica = record { projects = []; tasks = [] }; cursor = some 0 }

-- What an iteration returns, if it ends the loop, and the database after it.
abbrev pub take_response :
    ℕ → DrainSnapshot → SyncResponse → TenantDatabase → Option SyncStatus × TenantDatabase
take_response now snapshot a d =
    if a.resync_required
    then (none, wipe d)
    else if a.has_more
    then (none, take_answer snapshot a d)
    else (
      some (SyncStatus.idle (some now)),
      record (take_answer snapshot a d) { last_synced_at = some now },
    )

abbrev pub take_reply :
    ℕ → Option ℕ → DrainSnapshot → Reply → TenantDatabase → Option SyncStatus × TenantDatabase
take_reply now synced snapshot Reply.unreachable d = (some (SyncStatus.offline synced), d)
take_reply now synced snapshot Reply.no_session d =
    (some (SyncStatus.error SyncError.session_expired synced), d)
take_reply now synced snapshot (Reply.refused status) d =
    (some (SyncStatus.error (SyncError.http status) synced), d)
take_reply now synced snapshot (Reply.answer a) d = take_response now snapshot a d

unfoldable pub request_of : DrainSnapshot → TenantDatabase → SyncRequest
request_of snapshot d = record {
  cursor = cursor_of d.cursor;
  pull_limit = none;
  mutations = snapshot.to_send;
}

abbrev pub settle_loop : {A B : Type 0} → Option A → B → A × B → A × B
settle_loop none b rest = rest
settle_loop (some a) b rest = (a, b)

-- `navigator.locks`: not there, free, or held by another tab.
pub data Lock : Type 0 where
  unsupported free held : Lock

module _ {S : Type 0} (exchange : SyncRequest → S → Reply × S) (now : ℕ) where
  -- One iteration.
  unfoldable pub sync_round :
      Option ℕ → TenantDatabase → S → Option SyncStatus × (TenantDatabase × S)
  unfolding snapshot_for_drain request_of take_answer wipe
  sync_round synced d s =
      let snapshot = snapshot_for_drain d.outbox in
      let (reply, s') = exchange (request_of snapshot d) s in
      let (status, d') = take_reply now synced snapshot reply d in (status, (d', s'))

  -- The loop, by the iterations that are left.
  unfoldable pub sync_loop : ℕ → Option ℕ → TenantDatabase → S → SyncStatus × (TenantDatabase × S)
  unfolding sync_round
  sync_loop zero synced d s = (SyncStatus.error SyncError.did_not_converge synced, (d, s))
  sync_loop (suc n) synced d s =
      let (status, (d', s')) = sync_round synced d s in
      let rest = sync_loop n synced d' s' in settle_loop status (d', s') rest

  unfoldable pub sync_once : TenantDatabase → S → SyncStatus × (TenantDatabase × S)
  unfolding sync_loop
  sync_once d s = sync_loop max_pull_loops d.last_synced_at d s

  unfoldable pub run_sync : Lock → TenantDatabase → S → SyncStatus × (TenantDatabase × S)
  unfolding sync_once
  run_sync Lock.unsupported d s = sync_once d s
  run_sync Lock.free d s = sync_once d s
  run_sync Lock.held d s = (SyncStatus.idle d.last_synced_at, (d, s))
