-- ===== src/Examples/Client.antt =====
-- The theorems on the client of the synchronisation, at concrete queues and replicas.
use evo_platform.Base.{
  ℕ, ◌≡◌, ◌≤◌, refl, ap, false, String, none, some, List, [], ◌∷◌, ◌++◌, string_eq, nat_eq, arith,
  inl, inr,
}
use evo_platform.Base.Rows.{find, filter, any, update_where, delete_where, mem-cases}
use mathlib.Core.List.{Memᴰ}
use evo_platform.Sync.Server.{
  Change, Mutation, TaskData, Project, save_project, apply_change, apply_mutations,
}
use evo_platform.Offline.Outbox.{snapshot_for_drain, delete_applied}
use evo_platform.Sync.Pull.{
  order_by_version, insert_ordered, project_version, pull_changes, project_page, task_page, take,
  last_of, next_cursor,
}
use evo_platform.Offline.Coalescing.{last_of_rows, snapshot_for_drain-last_of_rows}
use evo_platform.Offline.Drain.{is_answered, delete_applied_keeps_newer}
use evo_platform.Offline.Local.{LocalTask, TenantDatabase}
use evo_platform.Sync.Route.{SyncResponse}
use evo_platform.Offline.Client.{sync_once}
use evo_platform.Sync.Pages.{IsVersioned}
use evo_platform.Offline.Convergence.{IsServed, Mirrors, served, Synced, sync_once-Synced}
use evo_platform.Sync.Tenancy.{HasKeys}
use evo_platform.Sync.Delivery.{apply_mutations-pull_changes}
use evo_platform.Examples.Replica.{first, task_one, store, push, roof}

abbrev write : ℕ → String → Mutation
write seq id = record { seq = seq; id = id; change = Change.upsert_project (some roof) }

abbrev task_data : TaskData
task_data = record { project_id = some "p1"; title = some "Saw"; done = false }

abbrev task_write : ℕ → String → Mutation
task_write seq id = record { seq = seq; id = id; change = Change.upsert_task (some task_data) }

-- Two writes of one project with a write of another between them.
abbrev queue : List Mutation
queue = write 1 "p1" ∷ write 2 "p2" ∷ write 3 "p1" ∷ []

snapshot_for_drain-last_of_rows_example : (snapshot_for_drain queue).to_send ≡ last_of_rows queue
snapshot_for_drain-last_of_rows_example =
    snapshot_for_drain-last_of_rows queue
      ((omega arith, (omega arith, tt)), ((omega arith, tt), (tt, tt)))

delete_applied_keeps_newer_example :
    delete_applied (snapshot_for_drain queue) (3 ∷ []) (queue ++ write 4 "p1" ∷ [])
    ≡ delete_where (is_answered (3 ∷ []) queue) queue ++ write 4 "p1" ∷ []
delete_applied_keeps_newer_example = delete_applied_keeps_newer (3 ∷ []) queue (write 4 "p1" ∷ []) (
  (omega arith, (omega arith, (omega arith, tt))),
  ((omega arith, (omega arith, tt)), ((omega arith, tt), (tt, tt))),
)

abbrev empty_db : TenantDatabase
empty_db = record {
  replica = record { projects = []; tasks = [] };
  outbox = [];
  last_seq = 0;
  cursor = none;
  last_synced_at = none;
}

store-IsVersioned : IsVersioned store
store-IsVersioned = record {
  projects_differ = ((omega arith, (omega arith, tt)), ((omega arith, tt), (tt, tt)));
  tasks_differ = (tt, tt);
  projects_bound = λ p m. elim (mem-cases m) [
    | inl e ↦ rw e (omega arith)
    | inr m' ↦ elim (mem-cases m') [
      | inl e ↦ rw e (omega arith)
      | inr m'' ↦ elim (mem-cases m'') [
        | inl e ↦ rw e (omega arith)
        | inr none_left ↦ elim none_left [ ]
      ]
    ]
  ];
  tasks_bound =
      λ t m. elim (mem-cases m) [ inl e ↦ rw e (omega arith) | inr none_left ↦ elim none_left [ ] ];
}

store-HasKeys : HasKeys store
unfolding any string_eq
store-HasKeys = record { projects = (refl, (refl, (refl, tt))); tasks = (refl, tt) }

store-IsServed : IsServed store
store-IsServed = record { versions = store-IsVersioned; ids = store-HasKeys.projects }

nothing_yet : Mirrors "t1" store 0 empty_db.replica
unfolding Mirrors
nothing_yet p m own old = elim (mem-cases m) [
  | inl e ↦ absurd (late 5 (omega arith) (rw e at old))
  | inr m' ↦ elim (mem-cases m') [
    | inl e ↦ absurd (late 3 (omega arith) (rw e at old))
    | inr m'' ↦ elim (mem-cases m'') [
      | inl e ↦ absurd (late 4 (omega arith) (rw e at old))
      | inr none_left ↦ elim none_left [ ]
    ]
  ]
]
  where
    late : (n : ℕ) → 1 ≤ n → n ≤ 0 → ⊥
    late n h k = omega arith

sync_once-Synced_example :
    Synced 9 11 (some 0) "t1" store (sync_once (served 9 (some 0) "t1") 11 empty_db store)
sync_once-Synced_example =
    sync_once-Synced 9 11 (some 0) "t1" store empty_db store-IsServed refl (λ c h. ground arith)
      (omega arith) (omega arith) nothing_yet

-- The project that the push rewrites.
abbrev rewritten : Project
rewritten = record first { status = "Done"; row_version = 7 }

not_before : ¬ Memᴰ rewritten store.projects
not_before m = elim (mem-cases m) [
  | inl e ↦ apart 5 (omega arith) (ap project_version e)
  | inr m' ↦ elim (mem-cases m') [
    | inl e ↦ apart 3 (omega arith) (ap project_version e)
    | inr m'' ↦ elim (mem-cases m'') [
      | inl e ↦ apart 4 (omega arith) (ap project_version e)
      | inr none_left ↦ elim none_left [ ]
    ]
  ]
]
  where
    apart : (n : ℕ) → n ≤ 6 → 7 ≡ n → ⊥
    apart n h e = omega arith

apply_mutations-pull_changes_example :
    Memᴰ rewritten (pull_changes "t1" 6 5 (apply_mutations 9 "t1" push store).1).projects
unfolding apply_mutations apply_change save_project update_where pull_changes project_page task_page
    take order_by_version insert_ordered last_of next_cursor find filter string_eq nat_eq
apply_mutations-pull_changes_example =
    apply_mutations-pull_changes 9 6 5 "t1" push store rewritten store-HasKeys store-IsVersioned
      (omega arith) (omega arith) (Memᴰ.tail (Memᴰ.head refl)) not_before refl (omega arith)

-- A client with a project and a task, and a write of each that is not sent yet.
abbrev saw : LocalTask
saw = record { id = "p1::k"; project_id = "p1"; title = "Saw"; done = false }

abbrev waiting_db : TenantDatabase
waiting_db = record {
  replica = record {
    projects = record { id = "p1"; name = "Attic"; description = none; status = "Active" } ∷ [];
    tasks = saw ∷ [];
  };
  outbox = write 1 "p1" ∷ task_write 2 "p1::k" ∷ [];
  last_seq = 2;
  cursor = none;
  last_synced_at = none;
}

-- The server's row of the project, which was sent before the writes.
abbrev pulled : SyncResponse
pulled = record {
  applied = [];
  rejected = [];
  projects = first ∷ [];
  tasks = task_one ∷ [];
  cursor = 6;
  has_more = false;
  resync_required = false;
}
