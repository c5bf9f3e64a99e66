-- ===== src/Sync/Delivery.antt =====
-- What a push changes reaches a client that pulls afterwards (`applyMutations` and `pullChanges`,
-- templates/next/src/lib/sync/server.ts).
use mathlib.Core.List.{Memᴰ}
use evo_platform.Base.{ℕ, ◌≤◌, ◌<◌, ◌≡◌, String, List, arith, inl, inr}
use evo_platform.Sync.Server.{Project, Task, Mutation, Store, apply_mutations}
use evo_platform.Sync.Pull.{pull_changes}
use evo_platform.Sync.GapFree.{pull_changes-projects, pull_changes-tasks}
use evo_platform.Sync.Pages.{IsVersioned}
use evo_platform.Sync.Tenancy.{HasKeys}
use evo_platform.Sync.Versions.{apply_mutations-IsVersioned}
use evo_platform.Sync.Stamps.{apply_mutations-IsStamped}

-- A project of the tenant that a push adds or changes, by an upsert, a deletion or a stub, is in the
-- page of a pull of the tenant right after the push, if the sequence had reached the pull's cursor
-- before the push and the cursor of the answer reaches the project, where the limit is not 0, and ids and versions were unique before the
-- push, no version being past the last number that the sequence had given.
pub apply_mutations-pull_changes :
    (now cursor limit : ℕ) (tenant_id : String) (ms : List Mutation) (s : Store) (p : Project)
    → HasKeys s
    → IsVersioned s
    → 0 < limit
    → cursor ≤ s.last_version
    → Memᴰ p (apply_mutations now tenant_id ms s).1.projects
    → ¬ Memᴰ p s.projects
    → p.tenant_id ≡ tenant_id
    → p.row_version
      ≤ (pull_changes tenant_id cursor limit (apply_mutations now tenant_id ms s).1).cursor
    → Memᴰ p (pull_changes tenant_id cursor limit (apply_mutations now tenant_id ms s).1).projects
apply_mutations-pull_changes now cursor limit tenant_id ms s p keys v positive seen there new own
      reached =
    let s' = (apply_mutations now tenant_id ms s).1 in
    elim ((apply_mutations-IsStamped now tenant_id ms s).projects p there) [
      | inl stood ↦ absurd (new stood)
      | inr later ↦
          pull_changes-projects tenant_id cursor limit s' p positive
            (apply_mutations-IsVersioned now tenant_id ms s keys v).projects_differ there own
            (omega (arith, seen, later)) reached
    ]

-- So is a task of the tenant, under the same conditions.
pub apply_mutations-pull_changes_tasks :
    (now cursor limit : ℕ) (tenant_id : String) (ms : List Mutation) (s : Store) (t : Task)
    → HasKeys s
    → IsVersioned s
    → 0 < limit
    → cursor ≤ s.last_version
    → Memᴰ t (apply_mutations now tenant_id ms s).1.tasks
    → ¬ Memᴰ t s.tasks
    → t.tenant_id ≡ tenant_id
    → t.row_version
      ≤ (pull_changes tenant_id cursor limit (apply_mutations now tenant_id ms s).1).cursor
    → Memᴰ t (pull_changes tenant_id cursor limit (apply_mutations now tenant_id ms s).1).tasks
apply_mutations-pull_changes_tasks now cursor limit tenant_id ms s t keys v positive seen there new
      own reached =
    let s' = (apply_mutations now tenant_id ms s).1 in
    elim ((apply_mutations-IsStamped now tenant_id ms s).tasks t there) [
      | inl stood ↦ absurd (new stood)
      | inr later ↦
          pull_changes-tasks tenant_id cursor limit s' t positive
            (apply_mutations-IsVersioned now tenant_id ms s keys v).tasks_differ there own
            (omega (arith, seen, later)) reached
    ]
