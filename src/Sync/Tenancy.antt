-- ===== src/Sync/Tenancy.antt =====
-- A push touches the rows of its tenant alone (`applyMutations`,
-- templates/next/src/lib/sync/server.ts).
use evo_platform.Base.{ℕ, ◌≡◌, refl, ◌∙◌, not, String, List, [], ◌∷◌, ◌==◌, string_eq}
use evo_platform.Base.Rows.{filter}
use evo_platform.Base.Keyed.{NodupKeys}
use evo_platform.Sync.Server.{Project, Task, Store, Mutation, apply_change, apply_mutations}
use evo_platform.Sync.Steps.{TableStep-foreign, apply_change-Step}

-- The ids of the projects differ, and so do those of the tasks.
pub record HasKeys (s : Store) : Type 0 where
  pub projects : NodupKeys (λ (a x : Project). x.id == a.id) s.projects
  pub tasks : NodupKeys (λ (a x : Task). x.id == a.id) s.tasks

-- The rows of the other tenants, in both tables.
pub record KeepsOthers (tenant_id : String) (s s' : Store) : Type 0 where
  pub projects :
      filter (λ (p : Project). not (p.tenant_id == tenant_id)) s'.projects
      ≡ filter (λ (p : Project). not (p.tenant_id == tenant_id)) s.projects
  pub tasks :
      filter (λ (t : Task). not (t.tenant_id == tenant_id)) s'.tasks
      ≡ filter (λ (t : Task). not (t.tenant_id == tenant_id)) s.tasks

-- However many mutations a push of a tenant has, and whatever ids they name: if ids are unique
-- before, they are unique after, and every project and every task of the other tenants stands as it
-- stood, in the same order.
pub apply_mutations_isolated :
    (now : ℕ) (tenant_id : String) (ms : List Mutation) (s : Store)
    → HasKeys s
    → HasKeys (apply_mutations now tenant_id ms s).1
      × KeepsOthers tenant_id s (apply_mutations now tenant_id ms s).1
unfolding apply_mutations
apply_mutations_isolated now tenant_id [] s keys = (keys, record { projects = refl; tasks = refl })
apply_mutations_isolated now tenant_id (m ∷ ms) s keys =
    let s' = (apply_change now tenant_id m.id m.change s).1 in
    let (projects, tasks) = apply_change-Step now tenant_id m.id m.change s in
    let (project_keys, project_rows) =
      TableStep-foreign (λ (p : Project). p.id) (λ (p : Project). p.tenant_id) projects
        keys.projects in
    let (task_keys, task_rows) =
      TableStep-foreign (λ (t : Task). t.id) (λ (t : Task). t.tenant_id) tasks keys.tasks in
    let (keys', rest) =
      apply_mutations_isolated now tenant_id ms s'
        (record { projects = project_keys; tasks = task_keys }) in
    (keys', record { projects = rest.projects ∙ project_rows; tasks = rest.tasks ∙ task_rows })
