-- ===== src/Offline/Local.antt =====
-- The database of a client (templates/next/src/lib/offline/tenantDb.ts) and the writes of the user
-- (templates/next/src/lib/data/projects.ts). The instants of writing are left out, and so is the
-- event that asks for a synchronisation. An identifier that is drawn at random is an argument.
use evo_platform.Base.{
  ℕ, suc, Bool, false, not, String, ◌<>◌, Option, none, some, List, [], ◌∷◌, ◌++◌, ◌==◌, string_eq,
  if◌then◌else◌,
}
use evo_platform.Base.Rows.{find, any, update_where, delete_where}
use evo_platform.Sync.Server.{ProjectData, TaskData, Change, Mutation}
use evo_platform.Offline.Outbox.{enqueue, purge_for_project}

pub record LocalProject : Type 0 where
  pub id : String
  pub name : String
  pub description : Option String
  pub status : String

pub record LocalTask : Type 0 where
  pub id : String
  pub project_id : String
  pub title : String
  pub done : Bool

-- The rows of the two tables that the server has too.
pub record Replica : Type 0 where
  pub projects : List LocalProject
  pub tasks : List LocalTask

pub record TenantDatabase : Type 0 where
  pub replica : Replica
  pub outbox : List Mutation
  -- the last number that the queue gave
  pub last_seq : ℕ
  -- rows of `meta`
  pub cursor : Option ℕ
  pub last_synced_at : Option ℕ

abbrev pub is_project_row : String → LocalProject → Bool
is_project_row id p = p.id == id

abbrev pub is_task_row : String → LocalTask → Bool
is_task_row id t = t.id == id

abbrev pub is_task_of_project : String → LocalTask → Bool
is_task_of_project project_id t = t.project_id == project_id

-- `put`: the row of the key is replaced, or there is a new one.
unfoldable pub put_row {ℓ} : {A : Type ℓ} → (A → Bool) → A → List A → List A
unfolding update_where any
put_row is_row a rows =
    if any is_row rows then update_where is_row (λ _. a) rows else rows ++ (a ∷ [])

unfoldable pub put_local_project : LocalProject → Replica → Replica
unfolding put_row
put_local_project p r = record r { projects = put_row (is_project_row p.id) p r.projects }

unfoldable pub put_local_task : LocalTask → Replica → Replica
unfolding put_row
put_local_task t r = record r { tasks = put_row (is_task_row t.id) t r.tasks }

-- `db.projects.delete(id)` and the deletion of the tasks of the project.
unfoldable pub drop_project : String → Replica → Replica
unfolding delete_where
drop_project id r = record r {
  projects = delete_where (is_project_row id) r.projects;
  tasks = delete_where (is_task_of_project id) r.tasks;
}

unfoldable pub drop_task : String → Replica → Replica
unfolding delete_where
drop_task id r = record r { tasks = delete_where (is_task_row id) r.tasks }

-- `enqueue`, with the number that the database gives.
unfoldable pub queue_change : String → Change → TenantDatabase → TenantDatabase
unfolding enqueue
queue_change id c d =
    let seq = suc d.last_seq in
    record d {
      outbox = enqueue (record { seq = seq; id = id; change = c }) d.outbox;
      last_seq = seq;
    }

unfoldable pub create_project : String → String → TenantDatabase → TenantDatabase
unfolding queue_change put_local_project
create_project id name d =
    let p : LocalProject = record { id = id; name = name; description = none; status = "Active" } in
    let data_ : ProjectData = record {
      name = some name;
      description = none;
      status = some "Active";
    } in
    queue_change id (Change.upsert_project (some data_))
      (record d { replica = put_local_project p d.replica })

abbrev pub rename_found : String → Option LocalProject → TenantDatabase → TenantDatabase
rename_found name none d = d
rename_found name (some p) d =
    let data_ : ProjectData = record {
      name = some name;
      description = p.description;
      status = some p.status;
    } in
    queue_change p.id (Change.upsert_project (some data_))
      (record d { replica = put_local_project (record p { name = name }) d.replica })

unfoldable pub rename_project : String → String → TenantDatabase → TenantDatabase
unfolding find put_local_project queue_change
rename_project id name d = rename_found name (find (is_project_row id) d.replica.projects) d

unfoldable pub delete_project : (String → String → Bool) → String → TenantDatabase → TenantDatabase
unfolding drop_project purge_for_project queue_change
delete_project starts_with id d = queue_change id Change.delete_project (record d {
  replica = drop_project id d.replica;
  outbox = purge_for_project starts_with id d.outbox;
})

abbrev pub task_data : LocalTask → TaskData
task_data t = record { project_id = some t.project_id; title = some t.title; done = t.done }

unfoldable pub add_task : String → String → String → TenantDatabase → TenantDatabase
unfolding queue_change put_local_task
add_task uuid project_id title d =
    let id = project_id <> ("::" <> uuid) in
    let t : LocalTask = record { id = id; project_id = project_id; title = title; done = false } in
    queue_change id (Change.upsert_task (some (task_data t)))
      (record d { replica = put_local_task t d.replica })

abbrev pub toggle_found : Option LocalTask → TenantDatabase → TenantDatabase
toggle_found none d = d
toggle_found (some t) d =
    let t' = record t { done = not t.done } in
    queue_change t.id (Change.upsert_task (some (task_data t')))
      (record d { replica = put_local_task t' d.replica })

unfoldable pub toggle_task : String → TenantDatabase → TenantDatabase
unfolding find put_local_task queue_change
toggle_task id d = toggle_found (find (is_task_row id) d.replica.tasks) d

unfoldable pub delete_task : String → TenantDatabase → TenantDatabase
unfolding drop_task queue_change
delete_task id d =
    queue_change id Change.delete_task (record d { replica = drop_task id d.replica })
