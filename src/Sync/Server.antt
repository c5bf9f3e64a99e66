-- ===== src/Sync/Server.antt =====
-- `applyMutations` of templates/next/src/lib/sync/server.ts. The lock of the tenant is held, so
-- nothing else writes; every write takes the next number of the sequence, as the trigger of the
-- tables does (templates/next/prisma/migrations/20260712230000_init/migration.sql). A field of the
-- data that is not of its declared type counts as missing.
use evo_platform.Base.{
  ℕ, suc, Bool, not_set, String, Option, none, some, List, [], ◌∷◌, ◌++◌, ◌==◌, string_eq,
  if◌then◌else◌,
}
use evo_platform.Base.Rows.{find, update_where}
use evo_platform.Platform.{truthy}

pub record ProjectData : Type 0 where
  pub name : Option String
  pub description : Option String
  pub status : Option String

pub record TaskData : Type 0 where
  pub project_id : Option String
  pub title : Option String
  pub done : Bool

-- `table` and `op` of a mutation, with its data.
pub data Change : Type 0 where
  upsert_project : Option ProjectData → Change
  delete_project : Change
  upsert_task : Option TaskData → Change
  delete_task : Change

pub record Mutation : Type 0 where
  pub seq : ℕ
  pub id : String
  pub change : Change

pub data RejectReason : Type 0 where
  id_conflict invalid : RejectReason

pub record Project : Type 0 where
  pub id : String
  pub tenant_id : String
  pub name : String
  pub description : Option String
  pub status : String
  pub deleted_at : Option ℕ
  pub row_version : ℕ

pub record Task : Type 0 where
  pub id : String
  pub tenant_id : String
  pub project_id : String
  pub title : String
  pub done : Bool
  pub deleted_at : Option ℕ
  pub row_version : ℕ

pub record Store : Type 0 where
  pub projects : List Project
  pub tasks : List Task
  -- the last number that the sequence gave
  pub last_version : ℕ

-- A push of the loop's body: of the mutation's `seq` to `applied`, or to `rejected` with a reason.
pub data Answer : Type 0 where
  applied : Answer
  rejected : RejectReason → Answer

abbrev pub has_project_id : String → Project → Bool
has_project_id id p = p.id == id

abbrev pub has_task_id : String → Task → Bool
has_task_id id t = t.id == id

-- `project.create`, `project.update`; and so for a task.
unfoldable pub add_project : (ℕ → Project) → Store → Store
add_project p s =
    let version = suc s.last_version in
    record s { projects = s.projects ++ (p version ∷ []); last_version = version }

abbrev pub stamped_project : (Project → Project) → ℕ → Project → Project
stamped_project f version p = record (f p) { row_version = version }

unfoldable pub save_project : String → (Project → Project) → Store → Store
save_project id f s =
    let version = suc s.last_version in
    record s {
      projects = update_where (has_project_id id) (stamped_project f version) s.projects;
      last_version = version;
    }

unfoldable pub add_task : (ℕ → Task) → Store → Store
add_task t s =
    let version = suc s.last_version in
    record s { tasks = s.tasks ++ (t version ∷ []); last_version = version }

abbrev pub stamped_task : (Task → Task) → ℕ → Task → Task
stamped_task f version t = record (f t) { row_version = version }

unfoldable pub save_task : String → (Task → Task) → Store → Store
save_task id f s =
    let version = suc s.last_version in
    record s {
      tasks = update_where (has_task_id id) (stamped_task f version) s.tasks;
      last_version = version;
    }

abbrev pub new_project : String → String → String → Option String → String → ℕ → Project
new_project tenant_id id name description status version = record {
  id = id;
  tenant_id = tenant_id;
  name = name;
  description = description;
  status = status;
  deleted_at = none;
  row_version = version;
}

abbrev pub written_project : String → Option String → String → Project → Project
written_project name description status p = record p {
  name = name;
  description = description;
  status = status;
  deleted_at = none;
}

-- The upsert of a project whose data are valid, by the row that has its id.
abbrev pub put_project :
    String → String → String → Option String → String → Option Project → Store → List Answer × Store
put_project tenant_id id name description status none s =
    (Answer.applied ∷ [], add_project (new_project tenant_id id name description status) s)
put_project tenant_id id name description status (some p) s =
    if p.tenant_id == tenant_id
    then (Answer.applied ∷ [], save_project id (written_project name description status) s)
    else (Answer.rejected RejectReason.id_conflict ∷ [], s)

abbrev pub check_project :
    String → String → Option String → Option String → Option String → Store → List Answer × Store
check_project tenant_id id none description status s =
    (Answer.rejected RejectReason.invalid ∷ [], s)
check_project tenant_id id (some name) description none s =
    (Answer.rejected RejectReason.invalid ∷ [], s)
check_project tenant_id id (some name) description (some status) s =
    put_project tenant_id id name description status (find (has_project_id id) s.projects) s

abbrev pub project_deleted : ℕ → Project → Project
project_deleted now p = record p { deleted_at = some now }

-- The deletion of a project: a tombstone, unless it has one or there is no row.
abbrev pub bury_project : ℕ → String → String → Option Project → Store → List Answer × Store
bury_project now tenant_id id none s = (Answer.applied ∷ [], s)
bury_project now tenant_id id (some p) s =
    if p.tenant_id == tenant_id
    then (
      Answer.applied ∷ [],
      if not_set p.deleted_at then save_project id (project_deleted now) s else s,
    )
    else (Answer.rejected RejectReason.id_conflict ∷ [], s)

abbrev pub new_task : String → String → String → String → Bool → ℕ → Task
new_task tenant_id id project_id title done version = record {
  id = id;
  tenant_id = tenant_id;
  project_id = project_id;
  title = title;
  done = done;
  deleted_at = none;
  row_version = version;
}

abbrev pub written_task : String → Bool → Task → Task
written_task title done t = record t { title = title; done = done; deleted_at = none }

abbrev pub put_task :
    String → String → String → String → Bool → Option Task → Store → List Answer × Store
put_task tenant_id id project_id title done none s =
    (Answer.applied ∷ [], add_task (new_task tenant_id id project_id title done) s)
put_task tenant_id id project_id title done (some t) s =
    if t.tenant_id == tenant_id
    then (Answer.applied ∷ [], save_task id (written_task title done) s)
    else (Answer.rejected RejectReason.id_conflict ∷ [], s)

-- The upsert of a task whose data are valid, by the row of its project: a project that was never
-- pushed is made as a stub.
abbrev pub put_task_in :
    String → String → String → String → Bool → Option Project → Store → List Answer × Store
put_task_in tenant_id id project_id title done none s =
    let s' = add_project (new_project tenant_id project_id project_id none "Active") s in
    put_task tenant_id id project_id title done (find (has_task_id id) s'.tasks) s'
put_task_in tenant_id id project_id title done (some p) s =
    if p.tenant_id == tenant_id
    then put_task tenant_id id project_id title done (find (has_task_id id) s.tasks) s
    else (Answer.rejected RejectReason.id_conflict ∷ [], s)

abbrev pub check_task :
    String → String → Option String → Option String → Bool → Store → List Answer × Store
check_task tenant_id id none title done s = (Answer.rejected RejectReason.invalid ∷ [], s)
check_task tenant_id id (some project_id) none done s =
    (Answer.rejected RejectReason.invalid ∷ [], s)
check_task tenant_id id (some project_id) (some title) done s =
    put_task_in tenant_id id project_id title done (find (has_project_id project_id) s.projects) s

abbrev pub task_deleted : ℕ → Task → Task
task_deleted now t = record t { deleted_at = some now }

abbrev pub bury_task : ℕ → String → String → Option Task → Store → List Answer × Store
bury_task now tenant_id id none s = (Answer.applied ∷ [], s)
bury_task now tenant_id id (some t) s =
    if t.tenant_id == tenant_id
    then (
      Answer.applied ∷ [],
      if not_set t.deleted_at then save_task id (task_deleted now) s else s,
    )
    else (Answer.rejected RejectReason.id_conflict ∷ [], s)

-- The body of the loop: its pushes in order, and the store after it.
unfoldable pub apply_change : ℕ → String → String → Change → Store → List Answer × Store
apply_change now tenant_id id (Change.upsert_project none) s =
    (Answer.rejected RejectReason.invalid ∷ [], s)
apply_change now tenant_id id (Change.upsert_project (some data_)) s =
    check_project tenant_id id (truthy data_.name) data_.description data_.status s
apply_change now tenant_id id Change.delete_project s =
    bury_project now tenant_id id (find (has_project_id id) s.projects) s
apply_change now tenant_id id (Change.upsert_task none) s =
    (Answer.rejected RejectReason.invalid ∷ [], s)
apply_change now tenant_id id (Change.upsert_task (some data_)) s =
    check_task tenant_id id (truthy data_.project_id) (truthy data_.title) data_.done s
apply_change now tenant_id id Change.delete_task s =
    bury_task now tenant_id id (find (has_task_id id) s.tasks) s

pub record ApplyResult : Type 0 where
  pub applied : List ℕ
  pub rejected : List (ℕ × RejectReason)

-- What the pushes of one mutation add before those of the later ones.
unfoldable pub answered : ℕ → List Answer → ApplyResult → ApplyResult
answered seq [] r = r
answered seq (Answer.applied ∷ answers) r =
    let rest = answered seq answers r in record rest { applied = seq ∷ rest.applied }
answered seq (Answer.rejected reason ∷ answers) r =
    let rest = answered seq answers r in record rest { rejected = (seq, reason) ∷ rest.rejected }

unfoldable pub apply_mutations : ℕ → String → List Mutation → Store → ApplyResult × Store
unfolding apply_change answered
apply_mutations now tenant_id [] s = (record { applied = []; rejected = [] }, s)
apply_mutations now tenant_id (m ∷ ms) s =
    let (answers, s') = apply_change now tenant_id m.id m.change s in
    let (rest, s'') = apply_mutations now tenant_id ms s' in (answered m.seq answers rest, s'')
