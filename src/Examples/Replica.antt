-- ===== src/Examples/Replica.antt =====
-- The theorems on the synchronisation and on tenants, at concrete requests.
use mathlib.Core.List.{Memᴰ}
use evo_platform.Base.{
  ℕ, ◌≡◌, ◌<◌, ◌+◌, refl, true, false, not, String, none, some, List, [], ◌∷◌, ◌==◌, string_eq,
  nat_eq, option_eq, arith,
}
use evo_platform.Base.Rows.{find, filter, any, count_where}
use evo_platform.Platform.{Tenant, User, AppTenant, Db, is_ok}
use evo_platform.Auth.Sessions.{LoginDto, login}
use evo_platform.People.Users.{is_active_admin}
use evo_platform.Tenants.Service.{has_tenant_id, suspend}
use evo_platform.Tenants.Purge.{
  is_member_of, is_access_of, is_invite_of, purge, purge_erases, purge_removes_last_admin,
}
use evo_platform.Tenants.Suspension.{suspend-login}
use evo_platform.Sync.Server.{
  ProjectData, Change, Mutation, RejectReason, Project, Task, Store, apply_change, apply_mutations,
}
use evo_platform.Sync.Answers.{apply_mutations_answers}
use evo_platform.Sync.Outcome.{Done, apply_change_sound}
use evo_platform.Sync.Tenancy.{HasKeys, KeepsOthers, apply_mutations_isolated}
use evo_platform.Sync.Pull.{
  pull_changes, project_page, task_page, take, order_by_version, insert_ordered, last_of,
  next_cursor,
}
use evo_platform.Sync.GapFree.{pull_changes-projects, pull_changes-tasks, pull_changes_progresses}
use evo_platform.Examples.Tenancy.{env_at, acme, ada, bob, db}

abbrev pub project_of : String → String → ℕ → Project
project_of id tenant_id version = record {
  id = id;
  tenant_id = tenant_id;
  name = "Roof";
  description = none;
  status = "Active";
  deleted_at = none;
  row_version = version;
}

abbrev pub first : Project
first = project_of "p1" "t1" 3

abbrev pub second : Project
second = project_of "p2" "t1" 5

abbrev pub other : Project
other = project_of "p3" "t2" 4

abbrev pub task_one : Task
task_one = record {
  id = "k1";
  tenant_id = "t1";
  project_id = "p1";
  title = "Measure";
  done = false;
  deleted_at = none;
  row_version = 6;
}

abbrev pub store : Store
store = record { projects = second ∷ first ∷ other ∷ []; tasks = task_one ∷ []; last_version = 6 }

abbrev pub roof : ProjectData
roof = record { name = some "Roof"; description = none; status = some "Done" }

-- An upsert of an own project, and one of a project of another tenant.
abbrev pub push : List Mutation
push =
    record { seq = 1; id = "p1"; change = Change.upsert_project (some roof) }
    ∷ record { seq = 2; id = "p3"; change = Change.delete_project }
    ∷ []

apply_mutations_answers_example :
    let (r, _) = apply_mutations 9 "t1" push store in
    count_where (λ (k : ℕ). k == 2) r.applied
      + count_where (λ (x : ℕ × RejectReason). x.0 == 2) r.rejected
    ≡ count_where (λ (m : Mutation). m.seq == 2) push
apply_mutations_answers_example = apply_mutations_answers 9 "t1" push store 2

apply_change_sound_example :
    Done "t1" "p1"
      (Change.upsert_project (some roof))
      (apply_change 9 "t1" "p1" (Change.upsert_project (some roof)) store).1
unfolding apply_change find string_eq
apply_change_sound_example =
    apply_change_sound 9 "t1" "p1" (Change.upsert_project (some roof)) store refl

apply_mutations_isolated_example :
    HasKeys (apply_mutations 9 "t1" push store).1
    × KeepsOthers "t1" store (apply_mutations 9 "t1" push store).1
unfolding any string_eq
apply_mutations_isolated_example =
    apply_mutations_isolated 9 "t1" push store
      (record { projects = (refl, (refl, (refl, tt))); tasks = (refl, tt) })

pull_changes-projects_example : Memᴰ first (pull_changes "t1" 0 1 store).projects
unfolding pull_changes project_page task_page take order_by_version insert_ordered last_of
    next_cursor filter string_eq nat_eq
pull_changes-projects_example =
    pull_changes-projects "t1" 0 1 store first (omega arith)
      ((omega arith, (omega arith, tt)), ((omega arith, tt), (tt, tt))) (Memᴰ.tail (Memᴰ.head refl))
      refl (omega arith) (omega arith)

pull_changes-tasks_example : Memᴰ task_one (pull_changes "t1" 4 5 store).tasks
unfolding pull_changes project_page task_page take order_by_version insert_ordered last_of
    next_cursor filter string_eq nat_eq
pull_changes-tasks_example =
    pull_changes-tasks "t1" 4 5 store task_one (omega arith) (tt, tt) (Memᴰ.head refl) refl
      (omega arith) (omega arith)

pull_changes_progresses_example : 0 < (pull_changes "t1" 0 1 store).cursor
unfolding pull_changes project_page task_page take order_by_version insert_ordered last_of
    next_cursor filter string_eq nat_eq
pull_changes_progresses_example = pull_changes_progresses "t1" 0 1 store (omega arith) refl

abbrev gone : Tenant
gone = record acme { deleted_at = some 3 }

abbrev gone_db : Db
gone_db = record db { tenants = gone ∷ [] }

purge_erases_example :
    let (r, d') = purge "t1" gone_db in
    (is_ok r ≡ true)
    × (any (has_tenant_id "t1") d'.tenants ≡ false)
    × (any (is_member_of "t1") d'.users ≡ false)
    × (any (is_access_of "t1") d'.app_tenants ≡ false)
    × (any (is_invite_of "t1") d'.invites ≡ false)
    × (filter (λ (u : User). not (is_member_of "t1" u)) d'.users
        ≡ filter (λ (u : User). not (is_member_of "t1" u)) gone_db.users)
    × (filter (λ (a : AppTenant). not (is_access_of "t1" a)) d'.app_tenants
        ≡ filter (λ (a : AppTenant). not (is_access_of "t1" a)) gone_db.app_tenants)
unfolding find string_eq
purge_erases_example = purge_erases "t1" gone gone_db refl refl

-- The one administrator of the platform has the account in the tenant.
abbrev local_db : Db
local_db = record gone_db { users = record ada { tenant_id = some "t1" } ∷ bob ∷ [] }

purge_removes_last_admin_example :
    (is_ok (purge "t1" local_db).0 ≡ true)
    × (any is_active_admin (purge "t1" local_db).1.users ≡ false)
unfolding find any string_eq
purge_removes_last_admin_example = purge_removes_last_admin "t1" gone local_db refl refl refl

abbrev acme_login : LoginDto
acme_login = record {
  tenant_slug = some "acme";
  email = "bob@example";
  password = "pw";
  client_id = none;
}

suspend-login_example : is_ok (login (env_at 5) acme_login (suspend "t1" db).1).0 ≡ false
unfolding find string_eq
suspend-login_example = suspend-login (env_at 5) "t1" "acme" acme acme_login db refl refl refl
