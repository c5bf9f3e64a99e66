-- ===== src/Sync/Pull.antt =====
-- `pullChanges` of templates/next/src/lib/sync/server.ts: one page of each table, in the order of
-- the numbers of the sequence, and the cursor for the next page. The rows are handed on as they are.
use evo_platform.Base.{
  ℕ, zero, suc, Bool, true, false, ◌&&◌, ◌||◌, String, List, [], ◌∷◌, ◌==◌, string_eq, nat_eq,
  if◌then◌else◌, ltb, leb,
}
use evo_platform.Base.Rows.{filter, length}
use evo_platform.Sync.Server.{Project, Task, Store}

module _ {A : Type 0} (version : A → ℕ) where
  -- `orderBy: { rowVersion: "asc" }`
  unfoldable pub insert_ordered : A → List A → List A
  insert_ordered a [] = a ∷ []
  insert_ordered a (x ∷ xs) =
      let rest = insert_ordered a xs in if leb (version a) (version x) then a ∷ x ∷ xs else x ∷ rest

  unfoldable pub order_by_version : List A → List A
  unfolding insert_ordered
  order_by_version [] = []
  order_by_version (x ∷ xs) = insert_ordered x (order_by_version xs)

  -- The version of the last row of a page, or the cursor if it is empty.
  unfoldable pub last_of : ℕ → List A → ℕ
  last_of cursor [] = cursor
  last_of cursor (x ∷ xs) = last_of (version x) xs

-- `take: limit`
unfoldable pub take : {A : Type 0} → ℕ → List A → List A
take zero xs = []
take (suc n) [] = []
take (suc n) (x ∷ xs) = x ∷ take n xs

abbrev pub is_project_after : String → ℕ → Project → Bool
is_project_after tenant_id cursor p = p.tenant_id == tenant_id && ltb cursor p.row_version

abbrev pub is_task_after : String → ℕ → Task → Bool
is_task_after tenant_id cursor t = t.tenant_id == tenant_id && ltb cursor t.row_version

abbrev pub project_version : Project → ℕ
project_version p = p.row_version

abbrev pub task_version : Task → ℕ
task_version t = t.row_version

unfoldable pub project_page : String → ℕ → ℕ → List Project → List Project
unfolding take order_by_version
project_page tenant_id cursor limit rows =
    take limit (order_by_version project_version (filter (is_project_after tenant_id cursor) rows))

unfoldable pub task_page : String → ℕ → ℕ → List Task → List Task
unfolding take order_by_version
task_page tenant_id cursor limit rows =
    take limit (order_by_version task_version (filter (is_task_after tenant_id cursor) rows))

-- The cursor before it is kept from falling: by which of the two pages was cut, and the last version
-- of each.
abbrev pub next_of : Bool → Bool → ℕ → ℕ → ℕ
next_of false false a b = if ltb b a then a else b
next_of true true a b = if ltb a b then a else b
next_of true false a b = a
next_of false true a b = b

unfoldable pub next_cursor : ℕ → ℕ → ℕ → ℕ → ℕ → ℕ → ℕ
next_cursor cursor limit a_length a_last b_length b_last =
    let next = next_of (a_length == limit) (b_length == limit) a_last b_last in
    if ltb next cursor then cursor else next

pub record PullResult : Type 0 where
  pub projects : List Project
  pub tasks : List Task
  pub cursor : ℕ
  pub has_more : Bool

unfoldable pub pull_changes : String → ℕ → ℕ → Store → PullResult
unfolding project_page task_page last_of next_cursor
pull_changes tenant_id cursor limit s =
    let projects = project_page tenant_id cursor limit s.projects in
    let tasks = task_page tenant_id cursor limit s.tasks in
    record {
      projects = projects;
      tasks = tasks;
      cursor =
          next_cursor cursor limit (length projects) (last_of project_version cursor projects)
            (length tasks) (last_of task_version cursor tasks);
      has_more = length projects == limit || length tasks == limit;
    }
