-- ===== src/Sync/GapFree.antt =====
-- A client that follows the cursor of `pullChanges` (templates/next/src/lib/sync/server.ts) misses
-- no row and comes to an end.
use mathlib.Core.List.{Memᴰ}
use evo_platform.Base.{
  ℕ, ◌-◌, ◌≤◌, ◌<◌, ◌≡◌, ◌⊎◌, inl, inr, Bool, true, false, ◌||◌, String, List, ◌==◌, string_eq,
  nat_eq, arith, Bool-cases, ltb, if◌then◌else◌,
}
use evo_platform.Base.Rows.{filter, length}
use evo_platform.Sync.Server.{Project, Task, Store}
use evo_platform.Sync.Pull.{
  order_by_version, last_of, is_project_after, is_task_after, project_version, task_version,
  project_page, task_page, next_of, next_cursor, pull_changes,
}
use evo_platform.Sync.Paging.{
  Distinct, Above-filter, Above-order, Above-take, Distinct-filter, Ordered-order, mem-order,
  mem-filtered, take-cases, last_of-Above_page,
}

-- A page that is as long as the limit ends beyond the cursor.
module _ (tenant_id : String) (cursor limit : ℕ) (positive : 0 < limit) where
  project_page-cut :
      (rows : List Project)
      → length (project_page tenant_id cursor limit rows) ≡ limit
      → cursor < last_of project_version cursor (project_page tenant_id cursor limit rows)
  unfolding project_page
  project_page-cut rows cut =
      let after = filter (is_project_after tenant_id cursor) rows in
      last_of-Above_page project_version cursor cursor (limit - 1)
        (project_page tenant_id cursor limit rows)
        (Above-take project_version cursor limit (order_by_version project_version after) (
          Above-order project_version cursor after (
            Above-filter project_version cursor (is_project_after tenant_id cursor) rows
              (λ x h. ground (arith, h)))))
        (omega (arith, cut, positive))

  task_page-cut :
      (rows : List Task)
      → length (task_page tenant_id cursor limit rows) ≡ limit
      → cursor < last_of task_version cursor (task_page tenant_id cursor limit rows)
  unfolding task_page
  task_page-cut rows cut =
      let after = filter (is_task_after tenant_id cursor) rows in
      last_of-Above_page task_version cursor cursor (limit - 1)
        (task_page tenant_id cursor limit rows)
        (Above-take task_version cursor limit (order_by_version task_version after) (
          Above-order task_version cursor after (
            Above-filter task_version cursor (is_task_after tenant_id cursor) rows
              (λ x h. ground (arith, h)))))
        (omega (arith, cut, positive))

pub project_page-cases :
    (tenant_id : String) (cursor limit : ℕ) (rows : List Project) (p : Project)
    → Distinct project_version rows
    → Memᴰ p rows
    → p.tenant_id ≡ tenant_id
    → cursor < p.row_version
    → Memᴰ p (project_page tenant_id cursor limit rows)
      ⊎ ((length (project_page tenant_id cursor limit rows) ≡ limit)
          × (last_of project_version cursor (project_page tenant_id cursor limit rows)
              < p.row_version))
unfolding project_page
project_page-cases tenant_id cursor limit rows p distinct m own after =
    let q = is_project_after tenant_id cursor in
    take-cases project_version limit cursor (order_by_version project_version (filter q rows))
      (Ordered-order project_version (filter q rows)
        (Distinct-filter project_version q rows distinct))
      (mem-order project_version (filter q rows)
        (mem-filtered project_version q rows m (ground (arith, own, after))))
      after

task_page-cases :
    (tenant_id : String) (cursor limit : ℕ) (rows : List Task) (t : Task)
    → Distinct task_version rows
    → Memᴰ t rows
    → t.tenant_id ≡ tenant_id
    → cursor < t.row_version
    → Memᴰ t (task_page tenant_id cursor limit rows)
      ⊎ ((length (task_page tenant_id cursor limit rows) ≡ limit)
          × (last_of task_version cursor (task_page tenant_id cursor limit rows) < t.row_version))
unfolding task_page
task_page-cases tenant_id cursor limit rows t distinct m own after =
    let q = is_task_after tenant_id cursor in
    take-cases task_version limit cursor (order_by_version task_version (filter q rows))
      (Ordered-order task_version (filter q rows) (Distinct-filter task_version q rows distinct))
      (mem-order task_version (filter q rows)
        (mem-filtered task_version q rows m (ground (arith, own, after))))
      after

next_of-first :
    (cursor a b : ℕ) (b_cut : Bool)
    → cursor < a
    → (if ltb (next_of true b_cut a b) cursor then cursor else next_of true b_cut a b) ≤ a
next_of-first cursor a b true h = ground arith
next_of-first cursor a b false h = ground arith

next_of-second :
    (cursor a b : ℕ) (a_cut : Bool)
    → cursor < b
    → (if ltb (next_of a_cut true a b) cursor then cursor else next_of a_cut true a b) ≤ b
next_of-second cursor a b true h = ground arith
next_of-second cursor a b false h = ground arith

-- The cursor stays within a page that was cut.
next_cursor-first :
    (cursor limit m a n b : ℕ) → m ≡ limit → cursor < a → next_cursor cursor limit m a n b ≤ a
unfolding next_cursor
next_cursor-first cursor limit m a n b cut h =
    let e : (m == limit) ≡ true = ground (arith, cut) in
    rw e (next_of-first cursor a b (n == limit) h)

next_cursor-second :
    (cursor limit m a n b : ℕ) → n ≡ limit → cursor < b → next_cursor cursor limit m a n b ≤ b
unfolding next_cursor
next_cursor-second cursor limit m a n b cut h =
    let e : (n == limit) ≡ true = ground (arith, cut) in
    rw e (next_of-second cursor a b (m == limit) h)

-- No project is skipped: where the versions differ and the limit is not 0, every project of the
-- tenant whose version is above the cursor of the request and not above the cursor of the answer is
-- in the page.
pub pull_changes-projects :
    (tenant_id : String) (cursor limit : ℕ) (s : Store) (p : Project)
    → 0 < limit
    → Distinct project_version s.projects
    → Memᴰ p s.projects
    → p.tenant_id ≡ tenant_id
    → cursor < p.row_version
    → p.row_version ≤ (pull_changes tenant_id cursor limit s).cursor
    → Memᴰ p (pull_changes tenant_id cursor limit s).projects
unfolding pull_changes
pull_changes-projects tenant_id cursor limit s p positive distinct m own after reached =
    elim (project_page-cases tenant_id cursor limit s.projects p distinct m own after) [
      | inl there ↦ there
      | inr (cut, ends) ↦
          let bound =
            next_cursor-first cursor limit (length (project_page tenant_id cursor limit s.projects))
              (last_of project_version cursor (project_page tenant_id cursor limit s.projects))
              (length (task_page tenant_id cursor limit s.tasks))
              (last_of task_version cursor (task_page tenant_id cursor limit s.tasks)) cut
              (project_page-cut tenant_id cursor limit positive s.projects cut) in
          absurd (omega arith)
    ]

-- No task is skipped, under the same conditions on the tasks.
pub pull_changes-tasks :
    (tenant_id : String) (cursor limit : ℕ) (s : Store) (t : Task)
    → 0 < limit
    → Distinct task_version s.tasks
    → Memᴰ t s.tasks
    → t.tenant_id ≡ tenant_id
    → cursor < t.row_version
    → t.row_version ≤ (pull_changes tenant_id cursor limit s).cursor
    → Memᴰ t (pull_changes tenant_id cursor limit s).tasks
unfolding pull_changes
pull_changes-tasks tenant_id cursor limit s t positive distinct m own after reached =
    elim (task_page-cases tenant_id cursor limit s.tasks t distinct m own after) [
      | inl there ↦ there
      | inr (cut, ends) ↦
          let bound =
            next_cursor-second cursor limit
              (length (project_page tenant_id cursor limit s.projects))
              (last_of project_version cursor (project_page tenant_id cursor limit s.projects))
              (length (task_page tenant_id cursor limit s.tasks))
              (last_of task_version cursor (task_page tenant_id cursor limit s.tasks)) cut
              (task_page-cut tenant_id cursor limit positive s.tasks cut) in
          absurd (omega arith)
    ]

next_cursor-above :
    (cursor limit m a n b : ℕ)
    → (m == limit || n == limit) ≡ true
    → (m ≡ limit → cursor < a)
    → (n ≡ limit → cursor < b)
    → cursor < next_cursor cursor limit m a n b
unfolding next_cursor
next_cursor-above cursor limit m a n b more h k = elim (Bool-cases (m == limit)) [
  | inl m_cut ↦ elim (Bool-cases (n == limit)) [
    | inl n_cut ↦ rw (m_cut, n_cut) (ground (arith, h, k, m_cut, n_cut))
    | inr n_whole ↦ rw (m_cut, n_whole) (ground (arith, h, m_cut))
  ]
  | inr m_whole ↦ elim (Bool-cases (n == limit)) [
    | inl n_cut ↦ rw (m_whole, n_cut) (ground (arith, k, n_cut))
    | inr n_whole ↦ absurd (ground (arith, more, m_whole, n_whole))
  ]
]

-- Paging ends: while an answer says that there is more and the limit is not 0, its cursor is above
-- that of the request.
pub pull_changes_progresses :
    (tenant_id : String) (cursor limit : ℕ) (s : Store)
    → 0 < limit
    → (pull_changes tenant_id cursor limit s).has_more ≡ true
    → cursor < (pull_changes tenant_id cursor limit s).cursor
unfolding pull_changes
pull_changes_progresses tenant_id cursor limit s positive more =
    next_cursor-above cursor limit (length (project_page tenant_id cursor limit s.projects))
      (last_of project_version cursor (project_page tenant_id cursor limit s.projects))
      (length (task_page tenant_id cursor limit s.tasks))
      (last_of task_version cursor (task_page tenant_id cursor limit s.tasks)) more
      (project_page-cut tenant_id cursor limit positive s.projects)
      (task_page-cut tenant_id cursor limit positive s.tasks)
