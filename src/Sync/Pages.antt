-- ===== src/Sync/Pages.antt =====
-- What a page of `pullChanges` (templates/next/src/lib/sync/server.ts) holds, and how far it reaches.
use mathlib.Core.List.{Memᴰ}
use evo_platform.Base.{
  ℕ, zero, suc, ◌+◌, ◌≤◌, ◌<◌, ◌≡◌, ◌≢◌, ◌⊎◌, refl, ap, inl, inr, Bool, true, false, ◌||◌, String,
  List, [], ◌∷◌, ◌==◌, string_eq, nat_eq, arith, Bool-cases, leb,
}
use evo_platform.Base.Keyed.{NodupKeys}
use evo_platform.Base.Rows.{any, filter, length, mem-cases, mem-filter}
use evo_platform.Sync.Server.{Project, Task, Store}
use evo_platform.Sync.Pull.{
  take, insert_ordered, order_by_version, last_of, is_project_after, is_task_after, project_version,
  task_version, project_page, task_page, next_cursor, pull_changes,
}
use evo_platform.Sync.Paging.{
  Above, Ordered, Distinct, Above-filter, Above-order, Above-take, Distinct-filter, Ordered-order,
}

module _ {A : Type 0} (version : A → ℕ) where
  mem-take : (n : ℕ) (xs : List A) {y : A} → Memᴰ y (take n xs) → Memᴰ y xs
  unfolding take
  mem-take zero xs m = elim m [ ]
  mem-take (suc n) [] m = m
  mem-take (suc n) (x ∷ xs) m = elim (mem-cases m) [
    | inl e ↦ Memᴰ.head e
    | inr later ↦ Memᴰ.tail (mem-take n xs later)
  ]

  mem-inserted :
      (a : A) (xs : List A) {y : A} → Memᴰ y (insert_ordered version a xs) → (y ≡ a) ⊎ Memᴰ y xs
  unfolding insert_ordered
  mem-inserted a [] m = mem-cases m
  mem-inserted a (x ∷ xs) m = elim (Bool-cases (leb (version a) (version x))) [
    | inl before ↦ mem-cases (rw before at m)
    | inr after ↦ elim (mem-cases (rw after at m)) [
      | inl e ↦ inr (Memᴰ.head e)
      | inr later ↦ elim (mem-inserted a xs later) [
        | inl e ↦ inl e
        | inr there ↦ inr (Memᴰ.tail there)
      ]
    ]
  ]

  mem-ordered : (xs : List A) {y : A} → Memᴰ y (order_by_version version xs) → Memᴰ y xs
  unfolding order_by_version
  mem-ordered [] m = m
  mem-ordered (x ∷ xs) m = elim (mem-inserted x (order_by_version version xs) m) [
    | inl e ↦ Memᴰ.head e
    | inr later ↦ Memᴰ.tail (mem-ordered xs later)
  ]

  pub mem-page :
      (n : ℕ) (q : A → Bool) (xs : List A) {y : A}
      → Memᴰ y (take n (order_by_version version (filter q xs)))
      → Memᴰ y xs
  mem-page n q xs m =
      (mem-filter q xs
        (mem-ordered (filter q xs) (mem-take n (order_by_version version (filter q xs)) m))).0

  -- Versions that rise from a number go up by one at least.
  last_of-length :
      (k : ℕ) (xs : List A)
      → Above version k xs
      → Ordered version xs
      → k + length xs ≤ last_of version k xs
  unfolding last_of
  last_of-length k [] h o = omega arith
  last_of-length k (x ∷ xs) (h, hs) (least, o) =
      omega (arith, h, last_of-length (version x) xs least o)

  last_of-bound :
      (k n : ℕ) (xs : List A)
      → k ≤ n
      → ((x : A) → Memᴰ x xs → version x ≤ n)
      → last_of version k xs ≤ n
  unfolding last_of
  last_of-bound k n [] h hs = h
  last_of-bound k n (x ∷ xs) h hs =
      last_of-bound (version x) n xs (hs x (Memᴰ.head refl)) (λ y m. hs y (Memᴰ.tail m))

  Ordered-take : (n : ℕ) (xs : List A) → Ordered version xs → Ordered version (take n xs)
  unfolding take
  Ordered-take zero xs o = tt
  Ordered-take (suc n) [] o = tt
  Ordered-take (suc n) (x ∷ xs) (least, o) =
      (Above-take version (version x) n xs least, Ordered-take n xs o)

  pub page-reaches :
      (n k : ℕ) (q : A → Bool) (xs : List A)
      → Distinct version xs
      → ((x : A) → q x ≡ true → k < version x)
      → let page = take n (order_by_version version (filter q xs)) in
        k + length page ≤ last_of version k page
  page-reaches n k q xs distinct after =
      last_of-length k (take n (order_by_version version (filter q xs)))
        (Above-take version k n (order_by_version version (filter q xs))
          (Above-order version k (filter q xs) (Above-filter version k q xs after)))
        (Ordered-take n (order_by_version version (filter q xs))
          (Ordered-order version (filter q xs) (Distinct-filter version q xs distinct)))

  pub page-bound :
      (n k b : ℕ) (q : A → Bool) (xs : List A)
      → k ≤ b
      → ((x : A) → Memᴰ x xs → version x ≤ b)
      → last_of version k (take n (order_by_version version (filter q xs))) ≤ b
  page-bound n k b q xs h hs =
      last_of-bound k b (take n (order_by_version version (filter q xs))) h
        (λ x m. hs x (mem-page n q xs m))

-- A row of a table has an id that the table has.
stranger :
    (rows : List Project) {id : String} {p : Project}
    → any (λ (x : Project). x.id == id) rows ≡ false
    → Memᴰ p rows
    → p.id ≢ id
unfolding any
stranger [] h m = elim m [ ]
stranger (x ∷ rows) h m = elim (mem-cases m) [
  | inl e ↦ λ same. ground (arith, ap (λ (a : Project). a.id) e)
  | inr later ↦ stranger rows (ground arith) later
]

-- Of two rows of a table with keys, one key is one row.
pub same_project :
    (rows : List Project) (p q : Project)
    → NodupKeys (λ (a x : Project). x.id == a.id) rows
    → Memᴰ p rows
    → Memᴰ q rows
    → q.id ≡ p.id
    → q ≡ p
same_project [] p q u m k e = elim m [ ]
same_project (x ∷ rows) p q (fresh, u) m k e = elim (mem-cases m) [
  | inl here ↦ elim (mem-cases k) [
    | inl here' ↦ ground (arith, here, here')
    | inr later ↦
        absurd (stranger rows fresh later (ground (arith, e, ap (λ (a : Project). a.id) here)))
  ]
  | inr later ↦ elim (mem-cases k) [
    | inl here' ↦
        absurd (stranger rows fresh later (ground (arith, e, ap (λ (a : Project). a.id) here')))
    | inr later' ↦ same_project rows p q u later later' e
  ]
]

-- The versions of a store: one number is at most one row's of a table, and the sequence gave it.
pub record IsVersioned (s : Store) : Type 0 where
  pub projects_differ : Distinct project_version s.projects
  pub tasks_differ : Distinct task_version s.tasks
  pub projects_bound : (p : Project) → Memᴰ p s.projects → p.row_version ≤ s.last_version
  pub tasks_bound : (t : Task) → Memᴰ t s.tasks → t.row_version ≤ s.last_version

next_cursor-reaches :
    (cursor limit m a n b : ℕ)
    → (m == limit || n == limit) ≡ true
    → cursor + m ≤ a
    → cursor + n ≤ b
    → cursor + limit ≤ next_cursor cursor limit m a n b
unfolding next_cursor
next_cursor-reaches cursor limit m a n b more h k = elim (Bool-cases (m == limit)) [
  | inl m_cut ↦ elim (Bool-cases (n == limit)) [
    | inl n_cut ↦ rw (m_cut, n_cut) (ground (arith, h, k, m_cut, n_cut))
    | inr n_whole ↦ rw (m_cut, n_whole) (ground (arith, h, m_cut))
  ]
  | inr m_whole ↦ elim (Bool-cases (n == limit)) [
    | inl n_cut ↦ rw (m_whole, n_cut) (ground (arith, k, n_cut))
    | inr n_whole ↦ absurd (ground (arith, more, m_whole, n_whole))
  ]
]

next_cursor-bound :
    (cursor limit m a n b top : ℕ)
    → cursor ≤ top
    → a ≤ top
    → b ≤ top
    → next_cursor cursor limit m a n b ≤ top
unfolding next_cursor
next_cursor-bound cursor limit m a n b top c h k = elim (Bool-cases (m == limit)) [
  | inl m_cut ↦ elim (Bool-cases (n == limit)) [
    | inl n_cut ↦ rw (m_cut, n_cut) (ground arith)
    | inr n_whole ↦ rw (m_cut, n_whole) (ground arith)
  ]
  | inr m_whole ↦ elim (Bool-cases (n == limit)) [
    | inl n_cut ↦ rw (m_whole, n_cut) (ground arith)
    | inr n_whole ↦ rw (m_whole, n_whole) (ground arith)
  ]
]

-- A cut page moves the cursor on by the limit, and never past the last number that was given.
pub pull_changes-reaches :
    (tenant_id : String) (cursor limit : ℕ) (s : Store)
    → IsVersioned s
    → (pull_changes tenant_id cursor limit s).has_more ≡ true
    → cursor + limit ≤ (pull_changes tenant_id cursor limit s).cursor
unfolding pull_changes project_page task_page
pull_changes-reaches tenant_id cursor limit s v more =
    next_cursor-reaches cursor limit (length (project_page tenant_id cursor limit s.projects))
      (last_of project_version cursor (project_page tenant_id cursor limit s.projects))
      (length (task_page tenant_id cursor limit s.tasks))
      (last_of task_version cursor (task_page tenant_id cursor limit s.tasks)) more
      (page-reaches project_version limit cursor (is_project_after tenant_id cursor) s.projects
        v.projects_differ (λ x h. ground (arith, h)))
      (page-reaches task_version limit cursor (is_task_after tenant_id cursor) s.tasks
        v.tasks_differ (λ x h. ground (arith, h)))

pub pull_changes-bound :
    (tenant_id : String) (cursor limit : ℕ) (s : Store)
    → IsVersioned s
    → cursor ≤ s.last_version
    → (pull_changes tenant_id cursor limit s).cursor ≤ s.last_version
unfolding pull_changes project_page task_page
pull_changes-bound tenant_id cursor limit s v h =
    next_cursor-bound cursor limit (length (project_page tenant_id cursor limit s.projects))
      (last_of project_version cursor (project_page tenant_id cursor limit s.projects))
      (length (task_page tenant_id cursor limit s.tasks))
      (last_of task_version cursor (task_page tenant_id cursor limit s.tasks)) s.last_version h
      (page-bound project_version limit cursor s.last_version (is_project_after tenant_id cursor)
        s.projects h v.projects_bound)
      (page-bound task_version limit cursor s.last_version (is_task_after tenant_id cursor) s.tasks
        h v.tasks_bound)
