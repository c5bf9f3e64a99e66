-- ===== src/Sync/Stamps.antt =====
-- What a push writes has new numbers (`applyMutations`, templates/next/src/lib/sync/server.ts, with the
-- trigger of templates/next/prisma/migrations/20260712230000_init/migration.sql).
use mathlib.Core.List.{Memᴰ}
use evo_platform.Base.{
  ℕ, suc, ◌≤◌, ◌<◌, ◌≡◌, ◌⊎◌, refl, ap, ◌∙◌, Bool, not_set, String, Option, none, some, List, [],
  ◌∷◌, ◌++◌, ◌==◌, string_eq, arith, Bool-cases, inl, inr,
}
use evo_platform.Base.Rows.{find, update_where, mem-cases}
use evo_platform.Platform.{truthy}
use evo_platform.Sync.Server.{
  Project, Task, Store, Change, Mutation, has_project_id, has_task_id, stamped_project,
  stamped_task, new_project, written_project, put_project, check_project, project_deleted,
  bury_project, new_task, written_task, put_task, put_task_in, check_task, task_deleted, bury_task,
  add_project, save_project, add_task, save_task, apply_change, apply_mutations,
}

module _ {A : Type 0} (version : A → ℕ) where
  -- Every row stood before, as it is, or has a number after `n`.
  abbrev pub Newer : ℕ → List A → List A → Type 0
  Newer n rows rows' = (x : A) → Memᴰ x rows' → Memᴰ x rows ⊎ (n < version x)

  Newer-refl : (n : ℕ) (rows : List A) → Newer n rows rows
  Newer-refl n rows x m = inl m

  Newer-trans :
      {n n' : ℕ} {rows rows' rows'' : List A}
      → n ≤ n'
      → Newer n rows rows'
      → Newer n' rows' rows''
      → Newer n rows rows''
  Newer-trans le first second x m = elim (second x m) [
    | inl stood ↦ first x stood
    | inr new ↦ inr (omega (arith, le, new))
  ]

  Newer-append : (n : ℕ) (rows : List A) (a : A) → version a ≡ suc n → Newer n rows (rows ++ a ∷ [])
  Newer-append n [] a e x m = elim (mem-cases m) [
    | inl same ↦ inr (rw (same, e) (omega arith))
    | inr later ↦ inl later
  ]
  Newer-append n (r ∷ rows) a e x m = elim (mem-cases m) [
    | inl same ↦ inl (Memᴰ.head same)
    | inr later ↦ elim (Newer-append n rows a e x later) [
      | inl stood ↦ inl (Memᴰ.tail stood)
      | inr new ↦ inr new
    ]
  ]

  Newer-update :
      (n : ℕ) (p : A → Bool) (f : A → A) (rows : List A)
      → ((x : A) → version (f x) ≡ suc n)
      → Newer n rows (update_where p f rows)
  unfolding update_where
  Newer-update n p f [] stamped x m = inl m
  Newer-update n p f (r ∷ rows) stamped x m = elim (mem-cases m) [
    | inr later ↦ elim (Newer-update n p f rows stamped x later) [
      | inl stood ↦ inl (Memᴰ.tail stood)
      | inr new ↦ inr new
    ]
    | inl same ↦ elim (Bool-cases (p r)) [
      | inl here ↦
          let e : version x ≡ version (f r) = ap version same ∙ rw here refl in
          let s = stamped r in inr (omega (arith, e, s))
      | inr other ↦ inl (Memᴰ.head (same ∙ rw other refl))
    ]
  ]

-- The sequence went no way back, and every row of a table stood in it before, as it is, or has a number
-- that was given since.
pub record IsStamped (s s' : Store) : Type 0 where
  pub grows : s.last_version ≤ s'.last_version
  pub projects : Newer (λ (p : Project). p.row_version) s.last_version s.projects s'.projects
  pub tasks : Newer (λ (t : Task). t.row_version) s.last_version s.tasks s'.tasks

IsStamped-refl : (s : Store) → IsStamped s s
IsStamped-refl s = record { grows = omega arith; projects = λ x m. inl m; tasks = λ x m. inl m }

IsStamped-trans : (s s' s'' : Store) → IsStamped s s' → IsStamped s' s'' → IsStamped s s''
IsStamped-trans s s' s'' a b =
    let first = a.grows in
    let second = b.grows in
    record {
      grows = omega (arith, first, second);
      projects = Newer-trans (λ (p : Project). p.row_version) first a.projects b.projects;
      tasks = Newer-trans (λ (t : Task). t.row_version) first a.tasks b.tasks;
    }

add_project-IsStamped :
    (p : ℕ → Project) (s : Store)
    → ((n : ℕ) → (p n).row_version ≡ n)
    → IsStamped s (add_project p s)
unfolding add_project
add_project-IsStamped p s stamped = record {
  grows = omega arith;
  projects =
      Newer-append (λ (p : Project). p.row_version) s.last_version s.projects _
        (stamped (suc s.last_version));
  tasks = λ x m. inl m;
}

add_task-IsStamped :
    (t : ℕ → Task) (s : Store) → ((n : ℕ) → (t n).row_version ≡ n) → IsStamped s (add_task t s)
unfolding add_task
add_task-IsStamped t s stamped = record {
  grows = omega arith;
  projects = λ x m. inl m;
  tasks =
      Newer-append (λ (t : Task). t.row_version) s.last_version s.tasks _
        (stamped (suc s.last_version));
}

save_project-IsStamped :
    (id : String) (f : Project → Project) (s : Store) → IsStamped s (save_project id f s)
unfolding save_project
save_project-IsStamped id f s = record {
  grows = omega arith;
  projects =
      Newer-update (λ (p : Project). p.row_version) s.last_version (has_project_id id)
        (stamped_project f (suc s.last_version)) s.projects (λ x. refl);
  tasks = λ x m. inl m;
}

save_task-IsStamped : (id : String) (f : Task → Task) (s : Store) → IsStamped s (save_task id f s)
unfolding save_task
save_task-IsStamped id f s = record {
  grows = omega arith;
  projects = λ x m. inl m;
  tasks =
      Newer-update (λ (t : Task). t.row_version) s.last_version (has_task_id id)
        (stamped_task f (suc s.last_version)) s.tasks (λ x. refl);
}

put_project-IsStamped :
    (tenant_id id name status : String) (description : Option String) (found : Option Project)
    (s : Store)
    → IsStamped s (put_project tenant_id id name description status found s).1
put_project-IsStamped tenant_id id name status description none s =
    add_project-IsStamped (new_project tenant_id id name description status) s (λ n. refl)
put_project-IsStamped tenant_id id name status description (some p) s =
    elim (Bool-cases (p.tenant_id == tenant_id)) [
      | inl own ↦ rw own (save_project-IsStamped id (written_project name description status) s)
      | inr foreign ↦ rw foreign (IsStamped-refl s)
    ]

check_project-IsStamped :
    (tenant_id id : String) (name description status : Option String) (s : Store)
    → IsStamped s (check_project tenant_id id name description status s).1
check_project-IsStamped tenant_id id none description status s = IsStamped-refl s
check_project-IsStamped tenant_id id (some name) description none s = IsStamped-refl s
check_project-IsStamped tenant_id id (some name) description (some status) s =
    put_project-IsStamped tenant_id id name status description (find (has_project_id id) s.projects)
      s

bury_project-IsStamped :
    (now : ℕ) (tenant_id id : String) (found : Option Project) (s : Store)
    → IsStamped s (bury_project now tenant_id id found s).1
bury_project-IsStamped now tenant_id id none s = IsStamped-refl s
bury_project-IsStamped now tenant_id id (some p) s = elim (Bool-cases (p.tenant_id == tenant_id)) [
  | inr foreign ↦ rw foreign (IsStamped-refl s)
  | inl own ↦ elim (Bool-cases (not_set p.deleted_at)) [
    | inl live ↦ rw (own, live) (save_project-IsStamped id (project_deleted now) s)
    | inr gone ↦ rw (own, gone) (IsStamped-refl s)
  ]
]

put_task-IsStamped :
    (tenant_id id project_id title : String) (done : Bool) (found : Option Task) (s : Store)
    → IsStamped s (put_task tenant_id id project_id title done found s).1
put_task-IsStamped tenant_id id project_id title done none s =
    add_task-IsStamped (new_task tenant_id id project_id title done) s (λ n. refl)
put_task-IsStamped tenant_id id project_id title done (some t) s =
    elim (Bool-cases (t.tenant_id == tenant_id)) [
      | inl own ↦ rw own (save_task-IsStamped id (written_task title done) s)
      | inr foreign ↦ rw foreign (IsStamped-refl s)
    ]

put_task_in-IsStamped :
    (tenant_id id project_id title : String) (done : Bool) (parent : Option Project) (s : Store)
    → IsStamped s (put_task_in tenant_id id project_id title done parent s).1
put_task_in-IsStamped tenant_id id project_id title done none s =
    let stub = new_project tenant_id project_id project_id none "Active" in
    let s' = add_project stub s in
    let found = find (has_task_id id) s'.tasks in
    IsStamped-trans s s' (put_task tenant_id id project_id title done found s').1
      (add_project-IsStamped stub s (λ n. refl))
      (put_task-IsStamped tenant_id id project_id title done found s')
put_task_in-IsStamped tenant_id id project_id title done (some p) s =
    elim (Bool-cases (p.tenant_id == tenant_id)) [
      | inl own ↦
          rw own (
            put_task-IsStamped tenant_id id project_id title done (find (has_task_id id) s.tasks) s)
      | inr foreign ↦ rw foreign (IsStamped-refl s)
    ]

check_task-IsStamped :
    (tenant_id id : String) (project_id title : Option String) (done : Bool) (s : Store)
    → IsStamped s (check_task tenant_id id project_id title done s).1
check_task-IsStamped tenant_id id none title done s = IsStamped-refl s
check_task-IsStamped tenant_id id (some project_id) none done s = IsStamped-refl s
check_task-IsStamped tenant_id id (some project_id) (some title) done s =
    put_task_in-IsStamped tenant_id id project_id title done
      (find (has_project_id project_id) s.projects) s

bury_task-IsStamped :
    (now : ℕ) (tenant_id id : String) (found : Option Task) (s : Store)
    → IsStamped s (bury_task now tenant_id id found s).1
bury_task-IsStamped now tenant_id id none s = IsStamped-refl s
bury_task-IsStamped now tenant_id id (some t) s = elim (Bool-cases (t.tenant_id == tenant_id)) [
  | inr foreign ↦ rw foreign (IsStamped-refl s)
  | inl own ↦ elim (Bool-cases (not_set t.deleted_at)) [
    | inl live ↦ rw (own, live) (save_task-IsStamped id (task_deleted now) s)
    | inr gone ↦ rw (own, gone) (IsStamped-refl s)
  ]
]

apply_change-IsStamped :
    (now : ℕ) (tenant_id id : String) (c : Change) (s : Store)
    → IsStamped s (apply_change now tenant_id id c s).1
unfolding apply_change
apply_change-IsStamped now tenant_id id (Change.upsert_project none) s = IsStamped-refl s
apply_change-IsStamped now tenant_id id (Change.upsert_project (some data_)) s =
    check_project-IsStamped tenant_id id (truthy data_.name) data_.description data_.status s
apply_change-IsStamped now tenant_id id Change.delete_project s =
    bury_project-IsStamped now tenant_id id (find (has_project_id id) s.projects) s
apply_change-IsStamped now tenant_id id (Change.upsert_task none) s = IsStamped-refl s
apply_change-IsStamped now tenant_id id (Change.upsert_task (some data_)) s =
    check_task-IsStamped tenant_id id (truthy data_.project_id) (truthy data_.title) data_.done s
apply_change-IsStamped now tenant_id id Change.delete_task s =
    bury_task-IsStamped now tenant_id id (find (has_task_id id) s.tasks) s

-- After a push, a project or a task stands as it stood before, its version included, or has a version
-- after the last one that the sequence had given before the push.
pub apply_mutations-IsStamped :
    (now : ℕ) (tenant_id : String) (ms : List Mutation) (s : Store)
    → IsStamped s (apply_mutations now tenant_id ms s).1
unfolding apply_mutations
apply_mutations-IsStamped now tenant_id [] s = IsStamped-refl s
apply_mutations-IsStamped now tenant_id (m ∷ ms) s =
    let s' = (apply_change now tenant_id m.id m.change s).1 in
    IsStamped-trans s s' (apply_mutations now tenant_id ms s').1
      (apply_change-IsStamped now tenant_id m.id m.change s)
      (apply_mutations-IsStamped now tenant_id ms s')
