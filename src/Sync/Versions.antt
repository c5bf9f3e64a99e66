-- ===== src/Sync/Versions.antt =====
-- A push keeps the versions of the rows apart (`applyMutations`,
-- templates/next/src/lib/sync/server.ts).
use mathlib.Core.List.{Memᴰ}
use evo_platform.Base.{
  ℕ, suc, ◌≤◌, ◌≡◌, ◌≢◌, refl, ap, ◌∙◌, Bool, true, false, not_set, String, Option, none, some,
  List, [], ◌∷◌, ◌++◌, ◌==◌, string_eq, arith, Bool-cases, inl, inr,
}
use evo_platform.Base.Rows.{find, any, update_where, mem-cases, update_where-eq_of_not_any}
use evo_platform.Base.Keyed.{NodupKeys}
use evo_platform.Platform.{truthy}
use evo_platform.Sync.Server.{
  Project, Task, Store, Change, Mutation, has_project_id, has_task_id, stamped_project,
  stamped_task, new_project, written_project, put_project, check_project, project_deleted,
  bury_project, new_task, written_task, put_task, put_task_in, check_task, task_deleted, bury_task,
  add_project, save_project, add_task, save_task, apply_change, apply_mutations,
}
use evo_platform.Sync.Pull.{project_version, task_version}
use evo_platform.Sync.Paging.{Distinct, Avoids}
use evo_platform.Sync.Pages.{IsVersioned}
use evo_platform.Sync.Tenancy.{HasKeys, apply_mutations_isolated}

module _ {A : Type 0} (version : A → ℕ) where
  abbrev Bounded : ℕ → List A → Type 0
  Bounded n rows = (x : A) → Memᴰ x rows → version x ≤ n

  tail_bound : {n : ℕ} {r : A} {rows : List A} → Bounded n (r ∷ rows) → Bounded n rows
  tail_bound h x m = h x (Memᴰ.tail m)

  Avoids-beyond : (n : ℕ) (rows : List A) → Bounded n rows → Avoids version (suc n) rows
  Avoids-beyond n [] h = tt
  Avoids-beyond n (r ∷ rows) h =
      let bound = h r (Memᴰ.head refl) in
      (λ e. absurd (omega (arith, e, bound)), Avoids-beyond n rows (tail_bound h))

  Avoids-append :
      (k : ℕ) (rows : List A) (a : A)
      → k ≢ version a
      → Avoids version k rows
      → Avoids version k (rows ++ a ∷ [])
  Avoids-append k [] a h u = (h, tt)
  Avoids-append k (r ∷ rows) a h (apart, u) = (apart, Avoids-append k rows a h u)

  Distinct-append :
      (n : ℕ) (rows : List A) (a : A)
      → version a ≡ suc n
      → Bounded n rows
      → Distinct version rows
      → Distinct version (rows ++ a ∷ [])
  Distinct-append n [] a e h u = (tt, tt)
  Distinct-append n (r ∷ rows) a e h (apart, u) =
      let bound = h r (Memᴰ.head refl) in
      (
        Avoids-append (version r) rows a (λ same. absurd (omega (arith, same, e, bound))) apart,
        Distinct-append n rows a e (tail_bound h) u,
      )

  Bounded-append :
      (n : ℕ) (rows : List A) (a : A)
      → version a ≡ suc n
      → Bounded n rows
      → Bounded (suc n) (rows ++ a ∷ [])
  Bounded-append n [] a e h x m = elim (mem-cases m) [
    | inl same ↦ rw (same, e) (omega arith)
    | inr later ↦ elim later [ ]
  ]
  Bounded-append n (r ∷ rows) a e h x m = elim (mem-cases m) [
    | inl same ↦ let bound = h r (Memᴰ.head refl) in rw same (omega (arith, bound))
    | inr later ↦ Bounded-append n rows a e (tail_bound h) x later
  ]

  -- An update of the one row of a key, which takes the next number.
  module _ (key : A → A → Bool) (p : A → Bool) (f : A → A) (n : ℕ)
      (by_key : (x y : A) → p x ≡ true → key x y ≡ p y)
      (stamped : (x : A) → version (f x) ≡ suc n) where
    Avoids-update :
        (k : ℕ) (rows : List A)
        → k ≤ n
        → Avoids version k rows
        → Avoids version k (update_where p f rows)
    unfolding update_where
    Avoids-update k [] h u = tt
    Avoids-update k (r ∷ rows) h (apart, u) = elim (Bool-cases (p r)) [
      | inl here ↦
          rw here
            ((λ e. let s = stamped r in absurd (omega (arith, e, s, h))), Avoids-update k rows h u)
      | inr other ↦ rw other (apart, Avoids-update k rows h u)
    ]

    not_any : (r : A) (rows : List A) → p r ≡ true → any (key r) rows ≡ false → any p rows ≡ false
    unfolding any
    not_any r [] h fresh = refl
    not_any r (x ∷ rows) h fresh = ground (arith, by_key r x h, not_any r rows h)

    Distinct-update :
        (rows : List A)
        → NodupKeys key rows
        → Bounded n rows
        → Distinct version rows
        → Distinct version (update_where p f rows)
    unfolding update_where
    Distinct-update [] keys h u = tt
    Distinct-update (r ∷ rows) (fresh, keys) h (apart, u) = elim (Bool-cases (p r)) [
      | inl here ↦
          let rest = update_where-eq_of_not_any p f rows (not_any r rows here fresh) in
          rw (here, rest, stamped r) (Avoids-beyond n rows (tail_bound h), u)
      | inr other ↦ rw other (
        Avoids-update (version r) rows (h r (Memᴰ.head refl)) apart,
        Distinct-update rows keys (tail_bound h) u,
      )
    ]

    Bounded-update : (rows : List A) → Bounded n rows → Bounded (suc n) (update_where p f rows)
    unfolding update_where
    Bounded-update [] h x m = elim m [ ]
    Bounded-update (r ∷ rows) h x m = elim (mem-cases m) [
      | inl same ↦ elim (Bool-cases (p r)) [
        | inl here ↦
            let e : version x ≡ version (f r) = ap version same ∙ rw here refl in
            let s = stamped r in omega (arith, e, s)
        | inr other ↦
            let e : version x ≡ version r = ap version same ∙ rw other refl in
            let bound = h r (Memᴰ.head refl) in omega (arith, e, bound)
      ]
      | inr later ↦ Bounded-update rows (tail_bound h) x later
    ]

  later : {n : ℕ} {rows : List A} → Bounded n rows → Bounded (suc n) rows
  later h x m = let bound = h x m in omega (arith, bound)

abbrev project_key : Project → Project → Bool
project_key a x = x.id == a.id

abbrev task_key : Task → Task → Bool
task_key a x = x.id == a.id

add_project-IsVersioned :
    (p : ℕ → Project) (s : Store)
    → ((n : ℕ) → (p n).row_version ≡ n)
    → IsVersioned s
    → IsVersioned (add_project p s)
unfolding add_project
add_project-IsVersioned p s stamped v = record {
  projects_differ =
      Distinct-append project_version s.last_version s.projects _ (stamped (suc s.last_version))
        v.projects_bound v.projects_differ;
  tasks_differ = v.tasks_differ;
  projects_bound =
      Bounded-append project_version s.last_version s.projects _ (stamped (suc s.last_version))
        v.projects_bound;
  tasks_bound = later task_version v.tasks_bound;
}

add_task-IsVersioned :
    (t : ℕ → Task) (s : Store)
    → ((n : ℕ) → (t n).row_version ≡ n)
    → IsVersioned s
    → IsVersioned (add_task t s)
unfolding add_task
add_task-IsVersioned t s stamped v = record {
  projects_differ = v.projects_differ;
  tasks_differ =
      Distinct-append task_version s.last_version s.tasks _ (stamped (suc s.last_version))
        v.tasks_bound v.tasks_differ;
  projects_bound = later project_version v.projects_bound;
  tasks_bound =
      Bounded-append task_version s.last_version s.tasks _ (stamped (suc s.last_version))
        v.tasks_bound;
}

save_project-IsVersioned :
    (id : String) (f : Project → Project) (s : Store)
    → NodupKeys project_key s.projects
    → IsVersioned s
    → IsVersioned (save_project id f s)
unfolding save_project
save_project-IsVersioned id f s keys v = record {
  projects_differ =
      Distinct-update project_version project_key (has_project_id id)
        (stamped_project f (suc s.last_version)) s.last_version (λ x y h. ground (arith, h))
        (λ x. refl) s.projects keys v.projects_bound v.projects_differ;
  tasks_differ = v.tasks_differ;
  projects_bound =
      Bounded-update project_version project_key (has_project_id id)
        (stamped_project f (suc s.last_version)) s.last_version (λ x y h. ground (arith, h))
        (λ x. refl) s.projects v.projects_bound;
  tasks_bound = later task_version v.tasks_bound;
}

save_task-IsVersioned :
    (id : String) (f : Task → Task) (s : Store)
    → NodupKeys task_key s.tasks
    → IsVersioned s
    → IsVersioned (save_task id f s)
unfolding save_task
save_task-IsVersioned id f s keys v = record {
  projects_differ = v.projects_differ;
  tasks_differ =
      Distinct-update task_version task_key (has_task_id id) (stamped_task f (suc s.last_version))
        s.last_version (λ x y h. ground (arith, h)) (λ x. refl) s.tasks keys v.tasks_bound
        v.tasks_differ;
  projects_bound = later project_version v.projects_bound;
  tasks_bound =
      Bounded-update task_version task_key (has_task_id id) (stamped_task f (suc s.last_version))
        s.last_version (λ x y h. ground (arith, h)) (λ x. refl) s.tasks v.tasks_bound;
}

put_project-IsVersioned :
    (tenant_id id name status : String) (description : Option String) (found : Option Project)
    (s : Store)
    → HasKeys s
    → IsVersioned s
    → IsVersioned (put_project tenant_id id name description status found s).1
put_project-IsVersioned tenant_id id name status description none s keys v =
    add_project-IsVersioned (new_project tenant_id id name description status) s (λ n. refl) v
put_project-IsVersioned tenant_id id name status description (some p) s keys v =
    elim (Bool-cases (p.tenant_id == tenant_id)) [
      | inl own ↦
          rw own (
            save_project-IsVersioned id (written_project name description status) s keys.projects v)
      | inr foreign ↦ rw foreign v
    ]

put_task-IsVersioned :
    (tenant_id id project_id title : String) (done : Bool) (found : Option Task) (s : Store)
    → NodupKeys task_key s.tasks
    → IsVersioned s
    → IsVersioned (put_task tenant_id id project_id title done found s).1
put_task-IsVersioned tenant_id id project_id title done none s keys v =
    add_task-IsVersioned (new_task tenant_id id project_id title done) s (λ n. refl) v
put_task-IsVersioned tenant_id id project_id title done (some t) s keys v =
    elim (Bool-cases (t.tenant_id == tenant_id)) [
      | inl own ↦ rw own (save_task-IsVersioned id (written_task title done) s keys v)
      | inr foreign ↦ rw foreign v
    ]

put_task_in-IsVersioned :
    (tenant_id id project_id title : String) (done : Bool) (parent : Option Project) (s : Store)
    → HasKeys s
    → IsVersioned s
    → IsVersioned (put_task_in tenant_id id project_id title done parent s).1
unfolding add_project
put_task_in-IsVersioned tenant_id id project_id title done none s keys v =
    let s' = add_project (new_project tenant_id project_id project_id none "Active") s in
    put_task-IsVersioned tenant_id id project_id title done (find (has_task_id id) s.tasks) s'
      keys.tasks
      (add_project-IsVersioned (new_project tenant_id project_id project_id none "Active") s
        (λ n. refl) v)
put_task_in-IsVersioned tenant_id id project_id title done (some p) s keys v =
    elim (Bool-cases (p.tenant_id == tenant_id)) [
      | inl own ↦ rw own (
          put_task-IsVersioned tenant_id id project_id title done (find (has_task_id id) s.tasks) s
            keys.tasks v)
      | inr foreign ↦ rw foreign v
    ]

check_project-IsVersioned :
    (tenant_id id : String) (name description status : Option String) (s : Store)
    → HasKeys s
    → IsVersioned s
    → IsVersioned (check_project tenant_id id name description status s).1
check_project-IsVersioned tenant_id id none description status s keys v = v
check_project-IsVersioned tenant_id id (some name) description none s keys v = v
check_project-IsVersioned tenant_id id (some name) description (some status) s keys v =
    put_project-IsVersioned tenant_id id name status description
      (find (has_project_id id) s.projects) s keys v

check_task-IsVersioned :
    (tenant_id id : String) (project_id title : Option String) (done : Bool) (s : Store)
    → HasKeys s
    → IsVersioned s
    → IsVersioned (check_task tenant_id id project_id title done s).1
check_task-IsVersioned tenant_id id none title done s keys v = v
check_task-IsVersioned tenant_id id (some project_id) none done s keys v = v
check_task-IsVersioned tenant_id id (some project_id) (some title) done s keys v =
    put_task_in-IsVersioned tenant_id id project_id title done
      (find (has_project_id project_id) s.projects) s keys v

bury_project-IsVersioned :
    (now : ℕ) (tenant_id id : String) (found : Option Project) (s : Store)
    → HasKeys s
    → IsVersioned s
    → IsVersioned (bury_project now tenant_id id found s).1
bury_project-IsVersioned now tenant_id id none s keys v = v
bury_project-IsVersioned now tenant_id id (some p) s keys v =
    elim (Bool-cases (p.tenant_id == tenant_id)) [
      | inr foreign ↦ rw foreign v
      | inl own ↦ elim (Bool-cases (not_set p.deleted_at)) [
        | inl live ↦
            rw (own, live) (save_project-IsVersioned id (project_deleted now) s keys.projects v)
        | inr gone ↦ rw (own, gone) v
      ]
    ]

bury_task-IsVersioned :
    (now : ℕ) (tenant_id id : String) (found : Option Task) (s : Store)
    → HasKeys s
    → IsVersioned s
    → IsVersioned (bury_task now tenant_id id found s).1
bury_task-IsVersioned now tenant_id id none s keys v = v
bury_task-IsVersioned now tenant_id id (some t) s keys v =
    elim (Bool-cases (t.tenant_id == tenant_id)) [
      | inr foreign ↦ rw foreign v
      | inl own ↦ elim (Bool-cases (not_set t.deleted_at)) [
        | inl live ↦ rw (own, live) (save_task-IsVersioned id (task_deleted now) s keys.tasks v)
        | inr gone ↦ rw (own, gone) v
      ]
    ]

apply_change-IsVersioned :
    (now : ℕ) (tenant_id id : String) (c : Change) (s : Store)
    → HasKeys s
    → IsVersioned s
    → IsVersioned (apply_change now tenant_id id c s).1
unfolding apply_change
apply_change-IsVersioned now tenant_id id (Change.upsert_project none) s keys v = v
apply_change-IsVersioned now tenant_id id (Change.upsert_project (some data_)) s keys v =
    check_project-IsVersioned tenant_id id (truthy data_.name) data_.description data_.status s keys
      v
apply_change-IsVersioned now tenant_id id Change.delete_project s keys v =
    bury_project-IsVersioned now tenant_id id (find (has_project_id id) s.projects) s keys v
apply_change-IsVersioned now tenant_id id (Change.upsert_task none) s keys v = v
apply_change-IsVersioned now tenant_id id (Change.upsert_task (some data_)) s keys v =
    check_task-IsVersioned tenant_id id (truthy data_.project_id) (truthy data_.title) data_.done s
      keys v
apply_change-IsVersioned now tenant_id id Change.delete_task s keys v =
    bury_task-IsVersioned now tenant_id id (find (has_task_id id) s.tasks) s keys v

apply_change-HasKeys :
    (now : ℕ) (tenant_id : String) (m : Mutation) (s : Store)
    → HasKeys s
    → HasKeys (apply_change now tenant_id m.id m.change s).1
unfolding apply_mutations
apply_change-HasKeys now tenant_id m s keys =
    (apply_mutations_isolated now tenant_id (m ∷ []) s keys).0

-- Where ids are unique: if no two rows of a table have one version, and each version is one that the
-- sequence has given, that is so after any push.
pub apply_mutations-IsVersioned :
    (now : ℕ) (tenant_id : String) (ms : List Mutation) (s : Store)
    → HasKeys s
    → IsVersioned s
    → IsVersioned (apply_mutations now tenant_id ms s).1
unfolding apply_mutations
apply_mutations-IsVersioned now tenant_id [] s keys v = v
apply_mutations-IsVersioned now tenant_id (m ∷ ms) s keys v =
    apply_mutations-IsVersioned now tenant_id ms (apply_change now tenant_id m.id m.change s).1
      (apply_change-HasKeys now tenant_id m s keys)
      (apply_change-IsVersioned now tenant_id m.id m.change s keys v)
