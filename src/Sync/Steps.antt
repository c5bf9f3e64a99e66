-- ===== src/Sync/Steps.antt =====
-- What a mutation does to the two tables (`applyMutations`, templates/next/src/lib/sync/server.ts).
use evo_platform.Base.{
  ℕ, suc, ◌≡◌, refl, Bool, false, not, not_set, String, Option, none, some, List, [], ◌∷◌, ◌++◌,
  ◌==◌, string_eq, ==_refl, arith, Bool-cases, inl, inr,
}
use evo_platform.Base.Rows.{find, find_sound, filter, any, update_where}
use evo_platform.Base.Keyed.{
  NodupKeys, filter-update_found, update_where-NodupKeys, append-NodupKeys,
}
use evo_platform.Platform.{truthy}
use evo_platform.Sync.Server.{
  Project, Task, Store, Change, has_project_id, has_task_id, stamped_project, stamped_task,
  new_project, written_project, put_project, check_project, project_deleted, bury_project, new_task,
  written_task, put_task, put_task_in, check_task, task_deleted, bury_task, add_project,
  save_project, add_task, save_task, apply_change,
}

module _ {A : Type 0} (id_of owner : A → String) where
  abbrev pub same_key : A → A → Bool
  same_key a x = id_of x == id_of a

  same_key_comm : (a b : A) → same_key a b ≡ same_key b a
  same_key_comm a b = ground arith

  abbrev pub is_foreign : String → A → Bool
  is_foreign tenant_id a = not (owner a == tenant_id)

  -- What a mutation does to one table: nothing, an update of a row of the tenant by its id, or a new
  -- row of the tenant.
  pub data TableStep (tenant_id : String) (rows rows' : List A) : Type 0 where
    same : rows' ≡ rows → TableStep tenant_id rows rows'
    saved :
        (q : A → Bool) (a : A) (f : A → A)
        → find q rows ≡ some a
        → owner a ≡ tenant_id
        → ((x : A) → id_of (f x) ≡ id_of x)
        → ((x : A) → owner (f x) ≡ owner x)
        → rows' ≡ update_where (same_key a) f rows
        → TableStep tenant_id rows rows'
    added :
        (a : A)
        → find (same_key a) rows ≡ none
        → owner a ≡ tenant_id
        → rows' ≡ rows ++ a ∷ []
        → TableStep tenant_id rows rows'

  not_any_of_find : (q : A → Bool) (rows : List A) → find q rows ≡ none → any q rows ≡ false
  unfolding find any
  not_any_of_find q [] h = refl
  not_any_of_find q (r ∷ rows) h = ground (arith, not_any_of_find q rows)

  filter-append_other :
      (c : A → Bool) (a : A) (rows : List A)
      → c a ≡ false
      → filter c (rows ++ a ∷ []) ≡ filter c rows
  unfolding filter
  filter-append_other c a [] h = ground arith
  filter-append_other c a (r ∷ rows) h = ground (arith, filter-append_other c a rows)

  pub TableStep-foreign :
      {tenant_id : String} {rows rows' : List A}
      → TableStep tenant_id rows rows'
      → NodupKeys same_key rows
      → NodupKeys same_key rows'
        × (filter (is_foreign tenant_id) rows' ≡ filter (is_foreign tenant_id) rows)
  unfolding filter
  TableStep-foreign (same e) u = (rw e u, rw e refl)
  TableStep-foreign {tenant_id} {rows} (saved q a f found own keeps_id keeps_owner e) u = (
    rw e (
        update_where-NodupKeys same_key (λ x. ==_refl (id_of x)) same_key_comm (same_key a) f rows
          (λ k x. (ground (arith, keeps_id x), ground (arith, keeps_id k))) u),
    rw e (
        filter-update_found same_key (λ x. ==_refl (id_of x)) same_key_comm q f rows u found
          (is_foreign tenant_id) (ground (arith, own)) (ground (arith, own, keeps_owner a))),
  )
  TableStep-foreign {tenant_id} {rows} (added a free own e) u = (
    rw e (
        append-NodupKeys same_key (λ x. ==_refl (id_of x)) same_key_comm a rows
          (not_any_of_find (same_key a) rows free) u),
    rw e (filter-append_other (is_foreign tenant_id) a rows (ground (arith, own))),
  )

abbrev pub ProjectStep : String → Store → Store → Type 0
ProjectStep tenant_id s s' =
    TableStep (λ (p : Project). p.id) (λ (p : Project). p.tenant_id) tenant_id s.projects
      s'.projects

abbrev pub TaskStep : String → Store → Store → Type 0
TaskStep tenant_id s s' =
    TableStep (λ (t : Task). t.id) (λ (t : Task). t.tenant_id) tenant_id s.tasks s'.tasks

abbrev pub StoreStep : String → Store → Store → Type 0
StoreStep tenant_id s s' = ProjectStep tenant_id s s' × TaskStep tenant_id s s'

unmoved : (tenant_id : String) (s : Store) → StoreStep tenant_id s s
unmoved tenant_id s = (same refl, same refl)

put_project-Step :
    (tenant_id id name status : String) (description : Option String) (found : Option Project)
    (s : Store)
    → find (has_project_id id) s.projects ≡ found
    → StoreStep tenant_id s (put_project tenant_id id name description status found s).1
unfolding add_project save_project
put_project-Step tenant_id id name status description none s e = (
  added (new_project tenant_id id name description status (suc s.last_version)) e refl refl,
  same refl,
)
put_project-Step tenant_id id name status description (some p) s e =
    elim (Bool-cases (p.tenant_id == tenant_id)) [
      | inr foreign ↦ rw foreign (unmoved tenant_id s)
      | inl own ↦
          let same_id : p.id ≡ id = ground (arith, find_sound (has_project_id id) s.projects e) in
          rw own (
            saved (has_project_id id) p
                (stamped_project (written_project name description status) (suc s.last_version)) e
                (ground (arith, own)) (λ x. refl) (λ x. refl) (rw same_id refl),
            same refl,
          )
    ]

check_project-Step :
    (tenant_id id : String) (name description status : Option String) (s : Store)
    → StoreStep tenant_id s (check_project tenant_id id name description status s).1
check_project-Step tenant_id id none description status s = unmoved tenant_id s
check_project-Step tenant_id id (some name) description none s = unmoved tenant_id s
check_project-Step tenant_id id (some name) description (some status) s =
    put_project-Step tenant_id id name status description (find (has_project_id id) s.projects) s
      refl

bury_project-Step :
    (now : ℕ) (tenant_id id : String) (found : Option Project) (s : Store)
    → find (has_project_id id) s.projects ≡ found
    → StoreStep tenant_id s (bury_project now tenant_id id found s).1
unfolding save_project
bury_project-Step now tenant_id id none s e = unmoved tenant_id s
bury_project-Step now tenant_id id (some p) s e = elim (Bool-cases (p.tenant_id == tenant_id)) [
  | inr foreign ↦ rw foreign (unmoved tenant_id s)
  | inl own ↦ elim (Bool-cases (not_set p.deleted_at)) [
    | inr buried ↦ rw (own, buried) (unmoved tenant_id s)
    | inl live ↦
        let same_id : p.id ≡ id = ground (arith, find_sound (has_project_id id) s.projects e) in
        rw (own, live)
          (
            saved (has_project_id id) p (stamped_project (project_deleted now) (suc s.last_version))
                e (ground (arith, own)) (λ x. refl) (λ x. refl) (rw same_id refl),
            same refl,
          )
  ]
]

put_task-Step :
    (tenant_id id project_id title : String) (done : Bool) (found : Option Task) (s : Store)
    → find (has_task_id id) s.tasks ≡ found
    → ((put_task tenant_id id project_id title done found s).1.projects ≡ s.projects)
      × TaskStep tenant_id s (put_task tenant_id id project_id title done found s).1
unfolding add_task save_task
put_task-Step tenant_id id project_id title done none s e =
    (refl, added (new_task tenant_id id project_id title done (suc s.last_version)) e refl refl)
put_task-Step tenant_id id project_id title done (some t) s e =
    elim (Bool-cases (t.tenant_id == tenant_id)) [
      | inr foreign ↦ rw foreign (refl, same refl)
      | inl own ↦
          let same_id : t.id ≡ id = ground (arith, find_sound (has_task_id id) s.tasks e) in
          rw own (
            refl,
            saved (has_task_id id) t (stamped_task (written_task title done) (suc s.last_version)) e
                (ground (arith, own)) (λ x. refl) (λ x. refl) (rw same_id refl),
          )
    ]

put_task_in-Step :
    (tenant_id id project_id title : String) (done : Bool) (parent : Option Project) (s : Store)
    → find (has_project_id project_id) s.projects ≡ parent
    → StoreStep tenant_id s (put_task_in tenant_id id project_id title done parent s).1
unfolding add_project
put_task_in-Step tenant_id id project_id title done none s e =
    let stub = new_project tenant_id project_id project_id none "Active" in
    let (kept, step) =
      put_task-Step tenant_id id project_id title done (find (has_task_id id) s.tasks)
        (add_project stub s) refl in
    (added (stub (suc s.last_version)) e refl kept, step)
put_task_in-Step tenant_id id project_id title done (some p) s e =
    elim (Bool-cases (p.tenant_id == tenant_id)) [
      | inr foreign ↦ rw foreign (unmoved tenant_id s)
      | inl own ↦
          let (kept, step) =
            put_task-Step tenant_id id project_id title done (find (has_task_id id) s.tasks) s
              refl in
          rw own (same kept, step)
    ]

check_task-Step :
    (tenant_id id : String) (project_id title : Option String) (done : Bool) (s : Store)
    → StoreStep tenant_id s (check_task tenant_id id project_id title done s).1
check_task-Step tenant_id id none title done s = unmoved tenant_id s
check_task-Step tenant_id id (some project_id) none done s = unmoved tenant_id s
check_task-Step tenant_id id (some project_id) (some title) done s =
    put_task_in-Step tenant_id id project_id title done
      (find (has_project_id project_id) s.projects) s refl

bury_task-Step :
    (now : ℕ) (tenant_id id : String) (found : Option Task) (s : Store)
    → find (has_task_id id) s.tasks ≡ found
    → StoreStep tenant_id s (bury_task now tenant_id id found s).1
unfolding save_task
bury_task-Step now tenant_id id none s e = unmoved tenant_id s
bury_task-Step now tenant_id id (some t) s e = elim (Bool-cases (t.tenant_id == tenant_id)) [
  | inr foreign ↦ rw foreign (unmoved tenant_id s)
  | inl own ↦ elim (Bool-cases (not_set t.deleted_at)) [
    | inr buried ↦ rw (own, buried) (unmoved tenant_id s)
    | inl live ↦
        let same_id : t.id ≡ id = ground (arith, find_sound (has_task_id id) s.tasks e) in
        rw (own, live)
          (
            same refl,
            saved (has_task_id id) t (stamped_task (task_deleted now) (suc s.last_version)) e
                (ground (arith, own)) (λ x. refl) (λ x. refl) (rw same_id refl),
          )
  ]
]

pub apply_change-Step :
    (now : ℕ) (tenant_id id : String) (c : Change) (s : Store)
    → StoreStep tenant_id s (apply_change now tenant_id id c s).1
unfolding apply_change
apply_change-Step now tenant_id id (Change.upsert_project none) s = unmoved tenant_id s
apply_change-Step now tenant_id id (Change.upsert_project (some data_)) s =
    check_project-Step tenant_id id (truthy data_.name) data_.description data_.status s
apply_change-Step now tenant_id id Change.delete_project s =
    bury_project-Step now tenant_id id (find (has_project_id id) s.projects) s refl
apply_change-Step now tenant_id id (Change.upsert_task none) s = unmoved tenant_id s
apply_change-Step now tenant_id id (Change.upsert_task (some data_)) s =
    check_task-Step tenant_id id (truthy data_.project_id) (truthy data_.title) data_.done s
apply_change-Step now tenant_id id Change.delete_task s =
    bury_task-Step now tenant_id id (find (has_task_id id) s.tasks) s refl
