-- ===== src/Sync/Outcome.antt =====
-- What a mutation that is answered as applied has done (`applyMutations`,
-- templates/next/src/lib/sync/server.ts).
use evo_platform.Base.{
  ℕ, suc, ◌≡◌, ◌⊎◌, refl, ap, ◌∙◌, Bool, true, false, not_set, String, Option, none, some, List, [],
  ◌∷◌, ◌==◌, string_eq, arith, Bool-cases, inl, inr,
}
use evo_platform.Base.Rows.{find, find_sound, find-append, find-update_where-same}
use evo_platform.Platform.{truthy}
use evo_platform.Sync.Server.{
  Project, Task, Store, Change, Answer, RejectReason, has_project_id, has_task_id, stamped_project,
  stamped_task, new_project, written_project, put_project, check_project, project_deleted,
  bury_project, new_task, written_task, put_task, put_task_in, check_task, task_deleted, bury_task,
  add_project, save_project, add_task, save_task, apply_change,
}

-- The row of the id is the tenant's, has the fields of the data, and has no tombstone.
abbrev ProjectWritten : String → String → String → Option String → String → Store → Type 0
ProjectWritten tenant_id id name description status s =
    (p : Project) × (find (has_project_id id) s.projects ≡ some p)
    × (p.tenant_id ≡ tenant_id)
    × (p.name ≡ name)
    × (p.description ≡ description)
    × (p.status ≡ status)
    × (p.deleted_at ≡ none)

abbrev TaskWritten : String → String → String → Bool → Store → Type 0
TaskWritten tenant_id id title done s =
    (t : Task) × (find (has_task_id id) s.tasks ≡ some t)
    × (t.tenant_id ≡ tenant_id)
    × (t.title ≡ title)
    × (t.done ≡ done)
    × (t.deleted_at ≡ none)

-- There is no row of the id, or it is the tenant's and has a tombstone.
abbrev ProjectGone : String → String → Store → Type 0
ProjectGone tenant_id id s =
    (find (has_project_id id) s.projects ≡ none)
    ⊎ ((p : Project) × (find (has_project_id id) s.projects ≡ some p)
        × (p.tenant_id ≡ tenant_id)
        × (not_set p.deleted_at ≡ false))

abbrev TaskGone : String → String → Store → Type 0
TaskGone tenant_id id s =
    (find (has_task_id id) s.tasks ≡ none)
    ⊎ ((t : Task) × (find (has_task_id id) s.tasks ≡ some t)
        × (t.tenant_id ≡ tenant_id)
        × (not_set t.deleted_at ≡ false))

-- What a change asks for.
abbrev pub Done : String → String → Change → Store → Type 0
Done tenant_id id (Change.upsert_project none) s = ⊥
Done tenant_id id (Change.upsert_project (some data_)) s =
    (name : String) × (status : String) × (truthy data_.name ≡ some name)
    × (data_.status ≡ some status)
    × ProjectWritten tenant_id id name data_.description status s
Done tenant_id id Change.delete_project s = ProjectGone tenant_id id s
Done tenant_id id (Change.upsert_task none) s = ⊥
Done tenant_id id (Change.upsert_task (some data_)) s =
    (title : String) × (truthy data_.title ≡ some title)
    × TaskWritten tenant_id id title data_.done s
Done tenant_id id Change.delete_task s = TaskGone tenant_id id s

abbrev IsApplied : List Answer × Store → Type 0
IsApplied r = r.0 ≡ Answer.applied ∷ []

not_applied : {reason : RejectReason} → (Answer.rejected reason ∷ []) ≡ (Answer.applied ∷ []) → ⊥
not_applied h = cc

saved_project :
    (id : String) (f : Project → Project) (p : Project) (s : Store)
    → ((x : Project) → (f x).id ≡ x.id)
    → find (has_project_id id) s.projects ≡ some p
    → find (has_project_id id) (save_project id f s).projects
      ≡ some (stamped_project f (suc s.last_version) p)
unfolding save_project
saved_project id f p s keeps found =
    let here : (p.id == id) ≡ true = find_sound (has_project_id id) s.projects found in
    find-update_where-same (has_project_id id) (has_project_id id)
      (stamped_project f (suc s.last_version)) s.projects (λ x. ap (λ i. i == id) (keeps x)) found
    ∙ rw here refl

saved_task :
    (id : String) (f : Task → Task) (t : Task) (s : Store)
    → ((x : Task) → (f x).id ≡ x.id)
    → find (has_task_id id) s.tasks ≡ some t
    → find (has_task_id id) (save_task id f s).tasks ≡ some (stamped_task f (suc s.last_version) t)
unfolding save_task
saved_task id f t s keeps found =
    let here : (t.id == id) ≡ true = find_sound (has_task_id id) s.tasks found in
    find-update_where-same (has_task_id id) (has_task_id id) (stamped_task f (suc s.last_version))
      s.tasks (λ x. ap (λ i. i == id) (keeps x)) found
    ∙ rw here refl

put_project_writes :
    (tenant_id id name status : String) (description : Option String) (found : Option Project)
    (s : Store)
    → find (has_project_id id) s.projects ≡ found
    → IsApplied (put_project tenant_id id name description status found s)
    → ProjectWritten tenant_id id name description status
        (put_project tenant_id id name description status found s).1
unfolding add_project
put_project_writes tenant_id id name status description none s e h = (
  new_project tenant_id id name description status (suc s.last_version),
  find-append (has_project_id id) s.projects _ e (ground arith),
  refl,
  refl,
  refl,
  refl,
  refl,
)
put_project_writes tenant_id id name status description (some p) s e h =
    elim (Bool-cases (p.tenant_id == tenant_id)) [
      | inr foreign ↦ absurd (not_applied (rw foreign at h))
      | inl own ↦ rw own (
        stamped_project (written_project name description status) (suc s.last_version) p,
        saved_project id (written_project name description status) p s (λ x. refl) e,
        ground (arith, own),
        refl,
        refl,
        refl,
        refl,
      )
    ]

bury_project_buries :
    (now : ℕ) (tenant_id id : String) (found : Option Project) (s : Store)
    → find (has_project_id id) s.projects ≡ found
    → IsApplied (bury_project now tenant_id id found s)
    → ProjectGone tenant_id id (bury_project now tenant_id id found s).1
bury_project_buries now tenant_id id none s e h = inl e
bury_project_buries now tenant_id id (some p) s e h = elim (Bool-cases (p.tenant_id == tenant_id)) [
  | inr foreign ↦ absurd (not_applied (rw foreign at h))
  | inl own ↦ elim (Bool-cases (not_set p.deleted_at)) [
    | inl live ↦
        rw (own, live)
          (inr (
            stamped_project (project_deleted now) (suc s.last_version) p,
            saved_project id (project_deleted now) p s (λ x. refl) e,
            ground (arith, own),
            refl,
          ))
    | inr gone ↦ rw (own, gone) (inr (p, e, ground (arith, own), gone))
  ]
]

put_task_writes :
    (tenant_id id project_id title : String) (done : Bool) (found : Option Task) (s : Store)
    → find (has_task_id id) s.tasks ≡ found
    → IsApplied (put_task tenant_id id project_id title done found s)
    → TaskWritten tenant_id id title done (put_task tenant_id id project_id title done found s).1
unfolding add_task
put_task_writes tenant_id id project_id title done none s e h = (
  new_task tenant_id id project_id title done (suc s.last_version),
  find-append (has_task_id id) s.tasks _ e (ground arith),
  refl,
  refl,
  refl,
  refl,
)
put_task_writes tenant_id id project_id title done (some t) s e h =
    elim (Bool-cases (t.tenant_id == tenant_id)) [
      | inr foreign ↦ absurd (not_applied (rw foreign at h))
      | inl own ↦ rw own (
        stamped_task (written_task title done) (suc s.last_version) t,
        saved_task id (written_task title done) t s (λ x. refl) e,
        ground (arith, own),
        refl,
        refl,
        refl,
      )
    ]

put_task_in_writes :
    (tenant_id id project_id title : String) (done : Bool) (parent : Option Project) (s : Store)
    → IsApplied (put_task_in tenant_id id project_id title done parent s)
    → TaskWritten tenant_id id title done
        (put_task_in tenant_id id project_id title done parent s).1
put_task_in_writes tenant_id id project_id title done none s h =
    let s' = add_project (new_project tenant_id project_id project_id none "Active") s in
    put_task_writes tenant_id id project_id title done (find (has_task_id id) s'.tasks) s' refl h
put_task_in_writes tenant_id id project_id title done (some p) s h =
    elim (Bool-cases (p.tenant_id == tenant_id)) [
      | inr foreign ↦ absurd (not_applied (rw foreign at h))
      | inl own ↦ rw own (
          put_task_writes tenant_id id project_id title done (find (has_task_id id) s.tasks) s refl
            (rw own at h))
    ]

bury_task_buries :
    (now : ℕ) (tenant_id id : String) (found : Option Task) (s : Store)
    → find (has_task_id id) s.tasks ≡ found
    → IsApplied (bury_task now tenant_id id found s)
    → TaskGone tenant_id id (bury_task now tenant_id id found s).1
bury_task_buries now tenant_id id none s e h = inl e
bury_task_buries now tenant_id id (some t) s e h = elim (Bool-cases (t.tenant_id == tenant_id)) [
  | inr foreign ↦ absurd (not_applied (rw foreign at h))
  | inl own ↦ elim (Bool-cases (not_set t.deleted_at)) [
    | inl live ↦
        rw (own, live)
          (inr (
            stamped_task (task_deleted now) (suc s.last_version) t,
            saved_task id (task_deleted now) t s (λ x. refl) e,
            ground (arith, own),
            refl,
          ))
    | inr gone ↦ rw (own, gone) (inr (t, e, ground (arith, own), gone))
  ]
]

upsert_project_writes :
    (tenant_id id : String) (name description status : Option String) (s : Store)
    → IsApplied (check_project tenant_id id name description status s)
    → (n : String) × (st : String) × (name ≡ some n)
      × (status ≡ some st)
      × ProjectWritten tenant_id id n description st
          (check_project tenant_id id name description status s).1
upsert_project_writes tenant_id id none description status s h = absurd (not_applied h)
upsert_project_writes tenant_id id (some name) description none s h = absurd (not_applied h)
upsert_project_writes tenant_id id (some name) description (some status) s h = (
  name,
  status,
  refl,
  refl,
  put_project_writes tenant_id id name status description (find (has_project_id id) s.projects) s
      refl h,
)

upsert_task_writes :
    (tenant_id id : String) (project_id title : Option String) (done : Bool) (s : Store)
    → IsApplied (check_task tenant_id id project_id title done s)
    → (n : String) × (title ≡ some n)
      × TaskWritten tenant_id id n done (check_task tenant_id id project_id title done s).1
upsert_task_writes tenant_id id none title done s h = absurd (not_applied h)
upsert_task_writes tenant_id id (some project_id) none done s h = absurd (not_applied h)
upsert_task_writes tenant_id id (some project_id) (some title) done s h = (
  title,
  refl,
  put_task_in_writes tenant_id id project_id title done
      (find (has_project_id project_id) s.projects) s h,
)

-- When the body of the loop answers a mutation as applied and no more, the row of its id is the
-- tenant's right after it: after the upsert of a project it has the name, the description and the
-- status of the data, after the upsert of a task the title and the flag `done` of the data, and in
-- both cases no tombstone. After a deletion there is no row of the id, or it is the tenant's and has a
-- tombstone.
pub apply_change_sound :
    (now : ℕ) (tenant_id id : String) (c : Change) (s : Store)
    → (apply_change now tenant_id id c s).0 ≡ Answer.applied ∷ []
    → Done tenant_id id c (apply_change now tenant_id id c s).1
unfolding apply_change
apply_change_sound now tenant_id id (Change.upsert_project none) s h = absurd (not_applied h)
apply_change_sound now tenant_id id (Change.upsert_project (some data_)) s h =
    upsert_project_writes tenant_id id (truthy data_.name) data_.description data_.status s h
apply_change_sound now tenant_id id Change.delete_project s h =
    bury_project_buries now tenant_id id (find (has_project_id id) s.projects) s refl h
apply_change_sound now tenant_id id (Change.upsert_task none) s h = absurd (not_applied h)
apply_change_sound now tenant_id id (Change.upsert_task (some data_)) s h =
    upsert_task_writes tenant_id id (truthy data_.project_id) (truthy data_.title) data_.done s h
apply_change_sound now tenant_id id Change.delete_task s h =
    bury_task_buries now tenant_id id (find (has_task_id id) s.tasks) s refl h
