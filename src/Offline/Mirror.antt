-- ===== src/Offline/Mirror.antt =====
-- What a client's replica shows after it took a page (templates/next/src/lib/sync/client.ts).
use mathlib.Core.List.{Memᴰ}
use evo_platform.Base.{
  ◌≡◌, ◌⊎◌, refl, ap, ◌∙◌, inl, inr, Bool, true, false, String, Option, none, some, List, [], ◌∷◌,
  ◌++◌, ◌==◌, string_eq, nat_eq, ==_refl, if◌then◌else◌, arith, Bool-cases, not_set,
}
use evo_platform.Base.Rows.{find, any, update_where, delete_where, mem-cases}
use evo_platform.Sync.Server.{Mutation, Project, Task}
use evo_platform.Offline.Outbox.{has_pending}
use evo_platform.Offline.Local.{
  LocalProject, Replica, is_project_row, put_row, put_local_project, put_local_task, drop_project,
  drop_task,
}
use evo_platform.Offline.Client.{
  local_project, apply_project, apply_task, apply_projects, apply_tasks,
}

module _ {A : Type 0} where
  find-put_row :
      (p : A → Bool) (a : A) (rows : List A) → p a ≡ true → find p (put_row p a rows) ≡ some a
  unfolding put_row find any update_where
  find-put_row p a rows h = elim (Bool-cases (any p rows)) [
    | inl there ↦ rw there (updated rows there)
    | inr absent ↦ rw absent (appended rows absent)
  ]
    where
      updated : (rows : List A) → any p rows ≡ true → find p (update_where p (λ _. a) rows) ≡ some a
      updated [] there = absurd (ground arith)
      updated (x ∷ rows) there = ground (arith, h, updated rows)

      appended : (rows : List A) → any p rows ≡ false → find p (rows ++ a ∷ []) ≡ some a
      appended [] absent = ground (arith, h)
      appended (x ∷ rows) absent = ground (arith, appended rows)

  -- The row of another key is found as before.
  pub find-put_row_other :
      (q p : A → Bool) (a : A) (rows : List A)
      → ((x : A) → p x ≡ true → q x ≡ false)
      → q a ≡ false
      → find q (put_row p a rows) ≡ find q rows
  unfolding put_row find update_where
  find-put_row_other q p a rows apart h = elim (Bool-cases (any p rows)) [
    | inl there ↦ rw there (updated rows)
    | inr absent ↦ rw absent (appended rows)
  ]
    where
      updated : (rows : List A) → find q (update_where p (λ _. a) rows) ≡ find q rows
      updated [] = refl
      updated (x ∷ rows) = ground (arith, h, apart x, updated rows)

      appended : (rows : List A) → find q (rows ++ a ∷ []) ≡ find q rows
      appended [] = ground (arith, h)
      appended (x ∷ rows) = ground (arith, appended rows)

  find-delete_where-none : (p : A → Bool) (rows : List A) → find p (delete_where p rows) ≡ none
  unfolding find delete_where
  find-delete_where-none p [] = refl
  find-delete_where-none p (x ∷ rows) = ground (arith, find-delete_where-none p rows)

  pub find-delete_where_other :
      (q p : A → Bool) (rows : List A)
      → ((x : A) → p x ≡ true → q x ≡ false)
      → find q (delete_where p rows) ≡ find q rows
  unfolding find delete_where
  find-delete_where_other q p [] apart = refl
  find-delete_where_other q p (x ∷ rows) apart =
      ground (arith, apart x, find-delete_where_other q p rows apart)

other_project :
    (a b : String)
    → (b == a) ≡ false
    → (x : LocalProject) → is_project_row a x ≡ true
    → is_project_row b x ≡ false
other_project a b h x e = ground arith

-- The project of an id in the replica.
unfoldable pub shown_in : String → Replica → Option LocalProject
shown_in id r = find (is_project_row id) r.projects

-- What a client is to show for a project of the server.
unfoldable pub shown : Project → Option LocalProject
shown p = if not_set p.deleted_at then some (local_project p) else none

pub apply_project-other :
    (outbox : List Mutation) (q : Project) (id : String) (r : Replica)
    → (id == q.id) ≡ false
    → shown_in id (apply_project outbox q r) ≡ shown_in id r
unfolding apply_project put_local_project drop_project shown_in
apply_project-other outbox q id r apart = elim (Bool-cases (has_pending true q.id outbox)) [
  | inl pending ↦ rw pending refl
  | inr free ↦ elim (Bool-cases (not_set q.deleted_at)) [
    | inl live ↦
        rw (free, live)
          (find-put_row_other (is_project_row id) (is_project_row q.id) (local_project q) r.projects
            (other_project q.id id apart) (ground (arith, apart)))
    | inr gone ↦
        rw (free, gone)
          (find-delete_where_other (is_project_row id) (is_project_row q.id) r.projects
            (other_project q.id id apart))
  ]
]

pub apply_project_shadowed :
    (outbox : List Mutation) (q : Project) (r : Replica)
    → has_pending true q.id outbox ≡ true
    → apply_project outbox q r ≡ r
unfolding apply_project
apply_project_shadowed outbox q r pending = rw pending refl

apply_project-shown :
    (outbox : List Mutation) (q : Project) (r : Replica)
    → has_pending true q.id outbox ≡ false
    → shown_in q.id (apply_project outbox q r) ≡ shown q
unfolding apply_project put_local_project drop_project shown_in shown
apply_project-shown outbox q r free = elim (Bool-cases (not_set q.deleted_at)) [
  | inl live ↦
      rw (free, live)
        (find-put_row (is_project_row q.id) (local_project q) r.projects (==_refl q.id))
  | inr gone ↦ rw (free, gone) (find-delete_where-none (is_project_row q.id) r.projects)
]

apply_task-projects :
    (outbox : List Mutation) (t : Task) (r : Replica)
    → (apply_task outbox t r).projects ≡ r.projects
unfolding apply_task put_local_task drop_task
apply_task-projects outbox t r = elim (Bool-cases (has_pending false t.id outbox)) [
  | inl pending ↦ rw pending refl
  | inr free ↦ elim (Bool-cases (not_set t.deleted_at)) [
    | inl live ↦ rw (free, live) refl
    | inr gone ↦ rw (free, gone) refl
  ]
]

pub apply_tasks-projects :
    (outbox : List Mutation) (ts : List Task) (r : Replica)
    → (apply_tasks outbox ts r).projects ≡ r.projects
unfolding apply_tasks
apply_tasks-projects outbox [] r = refl
apply_tasks-projects outbox (t ∷ ts) r =
    apply_tasks-projects outbox ts (apply_task outbox t r) ∙ apply_task-projects outbox t r

-- A page shows a project that it has, and keeps what is shown of the others.
pub apply_projects-shown :
    (outbox : List Mutation) (ps : List Project) (p : Project) (r : Replica)
    → has_pending true p.id outbox ≡ false
    → ((q : Project) → Memᴰ q ps → q.id ≡ p.id → q ≡ p)
    → Memᴰ p ps ⊎ (shown_in p.id r ≡ shown p)
    → shown_in p.id (apply_projects outbox ps r) ≡ shown p
unfolding apply_projects
apply_projects-shown outbox [] p r free one (inl there) = elim there [ ]
apply_projects-shown outbox [] p r free one (inr h) = h
apply_projects-shown outbox (q ∷ ps) p r free one h =
    let one' : (x : Project) → Memᴰ x ps → x.id ≡ p.id → x ≡ p = λ x m. one x (Memᴰ.tail m) in
    elim (Bool-cases (p.id == q.id)) [
      | inl same ↦
          let e : q ≡ p = one q (Memᴰ.head refl) (ground arith) in
          let here : shown_in p.id (apply_project outbox q r) ≡ shown p =
            rw e (apply_project-shown outbox p r free) in
          apply_projects-shown outbox ps p (apply_project outbox q r) free one' (inr here)
      | inr apart ↦ apply_projects-shown outbox ps p (apply_project outbox q r) free one' (elim h [
        | inl there ↦ elim (mem-cases there) [
          | inl e ↦ absurd (ground (arith, ap (λ (x : Project). x.id) e, apart))
          | inr later ↦ inl later
        ]
        | inr before ↦ inr (apply_project-other outbox q p.id r apart ∙ before)
      ])
    ]

-- A project with a pending write is shown as the user left it, whatever is pulled.
pub apply_projects_shadowed :
    (outbox : List Mutation) (ps : List Project) (id : String) (r : Replica)
    → has_pending true id outbox ≡ true
    → shown_in id (apply_projects outbox ps r) ≡ shown_in id r
unfolding apply_projects
apply_projects_shadowed outbox [] id r h = refl
apply_projects_shadowed outbox (q ∷ ps) id r h =
    apply_projects_shadowed outbox ps id (apply_project outbox q r) h
    ∙ elim (Bool-cases (id == q.id)) [
      | inl same ↦
          let e : q.id ≡ id = ground arith in
          ap (shown_in id) (apply_project_shadowed outbox q r (rw e h))
      | inr apart ↦ apply_project-other outbox q id r apart
    ]
