-- ===== src/Sync/Answers.antt =====
-- The answer to a push (`applyMutations`, templates/next/src/lib/sync/server.ts).
use evo_platform.Base.{
  ℕ, ◌+◌, ◌≡◌, refl, Bool, String, Option, none, some, List, [], ◌∷◌, ◌==◌, nat_eq, string_eq,
  arith, Bool-cases, inl, inr,
}
use evo_platform.Base.Rows.{find, count_where, length}
use evo_platform.Platform.{truthy}
use evo_platform.Sync.Server.{
  Mutation, RejectReason, Answer, ApplyResult, Change, Project, Task, Store, has_project_id,
  has_task_id, add_project, new_project, put_project, check_project, bury_project, put_task,
  put_task_in, check_task, bury_task, answered, apply_change, apply_mutations,
}

-- The body pushed once.
abbrev Once : List Answer × Store → Type 0
Once r = length r.0 ≡ 1

put_project-Once :
    (tenant_id id name status : String) (description : Option String) (found : Option Project)
    (s : Store)
    → Once (put_project tenant_id id name description status found s)
put_project-Once tenant_id id name status description none s = refl
put_project-Once tenant_id id name status description (some p) s =
    elim (Bool-cases (p.tenant_id == tenant_id)) [
      | inl own ↦ rw own refl
      | inr foreign ↦ rw foreign refl
    ]

check_project-Once :
    (tenant_id id : String) (name description status : Option String) (s : Store)
    → Once (check_project tenant_id id name description status s)
check_project-Once tenant_id id none description status s = refl
check_project-Once tenant_id id (some name) description none s = refl
check_project-Once tenant_id id (some name) description (some status) s =
    put_project-Once tenant_id id name status description (find (has_project_id id) s.projects) s

bury_project-Once :
    (now : ℕ) (tenant_id id : String) (found : Option Project) (s : Store)
    → Once (bury_project now tenant_id id found s)
bury_project-Once now tenant_id id none s = refl
bury_project-Once now tenant_id id (some p) s = elim (Bool-cases (p.tenant_id == tenant_id)) [
  | inl own ↦ rw own refl
  | inr foreign ↦ rw foreign refl
]

put_task-Once :
    (tenant_id id project_id title : String) (done : Bool) (found : Option Task) (s : Store)
    → Once (put_task tenant_id id project_id title done found s)
put_task-Once tenant_id id project_id title done none s = refl
put_task-Once tenant_id id project_id title done (some t) s =
    elim (Bool-cases (t.tenant_id == tenant_id)) [
      | inl own ↦ rw own refl
      | inr foreign ↦ rw foreign refl
    ]

put_task_in-Once :
    (tenant_id id project_id title : String) (done : Bool) (parent : Option Project) (s : Store)
    → Once (put_task_in tenant_id id project_id title done parent s)
put_task_in-Once tenant_id id project_id title done none s =
    let s' = add_project (new_project tenant_id project_id project_id none "Active") s in
    put_task-Once tenant_id id project_id title done (find (has_task_id id) s'.tasks) s'
put_task_in-Once tenant_id id project_id title done (some p) s =
    elim (Bool-cases (p.tenant_id == tenant_id)) [
      | inl own ↦
          rw own
            (put_task-Once tenant_id id project_id title done (find (has_task_id id) s.tasks) s)
      | inr foreign ↦ rw foreign refl
    ]

check_task-Once :
    (tenant_id id : String) (project_id title : Option String) (done : Bool) (s : Store)
    → Once (check_task tenant_id id project_id title done s)
check_task-Once tenant_id id none title done s = refl
check_task-Once tenant_id id (some project_id) none done s = refl
check_task-Once tenant_id id (some project_id) (some title) done s =
    put_task_in-Once tenant_id id project_id title done
      (find (has_project_id project_id) s.projects) s

bury_task-Once :
    (now : ℕ) (tenant_id id : String) (found : Option Task) (s : Store)
    → Once (bury_task now tenant_id id found s)
bury_task-Once now tenant_id id none s = refl
bury_task-Once now tenant_id id (some t) s = elim (Bool-cases (t.tenant_id == tenant_id)) [
  | inl own ↦ rw own refl
  | inr foreign ↦ rw foreign refl
]

apply_change-Once :
    (now : ℕ) (tenant_id id : String) (c : Change) (s : Store)
    → Once (apply_change now tenant_id id c s)
unfolding apply_change
apply_change-Once now tenant_id id (Change.upsert_project none) s = refl
apply_change-Once now tenant_id id (Change.upsert_project (some data_)) s =
    check_project-Once tenant_id id (truthy data_.name) data_.description data_.status s
apply_change-Once now tenant_id id Change.delete_project s =
    bury_project-Once now tenant_id id (find (has_project_id id) s.projects) s
apply_change-Once now tenant_id id (Change.upsert_task none) s = refl
apply_change-Once now tenant_id id (Change.upsert_task (some data_)) s =
    check_task-Once tenant_id id (truthy data_.project_id) (truthy data_.title) data_.done s
apply_change-Once now tenant_id id Change.delete_task s =
    bury_task-Once now tenant_id id (find (has_task_id id) s.tasks) s

abbrev applied_times : ℕ → ApplyResult → ℕ
applied_times n r = count_where (λ k. k == n) r.applied

abbrev rejected_times : ℕ → ApplyResult → ℕ
rejected_times n r = count_where (λ (x : ℕ × RejectReason). x.0 == n) r.rejected

answered_once :
    (n seq : ℕ) (answers : List Answer) (r : ApplyResult)
    → length answers ≡ 1
    → applied_times n (answered seq answers r) + rejected_times n (answered seq answers r)
      ≡ count_where (λ k. k == n) (seq ∷ []) + (applied_times n r + rejected_times n r)
unfolding count_where answered
answered_once n seq [] r h = absurd (ground arith)
answered_once n seq (Answer.applied ∷ []) r h = ground arith
answered_once n seq (Answer.rejected reason ∷ []) r h = ground arith
answered_once n seq (a ∷ (b ∷ answers)) r h = absurd (ground arith)

-- Every mutation of a push is answered once, on every branch of the loop's body: a sequence number
-- stands in `applied` and `rejected` together as many times as it stands in the push, so that with
-- distinct numbers each is in exactly one of the two, and no other number is in either.
pub apply_mutations_answers :
    (now : ℕ) (tenant_id : String) (ms : List Mutation) (s : Store) (n : ℕ)
    → let (r, _) = apply_mutations now tenant_id ms s in
      count_where (λ k. k == n) r.applied
        + count_where (λ (x : ℕ × RejectReason). x.0 == n) r.rejected
      ≡ count_where (λ (m : Mutation). m.seq == n) ms
unfolding apply_mutations count_where
apply_mutations_answers now tenant_id [] s n = refl
apply_mutations_answers now tenant_id (m ∷ ms) s n =
    let (answers, s') = apply_change now tenant_id m.id m.change s in
    ground (
      arith,
      answered_once n m.seq answers (apply_mutations now tenant_id ms s').0
          (apply_change-Once now tenant_id m.id m.change s),
      apply_mutations_answers now tenant_id ms s' n,
    )
