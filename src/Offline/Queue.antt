-- ===== src/Offline/Queue.antt =====
-- The numbers of a client's queue rise, whatever the user and the server do
-- (templates/next/src/lib/data/projects.ts, templates/next/src/lib/sync/client.ts).
use evo_platform.Base.{
  ℕ, suc, ◌≤◌, ◌<◌, ◌≡◌, refl, Bool, String, Option, none, some, List, [], ◌∷◌, ◌++◌, string_eq,
  arith, Bool-cases, inl, inr,
}
use evo_platform.Base.Rows.{delete_where}
use evo_platform.Sync.Server.{Change, Mutation}
use evo_platform.Offline.Outbox.{
  DrainSnapshot, seq_of, enqueue, purge_for_project, delete_seqs, delete_applied,
}
use evo_platform.Sync.Paging.{Above}
use evo_platform.Offline.Coalescing.{Rising}
use evo_platform.Offline.Local.{
  LocalProject, LocalTask, TenantDatabase, queue_change, create_project, rename_found,
  rename_project, delete_project, add_task, toggle_found, toggle_task, delete_task,
}
use evo_platform.Sync.Route.{SyncResponse}
use evo_platform.Offline.Client.{settle_outbox, take_answer, wipe}

-- Every number of the queue was given.
abbrev Given : ℕ → List Mutation → Type 0
Given n [] = Unit
Given n (m ∷ ms) = (m.seq ≤ n) × Given n ms

-- The numbers rise, and were given by the database.
pub record IsQueued (d : TenantDatabase) : Type 0 where
  pub rising : Rising d.outbox
  pub given : Given d.last_seq d.outbox

-- What happens to a client's database: the writes of the user, and the answers of the server.
pub data LocalStep : Type 0 where
  create rename : String → String → LocalStep
  delete toggle remove : String → LocalStep
  add : String → String → String → LocalStep
  answered : DrainSnapshot → SyncResponse → LocalStep
  resynced : LocalStep

unfoldable pub run_step : (String → String → Bool) → LocalStep → TenantDatabase → TenantDatabase
unfolding create_project rename_project delete_project add_task toggle_task delete_task take_answer
    wipe
run_step starts_with (LocalStep.create id name) d = create_project id name d
run_step starts_with (LocalStep.rename id name) d = rename_project id name d
run_step starts_with (LocalStep.delete id) d = delete_project starts_with id d
run_step starts_with (LocalStep.toggle id) d = toggle_task id d
run_step starts_with (LocalStep.remove id) d = delete_task id d
run_step starts_with (LocalStep.add uuid project_id title) d = add_task uuid project_id title d
run_step starts_with (LocalStep.answered snapshot a) d = take_answer snapshot a d
run_step starts_with LocalStep.resynced d = wipe d

unfoldable pub run_steps :
    (String → String → Bool) → List LocalStep → TenantDatabase → TenantDatabase
unfolding run_step
run_steps starts_with [] d = d
run_steps starts_with (s ∷ ss) d = run_steps starts_with ss (run_step starts_with s d)

Above-delete :
    (n : ℕ) (p : Mutation → Bool) (ms : List Mutation)
    → Above seq_of n ms
    → Above seq_of n (delete_where p ms)
unfolding delete_where
Above-delete n p [] h = tt
Above-delete n p (m ∷ ms) (h, hs) = elim (Bool-cases (p m)) [
  | inl gone ↦ rw gone (Above-delete n p ms hs)
  | inr kept ↦ rw kept (h, Above-delete n p ms hs)
]

Rising-delete : (p : Mutation → Bool) (ms : List Mutation) → Rising ms → Rising (delete_where p ms)
unfolding delete_where
Rising-delete p [] r = tt
Rising-delete p (m ∷ ms) (above, r) = elim (Bool-cases (p m)) [
  | inl gone ↦ rw gone (Rising-delete p ms r)
  | inr kept ↦ rw kept (Above-delete m.seq p ms above, Rising-delete p ms r)
]

Given-delete :
    (n : ℕ) (p : Mutation → Bool) (ms : List Mutation) → Given n ms → Given n (delete_where p ms)
unfolding delete_where
Given-delete n p [] g = tt
Given-delete n p (m ∷ ms) (h, g) = elim (Bool-cases (p m)) [
  | inl gone ↦ rw gone (Given-delete n p ms g)
  | inr kept ↦ rw kept (h, Given-delete n p ms g)
]

Above-last :
    (n : ℕ) (m : Mutation) (ms : List Mutation)
    → n < m.seq
    → Above seq_of n ms
    → Above seq_of n (ms ++ m ∷ [])
Above-last n m [] h hs = (h, tt)
Above-last n m (x ∷ ms) h (k, hs) = (k, Above-last n m ms h hs)

Rising-last :
    (m : Mutation) (n : ℕ) (ms : List Mutation)
    → Given n ms
    → n < m.seq
    → Rising ms
    → Rising (ms ++ m ∷ [])
Rising-last m n [] g h r = (tt, tt)
Rising-last m n (x ∷ ms) (k, g) h (above, r) =
    (Above-last x.seq m ms (omega arith) above, Rising-last m n ms g h r)

Given-last :
    (m : Mutation) (n : ℕ) (ms : List Mutation)
    → Given n ms
    → m.seq ≡ suc n
    → Given (suc n) (ms ++ m ∷ [])
Given-last m n [] g e = (omega arith, tt)
Given-last m n (x ∷ ms) (k, g) e = (omega arith, Given-last m n ms g e)

queue_change-IsQueued :
    (id : String) (c : Change) (d : TenantDatabase) → IsQueued d → IsQueued (queue_change id c d)
unfolding queue_change enqueue
queue_change-IsQueued id c d q =
    let m : Mutation = record { seq = suc d.last_seq; id = id; change = c } in
    record {
      rising = Rising-last m d.last_seq d.outbox q.given (omega arith) q.rising;
      given = Given-last m d.last_seq d.outbox q.given refl;
    }

delete-IsQueued :
    (p : Mutation → Bool) (d d' : TenantDatabase)
    → d'.outbox ≡ delete_where p d.outbox
    → d'.last_seq ≡ d.last_seq
    → IsQueued d
    → IsQueued d'
delete-IsQueued p d d' e n q = record {
  rising = rw e (Rising-delete p d.outbox q.rising);
  given = rw (e, n) (Given-delete d.last_seq p d.outbox q.given);
}

rename_found-IsQueued :
    (name : String) (o : Option LocalProject) (d : TenantDatabase)
    → IsQueued d
    → IsQueued (rename_found name o d)
rename_found-IsQueued name none d q = q
rename_found-IsQueued name (some p) d q =
    queue_change-IsQueued _ _ _ (record { rising = q.rising; given = q.given })

toggle_found-IsQueued :
    (o : Option LocalTask) (d : TenantDatabase) → IsQueued d → IsQueued (toggle_found o d)
toggle_found-IsQueued none d q = q
toggle_found-IsQueued (some t) d q =
    queue_change-IsQueued _ _ _ (record { rising = q.rising; given = q.given })

run_step-IsQueued :
    (starts_with : String → String → Bool) (s : LocalStep) (d : TenantDatabase)
    → IsQueued d
    → IsQueued (run_step starts_with s d)
unfolding run_step create_project rename_project delete_project add_task toggle_task delete_task
    take_answer settle_outbox delete_applied delete_seqs purge_for_project wipe
run_step-IsQueued starts_with (LocalStep.create id name) d q =
    queue_change-IsQueued _ _ _ (record { rising = q.rising; given = q.given })
run_step-IsQueued starts_with (LocalStep.rename id name) d q = rename_found-IsQueued name _ d q
run_step-IsQueued starts_with (LocalStep.delete id) d q =
    queue_change-IsQueued _ _ _ (delete-IsQueued _ d _ refl refl q)
run_step-IsQueued starts_with (LocalStep.toggle id) d q = toggle_found-IsQueued _ d q
run_step-IsQueued starts_with (LocalStep.remove id) d q =
    queue_change-IsQueued _ _ _ (record { rising = q.rising; given = q.given })
run_step-IsQueued starts_with (LocalStep.add uuid project_id title) d q =
    queue_change-IsQueued _ _ _ (record { rising = q.rising; given = q.given })
run_step-IsQueued starts_with (LocalStep.answered snapshot a) d q =
    delete-IsQueued _ (record d { outbox = delete_applied snapshot a.applied d.outbox }) _ refl refl
      (delete-IsQueued _ d _ refl refl q)
run_step-IsQueued starts_with LocalStep.resynced d q = record { rising = q.rising; given = q.given }

-- The numbers of a queue that rise, and that the database gave, do so after any writes of the user and
-- any answers of the server, in any order.
pub run_steps-IsQueued :
    (starts_with : String → String → Bool) (ss : List LocalStep) (d : TenantDatabase)
    → IsQueued d
    → IsQueued (run_steps starts_with ss d)
unfolding run_steps
run_steps-IsQueued starts_with [] d q = q
run_steps-IsQueued starts_with (s ∷ ss) d q =
    run_steps-IsQueued starts_with ss (run_step starts_with s d)
      (run_step-IsQueued starts_with s d q)
