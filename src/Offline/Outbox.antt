-- ===== src/Offline/Outbox.antt =====
-- The queue of a client's writes: templates/next/src/lib/offline/outbox.ts. A row of the queue is a
-- `Mutation` of the wire format, whose `id` is the row's; the instant of its creation is left out.
-- The queue is in the order of `seq`, which the database counts up.
use evo_platform.Base.{
  ℕ, Bool, true, false, not, ◌&&◌, ◌||◌, String, List, [], ◌∷◌, ◌++◌, ◌==◌, string_eq, nat_eq,
  contains, if◌then◌else◌, ◌<>◌,
}
use evo_platform.Base.Rows.{any, delete_where}
use evo_platform.Sync.Server.{Change, Mutation}
use evo_platform.Sync.Pull.{order_by_version}

abbrev pub is_project_change : Change → Bool
is_project_change (Change.upsert_project _) = true
is_project_change Change.delete_project = true
is_project_change _ = false

abbrev same_table : Change → Change → Bool
same_table a b = if is_project_change a then is_project_change b else not (is_project_change b)

-- The key `${m.table}:${m.rowId}`.
unfoldable pub same_row : Mutation → Mutation → Bool
same_row a b = a.id == b.id && same_table a.change b.change

unfoldable pub enqueue : Mutation → List Mutation → List Mutation
enqueue m outbox = outbox ++ (m ∷ [])

pub record RowSeqs : Type 0 where
  pub row : Mutation
  pub seqs : List ℕ

pub record DrainSnapshot : Type 0 where
  pub to_send : List Mutation
  pub seqs_by_row : List RowSeqs

-- `latest.set(key, m)`: a map keeps the place of a key that it has.
unfoldable pub set_latest : Mutation → List Mutation → List Mutation
unfolding same_row
set_latest m [] = m ∷ []
set_latest m (x ∷ xs) = let rest = set_latest m xs in if same_row x m then m ∷ xs else x ∷ rest

-- `seqs.push(m.seq)` under the key of the row.
unfoldable pub push_seq : Mutation → List RowSeqs → List RowSeqs
unfolding same_row
push_seq m [] = record { row = m; seqs = m.seq ∷ [] } ∷ []
push_seq m (r ∷ rs) =
    let rest = push_seq m rs in
    if same_row r.row m then record r { seqs = r.seqs ++ (m.seq ∷ []) } ∷ rs else r ∷ rest

abbrev pub seq_of : Mutation → ℕ
seq_of m = m.seq

-- The loop of `snapshotForDrain`, from what it has collected.
unfoldable pub collect : List Mutation → DrainSnapshot → DrainSnapshot
unfolding set_latest push_seq
collect [] s = s
collect (m ∷ ms) s =
    collect ms (record { to_send = set_latest m s.to_send; seqs_by_row = push_seq m s.seqs_by_row })

unfoldable pub snapshot_for_drain : List Mutation → DrainSnapshot
unfolding collect order_by_version
snapshot_for_drain outbox =
    let s = collect outbox (record { to_send = []; seqs_by_row = [] }) in
    record s { to_send = order_by_version seq_of s.to_send }

unfoldable pub seqs_of : Mutation → List RowSeqs → List ℕ
unfolding same_row
seqs_of m [] = []
seqs_of m (r ∷ rs) = let rest = seqs_of m rs in if same_row r.row m then r.seqs else rest

-- The numbers that go, for the rows whose sent mutation was answered.
unfoldable pub answered_seqs : List ℕ → List Mutation → List RowSeqs → List ℕ
unfolding contains seqs_of
answered_seqs answered [] rows = []
answered_seqs answered (m ∷ ms) rows =
    let rest = answered_seqs answered ms rows in
    if contains m.seq answered then seqs_of m rows ++ rest else rest

-- `bulkDelete`
unfoldable pub delete_seqs : List ℕ → List Mutation → List Mutation
unfolding contains
delete_seqs seqs outbox = delete_where (λ m. contains m.seq seqs) outbox

-- `deleteApplied`; the client drops what the server rejected in the same way.
unfoldable pub delete_applied : DrainSnapshot → List ℕ → List Mutation → List Mutation
unfolding answered_seqs delete_seqs
delete_applied s answered outbox =
    delete_seqs (answered_seqs answered s.to_send s.seqs_by_row) outbox

unfoldable pub has_pending : Bool → String → List Mutation → Bool
has_pending is_project id outbox =
    any
      (λ m.
        m.id == id
        && (if is_project then is_project_change m.change else not (is_project_change m.change)))
      outbox

-- `purgeForProject`; `starts_with` is the prefix test of the text library.
unfoldable pub purge_for_project : (String → String → Bool) → String → List Mutation → List Mutation
purge_for_project starts_with project_id outbox =
    delete_where (λ m. m.id == project_id || starts_with m.id (project_id <> "::")) outbox
