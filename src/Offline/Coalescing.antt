-- ===== src/Offline/Coalescing.antt =====
-- What a drain sends and what it deletes (`snapshotForDrain` and `deleteApplied`,
-- templates/next/src/lib/offline/outbox.ts).
use evo_platform.Base.{
  ℕ, ◌<◌, ◌≡◌, refl, ap, ◌∙◌, Bool, true, false, ◌||◌, List, [], ◌∷◌, ◌++◌, string_eq, nat_eq,
  if◌then◌else◌, arith, Bool-cases, inl, inr, leb,
}
use evo_platform.Base.Keyed.{NodupKeys}
use evo_platform.Base.Rows.{any, delete_where}
use evo_platform.Sync.Server.{Mutation}
use evo_platform.Sync.Pull.{order_by_version, insert_ordered}
use evo_platform.Sync.Paging.{Above}
use evo_platform.Offline.Outbox.{
  same_row, DrainSnapshot, set_latest, push_seq, seq_of, collect, snapshot_for_drain,
}

pub same_row_comm : (a b : Mutation) → same_row a b ≡ same_row b a
unfolding same_row
same_row_comm a b = ground arith

pub same_row_trans : (a b c : Mutation) → same_row a b ≡ true → same_row a c ≡ same_row b c
unfolding same_row
same_row_trans a b c h = ground (arith, h)

-- The mutations that no later one of the same row follows.
unfoldable pub last_of_rows : List Mutation → List Mutation
unfolding any
last_of_rows [] = []
last_of_rows (m ∷ ms) = let rest = last_of_rows ms in if any (same_row m) ms then rest else m ∷ rest

-- Every number of the queue is below that of `m`.
abbrev Below : ℕ → List Mutation → Type 0
Below n [] = Unit
Below n (x ∷ xs) = (x.seq < n) × Below n xs

-- Whether the queue has a mutation of the same row.
abbrev hit : List Mutation → Mutation → Bool
hit ms x = any (same_row x) ms

insert-last :
    (m : Mutation) (xs : List Mutation) → Below m.seq xs → insert_ordered seq_of m xs ≡ xs ++ m ∷ []
unfolding insert_ordered
insert-last m [] h = refl
insert-last m (x ∷ xs) (h, hs) = ground (arith, h, insert-last m xs hs)

insert-before_last :
    (x m : Mutation) (xs : List Mutation)
    → x.seq < m.seq
    → insert_ordered seq_of x (xs ++ m ∷ []) ≡ insert_ordered seq_of x xs ++ m ∷ []
unfolding insert_ordered
insert-before_last x m [] h = ground (arith, h)
insert-before_last x m (y ∷ ys) h = ground (arith, insert-before_last x m ys h)

Below-insert :
    (n : ℕ) (m : Mutation) (xs : List Mutation)
    → m.seq < n
    → Below n xs
    → Below n (insert_ordered seq_of m xs)
unfolding insert_ordered
Below-insert n m [] h hs = (h, tt)
Below-insert n m (x ∷ xs) h (k, ks) = elim (Bool-cases (leb m.seq x.seq)) [
  | inl before ↦ rw before (h, (k, ks))
  | inr after ↦ rw after (k, Below-insert n m xs h ks)
]

Below-order : (n : ℕ) (xs : List Mutation) → Below n xs → Below n (order_by_version seq_of xs)
unfolding order_by_version
Below-order n [] h = tt
Below-order n (x ∷ xs) (h, hs) =
    Below-insert n x (order_by_version seq_of xs) h (Below-order n xs hs)

Below-delete :
    (n : ℕ) (p : Mutation → Bool) (xs : List Mutation) → Below n xs → Below n (delete_where p xs)
unfolding delete_where
Below-delete n p [] h = tt
Below-delete n p (x ∷ xs) (h, hs) = elim (Bool-cases (p x)) [
  | inl gone ↦ rw gone (Below-delete n p xs hs)
  | inr kept ↦ rw kept (h, Below-delete n p xs hs)
]

Below-weaken : (k n : ℕ) (xs : List Mutation) → k < n → Below k xs → Below n xs
Below-weaken k n [] h hs = tt
Below-weaken k n (x ∷ xs) h (k', ks) = (omega arith, Below-weaken k n xs h ks)

Below-set_latest :
    (n : ℕ) (m : Mutation) (xs : List Mutation) → m.seq < n → Below n xs → Below n (set_latest m xs)
unfolding set_latest
Below-set_latest n m [] h hs = (h, tt)
Below-set_latest n m (x ∷ xs) h (k, ks) = elim (Bool-cases (same_row x m)) [
  | inl same ↦ rw same (h, ks)
  | inr apart ↦ rw apart (k, Below-set_latest n m xs h ks)
]

or-false : {a b : Bool} → a ≡ false → b ≡ false → (a || b) ≡ false
or-false h k = rw (h, k) refl

or-false_left : (a b : Bool) → (a || b) ≡ false → a ≡ false
or-false_left a b h = ground arith

or-false_right : (a : Bool) {b : Bool} → (a || b) ≡ false → b ≡ false
or-false_right a h = ground arith

any-set_latest :
    (x m : Mutation) (xs : List Mutation)
    → same_row x m ≡ false
    → any (same_row x) xs ≡ false
    → any (same_row x) (set_latest m xs) ≡ false
unfolding set_latest any
any-set_latest x m [] h hs = ground (arith, h)
any-set_latest x m (y ∷ ys) h hs = elim (Bool-cases (same_row y m)) [
  | inl same ↦ rw same (or-false h (or-false_right (same_row x y) hs))
  | inr apart ↦ rw apart (
      or-false (or-false_left (same_row x y) (any (same_row x) ys) hs)
        (any-set_latest x m ys h (or-false_right (same_row x y) hs)))
]

any-same_row :
    (x m : Mutation) (xs : List Mutation)
    → same_row x m ≡ true
    → any (same_row x) xs ≡ any (same_row m) xs
unfolding any
any-same_row x m [] h = refl
any-same_row x m (y ∷ ys) h = ground (arith, same_row_trans x m y h, any-same_row x m ys h)

set_latest-NodupKeys :
    (m : Mutation) (xs : List Mutation)
    → NodupKeys same_row xs
    → NodupKeys same_row (set_latest m xs)
unfolding set_latest any
set_latest-NodupKeys m [] h = (refl, tt)
set_latest-NodupKeys m (x ∷ xs) (fresh, h) = elim (Bool-cases (same_row x m)) [
  | inl same ↦ rw same (ground (arith, any-same_row x m xs same), h)
  | inr apart ↦ rw apart (any-set_latest x m xs apart fresh, set_latest-NodupKeys m xs h)
]

-- A row that is not in the list is not hit more for the mutation of it.
delete_hit-apart :
    (m : Mutation) (ms xs : List Mutation)
    → any (same_row m) xs ≡ false
    → delete_where (hit ms) xs ≡ delete_where (hit (m ∷ ms)) xs
unfolding delete_where any
delete_hit-apart m ms [] h = refl
delete_hit-apart m ms (x ∷ xs) h = ground (arith, same_row_comm x m, delete_hit-apart m ms xs)

set_latest-hit :
    (m : Mutation) (ms xs : List Mutation)
    → any (same_row m) ms ≡ true
    → NodupKeys same_row xs
    → delete_where (hit ms) (set_latest m xs) ≡ delete_where (hit (m ∷ ms)) xs
unfolding set_latest delete_where any
set_latest-hit m ms [] h u = ground (arith, h)
set_latest-hit m ms (x ∷ xs) h (fresh, u) = elim (Bool-cases (same_row x m)) [
  | inl same ↦
      let apart : any (same_row m) xs ≡ false = ground (arith, any-same_row x m xs same) in
      ground (arith, h, delete_hit-apart m ms xs apart)
  | inr apart ↦ ground (arith, set_latest-hit m ms xs h u)
]

set_latest-last :
    (m : Mutation) (ms xs : List Mutation)
    → any (same_row m) ms ≡ false
    → NodupKeys same_row xs
    → Below m.seq xs
    → order_by_version seq_of (delete_where (hit ms) (set_latest m xs))
      ≡ order_by_version seq_of (delete_where (hit (m ∷ ms)) xs) ++ m ∷ []
unfolding set_latest delete_where any order_by_version insert_ordered
set_latest-last m ms [] h u b = ground (arith, h)
set_latest-last m ms (x ∷ xs) h (fresh, u) (below, b) = elim (Bool-cases (same_row x m)) [
  | inl same ↦
      let apart : any (same_row m) xs ≡ false = ground (arith, any-same_row x m xs same) in
      let at_end =
        insert-last m (order_by_version seq_of (delete_where (hit ms) xs))
          (Below-order m.seq (delete_where (hit ms) xs) (Below-delete m.seq (hit ms) xs b)) in
      ground (arith, h, delete_hit-apart m ms xs apart, at_end)
  | inr apart ↦ ground (
    arith,
    set_latest-last m ms xs h u b,
    insert-before_last x m (order_by_version seq_of (delete_where (hit (m ∷ ms)) xs)) below,
  )
]

-- The numbers of the queue rise.
abbrev pub Rising : List Mutation → Type 0
Rising [] = Unit
Rising (m ∷ ms) = Above seq_of m.seq ms × Rising ms

Below-rises :
    (m n : Mutation) (ms xs : List Mutation)
    → Above seq_of m.seq (n ∷ ms)
    → Below m.seq xs
    → Below n.seq (set_latest m xs)
Below-rises m n ms xs (h, _) b = Below-set_latest n.seq m xs h (Below-weaken m.seq n.seq xs h b)

-- Every number of the list is below the first of the queue.
abbrev BelowFirst : List Mutation → List Mutation → Type 0
BelowFirst [] xs = Unit
BelowFirst (m ∷ ms) xs = Below m.seq xs

BelowFirst-set_latest :
    (m : Mutation) (ms xs : List Mutation)
    → Above seq_of m.seq ms
    → Below m.seq xs
    → BelowFirst ms (set_latest m xs)
BelowFirst-set_latest m [] xs h b = tt
BelowFirst-set_latest m (n ∷ ms) xs h b = Below-rises m n ms xs h b

append_nil : (xs : List Mutation) → xs ++ [] ≡ xs
append_nil [] = refl
append_nil (x ∷ xs) = rw (append_nil xs) refl

append_snoc :
    (xs : List Mutation) (m : Mutation) (ys : List Mutation) → (xs ++ m ∷ []) ++ ys ≡ xs ++ m ∷ ys
append_snoc [] m ys = refl
append_snoc (x ∷ xs) m ys = rw (append_snoc xs m ys) refl

delete_where_none : (xs : List Mutation) → delete_where (hit []) xs ≡ xs
unfolding delete_where any
delete_where_none [] = refl
delete_where_none (x ∷ xs) = rw (delete_where_none xs) refl

-- What the loop sends, from what it has collected: the rows that no later mutation hits, then the
-- last mutations of the others.
collect-last_of_rows :
    (ms : List Mutation) (s : DrainSnapshot)
    → Rising ms
    → NodupKeys same_row s.to_send
    → BelowFirst ms s.to_send
    → order_by_version seq_of (collect ms s).to_send
      ≡ order_by_version seq_of (delete_where (hit ms) s.to_send) ++ last_of_rows ms
unfolding collect last_of_rows
collect-last_of_rows [] s r u b =
    rw (delete_where_none s.to_send, append_nil (order_by_version seq_of s.to_send)) refl
collect-last_of_rows (m ∷ ms) s (above, r) u b =
    let s' : DrainSnapshot = record {
      to_send = set_latest m s.to_send;
      seqs_by_row = push_seq m s.seqs_by_row;
    } in
    let rest =
      collect-last_of_rows ms s' r (set_latest-NodupKeys m s.to_send u)
        (BelowFirst-set_latest m ms s.to_send above b) in
    elim (Bool-cases (any (same_row m) ms)) [
      | inl again ↦ rw (again, ← set_latest-hit m ms s.to_send again u) rest
      | inr last ↦ rw last (
          rest
          ∙ ap (λ xs. xs ++ last_of_rows ms) (set_latest-last m ms s.to_send last u b)
          ∙ append_snoc (order_by_version seq_of (delete_where (hit (m ∷ ms)) s.to_send)) m
              (last_of_rows ms))
    ]

start : (ms : List Mutation) → BelowFirst ms []
start [] = tt
start (m ∷ ms) = tt

-- Where the numbers of the queue rise, a drain sends exactly the mutations that no later one of the
-- same row follows, in the order of the queue.
pub snapshot_for_drain-last_of_rows :
    (outbox : List Mutation)
    → Rising outbox
    → (snapshot_for_drain outbox).to_send ≡ last_of_rows outbox
unfolding snapshot_for_drain delete_where order_by_version
snapshot_for_drain-last_of_rows outbox r =
    collect-last_of_rows outbox (record { to_send = []; seqs_by_row = [] }) r tt (start outbox)
