-- ===== src/Offline/Drain.antt =====
-- What a drain deletes from the queue (`deleteApplied`, templates/next/src/lib/offline/outbox.ts),
-- while the user goes on writing.
use mathlib.Core.List.{Memᴰ}
use evo_platform.Base.{
  ℕ, ◌<◌, ◌≡◌, refl, sym, ap, ◌∙◌, inl, inr, Bool, true, false, ◌&&◌, ◌||◌, List, [], ◌∷◌, ◌++◌,
  ◌==◌, string_eq, nat_eq, contains, arith, Bool-cases,
}
use evo_platform.Base.Rows.{any, delete_where, mem-cases}
use evo_platform.Sync.Server.{Mutation}
use evo_platform.Sync.Paging.{Above, Above-mem}
use evo_platform.Offline.Outbox.{
  same_row, RowSeqs, DrainSnapshot, set_latest, push_seq, seq_of, collect, snapshot_for_drain,
  seqs_of, answered_seqs, delete_seqs, delete_applied,
}
use evo_platform.Offline.Coalescing.{
  same_row_comm, same_row_trans, last_of_rows, Rising, snapshot_for_drain-last_of_rows,
}

contains-append : (k : ℕ) (xs ys : List ℕ) → contains k (xs ++ ys) ≡ contains k xs || contains k ys
unfolding contains
contains-append k [] ys = refl
contains-append k (x ∷ xs) ys = ground (arith, contains-append k xs ys)

or_nil : (b : Bool) → (b || false) ≡ b
or_nil true = refl
or_nil false = refl

or_assoc : (a b c : Bool) → (a || b) || c ≡ a || (b || c)
or_assoc true b c = refl
or_assoc false b c = refl

-- Whether the queue has the number under the row of `m`.
abbrev numbered : ℕ → Mutation → List Mutation → Bool
numbered k m ms = any (λ n. same_row m n && k == n.seq) ms

contains-push_seq :
    (k : ℕ) (m n : Mutation) (rows : List RowSeqs)
    → contains k (seqs_of m (push_seq n rows))
      ≡ contains k (seqs_of m rows) || (same_row m n && k == n.seq)
unfolding push_seq seqs_of contains
contains-push_seq k m n [] = ground (arith, same_row_comm m n)
contains-push_seq k m n (r ∷ rows) = elim (Bool-cases (same_row r.row n)) [
  | inl same ↦ elim (Bool-cases (same_row r.row m)) [
    | inl here ↦
        let e : same_row m n ≡ true = (sym (same_row_trans r.row m n here)) ∙ same in
        rw (same, here, e)
          (contains-append k r.seqs (n.seq ∷ [])
            ∙ ap (λ b. contains k r.seqs || b) (or_nil (k == n.seq)))
    | inr other ↦
        let e : same_row m n ≡ false =
          same_row_comm m n ∙ sym (same_row_trans r.row n m same) ∙ other in
        rw (same, other, e) (sym (or_nil (contains k (seqs_of m rows))))
  ]
  | inr apart ↦ elim (Bool-cases (same_row r.row m)) [
    | inl here ↦
        let e : same_row m n ≡ false = (sym (same_row_trans r.row m n here)) ∙ apart in
        rw (apart, here, e) (sym (or_nil (contains k r.seqs)))
    | inr other ↦ rw (apart, other) (contains-push_seq k m n rows)
  ]
]

contains-collect :
    (k : ℕ) (m : Mutation) (ms : List Mutation) (s : DrainSnapshot)
    → contains k (seqs_of m (collect ms s).seqs_by_row)
      ≡ contains k (seqs_of m s.seqs_by_row) || numbered k m ms
unfolding collect any
contains-collect k m [] s = sym (or_nil (contains k (seqs_of m s.seqs_by_row)))
contains-collect k m (n ∷ ms) s =
    contains-collect k m ms
      (record { to_send = set_latest n s.to_send; seqs_by_row = push_seq n s.seqs_by_row })
    ∙ ap (λ b. b || numbered k m ms) (contains-push_seq k m n s.seqs_by_row)
    ∙ or_assoc (contains k (seqs_of m s.seqs_by_row)) (same_row m n && k == n.seq) (numbered k m ms)

contains-answered :
    (k : ℕ) (answered : List ℕ) (ms : List Mutation) (rows : List RowSeqs)
    → contains k (answered_seqs answered ms rows)
      ≡ any (λ m. contains m.seq answered && contains k (seqs_of m rows)) ms
unfolding answered_seqs any
contains-answered k answered [] rows = refl
contains-answered k answered (m ∷ ms) rows = elim (Bool-cases (contains m.seq answered)) [
  | inl sent ↦ rw sent (
      contains-append k (seqs_of m rows) (answered_seqs answered ms rows)
      ∙ ap (λ b. contains k (seqs_of m rows) || b) (contains-answered k answered ms rows))
  | inr kept ↦ rw kept (contains-answered k answered ms rows)
]

-- Whether the last mutation of the row of `x` was answered.
unfoldable pub is_answered : List ℕ → List Mutation → Mutation → Bool
unfolding any last_of_rows
is_answered answered queue x =
    any (λ m. contains m.seq answered && same_row m x) (last_of_rows queue)

any-cong :
    {p q : Mutation → Bool} (xs : List Mutation)
    → ((x : Mutation) → p x ≡ q x)
    → any p xs ≡ any q xs
unfolding any
any-cong [] h = refl
any-cong (x ∷ xs) h = rw (h x, any-cong xs h) refl

numbered_beyond :
    (k : ℕ) (m : Mutation) (ms : List Mutation) → Above seq_of k ms → numbered k m ms ≡ false
unfolding any
numbered_beyond k m [] h = refl
numbered_beyond k m (x ∷ xs) (h, hs) = ground (arith, h, numbered_beyond k m xs hs)

-- In a rising queue a number is that of one mutation.
numbered-mem :
    (m x : Mutation) (queue : List Mutation)
    → Rising queue
    → Memᴰ x queue
    → numbered x.seq m queue ≡ same_row m x
unfolding any
numbered-mem m x [] r there = elim there [ ]
numbered-mem m x (n ∷ queue) (above, r) there = elim (mem-cases there) [
  | inl e ↦
      let beyond = numbered_beyond x.seq m queue (rw e above) in
      ground (arith, ap (same_row m) e, ap seq_of e, beyond)
  | inr later ↦
      ground (arith, Above-mem seq_of n.seq queue above later, numbered-mem m x queue r later)
]

and_false : (b : Bool) → (b && false) ≡ false
and_false true = refl
and_false false = refl

unnumbered :
    (k : ℕ) (m : Mutation) (queue : List Mutation)
    → ((x : Mutation) → Memᴰ x queue → x.seq < k)
    → numbered k m queue ≡ false
unfolding any
unnumbered k m [] h = refl
unnumbered k m (n ∷ queue) h =
    ground (arith, h n (Memᴰ.head refl), unnumbered k m queue (λ x there. h x (Memᴰ.tail there)))

abbrev empty : DrainSnapshot
empty = record { to_send = []; seqs_by_row = [] }

-- The numbers that a drain deletes, at a mutation of the queue and at a later one.
deleted-queue :
    (answered : List ℕ) (queue : List Mutation) (x : Mutation)
    → Rising queue
    → Memᴰ x queue
    → contains x.seq
        (answered_seqs answered (last_of_rows queue) (snapshot_for_drain queue).seqs_by_row)
      ≡ is_answered answered queue x
unfolding is_answered snapshot_for_drain seqs_of contains
deleted-queue answered queue x r there =
    contains-answered x.seq answered (last_of_rows queue) (snapshot_for_drain queue).seqs_by_row
    ∙ any-cong (last_of_rows queue) (λ m.
      ap (λ b. contains m.seq answered && b)
        (contains-collect x.seq m queue empty ∙ numbered-mem m x queue r there))

any_none :
    (p : Mutation → Bool) (xs : List Mutation) → ((x : Mutation) → p x ≡ false) → any p xs ≡ false
unfolding any
any_none p [] h = refl
any_none p (x ∷ xs) h = rw (h x) (any_none p xs h)

deleted-newer :
    (answered : List ℕ) (queue : List Mutation) (k : ℕ)
    → ((x : Mutation) → Memᴰ x queue → x.seq < k)
    → contains k
        (answered_seqs answered (last_of_rows queue) (snapshot_for_drain queue).seqs_by_row)
      ≡ false
unfolding snapshot_for_drain seqs_of contains any
deleted-newer answered queue k h =
    contains-answered k answered (last_of_rows queue) (snapshot_for_drain queue).seqs_by_row
    ∙ any_none
        (λ m.
          contains m.seq answered && contains k (seqs_of m (snapshot_for_drain queue).seqs_by_row))
        (last_of_rows queue)
        (λ m.
          ap (λ b. contains m.seq answered && b)
            (contains-collect k m queue empty ∙ unnumbered k m queue h)
          ∙ and_false (contains m.seq answered))

delete_where-as :
    (p q : Mutation → Bool) (xs ys : List Mutation)
    → ((x : Mutation) → Memᴰ x xs → p x ≡ q x)
    → ((y : Mutation) → Memᴰ y ys → p y ≡ false)
    → delete_where p (xs ++ ys) ≡ delete_where q xs ++ ys
unfolding delete_where
delete_where-as p q [] [] h k = refl
delete_where-as p q [] (y ∷ ys) h k =
    rw (k y (Memᴰ.head refl), delete_where-as p q [] ys h (λ z there. k z (Memᴰ.tail there))) refl
delete_where-as p q (x ∷ xs) ys h k = elim (Bool-cases (q x)) [
  | inl gone ↦
      rw (h x (Memᴰ.head refl), gone)
        (delete_where-as p q xs ys (λ z there. h z (Memᴰ.tail there)) k)
  | inr kept ↦
      rw
        (h x (Memᴰ.head refl), kept, delete_where-as p q xs ys (λ z there. h z (Memᴰ.tail there)) k)
        refl
]

Above-append : (n : ℕ) (xs ys : List Mutation) → Above seq_of n (xs ++ ys) → Above seq_of n xs
Above-append n [] ys h = tt
Above-append n (x ∷ xs) ys (h, hs) = (h, Above-append n xs ys hs)

Rising-append : (xs ys : List Mutation) → Rising (xs ++ ys) → Rising xs
Rising-append [] ys r = tt
Rising-append (x ∷ xs) ys (above, r) = (Above-append x.seq xs ys above, Rising-append xs ys r)

mem-append : {y : Mutation} (xs ys : List Mutation) → Memᴰ y ys → Memᴰ y (xs ++ ys)
mem-append [] ys there = there
mem-append (x ∷ xs) ys there = Memᴰ.tail (mem-append xs ys there)

Rising-apart :
    (xs ys : List Mutation) {x y : Mutation}
    → Rising (xs ++ ys)
    → Memᴰ x xs
    → Memᴰ y ys
    → x.seq < y.seq
Rising-apart [] ys r here there = elim here [ ]
Rising-apart (n ∷ xs) ys (above, r) here there = elim (mem-cases here) [
  | inl e ↦ rw e (Above-mem seq_of n.seq (xs ++ ys) above (mem-append xs ys there))
  | inr later ↦ Rising-apart xs ys r later there
]

-- A drain whose request was answered, where the user has added `newer` to the queue meanwhile and the
-- numbers rise: of the queue that was sent it deletes exactly the mutations of the rows whose last
-- mutation has an answer, and every mutation of `newer` stays.
pub delete_applied_keeps_newer :
    (answered : List ℕ) (queue newer : List Mutation)
    → Rising (queue ++ newer)
    → delete_applied (snapshot_for_drain queue) answered (queue ++ newer)
      ≡ delete_where (is_answered answered queue) queue ++ newer
unfolding delete_applied delete_seqs
delete_applied_keeps_newer answered queue newer r =
    let rising = Rising-append queue newer r in
    rw (snapshot_for_drain-last_of_rows queue rising) (
      delete_where-as
        (λ m.
          contains m.seq
            (answered_seqs answered (last_of_rows queue) (snapshot_for_drain queue).seqs_by_row))
        (is_answered answered queue) queue newer
        (λ x there. deleted-queue answered queue x rising there)
        (λ y there.
          deleted-newer answered queue y.seq (λ x here. Rising-apart queue newer r here there)))
