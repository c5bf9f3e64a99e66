-- ===== src/Sync/Paging.antt =====
-- Paging loses nothing and ends (`pullChanges`, templates/next/src/lib/sync/server.ts).
use mathlib.Core.List.{Memᴰ}
use evo_platform.Base.{
  ℕ, zero, suc, ◌≤◌, ◌<◌, ◌≡◌, ◌≢◌, ap, refl, ◌⊎◌, inl, inr, Bool, true, List, [], ◌∷◌, string_eq,
  nat_eq, arith, Bool-cases, leb,
}
use evo_platform.Base.Rows.{filter, length, mem-cases}
use evo_platform.Sync.Pull.{insert_ordered, order_by_version, last_of, take}

module _ {A : Type 0} (version : A → ℕ) where
  -- Every version of the list is above the bound.
  abbrev pub Above : ℕ → List A → Type 0
  Above n [] = Unit
  Above n (x ∷ xs) = (n < version x) × Above n xs

  -- No row of the list has the version.
  abbrev pub Avoids : ℕ → List A → Type 0
  Avoids n [] = Unit
  Avoids n (x ∷ xs) = (n ≢ version x) × Avoids n xs

  -- No two rows have one version.
  abbrev pub Distinct : List A → Type 0
  Distinct [] = Unit
  Distinct (x ∷ xs) = Avoids (version x) xs × Distinct xs

  -- Each version is below those that follow.
  abbrev pub Ordered : List A → Type 0
  Ordered [] = Unit
  Ordered (x ∷ xs) = Above (version x) xs × Ordered xs

  Above-weaken : (m n : ℕ) (xs : List A) → m ≤ n → Above n xs → Above m xs
  Above-weaken m n [] h k = tt
  Above-weaken m n (x ∷ xs) h (k, ks) = (omega arith, Above-weaken m n xs h ks)

  Above-insert :
      (n : ℕ) (a : A) (xs : List A)
      → n < version a
      → Above n xs
      → Above n (insert_ordered version a xs)
  unfolding insert_ordered
  Above-insert n a [] h k = (h, tt)
  Above-insert n a (x ∷ xs) h (k, ks) = elim (Bool-cases (leb (version a) (version x))) [
    | inl before ↦ rw before (h, (k, ks))
    | inr after ↦ rw after (k, Above-insert n a xs h ks)
  ]

  pub Above-order : (n : ℕ) (xs : List A) → Above n xs → Above n (order_by_version version xs)
  unfolding order_by_version
  Above-order n [] k = tt
  Above-order n (x ∷ xs) (k, ks) =
      Above-insert n x (order_by_version version xs) k (Above-order n xs ks)

  pub Above-take : (n m : ℕ) (xs : List A) → Above n xs → Above n (take m xs)
  unfolding take
  Above-take n zero xs k = tt
  Above-take n (suc m) [] k = tt
  Above-take n (suc m) (x ∷ xs) (k, ks) = (k, Above-take n m xs ks)

  Avoids-insert :
      (n : ℕ) (a : A) (xs : List A)
      → n ≢ version a
      → Avoids n xs
      → Avoids n (insert_ordered version a xs)
  unfolding insert_ordered
  Avoids-insert n a [] h k = (h, tt)
  Avoids-insert n a (x ∷ xs) h (k, ks) = elim (Bool-cases (leb (version a) (version x))) [
    | inl before ↦ rw before (h, (k, ks))
    | inr after ↦ rw after (k, Avoids-insert n a xs h ks)
  ]

  Avoids-order : (n : ℕ) (xs : List A) → Avoids n xs → Avoids n (order_by_version version xs)
  unfolding order_by_version
  Avoids-order n [] k = tt
  Avoids-order n (x ∷ xs) (k, ks) =
      Avoids-insert n x (order_by_version version xs) k (Avoids-order n xs ks)

  Avoids-filter : (n : ℕ) (q : A → Bool) (xs : List A) → Avoids n xs → Avoids n (filter q xs)
  unfolding filter
  Avoids-filter n q [] k = tt
  Avoids-filter n q (x ∷ xs) (k, ks) = elim (Bool-cases (q x)) [
    | inl taken ↦ rw taken (k, Avoids-filter n q xs ks)
    | inr left ↦ rw left (Avoids-filter n q xs ks)
  ]

  pub Distinct-filter : (q : A → Bool) (xs : List A) → Distinct xs → Distinct (filter q xs)
  unfolding filter
  Distinct-filter q [] k = tt
  Distinct-filter q (x ∷ xs) (k, ks) = elim (Bool-cases (q x)) [
    | inl taken ↦ rw taken (Avoids-filter (version x) q xs k, Distinct-filter q xs ks)
    | inr left ↦ rw left (Distinct-filter q xs ks)
  ]

  pub Above-filter :
      (n : ℕ) (q : A → Bool) (xs : List A)
      → ((x : A) → q x ≡ true → n < version x)
      → Above n (filter q xs)
  unfolding filter
  Above-filter n q [] h = tt
  Above-filter n q (x ∷ xs) h = elim (Bool-cases (q x)) [
    | inl taken ↦ rw taken (h x taken, Above-filter n q xs h)
    | inr left ↦ rw left (Above-filter n q xs h)
  ]

  Ordered-insert :
      (a : A) (xs : List A)
      → Avoids (version a) xs
      → Ordered xs
      → Ordered (insert_ordered version a xs)
  unfolding insert_ordered
  Ordered-insert a [] k o = (tt, tt)
  Ordered-insert a (x ∷ xs) (k, ks) (least, o) = elim (Bool-cases (leb (version a) (version x))) [
    | inl before ↦
        let h : version a < version x = ground (arith, before, k) in
        rw before ((h, Above-weaken (version a) (version x) xs (omega arith) least), (least, o))
    | inr after ↦
        let h : version x < version a = ground (arith, after, k) in
        rw after (Above-insert (version x) a xs h least, Ordered-insert a xs ks o)
  ]

  pub Ordered-order : (xs : List A) → Distinct xs → Ordered (order_by_version version xs)
  unfolding order_by_version
  Ordered-order [] k = tt
  Ordered-order (x ∷ xs) (k, ks) =
      Ordered-insert x (order_by_version version xs) (Avoids-order (version x) xs k)
        (Ordered-order xs ks)

  mem-insert :
      (a : A) (xs : List A) {y : A} → (y ≡ a) ⊎ Memᴰ y xs → Memᴰ y (insert_ordered version a xs)
  unfolding insert_ordered
  mem-insert a [] (inl e) = Memᴰ.head e
  mem-insert a [] (inr m) = elim m [ ]
  mem-insert a (x ∷ xs) {y} m = elim (Bool-cases (leb (version a) (version x))) [
    | inl before ↦ rw before (elim m [ inl e ↦ Memᴰ.head e | inr later ↦ Memᴰ.tail later ])
    | inr after ↦ rw after (elim m [
      | inl e ↦ Memᴰ.tail (mem-insert a xs (inl e))
      | inr later ↦ elim (mem-cases later) [
        | inl e ↦ Memᴰ.head e
        | inr there ↦ Memᴰ.tail (mem-insert a xs (inr there))
      ]
    ])
  ]

  pub mem-order : (xs : List A) {y : A} → Memᴰ y xs → Memᴰ y (order_by_version version xs)
  unfolding order_by_version
  mem-order [] m = elim m [ ]
  mem-order (x ∷ xs) m =
      mem-insert x (order_by_version version xs)
        (elim (mem-cases m) [ inl e ↦ inl e | inr later ↦ inr (mem-order xs later) ])

  pub mem-filtered :
      (q : A → Bool) (xs : List A) {y : A} → Memᴰ y xs → q y ≡ true → Memᴰ y (filter q xs)
  unfolding filter
  mem-filtered q [] m h = elim m [ ]
  mem-filtered q (x ∷ xs) {y} m h = elim (mem-cases m) [
    | inl e ↦ let taken : q x ≡ true = rw (← e) h in rw taken (Memᴰ.head e)
    | inr later ↦ elim (Bool-cases (q x)) [
      | inl taken ↦ rw taken (Memᴰ.tail (mem-filtered q xs later h))
      | inr left ↦ rw left (mem-filtered q xs later h)
    ]
  ]

  pub Above-mem : (n : ℕ) (xs : List A) {y : A} → Above n xs → Memᴰ y xs → n < version y
  Above-mem n [] k m = elim m [ ]
  Above-mem n (x ∷ xs) (k, ks) m = elim (mem-cases m) [
    | inl e ↦ rw e k
    | inr later ↦ Above-mem n xs ks later
  ]

  -- A row of an ordered list is in the first of it, or these are cut and end before it.
  pub take-cases :
      (n k : ℕ) (xs : List A) {y : A}
      → Ordered xs
      → Memᴰ y xs
      → k < version y
      → Memᴰ y (take n xs)
        ⊎ ((length (take n xs) ≡ n) × (last_of version k (take n xs) < version y))
  unfolding take last_of
  take-cases zero k xs o m h = inr (refl, h)
  take-cases (suc n) k [] o m h = elim m [ ]
  take-cases (suc n) k (x ∷ xs) (least, o) m h = elim (mem-cases m) [
    | inl e ↦ inl (Memᴰ.head e)
    | inr later ↦
        elim (take-cases n (version x) xs o later (Above-mem (version x) xs least later)) [
          | inl there ↦ inl (Memᴰ.tail there)
          | inr (cut, ends) ↦ inr (ap suc cut, ends)
        ]
  ]

  last_of-Above : (n k : ℕ) (xs : List A) → n < k → Above n xs → n < last_of version k xs
  unfolding last_of
  last_of-Above n k [] h ks = h
  last_of-Above n k (x ∷ xs) h (k', ks) = last_of-Above n (version x) xs k' ks

  pub last_of-Above_page :
      (n k m : ℕ) (xs : List A) → Above n xs → length xs ≡ suc m → n < last_of version k xs
  unfolding last_of
  last_of-Above_page n k m [] ks e = absurd (ground arith)
  last_of-Above_page n k m (x ∷ xs) (h, ks) e = last_of-Above n (version x) xs h ks
