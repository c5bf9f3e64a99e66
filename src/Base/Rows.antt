-- ===== src/Base/Rows.antt =====
-- A database table as the list of its rows, and the queries that the services make of it: each is
-- the documented effect of the client's method on the rows, with the `where` clause as a test.
use Prim.Native.Nat.{ℕ, suc, ◌+◌, ◌≤◌}
use mathlib.Core.Path.{◌≡◌, refl}
use mathlib.Core.Bool.{Bool, true, false, not, ◌&&◌, ◌||◌}
use mathlib.Core.Option.{Option, none, some, none-ne-some}
use mathlib.Core.List.{List, [], ◌∷◌, ◌++◌, Memᴰ}
use mathlib.Core.Logic.{◌⊎◌, ◌≢◌, inl, inr}
use native.Mathlib.Omega.{arith}
use evo_platform.Base.Equality.{if◌then◌else◌, Bool-cases}

module _ {ℓ} {A : Type ℓ} where
  -- `findFirst`, `findUnique`
  unfoldable pub find : (A → Bool) → List A → Option A
  find p [] = none
  find p (x ∷ xs) = if p x then some x else find p xs

  -- `findMany`
  unfoldable pub filter : (A → Bool) → List A → List A
  filter p [] = []
  filter p (x ∷ xs) = let rest = filter p xs in if p x then x ∷ rest else rest

  -- `update`, `updateMany`
  unfoldable pub update_where : (A → Bool) → (A → A) → List A → List A
  update_where p f [] = []
  update_where p f (x ∷ xs) = (if p x then f x else x) ∷ update_where p f xs

  -- `delete`, `deleteMany`
  unfoldable pub delete_where : (A → Bool) → List A → List A
  delete_where p [] = []
  delete_where p (x ∷ xs) = let rest = delete_where p xs in if p x then rest else x ∷ rest

  unfoldable pub any : (A → Bool) → List A → Bool
  any p [] = false
  any p (x ∷ xs) = p x || any p xs

  unfoldable pub all : (A → Bool) → List A → Bool
  all p [] = true
  all p (x ∷ xs) = p x && all p xs

  abbrev pub length : List A → ℕ
  length [] = 0
  length (x ∷ xs) = suc (length xs)

  -- `count`
  unfoldable pub count_where : (A → Bool) → List A → ℕ
  count_where p [] = 0
  count_where p (x ∷ xs) = (if p x then 1 else 0) + count_where p xs

  -- The rows that a `where` clause selects are unaffected by an update of other rows.
  pub filter-update_where :
      (q p : A → Bool) (f : A → A) (xs : List A)
      → ((x : A) → p x ≡ true → (q x ≡ false) × (q (f x) ≡ false))
      → filter q (update_where p f xs) ≡ filter q xs
  unfolding filter update_where
  filter-update_where q p f [] h = refl
  filter-update_where q p f (x ∷ xs) h = ground (arith, h x, filter-update_where q p f xs h)

  pub filter-append :
      (q : A → Bool) (xs ys : List A) → filter q (xs ++ ys) ≡ filter q xs ++ filter q ys
  unfolding filter
  filter-append q [] ys = refl
  filter-append q (x ∷ xs) ys = ground (arith, filter-append q xs ys)

  pub filter-delete_where :
      (q p : A → Bool) (xs : List A)
      → ((x : A) → p x ≡ true → q x ≡ false)
      → filter q (delete_where p xs) ≡ filter q xs
  unfolding filter delete_where
  filter-delete_where q p [] h = refl
  filter-delete_where q p (x ∷ xs) h = ground (arith, h x, filter-delete_where q p xs h)

  -- What a query returns meets its test.
  pub find_sound : (p : A → Bool) (xs : List A) {x : A} → find p xs ≡ some x → p x ≡ true
  unfolding find
  find_sound p [] h = ground arith
  find_sound p (y ∷ ys) h = grind (arith, find_sound p ys)

  -- An update leaves the rows alone if none is selected.
  pub update_where-eq_of_not_any :
      (p : A → Bool) (f : A → A) (xs : List A) → any p xs ≡ false → update_where p f xs ≡ xs
  unfolding any update_where
  update_where-eq_of_not_any p f [] h = refl
  update_where-eq_of_not_any p f (x ∷ xs) h = ground (arith, update_where-eq_of_not_any p f xs)

  -- Twice the same update is once, where the update changes no row that it made.
  pub update_where_idem :
      (p : A → Bool) (f g : A → A) (xs : List A)
      → ((x : A) → p x ≡ true → (p (f x) ≡ true) × (g (f x) ≡ f x))
      → update_where p g (update_where p f xs) ≡ update_where p f xs
  unfolding update_where
  update_where_idem p f g [] h = refl
  update_where_idem p f g (x ∷ xs) h = ground (arith, h x, update_where_idem p f g xs h)

  -- What a query finds again after an update of the row that it found: a row that was updated.
  pub find-update_where :
      (q p : A → Bool) (f : A → A) (xs : List A) {a : A}
      → find q xs ≡ some a
      → p a ≡ true
      → ((x : A) → p x ≡ true → q (f x) ≡ true)
      → (x : A) × (find q (update_where p f xs) ≡ some (f x)) × (p x ≡ true)
  unfolding find update_where
  find-update_where q p f [] found pa h = absurd (none-ne-some _ found)
  find-update_where q p f (x ∷ xs) {a} found pa h = elim (Bool-cases (p x)) [
    | inl px ↦ (x, ground (arith, h x), px)
    | inr not_p ↦
        let (y, again, py) = find-update_where q p f xs {a = a} (ground arith) pa h in
        (y, ground arith, py)
  ]

  pub any_of_find :
      (q p : A → Bool) (xs : List A) {a : A} → find q xs ≡ some a → p a ≡ true → any p xs ≡ true
  unfolding find any
  any_of_find q p [] found pa = absurd (none-ne-some _ found)
  any_of_find q p (x ∷ xs) {a} found pa = elim (Bool-cases (q x)) [
    | inl qx ↦ ground arith
    | inr not_q ↦ ground (arith, any_of_find q p xs {a = a} (ground arith) pa)
  ]

  pub count_where-update_where :
      (c p : A → Bool) (f : A → A) (xs : List A)
      → ((x : A) → c (f x) ≡ false)
      → count_where c (update_where p f xs) ≤ count_where c xs
  unfolding count_where update_where
  count_where-update_where c p f [] h = omega arith
  count_where-update_where c p f (x ∷ xs) h =
      ground (arith, h x, count_where-update_where c p f xs h)

  pub find_of_not_any : (p : A → Bool) (xs : List A) → any p xs ≡ false → find p xs ≡ none
  unfolding any find
  find_of_not_any p [] h = refl
  find_of_not_any p (x ∷ xs) h = ground (arith, find_of_not_any p xs)

  pub find-append :
      (p : A → Bool) (xs : List A) (y : A)
      → find p xs ≡ none
      → p y ≡ true
      → find p (xs ++ y ∷ []) ≡ some y
  unfolding find
  find-append p [] y h e = ground arith
  find-append p (x ∷ xs) y h e = ground (arith, find-append p xs y)

  pub find-mem : (p : A → Bool) (xs : List A) {a : A} → find p xs ≡ some a → Memᴰ a xs
  unfolding find
  find-mem p [] h = absurd (none-ne-some _ h)
  find-mem p (x ∷ xs) {a} h = elim (Bool-cases (p x)) [
    | inl px ↦ Memᴰ.head (ground arith)
    | inr not_p ↦ Memᴰ.tail (find-mem p xs (ground arith))
  ]

  pub mem-cases : {a x : A} {xs : List A} → Memᴰ a (x ∷ xs) → (a ≡ x) ⊎ Memᴰ a xs
  mem-cases (Memᴰ.head e) = inl e
  mem-cases (Memᴰ.tail m) = inr m

  pub mem-filter :
      (p : A → Bool) (xs : List A) {a : A} → Memᴰ a (filter p xs) → Memᴰ a xs × (p a ≡ true)
  unfolding filter
  mem-filter p [] m = elim m [ ]
  mem-filter p (x ∷ xs) {a} m = elim (Bool-cases (p x)) [
    | inl px ↦ elim (mem-cases (rw px at m)) [
      | inl e ↦ (Memᴰ.head e, rw e px)
      | inr later ↦ let (there, h) = mem-filter p xs later in (Memᴰ.tail there, h)
    ]
    | inr not_p ↦ let (there, h) = mem-filter p xs (rw not_p at m) in (Memᴰ.tail there, h)
  ]

  -- A query over rows of which an update has made all that are selected into others.
  pub count_where-update_where_none :
      (c p : A → Bool) (f : A → A) (xs : List A)
      → ((x : A) → p x ≡ true → c (f x) ≡ false)
      → ((x : A) → p x ≡ false → c x ≡ false)
      → count_where c (update_where p f xs) ≡ 0
  unfolding count_where update_where
  count_where-update_where_none c p f [] h k = refl
  count_where-update_where_none c p f (x ∷ xs) h k =
      ground (arith, h x, k x, count_where-update_where_none c p f xs h k)

  pub find_of_count_zero : (c : A → Bool) (xs : List A) → count_where c xs ≡ 0 → find c xs ≡ none
  unfolding count_where find
  find_of_count_zero c [] h = refl
  find_of_count_zero c (x ∷ xs) h = ground (arith, find_of_count_zero c xs)

  -- What is found in a list is found in a longer one.
  pub find-append_left :
      (p : A → Bool) (xs ys : List A) {a : A} → find p xs ≡ some a → find p (xs ++ ys) ≡ some a
  unfolding find
  find-append_left p [] ys h = absurd (none-ne-some _ h)
  find-append_left p (x ∷ xs) ys h = grind (arith, find-append_left p xs ys)

  -- An update that does not change what a query tests finds the same row, updated if it is selected.
  pub find-update_where-same :
      (q p : A → Bool) (f : A → A) (xs : List A) {a : A}
      → ((x : A) → q (f x) ≡ q x)
      → find q xs ≡ some a
      → find q (update_where p f xs) ≡ some (if p a then f a else a)
  unfolding find update_where
  find-update_where-same q p f [] same h = absurd (none-ne-some _ h)
  find-update_where-same q p f (x ∷ xs) {a} same h = elim (Bool-cases (q x)) [
    | inl qx ↦ let e : x ≡ a = ground arith in rw e (ground (arith, same a))
    | inr not_q ↦
        ground (arith, same x, find-update_where-same q p f xs {a = a} same (ground arith))
  ]

  pub find-update_where-none :
      (q p : A → Bool) (f : A → A) (xs : List A)
      → ((x : A) → q (f x) ≡ q x)
      → find q xs ≡ none
      → find q (update_where p f xs) ≡ none
  unfolding find update_where
  find-update_where-none q p f [] same h = refl
  find-update_where-none q p f (x ∷ xs) same h =
      ground (arith, same x, find-update_where-none q p f xs same)

  pub any_and_not :
      (c p : A → Bool) (xs : List A)
      → any p xs ≡ false
      → any c xs ≡ true
      → any (λ x. c x && not (p x)) xs ≡ true
  unfolding any
  any_and_not c p [] h k = k
  any_and_not c p (x ∷ xs) h k = ground (arith, any_and_not c p xs)

  -- A row that an update leaves alone is there afterwards.
  pub any-update_where_others :
      (c p : A → Bool) (f : A → A) (xs : List A)
      → any (λ x. c x && not (p x)) xs ≡ true
      → any c (update_where p f xs) ≡ true
  unfolding any update_where
  any-update_where_others c p f [] h = h
  any-update_where_others c p f (x ∷ xs) h = ground (arith, any-update_where_others c p f xs)

  pub any-update_where_kept :
      (c p : A → Bool) (f : A → A) (xs : List A)
      → ((x : A) → c x ≡ true → c (f x) ≡ true)
      → any c xs ≡ true
      → any c (update_where p f xs) ≡ true
  unfolding any update_where
  any-update_where_kept c p f [] h k = k
  any-update_where_kept c p f (x ∷ xs) h k = ground (arith, h x, any-update_where_kept c p f xs h)

  pub any-append_left : (c : A → Bool) (xs ys : List A) → any c xs ≡ true → any c (xs ++ ys) ≡ true
  unfolding any
  any-append_left c [] ys h = absurd (ground arith)
  any-append_left c (x ∷ xs) ys h = ground (arith, any-append_left c xs ys)

  pub any-delete_where :
      (c p : A → Bool) (xs : List A)
      → any (λ x. c x && not (p x)) xs ≡ true
      → any c (delete_where p xs) ≡ true
  unfolding any delete_where
  any-delete_where c p [] h = h
  any-delete_where c p (x ∷ xs) h = ground (arith, any-delete_where c p xs)

  pub any_of_count : (c : A → Bool) (xs : List A) → count_where c xs ≢ 0 → any c xs ≡ true
  unfolding any count_where
  any_of_count c [] h = absurd (h refl)
  any_of_count c (x ∷ xs) h = ground (arith, any_of_count c xs)

  pub any-delete_where_eq :
      (c p : A → Bool) (xs : List A) → any c (delete_where p xs) ≡ any (λ x. c x && not (p x)) xs
  unfolding any delete_where
  any-delete_where_eq c p [] = refl
  any-delete_where_eq c p (x ∷ xs) = ground (arith, any-delete_where_eq c p xs)

  pub any-delete_where_none : (p : A → Bool) (xs : List A) → any p (delete_where p xs) ≡ false
  unfolding any delete_where
  any-delete_where_none p [] = refl
  any-delete_where_none p (x ∷ xs) = ground (arith, any-delete_where_none p xs)
