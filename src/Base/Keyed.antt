-- ===== src/Base/Keyed.antt =====
-- Tables with a key: rows that differ in it, and updates of the one row that has a given key.
use mathlib.Core.Path.{◌≡◌, refl, ◌∙◌}
use mathlib.Core.Logic.{inl, inr}
use mathlib.Core.Bool.{Bool, true, false, not, ◌&&◌}
use mathlib.Core.Option.{some, none-ne-some}
use mathlib.Core.List.{List, [], ◌∷◌, ◌++◌}
use native.Mathlib.Omega.{arith}
use evo_platform.Base.Equality.{Bool-cases}
use evo_platform.Base.Rows.{
  find, filter, any, update_where, delete_where, any_of_find, any_and_not,
  update_where-eq_of_not_any,
}

-- `key a x`: the row `x` has the key of `a`.
module _ {ℓ} {A : Type ℓ} (key : A → A → Bool) where
  abbrev pub NodupKeys : List A → Type 0
  NodupKeys [] = Unit {0}
  NodupKeys (r ∷ rows) = (any (key r) rows ≡ false) × NodupKeys rows

module _ {ℓ} {A : Type ℓ} (key : A → A → Bool) (key_refl : (a : A) → key a a ≡ true)
    (key_comm : (a b : A) → key a b ≡ key b a) where
  -- An update by the key of the row that a query found is an update of that row alone.
  pub filter-update_found :
      (q : A → Bool) (f : A → A) (rows : List A) {a : A}
      → NodupKeys key rows
      → find q rows ≡ some a
      → (c : A → Bool) → c a ≡ false
      → c (f a) ≡ false
      → filter c (update_where (key a) f rows) ≡ filter c rows
  unfolding find filter update_where
  filter-update_found q f [] u found c h h' = refl
  filter-update_found q f (r ∷ rows) {a} (fresh, u) found c h h' = elim (Bool-cases (q r)) [
    | inl here ↦
        let e : r ≡ a = ground arith in
        ground (arith, key_refl a, update_where-eq_of_not_any (key a) f rows)
    | inr later ↦
        let found' : find q rows ≡ some a = ground arith in
        ground (
          arith,
          key_comm a r,
          any_of_find q (key r) rows found',
          filter-update_found q f rows u found' c h h',
        )
  ]

  pub find-update_found :
      (q : A → Bool) (f : A → A) (rows : List A) {a : A}
      → NodupKeys key rows
      → find q rows ≡ some a
      → q (f a) ≡ true
      → find q (update_where (key a) f rows) ≡ some (f a)
  unfolding find update_where
  find-update_found q f [] u found h = absurd (none-ne-some _ found)
  find-update_found q f (r ∷ rows) {a} (fresh, u) found h = elim (Bool-cases (q r)) [
    | inl here ↦ let e : r ≡ a = ground arith in ground (arith, key_refl a)
    | inr later ↦
        let found' : find q rows ≡ some a = ground arith in
        ground (
          arith,
          key_comm a r,
          any_of_find q (key r) rows found',
          find-update_found q f rows u found' h,
        )
  ]

  -- A test that holds of some row, and not of the row that a query found, holds of a row with
  -- another key.
  pub any_of_other :
      (q c : A → Bool) (rows : List A) {a : A}
      → NodupKeys key rows
      → find q rows ≡ some a
      → c a ≡ false
      → any c rows ≡ true
      → any (λ x. c x && not (key a x)) rows ≡ true
  unfolding find any
  any_of_other q c [] u found h some_row = absurd (none-ne-some _ found)
  any_of_other q c (r ∷ rows) {a} (fresh, u) found h some_row = elim (Bool-cases (q r)) [
    | inl here ↦ let e : r ≡ a = ground arith in ground (arith, any_and_not c (key a) rows)
    | inr later ↦
        let found' : find q rows ≡ some a = ground arith in
        ground
          (arith, key_comm a r, any_of_find q (key r) rows found', any_of_other q c rows u found' h)
  ]

  -- Updates that keep the key keep the keys apart, and so do deletions.
  any-key-update_where :
      (k : A) (p : A → Bool) (f : A → A) (rows : List A)
      → ((x : A) → key k (f x) ≡ key k x)
      → any (key k) (update_where p f rows) ≡ any (key k) rows
  unfolding any update_where
  any-key-update_where k p f [] h = refl
  any-key-update_where k p f (r ∷ rows) h = ground (arith, h r, any-key-update_where k p f rows h)

  any-key-moved :
      (p : A → Bool) (f : A → A) (r : A) (rows : List A)
      → ((k x : A) → (key k (f x) ≡ key k x) × (key (f k) x ≡ key k x))
      → any (key r) rows ≡ false
      → any (key (f r)) (update_where p f rows) ≡ false
  unfolding any update_where
  any-key-moved p f r [] h fresh = refl
  any-key-moved p f r (x ∷ rows) h fresh =
      ground (arith, h r x, h (f r) x, h r (f x), any-key-moved p f r rows h)

  pub update_where-NodupKeys :
      (p : A → Bool) (f : A → A) (rows : List A)
      → ((k x : A) → (key k (f x) ≡ key k x) × (key (f k) x ≡ key k x))
      → NodupKeys key rows
      → NodupKeys key (update_where p f rows)
  unfolding update_where any
  update_where-NodupKeys p f [] h u = tt
  update_where-NodupKeys p f (r ∷ rows) h (fresh, u) = (
    elim (Bool-cases (p r)) [
      | inl selected ↦ rw selected (any-key-moved p f r rows h fresh)
      | inr other ↦ rw other (any-key-update_where r p f rows (λ x. (h r x).0) ∙ fresh)
    ],
    update_where-NodupKeys p f rows h u,
  )

  delete_where-any :
      (k : A) (p : A → Bool) (rows : List A)
      → any (key k) rows ≡ false
      → any (key k) (delete_where p rows) ≡ false
  unfolding any delete_where
  delete_where-any k p [] h = h
  delete_where-any k p (r ∷ rows) h = ground (arith, delete_where-any k p rows)

  pub delete_where-NodupKeys :
      (p : A → Bool) (rows : List A) → NodupKeys key rows → NodupKeys key (delete_where p rows)
  unfolding delete_where
  delete_where-NodupKeys p [] u = tt
  delete_where-NodupKeys p (r ∷ rows) (fresh, u) = elim (Bool-cases (p r)) [
    | inl selected ↦ rw selected (delete_where-NodupKeys p rows u)
    | inr other ↦ rw other (delete_where-any r p rows fresh, delete_where-NodupKeys p rows u)
  ]

  append-any :
      (k y : A) (rows : List A)
      → any (key k) rows ≡ false
      → key k y ≡ false
      → any (key k) (rows ++ y ∷ []) ≡ false
  unfolding any
  append-any k y [] h e = ground arith
  append-any k y (r ∷ rows) h e = ground (arith, append-any k y rows)

  pub append-NodupKeys :
      (y : A) (rows : List A)
      → any (key y) rows ≡ false
      → NodupKeys key rows
      → NodupKeys key (rows ++ y ∷ [])
  unfolding any
  append-NodupKeys y [] h u = (refl, tt)
  append-NodupKeys y (r ∷ rows) h (fresh, u) = (
    append-any r y rows fresh (ground (arith, key_comm r y)),
    append-NodupKeys y rows (ground arith) u,
  )
