-- ===== src/Base/Equality.antt =====
-- JavaScript's `===` on texts, numbers and nullable columns, and the conditional.
use Prim.Native.Nat.{ℕ}
use Prim.Native.String.{String}
use mathlib.Core.Path.{◌≡◌, refl, ap}
use mathlib.Core.Logic.{ite, dite, ◌⊎◌, inl, inr}
use mathlib.Core.Bool.{Bool, true, false, Bool-discrete, ◌||◌}
use mathlib.Core.Option.{Option, none, some, none-ne-some, some-ne-none, some-injective}
use mathlib.Core.List.{List, [], ◌∷◌}
use native.Mathlib.Decide.{ℕ_discrete}
use native.Mathlib.Omega.{arith}
use text.Mathlib.Text
use text.Mathlib.TextEquality.{eq_iff}

infix 1 if◌then◌else◌
abbrev pub if◌then◌else◌ {ℓ} : {A : Type ℓ} → Bool → A → A → A
if true then x else _ = x
if false then _ else y = y

pub record Eq {ℓ} (A : Type ℓ) : Type ℓ where
  pub decide_eq : Discrete A

-- Shut in proofs, where a split on a comparison yields the equation or its negation.
instance unfoldable pub string_eq : Eq String
string_eq = record {
  decide_eq = λ s t.
      dite (Bool-discrete (Text.◌==◌ s t) true) (λ same. yes ((eq_iff s t).0 same))
        (λ differ. no (λ p. differ ((eq_iff s t).1 p)));
}

instance unfoldable pub nat_eq : Eq ℕ
unfolding ℕ_discrete
nat_eq = record { decide_eq = ℕ_discrete }

module _ {ℓ} {A : Type ℓ} ⦃e : Eq A⦄ where
  infix 50 ◌==◌ ◌=?◌
  abbrev pub ◌==◌ : A → A → Bool
  a == b = ite (e.decide_eq a b) true false

  -- A nullable column against a value that is not null.
  abbrev pub ◌=?◌ : Option A → A → Bool
  none =? b = false
  some a =? b = a == b

  decide_option : Discrete (Option A)
  decide_option none none = yes refl
  decide_option none (some b) = no (none-ne-some b)
  decide_option (some a) none = no (some-ne-none a)
  decide_option (some a) (some b) =
      dite (e.decide_eq a b) (λ p. yes (ap some p)) (λ n. no (λ p. n (some-injective a b p)))

  instance unfoldable pub option_eq : Eq (Option A)
  unfolding decide_option
  option_eq = record { decide_eq = decide_option }

  -- `list.includes(a)`, `set.has(a)`
  unfoldable pub contains : A → List A → Bool
  contains a [] = false
  contains a (x ∷ xs) = a == x || contains a xs

  pub ==_refl : (a : A) → (a == a) ≡ true
  ==_refl a = ground arith

  pub eq_of_== : (a b : A) → (a == b) ≡ true → a ≡ b
  eq_of_== a b h = ground arith

pub Bool-cases : (b : Bool) → (b ≡ true) ⊎ (b ≡ false)
Bool-cases true = inl refl
Bool-cases false = inr refl

pub Option-cases {ℓ} : {A : Type ℓ} (o : Option A) → (o ≡ none) ⊎ ((a : A) × (o ≡ some a))
Option-cases none = inl refl
Option-cases (some a) = inr (a, refl)

-- `column: null` in a `where` clause
abbrev pub not_set {ℓ} : {A : Type ℓ} → Option A → Bool
not_set none = true
not_set (some _) = false
