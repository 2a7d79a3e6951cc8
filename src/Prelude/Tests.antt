-- ===== src/Prelude/Tests.antt =====
-- Boolean tests on native numbers, the conditional, and case splits that keep the equation.
use Prim.Native.Nat.{ℕ, compare, Ordering}
use mathlib.Core.Path.{◌≡◌, refl}
use mathlib.Core.Logic.{◌⊎◌, ◌≢◌, inl, inr}
use native.Mathlib.Omega.{arith}
use text.Mathlib.TextEquality.{eq_iff}
use Prim.Native.String.{String}
use text.Mathlib.Text.{◌==◌}
use mathlib.Core.Bool.{Bool, true, false, not}
use mathlib.Core.Option.{Option, none, some}

abbrev pub ltb : ℕ → ℕ → Bool
ltb a b = elim (compare a b) [ Ordering.lt ↦ true | _ ↦ false ]

abbrev pub leb : ℕ → ℕ → Bool
leb a b = elim (compare a b) [ Ordering.gt ↦ false | _ ↦ true ]

abbrev pub eqb : ℕ → ℕ → Bool
eqb a b = elim (compare a b) [ Ordering.eq ↦ true | _ ↦ false ]

infix 1 if◌then◌else◌
abbrev pub if◌then◌else◌ {ℓ} : {A : Type ℓ} → Bool → A → A → A
if true then x else y = x
if false then x else y = y

pub Bool-cases : (b : Bool) → (b ≡ true) ⊎ (b ≡ false)
Bool-cases true = inl refl
Bool-cases false = inr refl

pub Option-cases {ℓ} : {A : Type ℓ} (o : Option A) → (o ≡ none) ⊎ ((a : A) × (o ≡ some a))
Option-cases none = inl refl
Option-cases (some a) = inr (a, refl)

-- `a ?? b`
abbrev pub or_else {ℓ} : {A : Type ℓ} → Option A → Option A → Option A
or_else none b = b
or_else (some a) b = some a

abbrev pub is_some {ℓ} : {A : Type ℓ} → Option A → Bool
is_some none = false
is_some (some a) = true

-- What holds on both branches, under the value of the test, holds of the conditional.
pub if_cases {ℓ κ} :
    {A : Type ℓ} (P : A → Type κ) (b : Bool) {x y : A}
    → (b ≡ true → P x)
    → (b ≡ false → P y)
    → P (if b then x else y)
if_cases P true f g = f refl
if_cases P false f g = g refl

-- the truth value of a `string | null`
abbrev pub is_set : Option String → Bool
is_set none = false
is_set (some s) = not (s == "")

-- different texts fail the test for equality
pub eq_false : (a b : String) → a ≢ b → (a == b) ≡ false
eq_false a b h = ground (arith, eq_iff a b)
