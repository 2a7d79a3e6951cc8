-- ===== src/Prelude/Entries.antt =====
-- Merging dictionaries that share no key: `Object.fromEntries(Object.entries(m))` is `m`.
use Prim.Native.String.{String}
use mathlib.Core.Path.{◌≡◌, refl, ap, ◌∙◌}
use mathlib.Core.Option.{none, some}
use mathlib.Core.List.{[], ◌∷◌, ◌++◌}
use native.Mathlib.Omega.{arith}
use text.Mathlib.Text.{◌==◌}
use text.Mathlib.TextEquality.{eq_iff}
use mozgoslav.Prelude.Tests.{if◌then◌else◌}
use mozgoslav.Prelude.Records.{Dict, lookup, insert, assign, Unique}

module _ {ℓ} {V : Type ℓ} where
  -- no key of the second dictionary is in the first
  abbrev pub Apart : Dict V → Dict V → Type ℓ
  Apart a [] = Unit
  Apart a ((key, v) ∷ b) = (lookup key a ≡ none) × Apart a b

  insert-new :
      (key : String) (v : V) (m : Dict V)
      → lookup key m ≡ none
      → insert key v m ≡ m ++ (key, v) ∷ []
  unfolding insert lookup
  insert-new key v [] e = refl
  insert-new key v ((old, w) ∷ m) e = ground (arith, insert-new key v m)

  lookup-push :
      (key last : String) (v : V) (m : Dict V)
      → lookup key m ≡ none
      → lookup key (m ++ (last, v) ∷ []) ≡ (if last == key then some v else none)
  unfolding lookup
  lookup-push key last v [] e = refl
  lookup-push key last v ((old, w) ∷ m) e = ground (arith, lookup-push key last v m)

  Apart-push :
      (last : String) (v : V) (a b : Dict V)
      → Apart a b
      → lookup last b ≡ none
      → Apart (a ++ (last, v) ∷ []) b
  unfolding lookup
  Apart-push last v a [] h e = tt
  Apart-push last v a ((key, w) ∷ b) h e = ground (
    arith,
    lookup-push key last v a h.0,
    eq_iff key last,
    eq_iff last key,
    Apart-push last v a b h.1,
  )

  push-append : (e : String × V) (a b : Dict V) → (a ++ e ∷ []) ++ b ≡ a ++ e ∷ b
  push-append e [] b = refl
  push-append e (x ∷ a) b = ap (λ l. x ∷ l) (push-append e a b)

  pub assign-Apart : (a b : Dict V) → Apart a b → Unique b → assign a b ≡ a ++ b
  unfolding assign
  assign-Apart a [] h u = append-nil a
    where
      append-nil : (m : Dict V) → m ≡ m ++ []
      append-nil [] = refl
      append-nil (e ∷ m) = ap (λ l. e ∷ l) (append-nil m)
  assign-Apart a ((key, v) ∷ b) h u = rw (insert-new key v a h.0) (
      assign-Apart (a ++ (key, v) ∷ []) b (Apart-push key v a b h.1 u.0) u.1
      ∙ push-append (key, v) a b)

  Apart-empty : (b : Dict V) → Apart [] b
  unfolding lookup
  Apart-empty [] = tt
  Apart-empty ((key, v) ∷ b) = (refl, Apart-empty b)

  -- the entries of a dictionary make the dictionary again
  pub assign-empty : (b : Dict V) → Unique b → assign [] b ≡ b
  assign-empty b u = assign-Apart [] b (Apart-empty b) u
