-- ===== src/Prelude/Records.antt =====
-- `Record<string, V>` and `Map<string, V>`: associations in insertion order. The keys
-- are identifiers that do not read as array indices, which JavaScript would list first.
use Prim.Native.String.{String}
use mathlib.Core.Path.{◌≡◌, refl}
use mathlib.Core.Option.{Option, none, some}
use mathlib.Core.List.{List, [], ◌∷◌, map}
use native.Mathlib.Omega.{arith}
use text.Mathlib.Text.{◌==◌}
use text.Mathlib.TextEquality.{eq_iff}
use text.Mathlib.TextPositions.{eq_refl}
use mozgoslav.Prelude.Lists.{All}
use mozgoslav.Prelude.Tests.{if◌then◌else◌, or_else}

abbrev pub Dict {ℓ} : Type ℓ → Type ℓ
Dict V = List (String × V)

module _ {ℓ} {V : Type ℓ} where
  -- `m[k]`, `m.get(k)`
  unfoldable pub lookup : String → Dict V → Option V
  lookup key [] = none
  lookup key ((old, v) ∷ entries) = if old == key then some v else lookup key entries

  -- `{ ...m, [k]: v }`, `m.set(k, v)`: an old key keeps its place
  unfoldable pub insert : String → V → Dict V → Dict V
  insert key v [] = (key, v) ∷ []
  insert key v ((old, prior) ∷ entries) =
      if old == key then (old, v) ∷ entries else (old, prior) ∷ insert key v entries

  -- `const { [k]: _, ...rest } = m`, `delete m[k]`, `m.delete(k)`
  unfoldable pub erase : String → Dict V → Dict V
  erase key [] = []
  erase key ((old, v) ∷ entries) =
      let rest = erase key entries in if old == key then rest else (old, v) ∷ rest

  -- `{ ...a, ...b }`
  unfoldable pub assign : Dict V → Dict V → Dict V
  assign a [] = a
  assign a ((key, v) ∷ b) = assign (insert key v a) b

  -- `Object.values(m)`
  unfoldable pub values : Dict V → List V
  values entries = map (λ e. e.1) entries

  pub lookup-insert :
      (key old : String) (v : V) (entries : Dict V)
      → lookup old (insert key v entries) ≡ (if key == old then some v else lookup old entries)
  unfolding lookup insert
  lookup-insert key old v [] = refl
  lookup-insert key old v ((first, prior) ∷ entries) =
      ground
        (arith, eq_iff key old, eq_iff first key, eq_iff first old, lookup-insert key old v entries)

  pub lookup-erase :
      (key old : String) (entries : Dict V)
      → lookup old (erase key entries) ≡ (if key == old then none else lookup old entries)
  unfolding lookup erase
  lookup-erase key old [] = ground arith
  lookup-erase key old ((first, prior) ∷ entries) =
      ground
        (arith, eq_iff key old, eq_iff first key, eq_iff first old, lookup-erase key old entries)

  pub lookup-empty : (key : String) → lookup key [] ≡ none
  unfolding lookup
  lookup-empty key = refl

  -- an entry that is set and taken off again
  pub lookup-set_and_erase :
      (key old : String) (v : V) (entries : Dict V)
      → lookup old (erase key (insert key v entries))
        ≡ (if key == old then none else lookup old entries)
  lookup-set_and_erase key old v entries =
      rw (lookup-erase key old (insert key v entries), lookup-insert key old v entries)
        (ground (arith, eq_iff key old))

pub ruleset dict_laws = (lookup-insert, lookup-erase, lookup-empty)

module _ {ℓ} {V : Type ℓ} where
  -- no key is listed twice, as in every JavaScript object
  abbrev pub Unique : Dict V → Type ℓ
  Unique [] = Unit
  Unique ((key, v) ∷ entries) = (lookup key entries ≡ none) × Unique entries

  pub insert-Unique :
      (key : String) (v : V) (entries : Dict V) → Unique entries → Unique (insert key v entries)
  unfolding insert lookup
  insert-Unique key v [] h = (refl, tt)
  insert-Unique key v ((old, prior) ∷ entries) h = ground (
    arith,
    insert-Unique key v entries h.1,
    lookup-insert key old v entries,
    eq_iff old key,
    eq_iff key old,
  )

  pub erase-Unique : (key : String) (entries : Dict V) → Unique entries → Unique (erase key entries)
  unfolding erase
  erase-Unique key [] h = tt
  erase-Unique key ((old, prior) ∷ entries) h =
      ground (arith, erase-Unique key entries h.1, lookup-erase key old entries)

  pub assign-Unique : (a b : Dict V) → Unique a → Unique (assign a b)
  unfolding assign
  assign-Unique a [] h = h
  assign-Unique a ((key, v) ∷ b) h = assign-Unique (insert key v a) b (insert-Unique key v a h)

  -- a later dictionary wins
  pub lookup-assign :
      (key : String) (a b : Dict V)
      → Unique b
      → lookup key (assign a b) ≡ or_else (lookup key b) (lookup key a)
  unfolding assign lookup
  lookup-assign key a [] h = refl
  lookup-assign key a ((old, v) ∷ b) h =
      rw (lookup-assign key (insert old v a) b h.1)
        (ground (arith, lookup-insert old key v a, eq_iff old key))

  pub lookup-cons_self :
      (key : String) (v : V) (entries : Dict V) → lookup key ((key, v) ∷ entries) ≡ some v
  unfolding lookup
  lookup-cons_self key v entries = rw eq_refl refl

  pub lookup-cons_old :
      (old key : String) (v prior : V) (entries : Dict V)
      → lookup old entries ≡ none
      → lookup key entries ≡ some prior
      → lookup key ((old, v) ∷ entries) ≡ some prior
  unfolding lookup
  lookup-cons_old old key v prior entries a b = ground (arith, eq_iff old key)

  All-values_of {κ} :
      (P : V → Type κ) (entries : Dict V)
      → Unique entries
      → ((key : String) (v : V) → lookup key entries ≡ some v → P v)
      → All P (map (λ (e : String × V). e.1) entries)
  All-values_of P [] u f = tt
  All-values_of P ((old, v) ∷ entries) u f = (
    f old v (lookup-cons_self old v entries),
    All-values_of P entries u.1
        (λ key prior e. f key prior (lookup-cons_old old key v prior entries u.0 e)),
  )

  -- what holds of every value found under a key holds of all values
  pub All-values {κ} :
      (P : V → Type κ) (entries : Dict V)
      → Unique entries
      → ((key : String) (v : V) → lookup key entries ≡ some v → P v)
      → All P (values entries)
  unfolding values
  All-values P entries = All-values_of P entries
