-- ===== src/Prelude/Lists.antt =====
-- Lists measured by native numbers, and Boolean filters and searches.
use Prim.Native.Nat.{ℕ, zero, suc, ◌+◌, ◌≤◌}
use mathlib.Core.Logic.{◌≢◌}
use mathlib.Core.Path.{◌≡◌, refl, subst, ap}
use mathlib.Core.Option.{Option, none, some, some-injective}
use mathlib.Core.Bool.{Bool, true, false, ◌||◌}
use mathlib.Core.List.{List, [], ◌∷◌, ◌++◌, map}
use native.Mathlib.Omega.{arith}
use mozgoslav.Prelude.Tests.{if◌then◌else◌}

module _ {ℓ} {A : Type ℓ} where
  abbrev pub length : List A → ℕ
  length [] = 0
  length (x ∷ xs) = suc (length xs)

  -- `xs.filter(p)`
  abbrev pub filter : (A → Bool) → List A → List A
  filter p [] = []
  filter p (x ∷ xs) = let rest = filter p xs in if p x then x ∷ rest else rest

  -- `xs.some(p)`
  abbrev pub any : (A → Bool) → List A → Bool
  any p [] = false
  any p (x ∷ xs) = p x || any p xs

  -- every element satisfies a predicate
  abbrev pub All {κ} : (A → Type κ) → List A → Type κ
  All P [] = Unit
  All P (x ∷ xs) = P x × All P xs

  pub length-append : (xs ys : List A) → length (xs ++ ys) ≡ length xs + length ys
  length-append [] ys = omega arith
  length-append (x ∷ xs) ys = omega (arith, length-append xs ys)

  pub length-filter_le : (p : A → Bool) (xs : List A) → length (filter p xs) ≤ length xs
  length-filter_le p [] = omega arith
  length-filter_le p (x ∷ xs) = ground (arith, length-filter_le p xs)

  pub All-append {κ} : (P : A → Type κ) (xs ys : List A) → All P xs → All P ys → All P (xs ++ ys)
  All-append P [] ys h k = k
  All-append P (x ∷ xs) ys h k = (h.0, All-append P xs ys h.1 k)

module _ {ℓ} {A : Type ℓ} where
  -- what the test and the old fact give holds of all that is kept
  pub All-filter {κ κ'} :
      (P : A → Type κ) (Q : A → Type κ') (p : A → Bool) (xs : List A)
      → ((x : A) → P x → p x ≡ true → Q x)
      → All P xs
      → All Q (filter p xs)
  All-filter P Q p [] f h = tt
  All-filter P Q p (x ∷ xs) f h = go (p x) refl (All-filter P Q p xs f h.1)
    where
      go :
          (b : Bool)
          → p x ≡ b
          → All Q (filter p xs)
          → All Q (if b then x ∷ filter p xs else filter p xs)
      go true e rest = (f x h.0 e, rest)
      go false e rest = rest

module _ {ℓ μ} {A : Type ℓ} {B : Type μ} where
  pub All-map {κ} :
      (P : B → Type κ) (f : A → B) (xs : List A) → All (λ x. P (f x)) xs → All P (map f xs)
  All-map P f [] h = tt
  All-map P f (x ∷ xs) h = (h.0, All-map P f xs h.1)

module _ {ℓ} {A : Type ℓ} where
  abbrev pub get_elem? : List A → ℕ → Option A
  get_elem? [] i = none
  get_elem? (x ∷ xs) zero = some x
  get_elem? (x ∷ xs) (suc i) = get_elem? xs i

  -- a write out of bounds changes nothing
  abbrev pub set : List A → ℕ → A → List A
  set [] i v = []
  set (x ∷ xs) zero v = v ∷ xs
  set (x ∷ xs) (suc i) v = x ∷ set xs i v

  -- `xs.splice(i, 1)`
  abbrev pub erase_at : List A → ℕ → List A
  erase_at [] i = []
  erase_at (x ∷ xs) zero = xs
  erase_at (x ∷ xs) (suc i) = x ∷ erase_at xs i

  pub length-set : (xs : List A) (i : ℕ) (v : A) → length (set xs i v) ≡ length xs
  length-set [] i v = refl
  length-set (x ∷ xs) zero v = refl
  length-set (x ∷ xs) (suc i) v = omega (arith, length-set xs i v)

  pub get_elem?-set_self :
      (xs : List A) (i : ℕ) (v w : A) → get_elem? xs i ≡ some w → get_elem? (set xs i v) i ≡ some v
  get_elem?-set_self [] i v w e = cc
  get_elem?-set_self (x ∷ xs) zero v w e = refl
  get_elem?-set_self (x ∷ xs) (suc i) v w e = get_elem?-set_self xs i v w e

  pub All-get {κ} :
      (P : A → Type κ) (xs : List A) (i : ℕ) (x : A) → All P xs → get_elem? xs i ≡ some x → P x
  All-get P [] i x h e = absurd (cc)
  All-get P (y ∷ xs) zero x h e = subst P (some-injective y x e) h.0
  All-get P (y ∷ xs) (suc i) x h e = All-get P xs i x h.1 e

  pub All-set {κ} :
      (P : A → Type κ) (xs : List A) (i : ℕ) (v : A) → All P xs → P v → All P (set xs i v)
  All-set P [] i v h p = tt
  All-set P (x ∷ xs) zero v h p = (p, h.1)
  All-set P (x ∷ xs) (suc i) v h p = (h.0, All-set P xs i v h.1 p)

  pub All-erase_at {κ} : (P : A → Type κ) (xs : List A) (i : ℕ) → All P xs → All P (erase_at xs i)
  All-erase_at P [] i h = tt
  All-erase_at P (x ∷ xs) zero h = h.1
  All-erase_at P (x ∷ xs) (suc i) h = (h.0, All-erase_at P xs i h.1)

  pub All-imp {κ μ} :
      (P : A → Type κ) (Q : A → Type μ) (xs : List A) → ((x : A) → P x → Q x) → All P xs → All Q xs
  All-imp P Q [] f h = tt
  All-imp P Q (x ∷ xs) f h = (f x h.0, All-imp P Q xs f h.1)

  pub get_elem?-append_left :
      (xs ys : List A) (i : ℕ) (x : A) → get_elem? xs i ≡ some x → get_elem? (xs ++ ys) i ≡ some x
  get_elem?-append_left [] ys i x e = cc
  get_elem?-append_left (y ∷ xs) ys zero x e = e
  get_elem?-append_left (y ∷ xs) ys (suc i) x e = get_elem?-append_left xs ys i x e

  pub get_elem?-set_ne :
      (xs : List A) (i j : ℕ) (v : A) → i ≢ j → get_elem? (set xs i v) j ≡ get_elem? xs j
  get_elem?-set_ne [] i j v h = refl
  get_elem?-set_ne (x ∷ xs) zero zero v h = absurd (h refl)
  get_elem?-set_ne (x ∷ xs) zero (suc j) v h = refl
  get_elem?-set_ne (x ∷ xs) (suc i) zero v h = refl
  get_elem?-set_ne (x ∷ xs) (suc i) (suc j) v h = get_elem?-set_ne xs i j v (λ e. h (ap suc e))

module _ {ℓ μ} {A : Type ℓ} {B : Type μ} where
  pub get_elem?-map :
      (f : A → B) (xs : List A) (i : ℕ) (x : A)
      → get_elem? xs i ≡ some x
      → get_elem? (map f xs) i ≡ some (f x)
  get_elem?-map f [] i x e = cc
  get_elem?-map f (y ∷ xs) zero x e = cc
  get_elem?-map f (y ∷ xs) (suc i) x e = get_elem?-map f xs i x e

module _ {ℓ} {A : Type ℓ} where
  pub All-everywhere {κ} : {P : A → Type κ} → ((x : A) → P x) → (xs : List A) → All P xs
  All-everywhere f [] = tt
  All-everywhere f (x ∷ xs) = (f x, All-everywhere f xs)

  -- the element that was pushed last
  pub get_elem?-push : (xs : List A) (x : A) → get_elem? (xs ++ x ∷ []) (length xs) ≡ some x
  get_elem?-push [] x = refl
  get_elem?-push (y ∷ xs) x = get_elem?-push xs x

  pub erase_at-push : (xs : List A) (x : A) → erase_at (xs ++ x ∷ []) (length xs) ≡ xs
  erase_at-push [] x = refl
  erase_at-push (y ∷ xs) x = ap (λ l. y ∷ l) (erase_at-push xs x)
