-- ===== src/Electron/RepoRoot/Walk.antt =====
-- The walk to the ancestors of a folder.
use mozgoslav.Prelude.{
  ℕ, zero, suc, ◌+◌, ◌≤◌, ◌<◌, ◌≡◌, ◌≢◌, refl, ap, ◌⊎◌, inl, inr, String, true, List, [], ◌∷◌,
  arith, eq_refl, eq_false, All, All-imp,
}
use mozgoslav.Electron.RepoRoot.{Host, contains, walk, walk_up}

-- what `path.dirname` does to a resolved path: the root is its own folder, and every other path has a
-- shorter one
abbrev pub Climbs : Host → (String → ℕ) → Type 0
Climbs h size = (p : String) → (h.dirname p ≡ p) ⊎ (size (h.dirname p) < size p)

module _ (h : Host) (size : String → ℕ) (climbs : Climbs h size) where
  contains-head : (x : String) (xs : List String) → contains x (x ∷ xs) ≡ true
  contains-head x xs = rw eq_refl refl

  contains-tail :
      (x y : String) (xs : List String) → contains x xs ≡ true → contains x (y ∷ xs) ≡ true
  contains-tail x y xs e = ground arith

  contains-second : (x y : String) (xs : List String) → contains x (y ∷ x ∷ xs) ≡ true
  contains-second x y xs = contains-tail x y (x ∷ xs) (contains-head x xs)

  -- the folder of every listed path is listed
  abbrev IsClosed : List String → Type 0
  IsClosed list = All (λ p. contains (h.dirname p) list ≡ true) list

  walk-step :
      (fuel : ℕ) (previous current : String)
      → current ≢ previous
      → walk h (suc fuel) previous current ≡ current ∷ walk h fuel current (h.dirname current)
  unfolding walk
  walk-step fuel previous current d = rw (eq_false current previous d) refl

  walk-stop : (fuel : ℕ) (p : String) → walk h fuel p p ≡ []
  unfolding walk
  walk-stop zero p = refl
  walk-stop (suc fuel) p = rw eq_refl refl

  walk-IsClosed :
      (fuel : ℕ) (previous current : String)
      → current ≢ previous
      → size current + 2 ≤ fuel
      → IsClosed (walk h fuel previous current)
  walk-IsClosed zero previous current d f = absurd (omega (arith, f))
  walk-IsClosed (suc zero) previous current d f = absurd (omega (arith, f))
  walk-IsClosed (suc (suc fuel)) previous current d f = elim (climbs current) [
    | inl e ↦
        rw (walk-step (suc fuel) previous current d, e, walk-stop (suc fuel) current)
          (rw eq_refl refl, tt)
    | inr e ↦
        let moved : h.dirname current ≢ current = λ same. omega (arith, e, ap size same) in
        rw (walk-step (suc fuel) previous current d) (
          rw (walk-step fuel current (h.dirname current) moved) (
              contains-second (h.dirname current) current
                (walk h fuel (h.dirname current) (h.dirname (h.dirname current)))),
          All-imp _ _ _ (λ p here. contains-tail (h.dirname p) current _ here)
              (walk-IsClosed (suc fuel) current (h.dirname current) moved (omega (arith, f, e))),
        )
  ]

  -- The walk is not cut short: with fuel for the length of the path it lists the folder that it
  -- starts from and, with every path, the folder above it, up to the root.
  pub walk_up-IsClosed :
      (fuel : ℕ) (start : String)
      → h.resolve start ≢ ""
      → size (h.resolve start) + 2 ≤ fuel
      → (contains (h.resolve start) (walk_up h fuel start) ≡ true)
        × All (λ p. contains (h.dirname p) (walk_up h fuel start) ≡ true) (walk_up h fuel start)
  unfolding walk_up
  walk_up-IsClosed zero start d f = absurd (omega (arith, f))
  walk_up-IsClosed (suc fuel) start d f = (
    rw (walk-step fuel "" (h.resolve start) d) (contains-head (h.resolve start) _),
    walk-IsClosed (suc fuel) "" (h.resolve start) d f,
  )
