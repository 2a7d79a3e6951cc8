-- ===== src/Prelude/Indexes.antt =====
-- Dictionaries in which every value stands under a key of its own, and the loop that builds one from
-- a list.
use Prim.Native.String.{String}
use mathlib.Core.Path.{◌≡◌, refl}
use mathlib.Core.Option
use mathlib.Core.Option.{Option, none, some}
use mathlib.Core.Bool.{Bool, not}
use mathlib.Core.List.{List, [], ◌∷◌, ◌++◌, map}
use native.Mathlib.Omega.{arith}
use text.Mathlib.Text.{◌==◌}
use text.Mathlib.TextEquality.{eq_iff}
use mozgoslav.Prelude.Tests.{if◌then◌else◌, or_else, if_cases}
use mozgoslav.Prelude.Lists.{filter}
use mozgoslav.Prelude.Records.{
  Dict, lookup, insert, erase, lookup-insert, lookup-erase, lookup-empty, Unique, insert-Unique,
  values, lookup-cons_self, lookup-cons_old,
}

-- every value that a dictionary finds carries its key
abbrev pub Keyed : {V : Type 0} → (V → String) → Dict V → Type 0
Keyed {V} id m = (k : String) (v : V) → lookup k m ≡ some v → id v ≡ k

module _ {V : Type 0} (id : V → String) where
  -- `list.reduce((acc, v) => { acc[v.id] = v; return acc; }, acc)`
  unfoldable pub index_by : Dict V → List V → Dict V
  index_by acc [] = acc
  index_by acc (v ∷ list) = index_by (insert (id v) v acc) list

  pub Keyed-empty : Keyed id []
  Keyed-empty k v e = ground (arith, lookup-empty {V = V} k)

  pub Keyed-insert :
      (key : String) (v : V) (m : Dict V) → id v ≡ key → Keyed id m → Keyed id (insert key v m)
  Keyed-insert key v m e h k w f = ground (arith, lookup-insert key k v m, eq_iff key k, h k w)

  pub Keyed-erase : (key : String) (m : Dict V) → Keyed id m → Keyed id (erase key m)
  Keyed-erase key m h k w f = ground (arith, lookup-erase key k m, h k w)

  pub index_by-Keyed : (acc : Dict V) (list : List V) → Keyed id acc → Keyed id (index_by acc list)
  unfolding index_by
  index_by-Keyed acc [] h = h
  index_by-Keyed acc (v ∷ list) h =
      index_by-Keyed (insert (id v) v acc) list (Keyed-insert (id v) v acc refl h)

  pub index_by-Unique : (acc : Dict V) (list : List V) → Unique acc → Unique (index_by acc list)
  unfolding index_by
  index_by-Unique acc [] h = h
  index_by-Unique acc (v ∷ list) h =
      index_by-Unique (insert (id v) v acc) list (insert-Unique (id v) v acc h)

  -- the last value of a list that has a key
  abbrev pub last_keyed : String → List V → Option V
  last_keyed key [] = none
  last_keyed key (v ∷ list) = or_else (last_keyed key list) (if id v == key then some v else none)

  -- the index finds the last value of the list, and what was there before otherwise
  pub lookup-index_by :
      (key : String) (acc : Dict V) (list : List V)
      → lookup key (index_by acc list) ≡ or_else (last_keyed key list) (lookup key acc)
  unfolding index_by
  lookup-index_by key acc [] = refl
  lookup-index_by key acc (v ∷ list) =
      rw (lookup-index_by key (insert (id v) v acc) list)
        (ground (arith, lookup-insert (id v) key v acc))

  -- the first value of a list that has a key
  abbrev pub find_by : String → List V → Option V
  find_by key [] = none
  find_by key (v ∷ list) = if id v == key then some v else find_by key list

  -- no key twice in a list
  abbrev pub DistinctBy : List V → Type 0
  DistinctBy [] = Unit
  DistinctBy (v ∷ list) = (find_by (id v) list ≡ none) × DistinctBy list

  Keyed-tail :
      (old : String) (v : V) (m : Dict V)
      → Unique ((old, v) ∷ m)
      → Keyed id ((old, v) ∷ m)
      → Keyed id m
  Keyed-tail old v m u h k w e = h k w (lookup-cons_old old k v w m u.0 e)

  -- the values of an index are found under their keys
  pub find_by-values :
      (key : String) (m : Dict V) → Unique m → Keyed id m → find_by key (values m) ≡ lookup key m
  unfolding values lookup
  find_by-values key [] u h = refl
  find_by-values key ((old, v) ∷ m) u h =
      let same : id v ≡ old = h old v (lookup-cons_self old v m) in
      rw (same, find_by-values key m u.1 (Keyed-tail old v m u h)) refl

  pub DistinctBy-values : (m : Dict V) → Unique m → Keyed id m → DistinctBy (values m)
  unfolding values
  DistinctBy-values [] u h = tt
  DistinctBy-values ((old, v) ∷ m) u h =
      let same : id v ≡ old = h old v (lookup-cons_self old v m) in
      (
        rw (same, find_by-values old m u.1 (Keyed-tail old v m u h)) u.0,
        DistinctBy-values m u.1 (Keyed-tail old v m u h),
      )

  pub find_by-filter-none :
      (p : V → Bool) (key : String) (list : List V)
      → find_by key list ≡ none
      → find_by key (filter p list) ≡ none
  find_by-filter-none p key [] e = refl
  find_by-filter-none p key (v ∷ list) e = ground (arith, find_by-filter-none p key list)

  pub DistinctBy-filter :
      (p : V → Bool) (list : List V) → DistinctBy list → DistinctBy (filter p list)
  DistinctBy-filter p [] h = tt
  DistinctBy-filter p (v ∷ list) h =
      ground (arith, find_by-filter-none p (id v) list h.0, DistinctBy-filter p list h.1)

  -- taking out a key leaves the other keys as they were
  pub find_by-without :
      (gone key : String) (list : List V)
      → find_by key (filter (λ v. not (id v == gone)) list)
        ≡ (if gone == key then none else find_by key list)
  find_by-without gone key [] = ground arith
  find_by-without gone key (v ∷ list) =
      ground (
        arith,
        find_by-without gone key list,
        eq_iff (id v) key,
        eq_iff (id v) gone,
        eq_iff gone key,
      )

  -- a change of the values that keeps their keys
  pub find_by-map :
      (f : V → V) (key : String) (list : List V)
      → ((v : V) → id (f v) ≡ id v)
      → find_by key (map f list) ≡ Option.map f (find_by key list)
  find_by-map f key [] h = refl
  find_by-map f key (v ∷ list) h =
      rw (h v, find_by-map f key list h)
        (if_cases
          (λ (o : Option V).
            (if id v == key then some (f v) else Option.map f (find_by key list)) ≡ Option.map f o)
          (id v == key) (λ e. rw e refl) (λ e. rw e refl))

  pub DistinctBy-map :
      (f : V → V) (list : List V)
      → ((v : V) → id (f v) ≡ id v)
      → DistinctBy list
      → DistinctBy (map f list)
  DistinctBy-map f [] h u = tt
  DistinctBy-map f (v ∷ list) h u =
      (rw (h v, find_by-map f (id v) list h, u.0) refl, DistinctBy-map f list h u.1)

  pub find_by-append :
      (key : String) (xs ys : List V)
      → find_by key (xs ++ ys) ≡ or_else (find_by key xs) (find_by key ys)
  find_by-append key [] ys = refl
  find_by-append key (v ∷ xs) ys = ground (arith, find_by-append key xs ys)
