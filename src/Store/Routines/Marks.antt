-- ===== src/Store/Routines/Marks.antt =====
-- The marks of the requests that run on routines.
use mozgoslav.Prelude.{
  ◌≡◌, refl, sym, subst, ◌∙◌, ◌≢◌, String, Bool, Option, none, some, List, [], ◌∷◌, map, ◌==◌,
  arith, eq_iff, eq_refl, if◌then◌else◌, if_cases, lookup, insert, erase, lookup-insert,
  lookup-erase, lookup-empty, find_by, find_by-map,
}
use mozgoslav.Store.Dictation.{data_of, thrown}
use mozgoslav.Store.Routines.{
  Routine, RoutineRun, State, reduce, replaced, with_run, toggle_routine, toggle_saga,
}

abbrev pub routine_key : Routine → String
routine_key r = r.key

replaced_key : (updated r : Routine) → (replaced updated r).key ≡ r.key
replaced_key updated r = ground (arith, eq_iff r.key updated.key)

with_run_key : (run : RoutineRun) (r : Routine) → (with_run run r).key ≡ r.key
with_run_key run r = ground arith

find_by_key :
    (key : String) (list : List Routine) (r : Routine)
    → find_by routine_key key list ≡ some r
    → r.key ≡ key
find_by_key key [] r e = cc
find_by_key key (x ∷ list) r e = ground (arith, eq_iff x.key key, find_by_key key list r)

find_by-replaced :
    (updated : Routine) (j : String) (list : List Routine)
    → j ≢ updated.key
    → find_by routine_key j (map (replaced updated) list) ≡ find_by routine_key j list
find_by-replaced updated j [] h = refl
find_by-replaced updated j (r ∷ list) h = ground (
  arith,
  find_by-replaced updated j list h,
  eq_iff r.key updated.key,
  eq_iff r.key j,
  eq_iff updated.key j,
)

-- The toggle of a listed routine that goes through: the answer replaces the routine with its key and
-- no other one, the mark of the key is off and the other marks are as they were.
pub toggle_success_ends :
    (s : State) (key j : String) (enabled : Bool) (updated old : Routine)
    → updated.key ≡ key
    → find_by routine_key key s.routines ≡ some old
    → let after = reduce (reduce s (toggle_routine key enabled)) (toggle_saga (data_of updated)) in
      (find_by routine_key key after.routines ≡ some updated)
      × (j ≢ key → find_by routine_key j after.routines ≡ find_by routine_key j s.routines)
      × (lookup j after.toggling_keys ≡ (if key == j then none else lookup j s.toggling_keys))
unfolding reduce toggle_saga
toggle_success_ends s key j enabled updated old e f = (
  rw (find_by-map routine_key (replaced updated) key s.routines (replaced_key updated), f)
      (ground (arith, find_by_key key s.routines old f, e, eq_iff old.key updated.key)),
  λ other. find_by-replaced updated j s.routines (λ same. other (same ∙ e)),
  subst
      (λ k.
        lookup j (erase k (insert key tt s.toggling_keys))
        ≡ (if key == j then none else lookup j s.toggling_keys))
      (sym e)
      (rw
        (lookup-erase key j (insert key tt s.toggling_keys), lookup-insert key j tt s.toggling_keys)
        (ground (arith, eq_iff key j))),
)

-- A failed toggle takes the marks off every routine: also a routine whose own toggle still runs is
-- shown as if it did not.
pub toggle_failure_frees_others :
    (s : State) (key j : String) (enabled on : Bool) (error : String)
    → let both = reduce (reduce s (toggle_routine j on)) (toggle_routine key enabled) in
      let after = reduce both (toggle_saga (thrown error)) in
      (lookup j both.toggling_keys ≡ some tt) × (lookup j after.toggling_keys ≡ none)
unfolding reduce toggle_saga
toggle_failure_frees_others s key j enabled on error = (
  rw
      (
        lookup-insert key j tt (insert j tt s.toggling_keys),
        lookup-insert j j tt s.toggling_keys,
        eq_refl,
      )
      (if_cases (λ (o : Option (Unit {0})). o ≡ some tt) (key == j) (λ _. refl) (λ _. refl)),
  lookup-empty j,
)
