-- ===== src/Store/Profiles/Order.antt =====
-- The order and the dictionary of the profiles agree.
use mozgoslav.Prelude.{
  ◌≡◌, refl, sym, ◌∙◌, eq_refl, String, true, false, not, ◌||◌, none, List, [], ◌∷◌, ◌++◌, map,
  ◌==◌, arith, eq_iff, if◌then◌else◌, if_cases, or_else, is_some, filter, Dict, lookup, insert,
  lookup-insert, lookup-empty, Unique, insert-Unique, Keyed, Keyed-empty, Keyed-insert,
  Option-cases, inl, inr,
}
use mozgoslav.Store.Profiles.{
  Profile, State, initial, includes, add_ordered, to_ordered, apply_create_or_replace, keep_others,
  apply_delete, Action, saved, reduce, in_order, select_all_profiles, load_profiles,
  load_profiles_success, load_profiles_failure, create_profile, create_profile_success,
  create_profile_failure, update_profile, update_profile_success, update_profile_failure,
  delete_profile, delete_profile_success, delete_profile_failure, duplicate_profile,
  duplicate_profile_success, duplicate_profile_failure, suggest_glossary_terms,
  suggest_glossary_terms_success, suggest_glossary_terms_failure, other,
}

-- the dictionary and the order list the same ids
abbrev pub Agrees : Dict Profile → List String → Type 0
Agrees profiles order = (id : String) → includes id order ≡ is_some (lookup id profiles)

abbrev pub profile_id : Profile → String
profile_id p = p.id

-- every id of the order has its profile, every profile stands under its id and in the order, and
-- no id is listed twice in the dictionary
pub record IsConsistent (s : State) : Type 0 where
  pub agrees : Agrees s.profiles s.order
  pub keyed : Keyed profile_id s.profiles
  pub unique : Unique s.profiles

includes-push :
    (id x : String) (xs : List String) → includes id (xs ++ x ∷ []) ≡ (includes id xs || (x == id))
includes-push id x [] = ground arith
includes-push id x (y ∷ xs) = ground (arith, includes-push id x xs)

includes-filter :
    (gone id : String) (xs : List String)
    → includes id (filter (λ x. not (x == gone)) xs)
      ≡ (if gone == id then false else includes id xs)
includes-filter gone id [] = ground arith
includes-filter gone id (x ∷ xs) =
    ground (arith, includes-filter gone id xs, eq_iff x gone, eq_iff x id, eq_iff gone id)

-- a profile that is new in both places
push-Agrees :
    (p : Profile) (profiles : Dict Profile) (order : List String)
    → Agrees profiles order
    → Agrees (insert p.id p profiles) (order ++ p.id ∷ [])
push-Agrees p profiles order h id =
    ground
      (arith, includes-push id p.id order, lookup-insert p.id id p profiles, h id, eq_iff p.id id)

replace-Agrees :
    (p : Profile) (profiles : Dict Profile) (order : List String)
    → includes p.id order ≡ true
    → Agrees profiles order
    → Agrees (insert p.id p profiles) order
replace-Agrees p profiles order e h id =
    ground (arith, lookup-insert p.id id p profiles, h id, e, eq_iff p.id id)

add_ordered-Agrees :
    (profiles : Dict Profile) (order : List String) (list : List Profile)
    → Agrees profiles order
    → Agrees (add_ordered profiles order list).0 (add_ordered profiles order list).1
unfolding add_ordered
add_ordered-Agrees profiles order [] h = h
add_ordered-Agrees profiles order (p ∷ list) h =
    add_ordered-Agrees (insert p.id p profiles) (order ++ p.id ∷ []) list
      (push-Agrees p profiles order h)

add_ordered-Keyed :
    (profiles : Dict Profile) (order : List String) (list : List Profile)
    → Keyed profile_id profiles
    → Keyed profile_id (add_ordered profiles order list).0
unfolding add_ordered
add_ordered-Keyed profiles order [] h = h
add_ordered-Keyed profiles order (p ∷ list) h =
    add_ordered-Keyed (insert p.id p profiles) (order ++ p.id ∷ []) list
      (Keyed-insert profile_id p.id p profiles refl h)

add_ordered-Unique :
    (profiles : Dict Profile) (order : List String) (list : List Profile)
    → Unique profiles
    → Unique (add_ordered profiles order list).0
unfolding add_ordered
add_ordered-Unique profiles order [] h = h
add_ordered-Unique profiles order (p ∷ list) h =
    add_ordered-Unique (insert p.id p profiles) (order ++ p.id ∷ []) list
      (insert-Unique p.id p profiles h)

-- the loop of a deletion keeps what has another id
lookup-keep_others :
    (gone id : String) (acc entries : Dict Profile)
    → Unique entries
    → lookup id (keep_others gone acc entries)
      ≡ or_else (if gone == id then none else lookup id entries) (lookup id acc)
unfolding keep_others lookup
lookup-keep_others gone id acc [] u = ground arith
lookup-keep_others gone id acc ((key, p) ∷ entries) u =
    rw (lookup-keep_others gone id (if key == gone then acc else insert key p acc) entries u.1) (
      ground
        (arith, lookup-insert key id p acc, eq_iff key gone, eq_iff key id, eq_iff gone id, u.0))

keep_others-Unique :
    (gone : String) (acc entries : Dict Profile)
    → Unique acc
    → Unique (keep_others gone acc entries)
unfolding keep_others
keep_others-Unique gone acc [] h = h
keep_others-Unique gone acc ((key, p) ∷ entries) h =
    keep_others-Unique gone (if key == gone then acc else insert key p acc) entries (
      if_cases (λ (m : Dict Profile). Unique m) (key == gone) (λ e. h)
        (λ e. insert-Unique key p acc h))

lookup-kept :
    (gone id : String) (entries : Dict Profile)
    → Unique entries
    → lookup id (keep_others gone [] entries) ≡ (if gone == id then none else lookup id entries)
lookup-kept gone id entries u =
    rw (lookup-keep_others gone id [] entries u) (ground (arith, lookup-empty {V = Profile} id))

keep_others-Keyed :
    (gone : String) (entries : Dict Profile)
    → Unique entries
    → Keyed profile_id entries
    → Keyed profile_id (keep_others gone [] entries)
keep_others-Keyed gone entries u h id p e = ground (arith, lookup-kept gone id entries u, h id p)

pub initial-IsConsistent : IsConsistent initial
unfolding initial
initial-IsConsistent = record {
  agrees = λ id. ground (arith, lookup-empty {V = Profile} id);
  keyed = Keyed-empty profile_id;
  unique = tt;
}

to_ordered-IsConsistent : (s : State) (list : List Profile) → IsConsistent (to_ordered s list)
unfolding to_ordered
to_ordered-IsConsistent s list = record {
  agrees = add_ordered-Agrees [] [] list (λ id. ground (arith, lookup-empty {V = Profile} id));
  keyed = add_ordered-Keyed [] [] list (Keyed-empty profile_id);
  unique = add_ordered-Unique [] [] list tt;
}

saved-IsConsistent : (s : State) (p : Profile) → IsConsistent s → IsConsistent (saved s p)
unfolding saved apply_create_or_replace
saved-IsConsistent s p v = record {
  agrees =
      if_cases (λ (order : List String). Agrees (insert p.id p s.profiles) order)
        (includes p.id s.order) (λ e. replace-Agrees p s.profiles s.order e v.agrees)
        (λ e. push-Agrees p s.profiles s.order v.agrees);
  keyed = Keyed-insert profile_id p.id p s.profiles refl v.keyed;
  unique = insert-Unique p.id p s.profiles v.unique;
}

apply_delete-IsConsistent :
    (s : State) (gone : String) → IsConsistent s → IsConsistent (apply_delete s gone)
unfolding apply_delete
apply_delete-IsConsistent s gone v = record {
  agrees = λ id. ground (
    arith,
    includes-filter gone id s.order,
    lookup-kept gone id s.profiles v.unique,
    v.agrees id,
  );
  keyed = keep_others-Keyed gone s.profiles v.unique v.keyed;
  unique = keep_others-Unique gone [] s.profiles tt;
}

-- the same dictionary and order beside other fields
refit-IsConsistent :
    (s t : State) → t.profiles ≡ s.profiles → t.order ≡ s.order → IsConsistent s → IsConsistent t
refit-IsConsistent s t e f v = record {
  agrees = rw (e, f) v.agrees;
  keyed = rw e v.keyed;
  unique = rw e v.unique;
}

-- The reducer keeps the order and the dictionary of the profiles in agreement: an id is in the
-- order exactly if it has a profile, every profile stands under its own id, and no key is listed
-- twice.
pub reduce-IsConsistent : (s : State) (a : Action) → IsConsistent s → IsConsistent (reduce s a)
unfolding reduce
reduce-IsConsistent s load_profiles v = refit-IsConsistent s _ refl refl v
reduce-IsConsistent s (load_profiles_success list) v =
    to_ordered-IsConsistent (record s { is_loading = false; error = none }) list
reduce-IsConsistent s (load_profiles_failure e) v = refit-IsConsistent s _ refl refl v
reduce-IsConsistent s (create_profile draft) v = refit-IsConsistent s _ refl refl v
reduce-IsConsistent s (update_profile id draft) v = refit-IsConsistent s _ refl refl v
reduce-IsConsistent s (create_profile_success p) v = saved-IsConsistent s p v
reduce-IsConsistent s (update_profile_success p) v = saved-IsConsistent s p v
reduce-IsConsistent s (duplicate_profile_success p) v = saved-IsConsistent s p v
reduce-IsConsistent s (create_profile_failure e) v = refit-IsConsistent s _ refl refl v
reduce-IsConsistent s (update_profile_failure e) v = refit-IsConsistent s _ refl refl v
reduce-IsConsistent s (delete_profile id) v = refit-IsConsistent s _ refl refl v
reduce-IsConsistent s (delete_profile_success id) v =
    apply_delete-IsConsistent (record s { deleting_id = none }) id
      (refit-IsConsistent s _ refl refl v)
reduce-IsConsistent s (delete_profile_failure id e) v = refit-IsConsistent s _ refl refl v
reduce-IsConsistent s (duplicate_profile id) v = refit-IsConsistent s _ refl refl v
reduce-IsConsistent s (duplicate_profile_failure id e) v = refit-IsConsistent s _ refl refl v
reduce-IsConsistent s (suggest_glossary_terms id language) v = refit-IsConsistent s _ refl refl v
reduce-IsConsistent s (suggest_glossary_terms_success id language terms) v =
    refit-IsConsistent s _ refl refl v
reduce-IsConsistent s (suggest_glossary_terms_failure id language e) v =
    refit-IsConsistent s _ refl refl v
reduce-IsConsistent s other v = v

includes-tail :
    (id x : String) (xs : List String) → includes id xs ≡ true → includes id (x ∷ xs) ≡ true
includes-tail id x xs e = ground arith

includes_self : (x : String) (xs : List String) → includes x (x ∷ xs) ≡ true
includes_self x xs = rw eq_refl refl

-- the ids of the profiles that an order selects
in_order_ids :
    (profiles : Dict Profile) (order : List String)
    → Keyed profile_id profiles
    → ((id : String) → includes id order ≡ true → is_some (lookup id profiles) ≡ true)
    → map profile_id (in_order profiles order) ≡ order
unfolding in_order
in_order_ids profiles [] k h = refl
in_order_ids profiles (id ∷ order) k h = elim (Option-cases (lookup id profiles)) [
  | inl e ↦ absurd (let f = h id (includes_self id order) in ground (arith, e))
  | inr (p, e) ↦
      rw
        (
          e,
          in_order,
          k id p e,
          in_order_ids profiles order k (λ j f. h j (includes-tail j id order f)),
        )
        refl
]

-- The list of all profiles shows exactly the order: no entry of the order is skipped as undefined.
pub select_all_profiles_ids :
    (s : State) → IsConsistent s → map profile_id (select_all_profiles s) ≡ s.order
unfolding select_all_profiles
select_all_profiles_ids s v =
    in_order_ids s.profiles s.order v.keyed (λ id e. sym (v.agrees id) ∙ e)
