-- ===== src/Store/Profiles/Sagas.antt =====
-- The sagas of the slice after their requests.
use mozgoslav.Prelude.{◌≡◌, refl, String, false, Option, none, some, List, [], ◌∷◌, map}
use mozgoslav.Store.Dictation.{Reply, data_of, thrown}
use mozgoslav.Store.Profiles.{
  Draft, State, Action, reduce, saved, apply_delete, apply_create_or_replace, to_ordered,
  create_profile, create_profile_success, create_profile_failure, update_profile,
  update_profile_success, update_profile_failure, delete_profile, delete_profile_success,
  delete_profile_failure, duplicate_profile, duplicate_profile_success, duplicate_profile_failure,
  load_profiles, load_profiles_success, load_profiles_failure, suggest_glossary_terms,
  suggest_glossary_terms_success, suggest_glossary_terms_failure,
}
use mozgoslav.Store.Profiles.Mapper.{GqlProfile, map_gql_profile}

-- a payload of a mutation: the profile, if any, and the messages of the errors
pub record Payload : Type 0 where
  pub profile : Option GqlProfile
  pub errors : List String

-- `errors[0]?.message ?? fallback`
abbrev pub first_or : String → List String → String
first_or fallback [] = fallback
first_or fallback (message ∷ _) = message

-- `createProfileSaga`
unfoldable pub create_saga : Reply Payload → Action
create_saga (data_of p) = elim p.profile [
  | some dto ↦ create_profile_success (map_gql_profile dto)
  | none ↦ create_profile_failure (first_or "Create failed" p.errors)
]
create_saga (thrown e) = create_profile_failure e

-- `updateProfileSaga`
unfoldable pub update_saga : Reply Payload → Action
update_saga (data_of p) = elim p.profile [
  | some dto ↦ update_profile_success (map_gql_profile dto)
  | none ↦ update_profile_failure (first_or "Update failed" p.errors)
]
update_saga (thrown e) = update_profile_failure e

-- `duplicateProfileSaga`
unfoldable pub duplicate_saga : String → Reply Payload → Action
duplicate_saga id (data_of p) = elim p.profile [
  | some dto ↦ duplicate_profile_success (map_gql_profile dto)
  | none ↦ duplicate_profile_failure id (first_or "Duplicate failed" p.errors)
]
duplicate_saga id (thrown e) = duplicate_profile_failure id e

-- `deleteProfileSaga`; only the errors are read
unfoldable pub delete_saga : String → Reply (List String) → Action
delete_saga id (data_of (message ∷ _)) = delete_profile_failure id message
delete_saga id (data_of []) = delete_profile_success id
delete_saga id (thrown e) = delete_profile_failure id e

-- `loadProfilesSaga`
unfoldable pub load_saga : Reply (List GqlProfile) → Action
load_saga (data_of list) = load_profiles_success (map map_gql_profile list)
load_saga (thrown e) = load_profiles_failure e

-- `suggestGlossaryTermsSaga`
unfoldable pub suggest_saga : String → String → Reply (List String) → Action
suggest_saga id language (data_of terms) = suggest_glossary_terms_success id language terms
suggest_saga id language (thrown e) = suggest_glossary_terms_failure id language e

-- the requests of the slice with what their sagas get
pub data Request : Type 0 where
  load : Reply (List GqlProfile) → Request
  create : Draft → Reply Payload → Request
  update : (id : String) → Draft → Reply Payload → Request
  duplicate : (id : String) → Reply Payload → Request
  delete : (id : String) → Reply (List String) → Request
  suggest : (id language : String) → Reply (List String) → Request

-- a request from its action to the action of its saga
unfoldable pub handled : State → Request → State
unfolding reduce load_saga create_saga update_saga duplicate_saga delete_saga suggest_saga
handled s (load reply) = reduce (reduce s load_profiles) (load_saga reply)
handled s (create draft reply) = reduce (reduce s (create_profile draft)) (create_saga reply)
handled s (update id draft reply) = reduce (reduce s (update_profile id draft)) (update_saga reply)
handled s (duplicate id reply) = reduce (reduce s (duplicate_profile id)) (duplicate_saga id reply)
handled s (delete id reply) = reduce (reduce s (delete_profile id)) (delete_saga id reply)
handled s (suggest id language reply) =
    reduce (reduce s (suggest_glossary_terms id language)) (suggest_saga id language reply)

-- what a request leaves busy
abbrev pub IsSettled : Request → State → Type 0
IsSettled (load reply) s = s.is_loading ≡ false
IsSettled (create draft reply) s = s.saving ≡ false
IsSettled (update id draft reply) s = s.saving ≡ false
IsSettled (duplicate id reply) s = s.saving ≡ false
IsSettled (delete id reply) s = s.deleting_id ≡ none
IsSettled (suggest id language reply) s = s.suggesting_key ≡ none

create_settles :
    (s : State) (o : Option GqlProfile) (errors : List String)
    → (reduce s (create_saga (data_of (record { profile = o; errors = errors })))).saving ≡ false
unfolding reduce create_saga saved apply_create_or_replace
create_settles s (some dto) errors = refl
create_settles s none errors = refl

update_settles :
    (s : State) (o : Option GqlProfile) (errors : List String)
    → (reduce s (update_saga (data_of (record { profile = o; errors = errors })))).saving ≡ false
unfolding reduce update_saga saved apply_create_or_replace
update_settles s (some dto) errors = refl
update_settles s none errors = refl

duplicate_settles :
    (s : State) (id : String) (o : Option GqlProfile) (errors : List String)
    → (reduce s (duplicate_saga id (data_of (record { profile = o; errors = errors })))).saving
      ≡ false
unfolding reduce duplicate_saga saved apply_create_or_replace
duplicate_settles s id (some dto) errors = refl
duplicate_settles s id none errors = refl

-- Every request of the slice ends its flag, whatever the backend answers: loading, saving, the id
-- that is being deleted, and the key of the suggestions are cleared by the action of the saga.
pub handled-IsSettled : (s : State) (r : Request) → IsSettled r (handled s r)
unfolding handled reduce create_saga update_saga duplicate_saga delete_saga load_saga suggest_saga
    to_ordered apply_delete
handled-IsSettled s (load (data_of list)) = refl
handled-IsSettled s (load (thrown e)) = refl
handled-IsSettled s (create draft (data_of p)) =
    create_settles (reduce s (create_profile draft)) p.profile p.errors
handled-IsSettled s (create draft (thrown e)) = refl
handled-IsSettled s (update id draft (data_of p)) =
    update_settles (reduce s (update_profile id draft)) p.profile p.errors
handled-IsSettled s (update id draft (thrown e)) = refl
handled-IsSettled s (duplicate id (data_of p)) =
    duplicate_settles (reduce s (duplicate_profile id)) id p.profile p.errors
handled-IsSettled s (duplicate id (thrown e)) = refl
handled-IsSettled s (delete id (data_of (message ∷ rest))) = refl
handled-IsSettled s (delete id (data_of [])) = refl
handled-IsSettled s (delete id (thrown e)) = refl
handled-IsSettled s (suggest id language (data_of terms)) = refl
handled-IsSettled s (suggest id language (thrown e)) = refl
