-- ===== src/Store/Profiles.antt =====
-- frontend/src/store/slices/profiles: the profiles by id and the order in which they are shown:
-- types.ts, actions.ts, mutations.ts, reducer.ts and the main selector.
pub mod Order
pub mod Mapper
pub mod Sagas
mod Tests
use mozgoslav.Prelude.{
  String, Bool, true, false, not, ◌||◌, Option, none, some, List, [], ◌∷◌, ◌++◌, map, ◌==◌,
  if◌then◌else◌, Dict, lookup, insert, filter, any,
}
use Prim.Native.String.{◌++◌ as ◌<>◌}

-- `CleanupLevel` of the domain
pub data CleanupLevel : Type 0 where
  none_level light aggressive : CleanupLevel

-- `Profile`
pub record Profile : Type 0 where
  pub id : String
  pub name : String
  pub system_prompt : String
  pub transcription_prompt_override : String
  pub output_template : String
  pub cleanup_level : CleanupLevel
  pub export_folder : String
  pub auto_tags : List String
  pub glossary_by_language : Dict (List String)
  pub llm_correction_enabled : Bool
  pub llm_provider_override : String
  pub llm_model_override : String
  pub is_default : Bool
  pub is_built_in : Bool

-- `Omit<Profile, "id" | "isBuiltIn">`; the three fields that the mapper reads with `??` may be
-- missing
pub record Draft : Type 0 where
  pub name : String
  pub system_prompt : String
  pub transcription_prompt_override : String
  pub output_template : String
  pub cleanup_level : CleanupLevel
  pub export_folder : String
  pub auto_tags : List String
  pub glossary_by_language : Option (Dict (List String))
  pub llm_correction_enabled : Bool
  pub llm_provider_override : Option String
  pub llm_model_override : Option String
  pub is_default : Bool

-- `ProfilesState`
pub record State : Type 0 where
  pub profiles : Dict Profile
  pub order : List String
  pub is_loading : Bool
  pub error : Option String
  pub saving : Bool
  pub deleting_id : Option String
  pub suggestions : Dict (Dict (List String))
  pub suggesting_key : Option String

unfoldable pub initial : State
initial = record {
  profiles = [];
  order = [];
  is_loading = false;
  error = none;
  saving = false;
  deleting_id = none;
  suggestions = [];
  suggesting_key = none;
}

-- `order.includes(id)`
abbrev pub includes : String → List String → Bool
includes id [] = false
includes id (x ∷ xs) = (x == id) || includes id xs

-- the loop of `toOrdered`
unfoldable pub add_ordered : Dict Profile → List String → List Profile → Dict Profile × List String
add_ordered by_id order [] = (by_id, order)
add_ordered by_id order (p ∷ list) = add_ordered (insert p.id p by_id) (order ++ p.id ∷ []) list

unfoldable pub to_ordered : State → List Profile → State
unfolding add_ordered
to_ordered s list =
    let (by_id, order) = add_ordered [] [] list in record s { profiles = by_id; order = order }

unfoldable pub apply_create_or_replace : State → Profile → State
apply_create_or_replace s p = record s {
  profiles = insert p.id p s.profiles;
  order = if includes p.id s.order then s.order else s.order ++ p.id ∷ [];
}

-- the loop of `applyDelete`
unfoldable pub keep_others : String → Dict Profile → Dict Profile → Dict Profile
keep_others id acc [] = acc
keep_others id acc ((key, p) ∷ entries) =
    keep_others id (if key == id then acc else insert key p acc) entries

unfoldable pub apply_delete : State → String → State
unfolding keep_others
apply_delete s id = record s {
  profiles = keep_others id [] s.profiles;
  order = filter (λ candidate. not (candidate == id)) s.order;
}

-- `ProfilesAction`; `other` is an action of another slice
pub data Action : Type 0 where
  load_profiles : Action
  load_profiles_success : List Profile → Action
  load_profiles_failure : (message : String) → Action
  create_profile : Draft → Action
  create_profile_success : Profile → Action
  create_profile_failure : (message : String) → Action
  update_profile : (id : String) → Draft → Action
  update_profile_success : Profile → Action
  update_profile_failure : (message : String) → Action
  delete_profile delete_profile_success : (id : String) → Action
  delete_profile_failure : (id error : String) → Action
  duplicate_profile : (id : String) → Action
  duplicate_profile_success : Profile → Action
  duplicate_profile_failure : (id error : String) → Action
  suggest_glossary_terms : (profile_id language : String) → Action
  suggest_glossary_terms_success : (profile_id language : String) (terms : List String) → Action
  suggest_glossary_terms_failure : (profile_id language error : String) → Action
  other : Action

-- `state.suggestions[profileId] ?? {}`
abbrev suggestions_of : Option (Dict (List String)) → Dict (List String)
suggestions_of none = []
suggestions_of (some m) = m

-- the case of the three successes that bring a profile
unfoldable pub saved : State → Profile → State
unfolding apply_create_or_replace
saved s p = apply_create_or_replace (record s { saving = false; deleting_id = none }) p

-- `profilesReducer`
unfoldable pub reduce : State → Action → State
unfolding to_ordered apply_delete saved
reduce s load_profiles = record s { is_loading = true; error = none }
reduce s (load_profiles_success list) =
    to_ordered (record s { is_loading = false; error = none }) list
reduce s (load_profiles_failure e) = record s { is_loading = false; error = some e }
reduce s (create_profile draft) = record s { saving = true; error = none }
reduce s (update_profile id draft) = record s { saving = true; error = none }
reduce s (create_profile_success p) = saved s p
reduce s (update_profile_success p) = saved s p
reduce s (duplicate_profile_success p) = saved s p
reduce s (create_profile_failure e) = record s { saving = false; error = some e }
reduce s (update_profile_failure e) = record s { saving = false; error = some e }
reduce s (delete_profile id) = record s { deleting_id = some id; error = none }
reduce s (delete_profile_success id) = apply_delete (record s { deleting_id = none }) id
reduce s (delete_profile_failure id e) = record s { deleting_id = none; error = some e }
reduce s (duplicate_profile id) = record s { saving = true; error = none }
reduce s (duplicate_profile_failure id e) = record s { saving = false; error = some e }
reduce s (suggest_glossary_terms id language) = record s {
  suggesting_key = some (id <> ":" <> language);
}
reduce s (suggest_glossary_terms_success id language terms) = record s {
  suggesting_key = none;
  suggestions =
      insert id (insert language terms (suggestions_of (lookup id s.suggestions))) s.suggestions;
}
reduce s (suggest_glossary_terms_failure id language e) = record s { suggesting_key = none }
reduce s other = s

abbrev defined : Option Profile → List Profile → List Profile
defined none rest = rest
defined (some p) rest = p ∷ rest

-- `selectAllProfiles`: the profiles of an order, the undefined ones left out
unfoldable pub in_order : Dict Profile → List String → List Profile
in_order profiles [] = []
in_order profiles (id ∷ order) = defined (lookup id profiles) (in_order profiles order)

unfoldable pub select_all_profiles : State → List Profile
unfolding in_order
select_all_profiles s = in_order s.profiles s.order
