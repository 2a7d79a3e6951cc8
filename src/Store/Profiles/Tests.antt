-- ===== src/Store/Profiles/Tests.antt =====
-- The profiles at concrete actions.
use mozgoslav.Prelude.{lookup, ◌≡◌, refl, String, true, false, none, [], ◌∷◌}
use mozgoslav.Store.Dictation.{data_of}
use mozgoslav.Store.Profiles.{Profile, light, initial, reduce, load_profiles_success}
use mozgoslav.Store.Profiles.Order.{IsConsistent, initial-IsConsistent, reduce-IsConsistent}
use mozgoslav.Store.Profiles.Mapper.{
  map_gql_profile, map_domain_profile_to_input, stored, draft_of, profile_round_trip,
}
use mozgoslav.Store.Profiles.Sagas.{update, handled, handled-IsSettled}

abbrev meeting : String → Profile
meeting id = record {
  id = id;
  name = "meeting";
  system_prompt = "sum up";
  transcription_prompt_override = "names: Ann";
  output_template = "";
  cleanup_level = light;
  export_folder = "notes";
  auto_tags = "work" ∷ [];
  glossary_by_language = ("en", "kernel" ∷ []) ∷ [];
  llm_correction_enabled = true;
  llm_provider_override = "";
  llm_model_override = "";
  is_default = false;
  is_built_in = false;
}

loaded-IsConsistent :
    IsConsistent (reduce initial (load_profiles_success (meeting "a" ∷ meeting "b" ∷ [])))
loaded-IsConsistent =
    reduce-IsConsistent initial (load_profiles_success (meeting "a" ∷ meeting "b" ∷ []))
      initial-IsConsistent

reduce-IsConsistent_example :
    IsConsistent (reduce initial (load_profiles_success (meeting "a" ∷ meeting "b" ∷ [])))
reduce-IsConsistent_example =
    reduce-IsConsistent initial (load_profiles_success (meeting "a" ∷ meeting "b" ∷ []))
      initial-IsConsistent

profile_round_trip_example :
    map_gql_profile (stored "a" "" false (map_domain_profile_to_input (draft_of (meeting "a"))))
    ≡ record (meeting "a") { transcription_prompt_override = "" }
unfolding lookup
profile_round_trip_example = profile_round_trip (meeting "a") "" (refl, tt)

handled-IsSettled_example :
    (handled initial (
      update "a"
        (draft_of (meeting "a"))
        (data_of (record { profile = none; errors = [] })))).saving
    ≡ false
handled-IsSettled_example =
    handled-IsSettled initial
      (update "a" (draft_of (meeting "a")) (data_of (record { profile = none; errors = [] })))
