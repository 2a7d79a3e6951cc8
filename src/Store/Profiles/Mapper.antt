-- ===== src/Store/Profiles/Mapper.antt =====
-- saga/profileMapper.ts: profiles as the backend sends and takes them.
use mozgoslav.Prelude.{
  ◌≡◌, refl, String, Bool, Option, none, some, List, [], ◌∷◌, map, Dict, insert, assign, Unique,
  assign-empty,
}
use mozgoslav.Store.Profiles.{CleanupLevel, none_level, light, aggressive, Profile, Draft}

-- the generated enumeration
pub data GqlCleanupLevel : Type 0 where
  gql_none gql_light gql_aggressive : GqlCleanupLevel

unfoldable pub gql_cleanup_level_to_domain : GqlCleanupLevel → CleanupLevel
gql_cleanup_level_to_domain gql_none = none_level
gql_cleanup_level_to_domain gql_light = light
gql_cleanup_level_to_domain gql_aggressive = aggressive

unfoldable pub domain_cleanup_level_to_gql : CleanupLevel → GqlCleanupLevel
domain_cleanup_level_to_gql none_level = gql_none
domain_cleanup_level_to_gql light = gql_light
domain_cleanup_level_to_gql aggressive = gql_aggressive

pub record GlossaryEntry : Type 0 where
  pub language : String
  pub terms : List String

-- the loop of `glossaryEntriesToRecord`
unfoldable pub add_entries : Dict (List String) → List GlossaryEntry → Dict (List String)
add_entries result [] = result
add_entries result (e ∷ entries) = add_entries (insert e.language e.terms result) entries

unfoldable pub glossary_entries_to_record : List GlossaryEntry → Dict (List String)
unfolding add_entries
glossary_entries_to_record entries = add_entries [] entries

unfoldable pub record_to_glossary_entries : Dict (List String) → List GlossaryEntry
record_to_glossary_entries m =
    map (λ (e : String × List String). record { language = e.0; terms = e.1 }) m

-- the argument of `mapGqlProfile`
pub record GqlProfile : Type 0 where
  pub id : String
  pub name : String
  pub system_prompt : String
  pub transcription_prompt_override : String
  pub output_template : String
  pub cleanup_level : GqlCleanupLevel
  pub export_folder : String
  pub auto_tags : List String
  pub glossary_by_language : List GlossaryEntry
  pub llm_correction_enabled : Bool
  pub llm_provider_override : String
  pub llm_model_override : String
  pub is_default : Bool
  pub is_built_in : Bool

unfoldable pub map_gql_profile : GqlProfile → Profile
unfolding gql_cleanup_level_to_domain glossary_entries_to_record
map_gql_profile p = record {
  id = p.id;
  name = p.name;
  system_prompt = p.system_prompt;
  transcription_prompt_override = p.transcription_prompt_override;
  output_template = p.output_template;
  cleanup_level = gql_cleanup_level_to_domain p.cleanup_level;
  export_folder = p.export_folder;
  auto_tags = p.auto_tags;
  glossary_by_language = glossary_entries_to_record p.glossary_by_language;
  llm_correction_enabled = p.llm_correction_enabled;
  llm_provider_override = p.llm_provider_override;
  llm_model_override = p.llm_model_override;
  is_default = p.is_default;
  is_built_in = p.is_built_in;
}

-- the result of `mapDomainProfileToInput`
pub record ProfileInput : Type 0 where
  pub name : String
  pub system_prompt : String
  pub output_template : String
  pub cleanup_level : GqlCleanupLevel
  pub export_folder : String
  pub auto_tags : List String
  pub glossary_by_language : List GlossaryEntry
  pub llm_correction_enabled : Bool
  pub llm_provider_override : String
  pub llm_model_override : String
  pub is_default : Bool

-- `m ?? {}`
abbrev pub glossary_or_empty : Option (Dict (List String)) → Dict (List String)
glossary_or_empty none = []
glossary_or_empty (some m) = m

-- `s ?? ""`
abbrev pub text_or_empty : Option String → String
text_or_empty none = ""
text_or_empty (some s) = s

unfoldable pub map_domain_profile_to_input : Draft → ProfileInput
unfolding domain_cleanup_level_to_gql record_to_glossary_entries
map_domain_profile_to_input draft = record {
  name = draft.name;
  system_prompt = draft.system_prompt;
  output_template = draft.output_template;
  cleanup_level = domain_cleanup_level_to_gql draft.cleanup_level;
  export_folder = draft.export_folder;
  auto_tags = draft.auto_tags;
  glossary_by_language = record_to_glossary_entries (glossary_or_empty draft.glossary_by_language);
  llm_correction_enabled = draft.llm_correction_enabled;
  llm_provider_override = text_or_empty draft.llm_provider_override;
  llm_model_override = text_or_empty draft.llm_model_override;
  is_default = draft.is_default;
}

gql_cleanup_level_round_trip :
    (l : CleanupLevel) → gql_cleanup_level_to_domain (domain_cleanup_level_to_gql l) ≡ l
unfolding gql_cleanup_level_to_domain domain_cleanup_level_to_gql
gql_cleanup_level_round_trip none_level = refl
gql_cleanup_level_round_trip light = refl
gql_cleanup_level_round_trip aggressive = refl

add_entries_lem :
    (result m : Dict (List String))
    → add_entries result (record_to_glossary_entries m) ≡ assign result m
unfolding add_entries record_to_glossary_entries assign
add_entries_lem result [] = refl
add_entries_lem result ((language, terms) ∷ m) = add_entries_lem (insert language terms result) m

glossary_round_trip :
    (m : Dict (List String))
    → Unique m
    → glossary_entries_to_record (record_to_glossary_entries m) ≡ m
unfolding glossary_entries_to_record
glossary_round_trip m u = rw (add_entries_lem [] m) (assign-empty m u)

-- what a backend answers that keeps every field of an input, under an id and with the two fields
-- that an input does not have
abbrev pub stored : String → String → Bool → ProfileInput → GqlProfile
stored id prompt built_in i = record {
  id = id;
  name = i.name;
  system_prompt = i.system_prompt;
  transcription_prompt_override = prompt;
  output_template = i.output_template;
  cleanup_level = i.cleanup_level;
  export_folder = i.export_folder;
  auto_tags = i.auto_tags;
  glossary_by_language = i.glossary_by_language;
  llm_correction_enabled = i.llm_correction_enabled;
  llm_provider_override = i.llm_provider_override;
  llm_model_override = i.llm_model_override;
  is_default = i.is_default;
  is_built_in = built_in;
}

abbrev pub draft_of : Profile → Draft
draft_of p = record {
  name = p.name;
  system_prompt = p.system_prompt;
  transcription_prompt_override = p.transcription_prompt_override;
  output_template = p.output_template;
  cleanup_level = p.cleanup_level;
  export_folder = p.export_folder;
  auto_tags = p.auto_tags;
  glossary_by_language = some p.glossary_by_language;
  llm_correction_enabled = p.llm_correction_enabled;
  llm_provider_override = some p.llm_provider_override;
  llm_model_override = some p.llm_model_override;
  is_default = p.is_default;
}

-- A profile survives the way to a backend that stores what it is sent and back, its glossary and
-- its clean-up level included, but for the prompt override for transcription, which is not sent:
-- it comes back as whatever the backend had.
pub profile_round_trip :
    (p : Profile) (prompt : String)
    → Unique p.glossary_by_language
    → map_gql_profile (stored p.id prompt p.is_built_in (map_domain_profile_to_input (draft_of p)))
      ≡ record p { transcription_prompt_override = prompt }
unfolding map_gql_profile map_domain_profile_to_input
profile_round_trip p prompt u =
    rw (gql_cleanup_level_round_trip p.cleanup_level, glossary_round_trip p.glossary_by_language u)
      refl
