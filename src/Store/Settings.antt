-- ===== src/Store/Settings.antt =====
-- frontend/src/domain/Settings.ts and frontend/src/store/slices/settings: the settings of the
-- application and their slice: types.ts, actions.ts, mutations.ts, reducer.ts and the sagas that only
-- put actions. The unions of texts are texts here, since the mappings cast to them without a test.
pub mod Mapping
pub mod RoundTrip
pub mod Requests
mod Tests
use mozgoslav.Prelude.{ℕ, String, Bool, true, false, Option, none, some, List, [], Dict}

-- `AppSettings`
pub record AppSettings : Type 0 where
  pub vault_path : String
  pub obsidian_feature_enabled : Bool
  pub llm_provider : String
  pub llm_endpoint : String
  pub llm_model : String
  pub llm_api_key : String
  pub web_cache_ttl_hours : ℕ
  pub obsidian_api_host : String
  pub obsidian_api_token : String
  pub whisper_model_path : String
  pub vad_model_path : String
  pub language : String
  pub theme_mode : String
  pub whisper_threads : ℕ
  pub dictation_enabled : Bool
  pub dictation_hotkey_type : String
  pub dictation_mouse_button : ℕ
  pub dictation_keyboard_hotkey : String
  pub dictation_push_to_talk : Bool
  pub dictation_language : String
  pub dictation_whisper_model_id : String
  pub dictation_capture_sample_rate : ℕ
  pub dictation_llm_polish : Bool
  pub dictation_inject_mode : String
  pub dictation_overlay_enabled : Bool
  pub dictation_overlay_position : String
  pub dictation_sound_feedback : Bool
  pub dictation_vocabulary : List String
  pub dictation_model_unload_minutes : ℕ
  pub dictation_temp_audio_path : String
  pub dictation_app_profiles : Dict String
  pub dictation_classify_intent_enabled : Bool
  pub syncthing_enabled : Bool
  pub syncthing_obsidian_vault_path : String
  pub syncthing_api_key : String
  pub syncthing_base_url : String
  pub mcp_server_enabled : Bool
  pub mcp_server_port : ℕ
  pub mcp_server_token : String
  pub actions_skill_enabled : Bool
  pub reminders_skill_enabled : Bool
  pub claude_cli_path : String
  pub dictation_dump_enabled : Bool
  pub dictation_dump_hotkey_toggle : String
  pub dictation_dump_hotkey_hold : String
  pub sidecar_enrichment_enabled : Bool

-- `DEFAULT_SETTINGS`
unfoldable pub default_settings : AppSettings
default_settings = record {
  vault_path = "";
  obsidian_feature_enabled = false;
  llm_provider = "openai_compatible";
  llm_endpoint = "";
  llm_model = "";
  llm_api_key = "";
  web_cache_ttl_hours = 24;
  obsidian_api_host = "";
  obsidian_api_token = "";
  whisper_model_path = "";
  vad_model_path = "";
  language = "ru";
  theme_mode = "system";
  whisper_threads = 0;
  dictation_enabled = true;
  dictation_hotkey_type = "mouse";
  dictation_mouse_button = 5;
  dictation_keyboard_hotkey = "";
  dictation_push_to_talk = false;
  dictation_language = "ru";
  dictation_whisper_model_id = "";
  dictation_capture_sample_rate = 48000;
  dictation_llm_polish = false;
  dictation_inject_mode = "auto";
  dictation_overlay_enabled = true;
  dictation_overlay_position = "bottom-center";
  dictation_sound_feedback = true;
  dictation_vocabulary = [];
  dictation_model_unload_minutes = 10;
  dictation_temp_audio_path = "";
  dictation_app_profiles = [];
  dictation_classify_intent_enabled = false;
  syncthing_enabled = false;
  syncthing_obsidian_vault_path = "";
  syncthing_api_key = "";
  syncthing_base_url = "";
  mcp_server_enabled = false;
  mcp_server_port = 51051;
  mcp_server_token = "";
  actions_skill_enabled = false;
  reminders_skill_enabled = false;
  claude_cli_path = "";
  dictation_dump_enabled = false;
  dictation_dump_hotkey_toggle = "";
  dictation_dump_hotkey_hold = "";
  sidecar_enrichment_enabled = false;
}

-- `LlmModelsState`
pub record LlmModels (Model : Type 0) : Type 0 where
  pub loading : Bool
  pub available : List Model
  pub error : Bool

-- `SettingsState`; the types of the capabilities and of a model are generated
pub record State (Capabilities Model : Type 0) : Type 0 where
  pub settings : Option AppSettings
  pub is_loading : Bool
  pub is_saving : Bool
  pub llm_probing : Bool
  pub llm_capabilities : Option Capabilities
  pub llm_models : LlmModels Model

unfoldable pub initial : {Capabilities Model : Type 0} → State Capabilities Model
initial = record {
  settings = none;
  is_loading = false;
  is_saving = false;
  llm_probing = false;
  llm_capabilities = none;
  llm_models = record { loading = false; available = []; error = false };
}

-- `SettingsAction`; the reducer has no case for `load_llm_capabilities`, and `other` is an action of
-- another slice
pub data Action (Capabilities Model : Type 0) : Type 0 where
  load_settings : Action Capabilities Model
  load_settings_success : AppSettings → Action Capabilities Model
  load_settings_failure : Action Capabilities Model
  save_settings save_settings_success : AppSettings → Action Capabilities Model
  save_settings_failure check_llm check_llm_done load_llm_capabilities : Action Capabilities Model
  load_llm_capabilities_success : Option Capabilities → Action Capabilities Model
  load_llm_models_requested : Action Capabilities Model
  load_llm_models_succeeded : List Model → Action Capabilities Model
  load_llm_models_failed other : Action Capabilities Model

module _ {Capabilities Model : Type 0} where
  unfoldable pub mark_llm_probing : State Capabilities Model → State Capabilities Model
  mark_llm_probing s = record s { llm_probing = true }

  unfoldable pub settle_llm_probing : State Capabilities Model → State Capabilities Model
  settle_llm_probing s = record s { llm_probing = false }

  unfoldable pub apply_loaded : State Capabilities Model → AppSettings → State Capabilities Model
  apply_loaded s settings = record s { settings = some settings; is_loading = false }

  unfoldable pub apply_saved : State Capabilities Model → AppSettings → State Capabilities Model
  apply_saved s settings = record s { settings = some settings; is_saving = false }

  unfoldable pub apply_llm_capabilities :
      State Capabilities Model → Option Capabilities → State Capabilities Model
  apply_llm_capabilities s capabilities = record s { llm_capabilities = capabilities }

  unfoldable pub mark_llm_models_loading : State Capabilities Model → State Capabilities Model
  mark_llm_models_loading s = record s {
    llm_models = record (s.llm_models) { loading = true; error = false };
  }

  unfoldable pub apply_llm_models_loaded :
      State Capabilities Model → List Model → State Capabilities Model
  apply_llm_models_loaded s models = record s {
    llm_models = record { loading = false; available = models; error = false };
  }

  unfoldable pub mark_llm_models_failed : State Capabilities Model → State Capabilities Model
  mark_llm_models_failed s = record s {
    llm_models = record { loading = false; available = []; error = true };
  }

  -- `settingsReducer`
  unfoldable pub reduce :
      State Capabilities Model → Action Capabilities Model → State Capabilities Model
  unfolding mark_llm_probing settle_llm_probing apply_loaded apply_saved apply_llm_capabilities
      mark_llm_models_loading apply_llm_models_loaded mark_llm_models_failed
  reduce s load_settings = record s { is_loading = true }
  reduce s (load_settings_success settings) = apply_loaded s settings
  reduce s load_settings_failure = record s { is_loading = false }
  reduce s (save_settings settings) = record s { is_saving = true }
  reduce s (save_settings_success settings) = apply_saved s settings
  reduce s save_settings_failure = record s { is_saving = false }
  reduce s check_llm = mark_llm_probing s
  reduce s check_llm_done = settle_llm_probing s
  reduce s load_llm_capabilities = s
  reduce s (load_llm_capabilities_success capabilities) = apply_llm_capabilities s capabilities
  reduce s load_llm_models_requested = mark_llm_models_loading s
  reduce s (load_llm_models_succeeded models) = apply_llm_models_loaded s models
  reduce s load_llm_models_failed = mark_llm_models_failed s
  reduce s other = s
