-- ===== src/Store/Settings/Mapping.antt =====
-- The mappings of saga/saveSettingsSaga.ts and saga/loadSettingsSaga.ts between the settings and
-- what the backend sends and takes.
use mozgoslav.Prelude.{ℕ, String, Bool, false, Option, none, some, List, [], ◌∷◌, map, Dict, insert}
use mozgoslav.Store.Settings.{AppSettings}

-- an entry of `dictationAppProfiles`
pub record KeyValue : Type 0 where
  pub key : String
  pub value : String

-- the input of `updateSettings`, with the fields that the client sends
pub record SettingsInput : Type 0 where
  pub vault_path : String
  pub llm_provider : String
  pub llm_endpoint : String
  pub llm_model : String
  pub llm_api_key : String
  pub obsidian_api_host : String
  pub obsidian_api_token : String
  pub whisper_model_path : String
  pub vad_model_path : String
  pub language : String
  pub theme_mode : String
  pub whisper_threads : ℕ
  pub dictation_enabled : Bool
  pub dictation_hotkey_type : String
  pub dictation_mouse_button : ℕ
  pub dictation_keyboard_hotkey : String
  pub dictation_push_to_talk : Bool
  pub dictation_language : String
  pub dictation_whisper_model_id : String
  pub dictation_capture_sample_rate : ℕ
  pub dictation_llm_polish : Bool
  pub dictation_inject_mode : String
  pub dictation_overlay_enabled : Bool
  pub dictation_overlay_position : String
  pub dictation_sound_feedback : Bool
  pub dictation_vocabulary : List String
  pub dictation_model_unload_minutes : ℕ
  pub dictation_temp_audio_path : String
  pub dictation_app_profiles : List KeyValue
  pub syncthing_enabled : Bool
  pub syncthing_obsidian_vault_path : String
  pub syncthing_api_key : String
  pub syncthing_base_url : String
  pub obsidian_feature_enabled : Bool
  pub mcp_server_enabled : Bool
  pub mcp_server_port : ℕ
  pub mcp_server_token : String
  pub actions_skill_enabled : Bool
  pub reminders_skill_enabled : Bool
  pub dictation_classify_intent_enabled : Bool
  pub claude_cli_path : String
  pub dictation_dump_enabled : Bool
  pub dictation_dump_hotkey_toggle : String
  pub dictation_dump_hotkey_hold : String
  pub sidecar_enrichment_enabled : Bool

-- the settings as the backend sends them; the optional fields may be missing
pub record SettingsDto : Type 0 where
  pub vault_path : String
  pub obsidian_feature_enabled : Option Bool
  pub llm_provider : String
  pub llm_endpoint : String
  pub llm_model : String
  pub llm_api_key : String
  pub web_cache_ttl_hours : Option ℕ
  pub obsidian_api_host : String
  pub obsidian_api_token : String
  pub whisper_model_path : String
  pub vad_model_path : String
  pub language : String
  pub theme_mode : String
  pub whisper_threads : ℕ
  pub dictation_enabled : Bool
  pub dictation_hotkey_type : String
  pub dictation_mouse_button : ℕ
  pub dictation_keyboard_hotkey : String
  pub dictation_push_to_talk : Bool
  pub dictation_language : String
  pub dictation_whisper_model_id : String
  pub dictation_capture_sample_rate : ℕ
  pub dictation_llm_polish : Bool
  pub dictation_inject_mode : String
  pub dictation_overlay_enabled : Bool
  pub dictation_overlay_position : String
  pub dictation_sound_feedback : Bool
  pub dictation_vocabulary : List String
  pub dictation_model_unload_minutes : ℕ
  pub dictation_temp_audio_path : String
  pub dictation_app_profiles : List KeyValue
  pub dictation_classify_intent_enabled : Option Bool
  pub syncthing_enabled : Bool
  pub syncthing_obsidian_vault_path : String
  pub syncthing_api_key : Option String
  pub syncthing_base_url : Option String
  pub mcp_server_enabled : Option Bool
  pub mcp_server_port : Option ℕ
  pub mcp_server_token : Option String
  pub actions_skill_enabled : Option Bool
  pub reminders_skill_enabled : Option Bool
  pub claude_cli_path : Option String
  pub dictation_dump_enabled : Bool
  pub dictation_dump_hotkey_toggle : String
  pub dictation_dump_hotkey_hold : String
  pub sidecar_enrichment_enabled : Option Bool

-- `Object.entries(m).map(([key, value]) => ({ key, value }))`
unfoldable pub entries_of : Dict String → List KeyValue
entries_of m = map (λ (e : String × String). record { key = e.0; value = e.1 }) m

-- `Object.fromEntries(list.map((kv) => [kv.key, kv.value]))`, onto `acc`
unfoldable pub from_entries : Dict String → List KeyValue → Dict String
from_entries acc [] = acc
from_entries acc (kv ∷ list) = from_entries (insert kv.key kv.value acc) list

-- `a ?? b` for a plain value `b`
abbrev pub default : {A : Type 0} → Option A → A → A
default none b = b
default (some a) b = a

-- `mapSettingsToInput`
unfoldable pub map_settings_to_input : AppSettings → SettingsInput
unfolding entries_of
map_settings_to_input s = record {
  vault_path = s.vault_path;
  llm_provider = s.llm_provider;
  llm_endpoint = s.llm_endpoint;
  llm_model = s.llm_model;
  llm_api_key = s.llm_api_key;
  obsidian_api_host = s.obsidian_api_host;
  obsidian_api_token = s.obsidian_api_token;
  whisper_model_path = s.whisper_model_path;
  vad_model_path = s.vad_model_path;
  language = s.language;
  theme_mode = s.theme_mode;
  whisper_threads = s.whisper_threads;
  dictation_enabled = s.dictation_enabled;
  dictation_hotkey_type = s.dictation_hotkey_type;
  dictation_mouse_button = s.dictation_mouse_button;
  dictation_keyboard_hotkey = s.dictation_keyboard_hotkey;
  dictation_push_to_talk = s.dictation_push_to_talk;
  dictation_language = s.dictation_language;
  dictation_whisper_model_id = s.dictation_whisper_model_id;
  dictation_capture_sample_rate = s.dictation_capture_sample_rate;
  dictation_llm_polish = s.dictation_llm_polish;
  dictation_inject_mode = s.dictation_inject_mode;
  dictation_overlay_enabled = s.dictation_overlay_enabled;
  dictation_overlay_position = s.dictation_overlay_position;
  dictation_sound_feedback = s.dictation_sound_feedback;
  dictation_vocabulary = s.dictation_vocabulary;
  dictation_model_unload_minutes = s.dictation_model_unload_minutes;
  dictation_temp_audio_path = s.dictation_temp_audio_path;
  dictation_app_profiles = entries_of s.dictation_app_profiles;
  syncthing_enabled = s.syncthing_enabled;
  syncthing_obsidian_vault_path = s.syncthing_obsidian_vault_path;
  syncthing_api_key = s.syncthing_api_key;
  syncthing_base_url = s.syncthing_base_url;
  obsidian_feature_enabled = s.obsidian_feature_enabled;
  mcp_server_enabled = s.mcp_server_enabled;
  mcp_server_port = s.mcp_server_port;
  mcp_server_token = s.mcp_server_token;
  actions_skill_enabled = s.actions_skill_enabled;
  reminders_skill_enabled = s.reminders_skill_enabled;
  dictation_classify_intent_enabled = s.dictation_classify_intent_enabled;
  claude_cli_path = s.claude_cli_path;
  dictation_dump_enabled = s.dictation_dump_enabled;
  dictation_dump_hotkey_toggle = s.dictation_dump_hotkey_toggle;
  dictation_dump_hotkey_hold = s.dictation_dump_hotkey_hold;
  sidecar_enrichment_enabled = s.sidecar_enrichment_enabled;
}

-- `mapSavedToSettings`
unfoldable pub map_saved_to_settings : SettingsDto → AppSettings
unfolding from_entries
map_saved_to_settings dto = record {
  vault_path = dto.vault_path;
  obsidian_feature_enabled = default dto.obsidian_feature_enabled false;
  llm_provider = dto.llm_provider;
  llm_endpoint = dto.llm_endpoint;
  llm_model = dto.llm_model;
  llm_api_key = dto.llm_api_key;
  web_cache_ttl_hours = default dto.web_cache_ttl_hours 24;
  obsidian_api_host = dto.obsidian_api_host;
  obsidian_api_token = dto.obsidian_api_token;
  whisper_model_path = dto.whisper_model_path;
  vad_model_path = dto.vad_model_path;
  language = dto.language;
  theme_mode = dto.theme_mode;
  whisper_threads = dto.whisper_threads;
  dictation_enabled = dto.dictation_enabled;
  dictation_hotkey_type = dto.dictation_hotkey_type;
  dictation_mouse_button = dto.dictation_mouse_button;
  dictation_keyboard_hotkey = dto.dictation_keyboard_hotkey;
  dictation_push_to_talk = dto.dictation_push_to_talk;
  dictation_language = dto.dictation_language;
  dictation_whisper_model_id = dto.dictation_whisper_model_id;
  dictation_capture_sample_rate = dto.dictation_capture_sample_rate;
  dictation_llm_polish = dto.dictation_llm_polish;
  dictation_inject_mode = dto.dictation_inject_mode;
  dictation_overlay_enabled = dto.dictation_overlay_enabled;
  dictation_overlay_position = dto.dictation_overlay_position;
  dictation_sound_feedback = dto.dictation_sound_feedback;
  dictation_vocabulary = dto.dictation_vocabulary;
  dictation_model_unload_minutes = dto.dictation_model_unload_minutes;
  dictation_temp_audio_path = dto.dictation_temp_audio_path;
  dictation_app_profiles = from_entries [] dto.dictation_app_profiles;
  dictation_classify_intent_enabled = default dto.dictation_classify_intent_enabled false;
  syncthing_enabled = dto.syncthing_enabled;
  syncthing_obsidian_vault_path = dto.syncthing_obsidian_vault_path;
  syncthing_api_key = default dto.syncthing_api_key "";
  syncthing_base_url = default dto.syncthing_base_url "";
  mcp_server_enabled = default dto.mcp_server_enabled false;
  mcp_server_port = default dto.mcp_server_port 51051;
  mcp_server_token = default dto.mcp_server_token "";
  actions_skill_enabled = default dto.actions_skill_enabled false;
  reminders_skill_enabled = default dto.reminders_skill_enabled false;
  claude_cli_path = default dto.claude_cli_path "";
  dictation_dump_enabled = dto.dictation_dump_enabled;
  dictation_dump_hotkey_toggle = dto.dictation_dump_hotkey_toggle;
  dictation_dump_hotkey_hold = dto.dictation_dump_hotkey_hold;
  sidecar_enrichment_enabled = default dto.sidecar_enrichment_enabled false;
}

-- `mapDtoToSettings`
unfoldable pub map_dto_to_settings : SettingsDto → AppSettings
unfolding from_entries
map_dto_to_settings dto = record {
  vault_path = dto.vault_path;
  obsidian_feature_enabled = default dto.obsidian_feature_enabled false;
  llm_provider = dto.llm_provider;
  llm_endpoint = dto.llm_endpoint;
  llm_model = dto.llm_model;
  llm_api_key = dto.llm_api_key;
  web_cache_ttl_hours = default dto.web_cache_ttl_hours 24;
  obsidian_api_host = dto.obsidian_api_host;
  obsidian_api_token = dto.obsidian_api_token;
  whisper_model_path = dto.whisper_model_path;
  vad_model_path = dto.vad_model_path;
  language = dto.language;
  theme_mode = dto.theme_mode;
  whisper_threads = dto.whisper_threads;
  dictation_enabled = dto.dictation_enabled;
  dictation_hotkey_type = dto.dictation_hotkey_type;
  dictation_mouse_button = dto.dictation_mouse_button;
  dictation_keyboard_hotkey = dto.dictation_keyboard_hotkey;
  dictation_push_to_talk = dto.dictation_push_to_talk;
  dictation_language = dto.dictation_language;
  dictation_whisper_model_id = dto.dictation_whisper_model_id;
  dictation_capture_sample_rate = dto.dictation_capture_sample_rate;
  dictation_llm_polish = dto.dictation_llm_polish;
  dictation_inject_mode = dto.dictation_inject_mode;
  dictation_overlay_enabled = dto.dictation_overlay_enabled;
  dictation_overlay_position = dto.dictation_overlay_position;
  dictation_sound_feedback = dto.dictation_sound_feedback;
  dictation_vocabulary = dto.dictation_vocabulary;
  dictation_model_unload_minutes = dto.dictation_model_unload_minutes;
  dictation_temp_audio_path = dto.dictation_temp_audio_path;
  dictation_app_profiles = from_entries [] dto.dictation_app_profiles;
  dictation_classify_intent_enabled = default dto.dictation_classify_intent_enabled false;
  syncthing_enabled = dto.syncthing_enabled;
  syncthing_obsidian_vault_path = dto.syncthing_obsidian_vault_path;
  syncthing_api_key = default dto.syncthing_api_key "";
  syncthing_base_url = default dto.syncthing_base_url "";
  mcp_server_enabled = default dto.mcp_server_enabled false;
  mcp_server_port = default dto.mcp_server_port 51051;
  mcp_server_token = default dto.mcp_server_token "";
  actions_skill_enabled = default dto.actions_skill_enabled false;
  reminders_skill_enabled = default dto.reminders_skill_enabled false;
  claude_cli_path = default dto.claude_cli_path "";
  dictation_dump_enabled = dto.dictation_dump_enabled;
  dictation_dump_hotkey_toggle = dto.dictation_dump_hotkey_toggle;
  dictation_dump_hotkey_hold = dto.dictation_dump_hotkey_hold;
  sidecar_enrichment_enabled = default dto.sidecar_enrichment_enabled false;
}
