-- ===== src/Store/Settings/RoundTrip.antt =====
-- The settings on their way to the backend and back.
use mozgoslav.Prelude.{
  ℕ, ◌≡◌, refl, String, Option, some, [], ◌∷◌, Dict, insert, assign, Unique, assign-empty,
}
use mozgoslav.Store.Settings.{AppSettings}
use mozgoslav.Store.Settings.Mapping.{
  SettingsInput, SettingsDto, entries_of, from_entries, default, map_settings_to_input,
  map_saved_to_settings, map_dto_to_settings,
}

from_entries_lem : (acc m : Dict String) → from_entries acc (entries_of m) ≡ assign acc m
unfolding from_entries entries_of assign
from_entries_lem acc [] = refl
from_entries_lem acc ((key, value) ∷ m) = from_entries_lem (insert key value acc) m

-- The settings that the renderer makes of an answer do not depend on whether it loaded or saved them.
pub load_and_save_agree : (dto : SettingsDto) → map_saved_to_settings dto ≡ map_dto_to_settings dto
unfolding map_saved_to_settings map_dto_to_settings
load_and_save_agree dto = refl

-- what a backend answers that keeps every field that it was sent and has its own value of the one
-- that it was not sent
abbrev pub kept : Option ℕ → SettingsInput → SettingsDto
kept ttl i = record {
  vault_path = i.vault_path;
  obsidian_feature_enabled = some i.obsidian_feature_enabled;
  llm_provider = i.llm_provider;
  llm_endpoint = i.llm_endpoint;
  llm_model = i.llm_model;
  llm_api_key = i.llm_api_key;
  web_cache_ttl_hours = ttl;
  obsidian_api_host = i.obsidian_api_host;
  obsidian_api_token = i.obsidian_api_token;
  whisper_model_path = i.whisper_model_path;
  vad_model_path = i.vad_model_path;
  language = i.language;
  theme_mode = i.theme_mode;
  whisper_threads = i.whisper_threads;
  dictation_enabled = i.dictation_enabled;
  dictation_hotkey_type = i.dictation_hotkey_type;
  dictation_mouse_button = i.dictation_mouse_button;
  dictation_keyboard_hotkey = i.dictation_keyboard_hotkey;
  dictation_push_to_talk = i.dictation_push_to_talk;
  dictation_language = i.dictation_language;
  dictation_whisper_model_id = i.dictation_whisper_model_id;
  dictation_capture_sample_rate = i.dictation_capture_sample_rate;
  dictation_llm_polish = i.dictation_llm_polish;
  dictation_inject_mode = i.dictation_inject_mode;
  dictation_overlay_enabled = i.dictation_overlay_enabled;
  dictation_overlay_position = i.dictation_overlay_position;
  dictation_sound_feedback = i.dictation_sound_feedback;
  dictation_vocabulary = i.dictation_vocabulary;
  dictation_model_unload_minutes = i.dictation_model_unload_minutes;
  dictation_temp_audio_path = i.dictation_temp_audio_path;
  dictation_app_profiles = i.dictation_app_profiles;
  dictation_classify_intent_enabled = some i.dictation_classify_intent_enabled;
  syncthing_enabled = i.syncthing_enabled;
  syncthing_obsidian_vault_path = i.syncthing_obsidian_vault_path;
  syncthing_api_key = some i.syncthing_api_key;
  syncthing_base_url = some i.syncthing_base_url;
  mcp_server_enabled = some i.mcp_server_enabled;
  mcp_server_port = some i.mcp_server_port;
  mcp_server_token = some i.mcp_server_token;
  actions_skill_enabled = some i.actions_skill_enabled;
  reminders_skill_enabled = some i.reminders_skill_enabled;
  claude_cli_path = some i.claude_cli_path;
  dictation_dump_enabled = i.dictation_dump_enabled;
  dictation_dump_hotkey_toggle = i.dictation_dump_hotkey_toggle;
  dictation_dump_hotkey_hold = i.dictation_dump_hotkey_hold;
  sidecar_enrichment_enabled = some i.sidecar_enrichment_enabled;
}

-- Saving the settings to a backend that keeps what it is sent gives the same settings back, the
-- application profiles included, but for the lifetime of the web cache: that field is not sent, so
-- whatever the user has set, it comes back as the value that the backend has, or 24.
pub settings_round_trip :
    (s : AppSettings) (ttl : Option ℕ)
    → Unique s.dictation_app_profiles
    → map_saved_to_settings (kept ttl (map_settings_to_input s))
      ≡ record s { web_cache_ttl_hours = default ttl 24 }
unfolding map_saved_to_settings map_settings_to_input
settings_round_trip s ttl u =
    rw (from_entries_lem [] s.dictation_app_profiles, assign-empty s.dictation_app_profiles u) refl
