-- ===== src/Store/Settings/Tests.antt =====
-- The settings at concrete values.
use mozgoslav.Prelude.{◌≡◌, refl, lookup, String, none, [], ◌∷◌}
use mozgoslav.Store.Settings.{AppSettings, State, initial, default_settings}
use mozgoslav.Store.Settings.Mapping.{SettingsDto, map_settings_to_input, map_saved_to_settings}
use mozgoslav.Store.Settings.RoundTrip.{kept, settings_round_trip}

abbrev mine : AppSettings
unfolding default_settings
mine = record default_settings {
  web_cache_ttl_hours = 2;
  dictation_app_profiles = ("mail", "formal") ∷ [];
}

settings_round_trip_example :
    map_saved_to_settings (kept none (map_settings_to_input mine))
    ≡ record mine { web_cache_ttl_hours = 24 }
unfolding lookup mine
settings_round_trip_example = settings_round_trip mine none (refl, tt)

abbrev dto : SettingsDto
unfolding map_settings_to_input
dto = kept none (map_settings_to_input mine)

abbrev empty : State String String
unfolding initial
empty = initial
