-- ===== src/Store/Settings/Requests.antt =====
-- The sagas of the settings after their requests, the notifications left out.
use mozgoslav.Prelude.{◌≡◌, refl, Bool, false, Option, none, some, List}
use mozgoslav.Store.Dictation.{Reply, data_of, thrown}
use mozgoslav.Store.Settings.{
  AppSettings, State, Action, reduce, apply_saved, load_settings_success, load_settings_failure,
  save_settings, save_settings_success, save_settings_failure, check_llm_done,
  load_llm_capabilities_success, load_llm_models_succeeded, load_llm_models_failed,
}
use mozgoslav.Store.Settings.Mapping.{SettingsDto, map_saved_to_settings, map_dto_to_settings}

module _ {Capabilities Model : Type 0} where
  -- `loadSettingsSaga`
  unfoldable pub load_saga : Reply SettingsDto → Action Capabilities Model
  load_saga (data_of dto) = load_settings_success (map_dto_to_settings dto)
  load_saga (thrown e) = load_settings_failure

  -- `saveSettingsSaga`
  unfoldable pub save_saga : Reply (Option SettingsDto) → Action Capabilities Model
  save_saga (data_of (some dto)) = save_settings_success (map_saved_to_settings dto)
  save_saga (data_of none) = save_settings_failure
  save_saga (thrown e) = save_settings_failure

  -- `checkLlmSaga`
  unfoldable pub check_llm_saga : Reply Bool → Action Capabilities Model
  check_llm_saga reply = check_llm_done

  -- `loadLlmCapabilitiesSaga`
  unfoldable pub capabilities_saga : Reply (Option Capabilities) → Action Capabilities Model
  capabilities_saga (data_of c) = load_llm_capabilities_success c
  capabilities_saga (thrown e) = load_llm_capabilities_success none

  -- `loadLlmModelsSaga`
  unfoldable pub models_saga : Reply (List Model) → Action Capabilities Model
  models_saga (data_of models) = load_llm_models_succeeded models
  models_saga (thrown e) = load_llm_models_failed

  -- A save ends the flag of saving, and changes the settings of the slice exactly to what the
  -- backend says that it has stored: without an answer, or with an answer that has no settings,
  -- the slice keeps the settings that it had.
  pub save_settles :
      (s : State Capabilities Model) (draft : AppSettings) (reply : Reply (Option SettingsDto))
      → let after = reduce (reduce s (save_settings draft)) (save_saga reply) in
        (after.is_saving ≡ false)
        × (after.settings ≡ elim reply [
          | data_of o ↦ elim o [ some dto ↦ some (map_saved_to_settings dto) | none ↦ s.settings ]
          | thrown _ ↦ s.settings
        ])
  unfolding reduce save_saga apply_saved
  save_settles s draft (data_of (some dto)) = (refl, refl)
  save_settles s draft (data_of none) = (refl, refl)
  save_settles s draft (thrown e) = (refl, refl)
