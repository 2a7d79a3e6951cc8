-- ===== src/Store/Obsidian.antt =====
-- frontend/src/store/slices/obsidian: the diagnostics and the repairs of the vault: types.ts,
-- actions.ts, mutations.ts, reducer.ts and the sagas, without their notifications.
pub mod Report
pub mod Repairs
mod Tests
use mozgoslav.Prelude.{String, Bool, true, false, Option, none, some, List, [], ◌∷◌}
use mozgoslav.Store.Dictation.{Reply, data_of, thrown}
use mozgoslav.Store.Obsidian.Report.{VaultDiagnosticsReport, map_gql_diagnostics}

-- `ObsidianState`
pub record State : Type 0 where
  pub is_setup_in_progress : Bool
  pub is_diagnostics_loading : Bool
  pub is_reapplying_bootstrap : Bool
  pub is_reinstalling_plugins : Bool
  pub diagnostics : Option VaultDiagnosticsReport
  pub diagnostics_error : Option String

unfoldable pub initial : State
initial = record {
  is_setup_in_progress = false;
  is_diagnostics_loading = false;
  is_reapplying_bootstrap = false;
  is_reinstalling_plugins = false;
  diagnostics = none;
  diagnostics_error = none;
}

-- `ObsidianAction`; `other` is any other action
pub data Action : Type 0 where
  setup_obsidian : (vault_path : Option String) → Action
  setup_obsidian_done fetch_diagnostics : Action
  fetch_diagnostics_done : VaultDiagnosticsReport → Action
  fetch_diagnostics_failed : (error : String) → Action
  reapply_bootstrap reapply_bootstrap_done reinstall_plugins reinstall_plugins_done other : Action

abbrev pub begin_setup : State → State
begin_setup s = record s { is_setup_in_progress = true }

abbrev pub begin_diagnostics_load : State → State
begin_diagnostics_load s = record s { is_diagnostics_loading = true; diagnostics_error = none }

abbrev pub set_diagnostics : State → VaultDiagnosticsReport → State
set_diagnostics s report = record s {
  is_diagnostics_loading = false;
  diagnostics = some report;
  diagnostics_error = none;
}

abbrev pub set_diagnostics_error : State → String → State
set_diagnostics_error s error = record s {
  is_diagnostics_loading = false;
  diagnostics_error = some error;
}

abbrev pub begin_reapply_bootstrap : State → State
begin_reapply_bootstrap s = record s { is_reapplying_bootstrap = true }

abbrev pub begin_reinstall_plugins : State → State
begin_reinstall_plugins s = record s { is_reinstalling_plugins = true }

-- `obsidianReducer`
unfoldable pub reduce : State → Action → State
reduce s (setup_obsidian path) = begin_setup s
reduce s setup_obsidian_done = record s { is_setup_in_progress = false }
reduce s fetch_diagnostics = begin_diagnostics_load s
reduce s (fetch_diagnostics_done report) = set_diagnostics s report
reduce s (fetch_diagnostics_failed error) = set_diagnostics_error s error
reduce s reapply_bootstrap = begin_reapply_bootstrap s
reduce s reapply_bootstrap_done = record s { is_reapplying_bootstrap = false }
reduce s reinstall_plugins = begin_reinstall_plugins s
reduce s reinstall_plugins_done = record s { is_reinstalling_plugins = false }
reduce s other = s

-- the payload of the diagnostics: the report, if any, and the messages of the errors
pub record Payload : Type 0 where
  pub report : Option VaultDiagnosticsReport
  pub errors : List String

abbrev pub report_or_failed : Option VaultDiagnosticsReport → Action
report_or_failed none = fetch_diagnostics_failed "empty diagnostics payload"
report_or_failed (some report) = fetch_diagnostics_done (map_gql_diagnostics report)

-- `diagnosticsSaga`
unfoldable pub diagnostics_saga : Reply Payload → Action
diagnostics_saga (data_of p) = elim p.errors [
  | message ∷ _ ↦ fetch_diagnostics_failed message
  | [] ↦ report_or_failed p.report
]
diagnostics_saga (thrown e) = fetch_diagnostics_failed e

-- a repair: new diagnostics are fetched if the answer has no errors, and its end is put always
abbrev pub repair_saga : Action → Reply (List String) → List Action
repair_saga finished (data_of []) = fetch_diagnostics ∷ finished ∷ []
repair_saga finished (data_of (_ ∷ _)) = finished ∷ []
repair_saga finished (thrown e) = finished ∷ []

-- `reapplyBootstrapSaga`
unfoldable pub reapply_bootstrap_saga : Reply (List String) → List Action
reapply_bootstrap_saga reply = repair_saga reapply_bootstrap_done reply

-- `reinstallPluginsSaga`
unfoldable pub reinstall_plugins_saga : Reply (List String) → List Action
reinstall_plugins_saga reply = repair_saga reinstall_plugins_done reply

-- `setupObsidianSaga`, whose other effects are notifications
unfoldable pub setup_obsidian_saga : Reply (List String) → List Action
setup_obsidian_saga reply = setup_obsidian_done ∷ []

unfoldable pub reduce_all : State → List Action → State
reduce_all s [] = s
reduce_all s (a ∷ actions) = reduce_all (reduce s a) actions
