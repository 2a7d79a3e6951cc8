-- ===== src/Store/ObsidianWizard.antt =====
-- frontend/src/store/slices/obsidianWizard: the wizard of the vault: types.ts, actions.ts, reducer.ts
-- and wizardSaga.ts.
pub mod Walk
mod Tests
use mozgoslav.Prelude.{ℕ, String, Bool, true, false, Option, none, some, List, [], ◌∷◌}
use mozgoslav.Store.Dictation.{Reply, data_of, thrown}
use mozgoslav.Store.Obsidian.Report.{VaultDiagnosticsReport, map_gql_diagnostics}

-- `ObsidianWizardState`
pub record State : Type 0 where
  pub current_step : ℕ
  pub next_step : Option ℕ
  pub is_step_running : Bool
  pub diagnostics : Option VaultDiagnosticsReport
  pub error : Option String
  pub is_complete : Bool

unfoldable pub initial : State
initial = record {
  current_step = 1;
  next_step = some 1;
  is_step_running = false;
  diagnostics = none;
  error = none;
  is_complete = false;
}

-- `ObsidianWizardActionType`; `other` is any other action
pub data Action : Type 0 where
  run_wizard_step : (step : ℕ) → Action
  run_wizard_step_done :
      (current_step : ℕ) (next_step : Option ℕ) (diagnostics : Option VaultDiagnosticsReport)
      → Action
  run_wizard_step_failed : (error : String) → Action
  reset_wizard other : Action

-- `payload.nextStep === null`
abbrev pub is_last : Option ℕ → Bool
is_last none = true
is_last (some _) = false

-- `payload.diagnostics ?? state.diagnostics`
abbrev pub kept_report :
    Option VaultDiagnosticsReport → Option VaultDiagnosticsReport → Option VaultDiagnosticsReport
kept_report none before = before
kept_report (some report) before = some report

-- `obsidianWizardReducer`
unfoldable pub reduce : State → Action → State
unfolding initial
reduce s (run_wizard_step step) = record s { is_step_running = true; error = none }
reduce s (run_wizard_step_done current next report) = record {
  current_step = current;
  next_step = next;
  is_step_running = false;
  diagnostics = kept_report report s.diagnostics;
  error = none;
  is_complete = is_last next;
}
reduce s (run_wizard_step_failed e) = record s { is_step_running = false; error = some e }
reduce s reset_wizard = initial
reduce s other = s

-- `data.obsidianRunWizardStep`
pub record Payload : Type 0 where
  pub current_step : ℕ
  pub next_step : Option ℕ
  pub diagnostics : Option VaultDiagnosticsReport
  pub errors : List String

abbrev pub mapped : Option VaultDiagnosticsReport → Option VaultDiagnosticsReport
mapped none = none
mapped (some report) = some (map_gql_diagnostics report)

-- `wizardSaga`
unfoldable pub wizard_saga : Reply Payload → Action
wizard_saga (data_of p) = elim p.errors [
  | message ∷ _ ↦ run_wizard_step_failed message
  | [] ↦ run_wizard_step_done p.current_step p.next_step (mapped p.diagnostics)
]
wizard_saga (thrown e) = run_wizard_step_failed e

-- the slice, with whether a saga of `takeLatest` waits for its answer
pub record World : Type 0 where
  pub store : State
  pub running : Bool

unfoldable pub new : World
new = record { store = initial; running = false }

-- What happens: the two actions, and the answer to the request of the last step.
pub data Event : Type 0 where
  step_run : (step : ℕ) → Event
  reset : Event
  answered : Reply Payload → Event

abbrev pub settle : Bool → Reply Payload → World → World
settle true reply w = record { store = reduce w.store (wizard_saga reply); running = false }
settle false reply w = w

unfoldable pub step : World → Event → World
unfolding reduce
step w (step_run n) = record { store = reduce w.store (run_wizard_step n); running = true }
step w reset = record w { store = reduce w.store reset_wizard }
step w (answered reply) = settle w.running reply w

unfoldable pub run : World → List Event → World
run w [] = w
run w (e ∷ events) = run (step w e) events
