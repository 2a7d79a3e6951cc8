-- ===== src/Store/Onboarding.antt =====
-- frontend/src/store/slices/onboarding and frontend/src/features/Onboarding: the steps of the first
-- start, with the buttons of the page, and the probes that the steps run.
pub mod Probe
pub mod Quiet
pub mod Steps
mod Tests
use mozgoslav.Prelude.{
  ℕ, zero, suc, max, min, String, Bool, true, false, Option, none, some, List, [], ◌∷◌, filter,
  length, get_elem?, leb, if◌then◌else◌, not, ◌&&◌, any,
}
use mozgoslav.Store.Dictation.{Reply, data_of, thrown}

-- an integer, as a step index is one
pub data ℤ : Type 0 where
  pos negsuc : ℕ → ℤ

-- `x + 1`
abbrev pub suc_int : ℤ → ℤ
suc_int (pos n) = pos (suc n)
suc_int (negsuc zero) = pos zero
suc_int (negsuc (suc n)) = negsuc n

-- `Math.min`
abbrev pub min_int : ℤ → ℤ → ℤ
min_int (pos m) (pos n) = pos (min m n)
min_int (pos m) (negsuc n) = negsuc n
min_int (negsuc m) (pos n) = negsuc m
min_int (negsuc m) (negsuc n) = negsuc (max m n)

-- `Math.max(0, x)`, as a natural number
abbrev pub at_least_zero : ℤ → ℕ
at_least_zero (pos n) = n
at_least_zero (negsuc n) = zero

-- `LlmHealth`
pub record LlmHealth : Type 0 where
  pub reachable : Bool
  pub loaded : Bool

-- a vault that was detected
pub record Vault : Type 0 where
  pub path : String
  pub name : String

-- `ObsidianDetection`
pub record ObsidianDetection : Type 0 where
  pub detected : List Vault
  pub loaded : Bool

-- `AudioCapabilities`
pub record AudioCapabilities : Type 0 where
  pub is_supported : Bool
  pub detected_platform : String
  pub permissions_required : List String

-- `AudioCapabilitiesState`
pub record AudioCapabilitiesState : Type 0 where
  pub capabilities : Option AudioCapabilities
  pub loaded : Bool

-- `OnboardingState`
pub record State : Type 0 where
  pub completed : Bool
  pub current_step_index : ℤ
  pub error : Option String
  pub llm_health : LlmHealth
  pub obsidian_detection : ObsidianDetection
  pub audio_capabilities : AudioCapabilitiesState

unfoldable pub initial : State
initial = record {
  completed = false;
  current_step_index = pos zero;
  error = none;
  llm_health = record { reachable = false; loaded = false };
  obsidian_detection = record { detected = []; loaded = false };
  audio_capabilities = record { capabilities = none; loaded = false };
}

-- `OnboardingAction`, less the starts and stops of the probes; `other` is any other action
pub data Action : Type 0 where
  set_step : (index : ℤ) → Action
  next_step : (max : ℤ) → Action
  complete_onboarding reset_onboarding : Action
  completion_loaded : (completed : Bool) → Action
  completion_persist_failed : (message : String) → Action
  llm_health_updated : (reachable : Bool) → Action
  obsidian_detection_updated : (detected : List Vault) → Action
  audio_capabilities_updated : Option AudioCapabilities → Action
  other : Action

unfoldable pub advance : State → ℤ → State
advance s max = record s { current_step_index = min_int max (suc_int s.current_step_index) }

unfoldable pub go_to_step : State → ℤ → State
go_to_step s index = record s { current_step_index = pos (at_least_zero index) }

-- `onboardingReducer`
unfoldable pub reduce : State → Action → State
unfolding initial
reduce s (set_step index) = go_to_step s index
reduce s (next_step max) = advance s max
reduce s complete_onboarding = record s { completed = true; error = none }
reduce s reset_onboarding = initial
reduce s (completion_loaded completed) = record s { completed = completed }
reduce s (completion_persist_failed message) = record s { error = some message }
reduce s (llm_health_updated reachable) = record s {
  llm_health = record { reachable = reachable; loaded = true };
}
reduce s (obsidian_detection_updated detected) = record s {
  obsidian_detection = record { detected = detected; loaded = true };
}
reduce s (audio_capabilities_updated capabilities) = record s {
  audio_capabilities = record { capabilities = capabilities; loaded = true };
}
reduce s other = s

-- `persistCompletionSaga`: the flag is written, or writing it throws
unfoldable pub persist_completion_saga : Reply (Unit {0}) → Option Action
persist_completion_saga (data_of _) = none
persist_completion_saga (thrown e) = some (completion_persist_failed e)

-- `OnboardingPlatform`
pub data Platform : Type 0 where
  macos linux windows other_platform : Platform

-- `OnboardingStepKey`
pub data StepKey : Type 0 where
  welcome try_it_now models llm obsidian mic dictation ready : StepKey

-- `ALL_STEPS`
abbrev pub all_steps : List StepKey
all_steps = welcome ∷ try_it_now ∷ models ∷ llm ∷ obsidian ∷ mic ∷ dictation ∷ ready ∷ []

-- `step !== "mic" && step !== "dictation"`
abbrev pub is_everywhere : StepKey → Bool
is_everywhere mic = false
is_everywhere dictation = false
is_everywhere _ = true

unfoldable pub steps_for_platform : Platform → List StepKey
steps_for_platform macos = all_steps
steps_for_platform linux = filter is_everywhere all_steps
steps_for_platform windows = filter is_everywhere all_steps
steps_for_platform other_platform = filter is_everywhere all_steps

abbrev pub is_required_step : StepKey → Bool
is_required_step welcome = true
is_required_step try_it_now = true
is_required_step models = true
is_required_step ready = true
is_required_step _ = false

-- `steps.length - 1`
abbrev pub last_index : ℕ → ℤ
last_index zero = negsuc zero
last_index (suc n) = pos n

-- `index` of the page
unfoldable pub shown_index : List StepKey → State → ℕ
shown_index steps s = at_least_zero (min_int (last_index (length steps)) s.current_step_index)

-- `currentStep`
unfoldable pub current_step : List StepKey → State → Option StepKey
current_step steps s = get_elem? steps (shown_index steps s)

-- `done`: `index >= steps.length - 1`
unfoldable pub is_done : List StepKey → State → Bool
is_done steps s = leb (length steps) (suc (shown_index steps s))

-- the handler `next` of the page, without its navigation
unfoldable pub next : List StepKey → State → State
next steps s =
    if is_done steps s
    then reduce s complete_onboarding
    else reduce s (next_step (last_index (length steps)))

-- `currentStep === "models"`
abbrev pub is_models : Option StepKey → Bool
is_models (some models) = true
is_models _ = false

-- `missingBundleModels.length > 0`, of the flags `installed` of the bundle's models
abbrev pub is_missing : List Bool → Bool
is_missing bundle = any (λ (installed : Bool). not installed) bundle

-- `modelsBlockingNext`
unfoldable pub models_blocking_next : List StepKey → List Bool → State → Bool
models_blocking_next steps bundle s = is_models (current_step steps s) && is_missing bundle

-- a press of the button `next`, which is disabled while the models block it
unfoldable pub press_next : List StepKey → List Bool → State → State
press_next steps bundle s = if models_blocking_next steps bundle s then s else next steps s
