-- ===== src/Store/Monitoring.antt =====
-- frontend/src/store/slices/monitoring: the state of the runtime services as the renderer shows it,
-- and the sagas that load it, probe it again and follow it. The type of a runtime state is generated
-- from the backend's schema, so it is a parameter.
pub mod Subscription
pub mod Channels
pub mod Backoff
mod Tests
use mozgoslav.Prelude.{String, Bool, true, false, Option, none, some, List, [], ◌∷◌}
use mozgoslav.Store.Dictation.{Reply, data_of, thrown}

-- `MonitoringState`
pub record State (Runtime : Type 0) : Type 0 where
  pub runtime_state : Option Runtime
  pub is_loading : Bool
  pub is_subscribed : Bool
  pub is_reprobing : Bool
  pub error : Option String

unfoldable pub initial : {Runtime : Type 0} → State Runtime
initial = record {
  runtime_state = none;
  is_loading = false;
  is_subscribed = false;
  is_reprobing = false;
  error = none;
}

-- `MonitoringAction`; `other` is an action of another slice
pub data Action (Runtime : Type 0) : Type 0 where
  load_requested : Action Runtime
  load_succeeded : Runtime → Action Runtime
  load_failed : (error : String) → Action Runtime
  subscribe unsubscribe : Action Runtime
  state_updated : Runtime → Action Runtime
  reprobe_requested reprobe_succeeded : Action Runtime
  reprobe_failed : (error : String) → Action Runtime
  other : Action Runtime

-- `monitoringReducer`
unfoldable pub reduce : {Runtime : Type 0} → State Runtime → Action Runtime → State Runtime
reduce s load_requested = record s { is_loading = true; error = none }
reduce s (load_succeeded r) = record s { is_loading = false; runtime_state = some r; error = none }
reduce s (load_failed e) = record s { is_loading = false; error = some e }
reduce s subscribe = record s { is_subscribed = true }
reduce s unsubscribe = record s { is_subscribed = false }
reduce s (state_updated r) = record s { runtime_state = some r }
reduce s reprobe_requested = record s { is_reprobing = true }
reduce s reprobe_succeeded = record s { is_reprobing = false }
reduce s (reprobe_failed e) = record s { is_reprobing = false; error = some e }
reduce s other = s

-- the actions that a saga puts, one after the other
unfoldable pub reduce_all :
    {Runtime : Type 0} → State Runtime → List (Action Runtime) → State Runtime
reduce_all s [] = s
reduce_all s (a ∷ acts) = reduce_all (reduce s a) acts

-- `loadRuntimeStateSaga`
unfoldable pub load_saga : {Runtime : Type 0} → Reply Runtime → Action Runtime
load_saga (data_of r) = load_succeeded r
load_saga (thrown e) = load_failed e

-- `result.reprobeRuntimeState`; missing errors are no errors
pub record ReprobePayload (Runtime : Type 0) : Type 0 where
  pub errors : List String
  pub state : Option Runtime

-- `reprobeRuntimeStateSaga`
unfoldable pub reprobe_saga :
    {Runtime : Type 0} → Reply (ReprobePayload Runtime) → List (Action Runtime)
reprobe_saga (thrown e) = reprobe_failed e ∷ []
reprobe_saga (data_of p) = elim p.errors [
  | message ∷ _ ↦ reprobe_failed message ∷ []
  | [] ↦ elim p.state [
    | some r ↦ reprobe_succeeded ∷ load_succeeded r ∷ []
    | none ↦ reprobe_failed "Reprobe returned no state" ∷ []
  ]
]
