-- ===== src/Store/Health.antt =====
-- frontend/src/store/slices/health: the probes of the backend: types.ts, actions.ts, reducer.ts and
-- healthSaga.ts.
pub mod Probes
use mozgoslav.Prelude.{
  ℕ, String, Bool, Option, none, some, List, [], ◌∷◌, ◌++◌, ◌==◌, if◌then◌else◌, get_elem?,
  erase_at,
}
use mozgoslav.Store.Dictation.{Reply, data_of, thrown}

-- `BackendHealthStatus`
pub data Status : Type 0 where
  unknown ok down : Status

-- `HealthState`
pub record State : Type 0 where
  pub status : Status
  pub last_checked_at : Option String

unfoldable pub initial : State
initial = record { status = unknown; last_checked_at = none }

-- the action that the reducer handles; `other` is any other one
pub data Action : Type 0 where
  health_probe_result : Status → (last_checked_at : String) → Action
  other : Action

-- `healthReducer`
unfoldable pub reduce : State → Action → State
reduce s (health_probe_result status at) = record { status = status; last_checked_at = some at }
reduce s other = s

-- `data.health?.status === "ok" ? "ok" : "down"`
abbrev pub status_of : Option String → Status
status_of none = down
status_of (some status) = if status == "ok" then ok else down

-- `healthProbeSaga`, started at a time
unfoldable pub probe_saga : String → Reply (Option String) → Action
probe_saga now (data_of status) = health_probe_result (status_of status) now
probe_saga now (thrown e) = health_probe_result down now

-- the slice, and the times at which the probes that still run were started
pub record World : Type 0 where
  pub store : State
  pub probes : List String

unfoldable pub new : World
new = record { store = initial; probes = [] }

-- What happens: a probe starts, one of the running probes is answered.
pub data Event : Type 0 where
  requested : (now : String) → Event
  answered : (probe : ℕ) → Reply (Option String) → Event

abbrev pub answer : Option String → Reply (Option String) → State → State
answer none reply s = s
answer (some now) reply s = reduce s (probe_saga now reply)

unfoldable pub step : World → Event → World
step w (requested now) = record w { probes = w.probes ++ now ∷ [] }
step w (answered probe reply) = record {
  store = answer (get_elem? w.probes probe) reply w.store;
  probes = erase_at w.probes probe;
}

unfoldable pub run : World → List Event → World
run w [] = w
run w (e ∷ events) = run (step w e) events
