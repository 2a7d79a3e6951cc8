-- ===== src/Store/Routines.antt =====
-- frontend/src/store/slices/routines: the routines and the marks of the requests that run on them:
-- types.ts, actions.ts, reducer.ts and saga.ts. The mappings of the sagas copy every field.
pub mod Marks
mod Tests
use mozgoslav.Prelude.{
  String, Bool, true, false, Option, none, some, List, [], ◌∷◌, map, ◌==◌, if◌then◌else◌, Dict,
  insert, erase,
}
use mozgoslav.Store.Dictation.{Reply, data_of, thrown}

-- `RoutineRun`
pub record RoutineRun : Type 0 where
  pub id : String
  pub routine_key : String
  pub started_at : String
  pub finished_at : Option String
  pub status : String
  pub error_message : Option String
  pub payload_summary : Option String

-- `RoutineDefinition`
pub record Routine : Type 0 where
  pub key : String
  pub display_name : String
  pub description : String
  pub is_enabled : Bool
  pub last_run : Option RoutineRun

-- `RoutinesState`; a key of the marks stands for the value `true`
pub record State : Type 0 where
  pub routines : List Routine
  pub is_loading : Bool
  pub error : Option String
  pub toggling_keys : Dict (Unit {0})
  pub running_keys : Dict (Unit {0})

unfoldable pub initial : State
initial = record {
  routines = [];
  is_loading = false;
  error = none;
  toggling_keys = [];
  running_keys = [];
}

-- `RoutinesAction`; `other` is an action of another slice
pub data Action : Type 0 where
  load_routines : Action
  load_routines_success : List Routine → Action
  load_routines_failure : (error : String) → Action
  toggle_routine : (key : String) (enabled : Bool) → Action
  toggle_routine_success : Routine → Action
  toggle_routine_failure : (error : String) → Action
  run_routine_now : (key : String) → Action
  run_routine_now_success : RoutineRun → Action
  run_routine_now_failure : (error : String) → Action
  other : Action

-- `r.key === updated.key ? updated : r`
abbrev pub replaced : Routine → Routine → Routine
replaced updated r = if r.key == updated.key then updated else r

-- `r.key === run.routineKey ? { ...r, lastRun: run } : r`
abbrev pub with_run : RoutineRun → Routine → Routine
with_run run r = if r.key == run.routine_key then record r { last_run = some run } else r

-- `routinesReducer`
unfoldable pub reduce : State → Action → State
reduce s load_routines = record s { is_loading = true; error = none }
reduce s (load_routines_success list) = record s {
  is_loading = false;
  routines = list;
  error = none;
}
reduce s (load_routines_failure e) = record s { is_loading = false; error = some e }
reduce s (toggle_routine key enabled) = record s { toggling_keys = insert key tt s.toggling_keys }
reduce s (toggle_routine_success updated) = record s {
  toggling_keys = erase updated.key s.toggling_keys;
  routines = map (replaced updated) s.routines;
}
reduce s (toggle_routine_failure e) = record s { toggling_keys = []; error = some e }
reduce s (run_routine_now key) = record s { running_keys = insert key tt s.running_keys }
reduce s (run_routine_now_success run) = record s {
  running_keys = erase run.routine_key s.running_keys;
  routines = map (with_run run) s.routines;
}
reduce s (run_routine_now_failure e) = record s { running_keys = []; error = some e }
reduce s other = s

-- `result.routines ?? []`
abbrev pub routines_or_empty : Option (List Routine) → List Routine
routines_or_empty none = []
routines_or_empty (some list) = list

-- `loadRoutinesSaga` after its request
unfoldable pub load_saga : Reply (Option (List Routine)) → Action
load_saga (data_of list) = load_routines_success (routines_or_empty list)
load_saga (thrown e) = load_routines_failure e

-- `toggleRoutineSaga` after its request
unfoldable pub toggle_saga : Reply Routine → Action
toggle_saga (data_of r) = toggle_routine_success r
toggle_saga (thrown e) = toggle_routine_failure e

-- `runRoutineNowSaga` after its request
unfoldable pub run_now_saga : Reply RoutineRun → Action
run_now_saga (data_of r) = run_routine_now_success r
run_now_saga (thrown e) = run_routine_now_failure e
