-- ===== src/Store/Dictation.antt =====
-- frontend/src/store/slices/dictation: the reducer of the dictation session, and the sagas that
-- turn a backend reply into the next action.
pub mod Order
pub mod Session
mod Tests
use mozgoslav.Prelude.{
  String, Bool, true, false, ◌||◌, Option, none, some, List, [], ◌∷◌, ◌==◌, if◌then◌else◌, or_else,
}

-- `DictationStatus`
pub data Status : Type 0 where
  idle : Status
  starting : (source : String) (persist_on_stop : Bool) → Status
  active : (session_id source : String) (persist_on_stop : Bool) → Status
  stopping : (session_id : String) (persist_on_stop : Bool) → Status
  cancelling : (session_id : String) (persist_on_stop : Bool) → Status
  stopped : (polished_text : Option String) (persist_on_stop : Bool) → Status
  failed : (error : String) → Status

-- `DictationAction`; `other` is an action of another slice
pub data Action : Type 0 where
  start_requested : (source : String) (persist_on_stop : Bool) → Action
  started : (session_id : String) → Action
  stop_requested : Action
  dictation_stopped : (polished_text : Option String) → Action
  dictation_failed : (error : String) → Action
  reset : Action
  cancel_requested : Action
  cancelled : Action
  cancel_failed : (error : String) → Action
  other : Action

-- `dictationReducer`, with the action in front; a guard that fails returns the state unchanged
unfoldable pub reduce : Status → Action → Status
reduce idle (start_requested source persist) = starting source persist
reduce (starting source persist) (started sid) = active sid source persist
reduce (active sid source persist) stop_requested = stopping sid persist
reduce (stopping sid persist) (dictation_stopped text) = stopped text persist
reduce (starting source persist) (dictation_failed e) = failed e
reduce (active sid source persist) (dictation_failed e) = failed e
reduce (stopping sid persist) (dictation_failed e) = failed e
reduce (stopped text persist) reset = idle
reduce (failed e) reset = idle
reduce (active sid source persist) cancel_requested = cancelling sid persist
reduce (stopping sid persist) cancel_requested = cancelling sid persist
reduce s cancelled = idle
reduce s (cancel_failed e) = idle
reduce s a = s

-- the store fed with a list of actions
unfoldable pub run : Status → List Action → Status
run s [] = s
run s (a ∷ acts) = run (reduce s a) acts

-- What a GraphQL call ends with: data, or the message of the exception that `gqlRequest` throws.
pub data Reply (A : Type 0) : Type 0 where
  data_of : A → Reply A
  thrown : String → Reply A

-- `dictationStartSaga`; an empty or missing session id is falsy
unfoldable pub start_saga : Reply (Option String) → Action
start_saga (data_of none) = dictation_failed "dictation start failed"
start_saga (data_of (some sid)) =
    if sid == "" then dictation_failed "dictation start failed" else started sid
start_saga (thrown e) = dictation_failed e

-- `dictationStopSaga` at the status that `select` returns; the backend is called only from
-- `stopping`, and its answer to that call is the argument
unfoldable pub stop_saga : Status → (String → Reply (Option String)) → List Action
stop_saga (stopping sid persist) call = elim (call sid) [
  | data_of text ↦ dictation_stopped text ∷ []
  | thrown e ↦ dictation_failed e ∷ []
]
stop_saga s call = []

-- `dictationCancelSaga`, the notifications left out; the reply is the list of error messages
unfoldable pub cancel_saga : Status → (String → Reply (List String)) → List Action
cancel_saga (cancelling sid persist) call = elim (call sid) [
  | data_of [] ↦ cancelled ∷ []
  | data_of (message ∷ _) ↦ cancel_failed message ∷ []
  | thrown e ↦ cancel_failed e ∷ []
]
cancel_saga s call = []
