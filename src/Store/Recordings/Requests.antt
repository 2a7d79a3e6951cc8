-- ===== src/Store/Recordings/Requests.antt =====
-- The request sagas of saga.ts and recordingMapper.ts.
use mozgoslav.Prelude.{
  ◌≡◌, refl, String, Bool, true, false, ◌||◌, Option, none, some, List, [], ◌∷◌, map, length,
  lookup, insert, lookup-erase, eq_refl, is_some, if◌then◌else◌, if_cases,
}
use mathlib.Core.Logic.{◌⊎◌, inl, inr}
use text.Mathlib.Text.{find?}
use mozgoslav.Store.Dictation.{Reply, data_of, thrown}
use mozgoslav.Store.Recordings.{
  AudioFormat, wav, SourceType, recorded, imported, Status, fresh, Recording, State, Action, reduce,
  reduce_all, load_recordings, load_recordings_success, load_recordings_failure,
  load_recordings_unavailable, delete_recording, delete_recording_success, delete_recording_failure,
  upload_recordings_requested, upload_recordings_success, upload_recordings_failure,
  import_recordings_requested, import_recordings_success, import_recordings_failure,
}

-- the generated node: its enumerations are read through a table that may have no entry, and its
-- duration is a string or another value
pub record Node (Other : Type 0) : Type 0 where
  pub id : String
  pub file_name : String
  pub file_path : String
  pub sha256 : String
  pub duration : String ⊎ Other
  pub format : Option AudioFormat
  pub is_recorded : Bool
  pub status : Option Status
  pub created_at : String

abbrev or_wav : Option AudioFormat → AudioFormat
or_wav none = wav
or_wav (some f) = f

abbrev or_fresh : Option Status → Status
or_fresh none = fresh
or_fresh (some s) = s

abbrev source_type_of : Bool → SourceType
source_type_of true = recorded
source_type_of false = imported

abbrev duration_text : {Other : Type 0} → (Other → String) → String ⊎ Other → String
duration_text print (inl s) = s
duration_text print (inr x) = print x

-- `mapGqlRecording`; `String(x ?? "")` is the argument
unfoldable pub map_gql_recording : {Other : Type 0} → (Other → String) → Node Other → Recording
map_gql_recording print r = record {
  id = r.id;
  file_name = r.file_name;
  file_path = r.file_path;
  sha256 = r.sha256;
  duration = duration_text print r.duration;
  format = or_wav r.format;
  source_type = source_type_of r.is_recorded;
  status = or_fresh r.status;
  created_at = r.created_at;
}

-- `message.includes(part)`
abbrev pub includes : String → String → Bool
includes message part = is_some (find? message part)

-- `isBackendDown`, for an error with a message
unfoldable pub is_backend_down : String → Bool
is_backend_down message =
    includes message "ECONNREFUSED"
    || includes message "ENOTFOUND"
    || includes message "fetch failed"
    || includes message "Failed to fetch"

-- `result.recordings?.nodes ?? []`
abbrev pub nodes_or_empty : {A : Type 0} → Option (List A) → List A
nodes_or_empty none = []
nodes_or_empty (some nodes) = nodes

module _ {Other : Type 0} (print : Other → String) where
  -- `loadRecordingsSaga` after its request
  unfoldable pub load_saga : Reply (Option (List (Node Other))) → Action
  unfolding map_gql_recording is_backend_down
  load_saga (data_of nodes) =
      load_recordings_success (map (map_gql_recording print) (nodes_or_empty nodes))
  load_saga (thrown e) =
      if is_backend_down e then load_recordings_unavailable else load_recordings_failure e

-- `deleteRecordingSaga` after its request, whose answer is not read
unfoldable pub delete_saga : String → Reply (Unit {0}) → Action
delete_saga id (data_of _) = delete_recording_success id
delete_saga id (thrown e) = delete_recording_failure id e

-- `uploadRecordingsSaga` after its request
unfoldable pub upload_saga : List String → Reply (Unit {0}) → List Action
upload_saga paths (data_of _) = upload_recordings_success (length paths) ∷ load_recordings ∷ []
upload_saga paths (thrown e) = upload_recordings_failure e ∷ []

-- `importRecordingsSaga` after its request
unfoldable pub import_saga : List String → Reply (Unit {0}) → List Action
import_saga paths (data_of _) = import_recordings_success (length paths) ∷ load_recordings ∷ []
import_saga paths (thrown e) = import_recordings_failure e ∷ []

-- a reload and no error, or the error and no reload
abbrev pub UploadEnds : State → State → Reply (Unit {0}) → Type 0
UploadEnds before after (data_of _) = (after.is_loading ≡ true) × (after.last_upload_error ≡ none)
UploadEnds before after (thrown e) =
    (after.is_loading ≡ before.is_loading) × (after.last_upload_error ≡ some e)

-- An upload or an import, from its action to the end of its saga, ends the flag of uploading; it
-- starts a reload of the list exactly if the request went through, and keeps the message of the
-- failure otherwise.
pub upload_settles :
    (s : State) (paths : List String) (reply : Reply (Unit {0}))
    → let uploaded =
        reduce_all (reduce s (upload_recordings_requested paths)) (upload_saga paths reply) in
      let imported_after =
        reduce_all (reduce s (import_recordings_requested paths)) (import_saga paths reply) in
      (uploaded ≡ imported_after) × (uploaded.is_uploading ≡ false) × UploadEnds s uploaded reply
unfolding reduce reduce_all upload_saga import_saga
upload_settles s paths (data_of _) = (refl, refl, (refl, refl))
upload_settles s paths (thrown e) = (refl, refl, (refl, refl))

-- A deletion, from its action to the end of its saga, leaves no mark on its recording, whether it
-- succeeds or fails.
pub delete_settles :
    (s : State) (id : String) (reply : Reply (Unit {0}))
    → lookup id (reduce (reduce s (delete_recording id)) (delete_saga id reply)).deleting_ids ≡ none
unfolding reduce delete_saga
delete_settles s id (data_of _) =
    rw (lookup-erase id id (insert id tt s.deleting_ids), eq_refl) refl
delete_settles s id (thrown e) = rw (lookup-erase id id (insert id tt s.deleting_ids), eq_refl) refl

-- Loading ends with every answer: a list, a backend that is down, another failure.
pub load_settles :
    {Other : Type 0} (print : Other → String) (s : State)
    (reply : Reply (Option (List (Node Other))))
    → (reduce (reduce s load_recordings) (load_saga print reply)).is_loading ≡ false
unfolding reduce load_saga
load_settles print s (data_of nodes) = refl
load_settles print s (thrown e) =
    if_cases (λ a. (reduce (reduce s load_recordings) a).is_loading ≡ false) (is_backend_down e)
      (λ _. refl) (λ _. refl)
