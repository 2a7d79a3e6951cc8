-- ===== src/Store/Recordings.antt =====
-- frontend/src/store/slices/recording: the recordings, the uploads and the live transcripts:
-- types.ts, actions.ts, reducer.ts, recordingMapper.ts and the selectors that look a recording up.
pub mod Keys
pub mod Requests
pub mod Live
mod Tests
use mozgoslav.Prelude.{
  ℕ, String, Bool, true, false, Option, none, some, List, [], ◌∷◌, Dict, lookup, insert, erase,
  values, index_by, is_some,
}

-- `AudioFormat`
pub data AudioFormat : Type 0 where
  mp3 m4a wav mp4 ogg flac webm aac : AudioFormat

-- `SourceType`
pub data SourceType : Type 0 where
  recorded imported : SourceType

-- `RecordingStatus`
pub data Status : Type 0 where
  fresh transcribing transcribed failed : Status

-- `Recording`
pub record Recording : Type 0 where
  pub id : String
  pub file_name : String
  pub file_path : String
  pub sha256 : String
  pub duration : String
  pub format : AudioFormat
  pub source_type : SourceType
  pub status : Status
  pub created_at : String

-- `LivePartialEntry`
pub record LivePartial : Type 0 where
  pub text : String
  pub observed_at : String

-- `RecordingState`; a key of `deleting_ids` stands for the value `true`
pub record State : Type 0 where
  pub recordings : Dict Recording
  pub is_loading : Bool
  pub is_backend_unavailable : Bool
  pub error : Option String
  pub deleting_ids : Dict (Unit {0})
  pub is_uploading : Bool
  pub last_upload_error : Option String
  pub live_partials : Dict LivePartial

unfoldable pub initial : State
initial = record {
  recordings = [];
  is_loading = false;
  is_backend_unavailable = false;
  error = none;
  deleting_ids = [];
  is_uploading = false;
  last_upload_error = none;
  live_partials = [];
}

-- `RecordingAction`; the reducer has no case for the two subscriptions, and `other` is an action of
-- another slice
pub data Action : Type 0 where
  load_recordings : Action
  load_recordings_success : List Recording → Action
  load_recordings_failure : (error : String) → Action
  load_recordings_unavailable : Action
  delete_recording delete_recording_success : (id : String) → Action
  delete_recording_failure : (id error : String) → Action
  upload_recordings_requested : (file_paths : List String) → Action
  upload_recordings_success : (count : ℕ) → Action
  upload_recordings_failure : (error : String) → Action
  import_recordings_requested : (file_paths : List String) → Action
  import_recordings_success : (count : ℕ) → Action
  import_recordings_failure : (error : String) → Action
  live_transcript_subscribe live_transcript_unsubscribe : (recording_id : String) → Action
  live_transcript_partial : (recording_id text observed_at : String) → Action
  live_transcript_cleared : (recording_id : String) → Action
  other : Action

abbrev pub recording_id : Recording → String
recording_id r = r.id

-- `recordingReducer`
unfoldable pub reduce : State → Action → State
reduce s load_recordings = record s {
  is_loading = true;
  error = none;
  is_backend_unavailable = false;
}
reduce s (load_recordings_success list) = record s {
  recordings = index_by recording_id [] list;
  is_loading = false;
  error = none;
  is_backend_unavailable = false;
}
reduce s (load_recordings_failure e) = record s {
  is_loading = false;
  error = some e;
  is_backend_unavailable = false;
}
reduce s load_recordings_unavailable = record s {
  is_loading = false;
  error = none;
  is_backend_unavailable = true;
  recordings = [];
}
reduce s (delete_recording id) = record s { deleting_ids = insert id tt s.deleting_ids }
reduce s (delete_recording_success id) = record s {
  recordings = erase id s.recordings;
  deleting_ids = erase id s.deleting_ids;
}
reduce s (delete_recording_failure id e) = record s {
  deleting_ids = erase id s.deleting_ids;
  error = some e;
}
reduce s (upload_recordings_requested paths) = record s {
  is_uploading = true;
  last_upload_error = none;
}
reduce s (import_recordings_requested paths) = record s {
  is_uploading = true;
  last_upload_error = none;
}
reduce s (upload_recordings_success count) = record s {
  is_uploading = false;
  last_upload_error = none;
}
reduce s (import_recordings_success count) = record s {
  is_uploading = false;
  last_upload_error = none;
}
reduce s (upload_recordings_failure e) = record s {
  is_uploading = false;
  last_upload_error = some e;
}
reduce s (import_recordings_failure e) = record s {
  is_uploading = false;
  last_upload_error = some e;
}
reduce s (live_transcript_partial id text at) = record s {
  live_partials = insert id (record { text = text; observed_at = at }) s.live_partials;
}
reduce s (live_transcript_cleared id) = record s { live_partials = erase id s.live_partials }
reduce s (live_transcript_subscribe id) = s
reduce s (live_transcript_unsubscribe id) = s
reduce s other = s

unfoldable pub reduce_all : State → List Action → State
reduce_all s [] = s
reduce_all s (a ∷ acts) = reduce_all (reduce s a) acts

unfoldable pub select_all_recordings : State → List Recording
select_all_recordings s = values s.recordings

unfoldable pub select_recording_by_id : String → State → Option Recording
select_recording_by_id id s = lookup id s.recordings

unfoldable pub select_is_deleting_recording : String → State → Bool
select_is_deleting_recording id s = is_some (lookup id s.deleting_ids)
