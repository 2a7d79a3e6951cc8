-- ===== src/Electron/Recording.antt =====
-- frontend/electron/recording/RecordingBridge.ts: the HTTP bridge by which the backend records to a file.
-- A request runs to its next `await` in one step; what awaits the helper is a task.
pub mod Sessions
mod Tests
use Prim.Native.Char.{code}
use Prim.Native.String
use mozgoslav.Prelude.{
  ℕ, String, Bool, true, false, not, ◌&&◌, ◌||◌, Option, none, some, List, [], ◌∷◌, ◌++◌, ◌==◌,
  if◌then◌else◌, eqb, get_elem?, erase_at, Dict, lookup, insert, erase,
}

-- `RecordingSession`
pub record Session : Type 0 where
  pub id : String
  pub output_path : String
  pub started_at : ℕ

-- What a request is answered: a status with its body.
pub data Response : Type 0 where
  bad_request not_found : Response
  session_id : (id : String) → Response
  captured : (path : String) (duration_ms : ℕ) → Response
  server_error : Response

-- the calls of the helper
pub data Call : Type 0 where
  start_file_capture : (output_path session_id : String) (stream_session_id : Option String) → Call
  stop_file_capture : (session_id : String) → Call

-- What awaits: a start request and a stop request on the helper.
pub data Task : Type 0 where
  starting stopping : (id : String) → Task

-- The sessions, what awaits, and the calls and responses, the latest first.
pub record Bridge : Type 0 where
  pub serving : Bool
  pub sessions : Dict Session
  pub tasks : List Task
  pub calls : List Call
  pub responses : List Response

unfoldable pub new : Bridge
new = record { serving = false; sessions = []; tasks = []; calls = []; responses = [] }

-- `start`
unfoldable pub start : Bridge → Bridge
start b = record b { serving = true }

-- `stop`
unfoldable pub stop : Bridge → Bridge
stop b = record b { serving = false; sessions = [] }

-- what follows a prefix
unfoldable pub strip_text : String → String → Option String
strip_text String.[] s = some s
strip_text (String.◌∷◌ p ps) String.[] = none
strip_text (String.◌∷◌ p ps) (String.◌∷◌ c s) =
    let rest = strip_text ps s in if eqb (code p) (code c) then rest else none

unfoldable pub has_slash : String → Bool
has_slash String.[] = false
has_slash (String.◌∷◌ c s) = eqb (code c) 47 || has_slash s

-- `req.url.match(/^\/_internal\/record\/stop\/([^/]+)$/)`
unfoldable pub stop_match : String → Option String
stop_match url = elim (strip_text "/_internal/record/stop/" url) [
  | none ↦ none
  | some id ↦ if id == "" || has_slash id then none else some id
]

-- a request, with what `readJson` gives: the two members of the body that are strings
pub record Request : Type 0 where
  pub post : Bool
  pub url : String
  pub output_path : Option String
  pub stream_session_id : Option String

abbrev pub respond : Response → Bridge → Bridge
respond r b = record b { responses = r ∷ b.responses }

-- the start request with a path; `id` and `now` are those of `randomUUID` and `Date.now`
unfoldable pub open_session : String → ℕ → String → Option String → Bridge → Bridge
open_session id now path stream b = record b {
  sessions = insert id (record { id = id; output_path = path; started_at = now }) b.sessions;
  tasks = b.tasks ++ starting id ∷ [];
  calls = start_file_capture path id stream ∷ b.calls;
}

unfoldable pub handle_start : String → ℕ → Request → Bridge → Bridge
handle_start id now r b = elim r.output_path [
  | none ↦ respond bad_request b
  | some path ↦
      if path == "" then respond bad_request b else open_session id now path r.stream_session_id b
]

-- the stop request for a session
unfoldable pub handle_stop : String → Bridge → Bridge
handle_stop id b = elim (lookup id b.sessions) [
  | none ↦ respond not_found b
  | some session ↦ record b {
    sessions = erase id b.sessions;
    tasks = b.tasks ++ stopping id ∷ [];
    calls = stop_file_capture id ∷ b.calls;
  }
]

-- the routes behind the start route
unfoldable pub handle_other : Request → Bridge → Bridge
handle_other r b = elim (stop_match r.url) [
  | none ↦ respond not_found b
  | some id ↦ if r.post then handle_stop id b else respond not_found b
]

-- `handle`
unfoldable pub handle : String → ℕ → Request → Bridge → Bridge
handle id now r b =
    if r.url == ""
    then respond bad_request b
    else if r.post && r.url == "/_internal/record/start"
    then handle_start id now r b
    else handle_other r b

-- how the helper's promise settles; the path and the duration are those of a stop
pub data Outcome : Type 0 where
  fulfilled : (path : String) (duration_ms : ℕ) → Outcome
  rejected : Outcome

-- the code behind an `await`; a rejection is answered by the `catch` of the server
unfoldable pub resume : Task → Outcome → Bridge → Bridge
resume (starting id) (fulfilled _ _) b = respond (session_id id) b
resume (stopping id) (fulfilled path ms) b = respond (captured path ms) b
resume _ rejected b = respond server_error b

-- what happens: calls of the class, a request that is read, and a settled promise; a request may have
-- come before a stop
pub data Event : Type 0 where
  call_start call_stop : Event
  request : (id : String) (now : ℕ) → Request → Event
  settle : (k : ℕ) (outcome : Outcome) → Event

unfoldable pub step : Bridge → Event → Bridge
step b call_start = start b
step b call_stop = stop b
step b (request id now r) = handle id now r b
step b (settle k o) = elim (get_elem? b.tasks k) [
  | none ↦ b
  | some t ↦ resume t o (record b { tasks = erase_at b.tasks k })
]

unfoldable pub run : Bridge → List Event → Bridge
run b [] = b
run b (e ∷ events) = run (step b e) events
