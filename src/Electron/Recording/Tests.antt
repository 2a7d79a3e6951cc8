-- ===== src/Electron/Recording/Tests.antt =====
-- The recording bridge at concrete requests.
use mozgoslav.Prelude.{◌≤◌, ◌≡◌, refl, true, none, some, [], ◌∷◌, List, lookup, insert, erase}
use mozgoslav.Electron.Recording.{
  Session, not_found, session_id, captured, Bridge, new, strip_text, has_slash, stop_match, Request,
  open_session, handle_start, handle_stop, handle_other, handle, fulfilled, resume, Event, request,
  settle, step, run,
}
use mozgoslav.Electron.Recording.Sessions.{starts, stops, stops-le-starts}

abbrev start_request : Request
start_request = record {
  post = true;
  url = "/_internal/record/start";
  output_path = some "/tmp/a.wav";
  stream_session_id = none;
}

abbrev stop_request : Request
stop_request = record {
  post = true;
  url = "/_internal/record/stop/s1";
  output_path = none;
  stream_session_id = none;
}

abbrev once : List Event
once =
    request "s1" 0 start_request
    ∷ settle 0 (fulfilled "" 0)
    ∷ request "x" 1 stop_request
    ∷ settle 0 (fulfilled "/tmp/a.wav" 900)
    ∷ request "x" 2 stop_request
    ∷ []

once_answers :
    (run new once).responses ≡ not_found ∷ captured "/tmp/a.wav" 900 ∷ session_id "s1" ∷ []
unfolding run step new handle handle_start open_session handle_other handle_stop stop_match
    strip_text has_slash resume lookup insert erase
once_answers = refl

stops-le-starts_example : let b = run new once in stops "s1" b.calls ≤ starts "s1" b.calls
stops-le-starts_example = stops-le-starts "s1" once

abbrev session : Session
session = record { id = "s1"; output_path = "/tmp/a.wav"; started_at = 0 }

abbrev busy : Bridge
busy = record {
  serving = true;
  sessions = ("s1", session) ∷ [];
  tasks = [];
  calls = [];
  responses = [];
}
