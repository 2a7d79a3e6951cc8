-- ===== src/Electron/Dictation/Tests.antt =====
-- Push to talk at concrete events.
use mozgoslav.Prelude.{
  ℕ, ◌+◌, ◌≤◌, ◌≡◌, refl, ◌≢◌, String, true, false, Option, none, some, List, [], ◌∷◌, arith,
  eq_iff, erase_at,
}
use mozgoslav.Prelude.Text.{codes}
use mozgoslav.Electron.Dictation.{
  World, new, idle, requesting, typing, Event, press, release, audio, call_inject_text, settle,
  fulfilled, rejected, step, run,
}
use mozgoslav.Electron.Dictation.Talk.{seen, talk_effects, talk_events, talk_round_trip, answered}
use mozgoslav.Electron.Dictation.Errors.{IsHandled, rejected-IsHandled}
use mozgoslav.Electron.Dictation.Counts.{
  requests, capture_stops, session_stops, injections, inject_calls, injections-le-stops-le-requests,
}

-- a stand-in for `JSON.parse(data).text`
abbrev no_text : List ℕ → Option (List ℕ)
no_text p = none

abbrev quiet : World
quiet = record {
  overlay_enabled = false;
  session_id = none;
  phase = idle;
  partial_text = [];
  sse_controller = none;
  tasks = [];
  log = [];
}

s1-ne-empty : ◌≢◌ {A = String} "s1" ""
s1-ne-empty = ground (arith, eq_iff "s1" "")

talk_round_trip_example :
    run no_text quiet (talk_events no_text 0 "s1" (codes "hi"))
    ≡ record quiet { log = seen false (talk_effects "s1" (codes "hi")) }
talk_round_trip_example = talk_round_trip no_text quiet "s1" (codes "hi") refl s1-ne-empty

-- the injection fails while another start is awaited
abbrev torn : World
torn = record quiet { session_id = some "s1"; tasks = requesting ∷ typing ∷ [] }

rejected-IsHandled_example :
    IsHandled typing
      (record torn { tasks = erase_at torn.tasks 1 })
      (step no_text torn (settle 1 rejected))
rejected-IsHandled_example = rejected-IsHandled no_text torn 1 typing refl

abbrev busy : List Event
busy =
    press
    ∷ press
    ∷ settle 0 (fulfilled "s1" [])
    ∷ audio
    ∷ release
    ∷ release
    ∷ settle 2 answered
    ∷ settle 1 rejected
    ∷ call_inject_text (codes "ok")
    ∷ settle 0 rejected
    ∷ settle 0 (fulfilled "" (codes "hi"))
    ∷ press
    ∷ []

injections-le-stops-le-requests_example :
    let log = (run no_text (new true) busy).log in
    (injections log ≤ session_stops log + inject_calls busy)
    × (session_stops log ≤ capture_stops log)
    × (capture_stops log ≤ requests log)
injections-le-stops-le-requests_example = injections-le-stops-le-requests no_text true busy
