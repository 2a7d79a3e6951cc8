-- ===== src/Electron/Dump/Tests.antt =====
-- The dump mode at concrete captures.
use mozgoslav.Prelude.{
  ℕ, ◌≤◌, ◌≡◌, refl, ◌≢◌, String, true, false, Option, none, List, [], ◌∷◌, arith, eq_iff,
}
use mozgoslav.Electron.Dump.{
  idle, World, new, fulfilled, rejected, Event, press, release, settle, toggle, run, session_of,
}
use mozgoslav.Electron.Dump.Invariant.{IsCoherent, run-IsCoherent}
use mozgoslav.Electron.Dump.Counts.{starts, stops, imports, imports-le-stops-le-starts}
use mozgoslav.Electron.Dump.Trace.{seen, capture_effects, hold_events, hold_round_trip}

-- a stand-in for `path.join`
abbrev as_path : String → String
as_path s = "/tmp/dump.wav"

as_path-ne-empty : (s : String) → as_path s ≢ ""
as_path-ne-empty s = ground (arith, eq_iff "/tmp/dump.wav" "")

abbrev no_text : List ℕ → Option (List ℕ)
no_text p = none

abbrev fresh : World
fresh = record {
  has_overlay = false;
  toggle_accelerator = none;
  hold_accelerator = none;
  holding = false;
  phase = idle;
  current_session_id = none;
  current_file_path = none;
  partial_sse_controller = none;
  tasks = [];
  log = [];
}

abbrev busy : List Event
busy =
    press "1" "st1" ∷ settle 0 (fulfilled "") ∷ toggle "2" "st2" ∷ release ∷ settle 0 rejected ∷ []

run-IsCoherent_example : IsCoherent (run as_path no_text (new true) busy)
run-IsCoherent_example = run-IsCoherent as_path no_text as_path-ne-empty true busy

imports-le-stops-le-starts_example :
    let log = (run as_path no_text (new true) busy).log in
    (imports log ≤ stops log) × (stops log ≤ starts log)
imports-le-stops-le-starts_example = imports-le-stops-le-starts as_path no_text true busy

hold_round_trip_example :
    run as_path no_text fresh (hold_events as_path no_text 0 "1" "st1" "" "/tmp/x.wav" rejected)
    ≡ record fresh { log = seen false (capture_effects as_path no_text "1" "st1" "/tmp/x.wav") }
hold_round_trip_example =
    hold_round_trip as_path no_text fresh "1" "st1" "" "/tmp/x.wav" rejected refl refl
      (as_path-ne-empty (session_of "1"))
