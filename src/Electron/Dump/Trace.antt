-- ===== src/Electron/Dump/Trace.antt =====
-- Whole runs of a capture.
use mozgoslav.Prelude.{
  ℕ, String, ◌≡◌, refl, ◌≢◌, Bool, true, false, not, Option, none, some, List, [], ◌∷◌, ◌++◌, ◌==◌,
  if◌then◌else◌, length, filter, arith,
}
use mozgoslav.Electron.Dump.{
  Event, idle, recording, processing, Effect, start_file_capture, stop_file_capture,
  import_recording, open_stream, abort_stream, overlay_show, overlay_hide, overlay_destroy,
  overlay_state, World, cleanup, start_partial_sse, Outcome, fulfilled, resume, session_of, press,
  release, settle, run, starting, stopping, submitting, effect, await,
}
use mozgoslav.Electron.Dump.Capture.{
  session_of-ne-empty, IsNamed, ending, begun, step_last, press_lem, release_lem,
}

abbrev is_visible : Effect → Bool
is_visible overlay_show = true
is_visible overlay_hide = true
is_visible overlay_destroy = true
is_visible (overlay_state _ _) = true
is_visible _ = false

-- without an overlay its effects are not there
abbrev pub seen : Bool → List Effect → List Effect
seen true effects = effects
seen false effects = filter (λ e. not (is_visible e)) effects

module _ (wav_path : String → String) (parse_text : List ℕ → Option (List ℕ)) where
  -- what a capture does from the press to the end, the latest first
  abbrev pub capture_effects : String → String → String → List Effect
  capture_effects token stream answer =
      let sid = session_of token in
      overlay_hide
      ∷ abort_stream stream
      ∷ import_recording (if answer == "" then wav_path sid else answer)
      ∷ stop_file_capture sid
      ∷ overlay_state processing []
      ∷ open_stream stream
      ∷ start_file_capture (wav_path sid) sid stream
      ∷ overlay_state recording []
      ∷ overlay_show
      ∷ []

  -- the events of a capture by the hold hotkey, the helper and the backend answering in turn; `n` is
  -- the place of its task
  abbrev pub hold_events : ℕ → String → String → String → String → Outcome → List Event
  hold_events n token stream reply answer imported =
      press token stream
      ∷ settle n (fulfilled reply)
      ∷ release
      ∷ settle n (fulfilled answer)
      ∷ settle n imported
      ∷ []

  -- A thought held and released, in the order in which the helper answers the start before the key is
  -- released, and then the stop: from any idle state in which no key is held, and if the session's
  -- file has a path, the orchestrator records to that file, stops that session, submits the path
  -- that the helper answers (the session's file if it answers none), whatever the backend says,
  -- aborts the stream, and is idle again with nothing else changed.
  pub hold_round_trip :
      (w : World) (token stream reply answer : String) (imported : Outcome)
      → w.phase ≡ idle
      → w.holding ≡ false
      → wav_path (session_of token) ≢ ""
      → run wav_path parse_text w (hold_events (length w.tasks) token stream reply answer imported)
        ≡ record w {
          current_session_id = none;
          current_file_path = none;
          partial_sse_controller = none;
          log = seen w.has_overlay (capture_effects token stream answer) ++ w.log;
        }
  unfolding run resume start_partial_sse cleanup
  hold_round_trip w token stream reply answer imported idle_phase free path_set =
      let sid = session_of token in
      let w₁ : World = begun wav_path parse_text token stream (record w { holding = true }) in
      let w₂ : World = start_partial_sse stream w₁ in
      let w₃ : World = ending sid (record w₂ { holding = false }) in
      let w₄ : World =
        effect (import_recording (if answer == "" then wav_path sid else answer)) w₃ in
      let named : IsNamed sid (wav_path sid) w₂ = record {
        session = refl;
        file = refl;
        session_set = session_of-ne-empty token;
        file_set = path_set;
      } in
      rw (press_lem wav_path parse_text token stream w idle_phase free) (
        rw (step_last wav_path parse_text w₁ (starting stream) (fulfilled reply)) (
          rw (release_lem wav_path parse_text sid (wav_path sid) w₂ named refl refl) (
            rw (step_last wav_path parse_text w₃ (stopping (wav_path sid)) (fulfilled answer))
              (rw (step_last wav_path parse_text w₄ submitting imported) (ground arith)))))

  -- the release comes before the helper has answered the start; `m` is the place of the second task
  abbrev pub early_release_events : ℕ → ℕ → String → String → String → String → Outcome → List Event
  early_release_events n m token stream answer reply imported =
      press token stream
      ∷ release
      ∷ settle m (fulfilled answer)
      ∷ settle m imported
      ∷ settle n (fulfilled reply)
      ∷ []

  -- If the helper answers the start of a capture only after the capture was stopped, submitted and
  -- cleaned up, the orchestrator opens the capture's stream all the same: it is idle, has no session
  -- and nothing left to await, and holds an open stream.
  pub late_start_leaves_stream :
      (w : World) (token stream answer reply : String) (imported : Outcome)
      → w.phase ≡ idle
      → w.holding ≡ false
      → wav_path (session_of token) ≢ ""
      → let n = length w.tasks in
        let m = length (w.tasks ++ starting stream ∷ []) in
        let w' =
          run wav_path parse_text w (early_release_events n m token stream answer reply imported) in
        (w'.phase ≡ idle)
        × (w'.current_session_id ≡ none)
        × (w'.partial_sse_controller ≡ some stream)
        × (w'.tasks ≡ w.tasks)
  unfolding run resume start_partial_sse cleanup
  late_start_leaves_stream w token stream answer reply imported idle_phase free path_set =
      let sid = session_of token in
      let w₁ : World = begun wav_path parse_text token stream (record w { holding = true }) in
      let x₁ : World = await (starting stream) w₁ in
      let x₂ : World = ending sid (record x₁ { holding = false }) in
      let x₃ : World =
        effect (import_recording (if answer == "" then wav_path sid else answer)) x₂ in
      let named : IsNamed sid (wav_path sid) x₁ = record {
        session = refl;
        file = refl;
        session_set = session_of-ne-empty token;
        file_set = path_set;
      } in
      rw (press_lem wav_path parse_text token stream w idle_phase free) (
        rw (release_lem wav_path parse_text sid (wav_path sid) x₁ named refl refl) (
          rw (step_last wav_path parse_text x₂ (stopping (wav_path sid)) (fulfilled answer)) (
            rw (step_last wav_path parse_text x₃ submitting imported) (
              rw
                (step_last wav_path parse_text (record (cleanup x₃) { tasks = w.tasks })
                  (starting stream) (fulfilled reply))
                (refl, refl, refl, refl)))))
