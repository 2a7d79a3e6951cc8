-- ===== src/Electron/Dictation/Talk.antt =====
-- Whole runs of push to talk, and a release that comes too early.
use mozgoslav.Prelude.{
  ℕ, String, ◌≡◌, refl, ◌≢◌, Bool, true, false, not, Option, none, some, List, [], ◌∷◌, ◌++◌,
  eq_iff, length, filter, arith, get_elem?-push, erase_at-push,
}
use mozgoslav.Electron.Dictation.{
  idle, recording, processing, injecting, Effect, show_phase, overlay_show, overlay_hide,
  overlay_state, start_session, stop_session, capture_start, capture_stop, inject_text, open_stream,
  abort_stream, Task, requesting, opening, closing, transcribing, typing, World, effect, await,
  overlaid, set_phase, clean_up, handle_press, stop_talking, handle_release, start_sse, Outcome,
  fulfilled, resume, Event, press, release, settle, step, run,
}

abbrev is_overlay : Effect → Bool
is_overlay overlay_show = true
is_overlay overlay_hide = true
is_overlay (overlay_state _ _) = true
is_overlay _ = false

-- without the overlay its effects are not there
abbrev pub seen : Bool → List Effect → List Effect
seen true effects = effects
seen false effects = filter (λ e. not (is_overlay e)) effects

-- what a dictation does from the press to the typed text, the latest first
abbrev pub talk_effects : String → List ℕ → List Effect
talk_effects sid text =
    show_phase idle
    ∷ overlay_hide
    ∷ abort_stream sid
    ∷ inject_text text
    ∷ overlay_state injecting text
    ∷ show_phase injecting
    ∷ stop_session sid
    ∷ capture_stop
    ∷ overlay_state processing []
    ∷ show_phase processing
    ∷ open_stream sid
    ∷ capture_start
    ∷ start_session
    ∷ overlay_state recording []
    ∷ overlay_show
    ∷ show_phase recording
    ∷ []

-- the states in which the handlers await, the task apart
abbrev begun : World → World
begun w = effect start_session (
    overlaid (overlay_state recording [])
      (overlaid overlay_show (record (set_phase recording w) { partial_text = [] })))

abbrev begun_session : String → World → World
begun_session sid w = effect capture_start (record (begun w) { session_id = some sid })

-- a session is recorded and its stream is open
abbrev pub talking : String → World → World
talking sid w =
    effect (open_stream sid) (record (begun_session sid w) { sse_controller = some sid })

abbrev ending : World → World
ending w =
    effect capture_stop
      (overlaid (overlay_state processing w.partial_text) (set_phase processing w))

abbrev ending_session : String → World → World
ending_session sid w = effect (stop_session sid) (ending w)

abbrev typed : List ℕ → World → World
typed text w =
    effect (inject_text text) (overlaid (overlay_state injecting text) (set_phase injecting w))

-- a promise without a value is fulfilled
abbrev pub answered : Outcome
answered = fulfilled "" []

module _ (parse_text : List ℕ → Option (List ℕ)) where
  -- the latest task settles
  step_last :
      (w : World) (t : Task) (o : Outcome)
      → step parse_text (await t w) (settle (length w.tasks) o) ≡ resume t o w
  unfolding step
  step_last w t o = rw (get_elem?-push w.tasks t, step) (rw (erase_at-push w.tasks t) refl)

  press_lem : (w : World) → w.phase ≡ idle → step parse_text w press ≡ await requesting (begun w)
  unfolding step handle_press
  press_lem w e = ground arith

  release_lem :
      (sid : String) (w : World)
      → w.session_id ≡ some sid
      → sid ≢ ""
      → w.phase ≡ recording
      → step parse_text w release ≡ await (closing sid) (ending w)
  unfolding step handle_release stop_talking
  release_lem sid w e n r = rw (e, handle_release) (ground (arith, eq_iff sid ""))

  -- a release before the session's id is there changes nothing
  early_release_lem : (w : World) → w.session_id ≡ none → step parse_text w release ≡ w
  unfolding step handle_release
  early_release_lem w e = ground arith

  -- the events of a dictation that is answered in turn; `n` is the place of its task
  abbrev pub talk_events : ℕ → String → List ℕ → List Event
  talk_events n sid text =
      press
      ∷ settle n (fulfilled sid [])
      ∷ settle n answered
      ∷ release
      ∷ settle n answered
      ∷ settle n (fulfilled sid text)
      ∷ settle n answered
      ∷ []

  -- Press, speak, release: from idle, the helper and the backend answering in turn,
  -- the session that the backend names is captured, streamed, stopped and transcribed, the transcript
  -- is typed, the stream is aborted, and the orchestrator is idle again with nothing left to await.
  pub talk_round_trip :
      (w : World) (sid : String) (text : List ℕ)
      → w.phase ≡ idle
      → sid ≢ ""
      → run parse_text w (talk_events (length w.tasks) sid text) ≡ record w {
        session_id = none;
        partial_text = [];
        sse_controller = none;
        log = seen w.overlay_enabled (talk_effects sid text) ++ w.log;
      }
  unfolding run resume start_sse clean_up
  talk_round_trip w sid text e n = rw (press_lem w e) (
      rw (step_last (begun w) requesting (fulfilled sid [])) (
        rw (step_last (begun_session sid w) (opening sid) answered) (
          rw (release_lem sid (talking sid w) refl n refl) (
            rw (step_last (ending (talking sid w)) (closing sid) answered) (
              rw (step_last (ending_session sid (talking sid w)) transcribing (fulfilled sid text))
                (rw (step_last (typed text (ending_session sid (talking sid w))) typing answered)
                  (ground arith)))))))

  -- the key is let go before the backend has named the session
  abbrev pub early_release_events : ℕ → String → List Event
  early_release_events n sid =
      press ∷ release ∷ settle n (fulfilled sid []) ∷ settle n answered ∷ []

  -- A release that comes before the backend has named the session is lost: the session is recorded
  -- and streamed all the same, with the key up, the phase being `recording`.
  pub early_release_keeps_recording :
      (w : World) (sid : String)
      → w.phase ≡ idle
      → w.session_id ≡ none
      → let w' = run parse_text w (early_release_events (length w.tasks) sid) in
        (w' ≡ talking sid w)
        × (w'.phase ≡ recording)
        × (w'.session_id ≡ some sid)
        × (w'.tasks ≡ w.tasks)
  unfolding run resume start_sse
  early_release_keeps_recording w sid e none_yet = rw (press_lem w e) (
      rw (early_release_lem (await requesting (begun w)) none_yet) (
        rw (step_last (begun w) requesting (fulfilled sid []))
          (rw (step_last (begun_session sid w) (opening sid) answered) (refl, refl, refl, refl))))
