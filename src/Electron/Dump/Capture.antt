-- ===== src/Electron/Dump/Capture.antt =====
-- What one capture is made of, in the steps of its handlers.
use text.Mathlib.TextLemmas.{append-eq-nil_iff}
use mozgoslav.Prelude.{
  ℕ, String, ◌≡◌, refl, ◌≢◌, true, false, Option, some, List, [], ◌∷◌, if◌then◌else◌, length, arith,
  eq_iff, get_elem?-push, erase_at-push,
}
use mozgoslav.Electron.Dump.{
  Task, idle, recording, processing, start_file_capture, stop_file_capture, overlay_show,
  overlay_state, World, stop_capture_and_submit, Outcome, resume, start_capture, handle_hold_press,
  handle_hold_release, session_of, press, release, settle, step, starting, stopping, await,
}

pub session_of-ne-empty : (token : String) → session_of token ≢ ""
unfolding session_of
session_of-ne-empty token e = cc ((append-eq-nil_iff.0 e).0)

-- a session and a file are named
pub record IsNamed (sid path : String) (w : World) : Type 0 where
  pub session : w.current_session_id ≡ some sid
  pub file : w.current_file_path ≡ some path
  pub session_set : sid ≢ ""
  pub file_set : path ≢ ""

-- the state in which `stopCaptureAndSubmit` awaits the helper, the task apart
abbrev pub ending : String → World → World
ending sid w = record w {
  phase = processing;
  log =
      stop_file_capture sid
      ∷ (if w.has_overlay then overlay_state processing [] ∷ w.log else w.log);
}

pub stop_capture_and_submit_lem :
    (sid path : String) (w : World)
    → IsNamed sid path w
    → stop_capture_and_submit w ≡ await (stopping path) (ending sid w)
unfolding stop_capture_and_submit
stop_capture_and_submit_lem sid path w n =
    rw (n.session, stop_capture_and_submit)
      (rw n.file (ground (arith, eq_iff sid "", eq_iff path "")))

module _ (wav_path : String → String) (parse_text : List ℕ → Option (List ℕ)) where
  -- the state in which `startCapture` awaits the helper, the task apart
  abbrev pub begun : String → String → World → World
  begun token stream w =
      let sid = session_of token in
      record w {
        phase = recording;
        current_session_id = some sid;
        current_file_path = some (wav_path sid);
        log =
            start_file_capture (wav_path sid) sid stream
            ∷ (if w.has_overlay then overlay_state recording [] ∷ overlay_show ∷ w.log else w.log);
      }

  pub start_capture_lem :
      (token stream : String) (w : World)
      → start_capture wav_path parse_text token stream w
        ≡ await (starting stream) (begun token stream w)
  unfolding start_capture
  start_capture_lem token stream w = ground arith

  -- the latest task settles
  pub step_last :
      (w : World) (t : Task) (o : Outcome)
      → step wav_path parse_text (await t w) (settle (length w.tasks) o) ≡ resume t o w
  unfolding step
  step_last w t o = rw (get_elem?-push w.tasks t, step) (rw (erase_at-push w.tasks t) refl)

  pub press_lem :
      (token stream : String) (w : World)
      → w.phase ≡ idle
      → w.holding ≡ false
      → step wav_path parse_text w (press token stream)
        ≡ await (starting stream) (begun token stream (record w { holding = true }))
  unfolding step handle_hold_press
  press_lem token stream w e h =
      ground (arith, start_capture_lem token stream (record w { holding = true }))

  pub release_lem :
      (sid path : String) (w : World)
      → IsNamed sid path w
      → w.holding ≡ true
      → w.phase ≡ recording
      → step wav_path parse_text w release
        ≡ await (stopping path) (ending sid (record w { holding = false }))
  unfolding step handle_hold_release
  release_lem sid path w n h e = ground (
    arith,
    stop_capture_and_submit_lem sid path (record w { holding = false })
        (record {
          session = n.session;
          file = n.file;
          session_set = n.session_set;
          file_set = n.file_set;
        }),
  )
