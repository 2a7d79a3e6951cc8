-- ===== src/Electron/Dump.antt =====
-- frontend/electron/dictation/DumpModeOrchestrator.ts: a global hotkey records a thought to a file and
-- submits it. An `async` method runs to its next `await` in one step; what awaits is a task, and the
-- helper's and the backend's answers settle the tasks in any order.
pub mod Capture
pub mod Trace
pub mod Invariant
pub mod Counts
mod Tests
use Prim.Native.String
use mozgoslav.Prelude.{
  ℕ, String, Bool, true, false, not, ◌&&◌, ◌||◌, Option, none, some, List, [], ◌∷◌, ◌++◌, ◌==◌,
  if◌then◌else◌, is_set, get_elem?, erase_at,
}
use mozgoslav.Electron.Sse.{partial_texts}

-- `DumpPhase`
pub data Phase : Type 0 where
  idle recording processing : Phase

-- What the orchestrator does to its environment: the helper's methods, the HTTP requests, the
-- overlay window and the hotkeys.
pub data Effect : Type 0 where
  start_file_capture : (path session_id stream_id : String) → Effect
  stop_file_capture : (session_id : String) → Effect
  import_recording : (path : String) → Effect
  open_stream abort_stream : (stream_id : String) → Effect
  overlay_show overlay_hide overlay_destroy : Effect
  overlay_state : (phase : Phase) (text : List ℕ) → Effect
  register unregister : (accelerator : String) → Effect
  start_dump_hotkey : (accelerator : String) → Effect
  stop_dump_hotkey : Effect

-- What awaits: `startCapture` on the helper (with the stream to open then), `stopCaptureAndSubmit` on
-- the helper (with the fallback path) and on the backend, `bindHold` on the end of the old hotkey and
-- the start of the new, `unbindAll` on the end of the hotkey.
pub data Task : Type 0 where
  starting : (stream_id : String) → Task
  stopping : (fallback_path : String) → Task
  submitting : Task
  unbinding_hold : (next : Option String) → Task
  binding_hold : (accelerator : String) → Task
  unbinding_all : Task

-- The fields of the class, what awaits, and what was done, the latest first. The controller is named
-- by its stream.
pub record World : Type 0 where
  pub has_overlay : Bool
  pub toggle_accelerator : Option String
  pub hold_accelerator : Option String
  pub holding : Bool
  pub phase : Phase
  pub current_session_id : Option String
  pub current_file_path : Option String
  pub partial_sse_controller : Option String
  pub tasks : List Task
  pub log : List Effect

unfoldable pub new : Bool → World
new has_overlay = record {
  has_overlay = has_overlay;
  toggle_accelerator = none;
  hold_accelerator = none;
  holding = false;
  phase = idle;
  current_session_id = none;
  current_file_path = none;
  partial_sse_controller = none;
  tasks = [];
  log = [];
}

abbrev pub effect : Effect → World → World
effect e w = record w { log = e ∷ w.log }

abbrev pub await : Task → World → World
await t w = record w { tasks = w.tasks ++ t ∷ [] }

abbrev show_state : Phase → List ℕ → World → World
show_state phase text w = if w.has_overlay then effect (overlay_state phase text) w else w

-- the release of an old toggle accelerator, with which `bindToggle` and `unbindAll` begin
abbrev free_toggle : World → World
free_toggle w = elim w.toggle_accelerator [
  | none ↦ w
  | some old ↦
      if old == "" then w else record w { toggle_accelerator = none; log = unregister old ∷ w.log }
]

abbrev claim_toggle : String → Bool → Bool → World → World
claim_toggle a claimed registers w =
    let owned = if claimed then effect (unregister a) w else w in
    let tried = effect (register a) owned in
    if registers then record tried { toggle_accelerator = some a } else tried

-- `bindToggle`; `claimed` and `registers` are the answers of `isRegistered` and `register`
unfoldable pub bind_toggle : Option String → Bool → Bool → World → World
bind_toggle none claimed registers w = free_toggle w
bind_toggle (some a) claimed registers w =
    if a == "" then free_toggle w else claim_toggle a claimed registers (free_toggle w)

-- `bindHold` behind the end of the old hotkey
unfoldable pub start_hold : Option String → World → World
start_hold none w = w
start_hold (some a) w =
    if a == "" then w else await (binding_hold a) (effect (start_dump_hotkey a) w)

-- `bindHold`
unfoldable pub bind_hold : Option String → World → World
bind_hold accelerator w =
    if is_set w.hold_accelerator
    then await (unbinding_hold accelerator) (effect stop_dump_hotkey w)
    else start_hold accelerator w

-- `unbindAll`
unfoldable pub unbind_all : World → World
unbind_all w =
    let freed = free_toggle w in
    if is_set freed.hold_accelerator
    then await unbinding_all (effect stop_dump_hotkey freed)
    else freed

-- `destroy`
unfoldable pub destroy : World → World
unfolding unbind_all
destroy w = let w' = unbind_all w in if w.has_overlay then effect overlay_destroy w' else w'

-- `this.partialSseController?.abort()`
abbrev aborted : World → List Effect
aborted w = elim w.partial_sse_controller [
  | none ↦ w.log
  | some stream ↦ abort_stream stream ∷ w.log
]

-- `cleanup`
unfoldable pub cleanup : World → World
cleanup w = record w {
  partial_sse_controller = none;
  current_session_id = none;
  current_file_path = none;
  holding = false;
  phase = idle;
  log = if w.has_overlay then overlay_hide ∷ aborted w else aborted w;
}

-- `startPartialSseSubscription`
unfoldable pub start_partial_sse : String → World → World
start_partial_sse stream w = record w {
  partial_sse_controller = some stream;
  log = open_stream stream ∷ w.log;
}

-- `stopCaptureAndSubmit` up to its first `await`
unfoldable pub stop_capture_and_submit : World → World
unfolding cleanup
stop_capture_and_submit w = elim w.current_session_id [
  | none ↦ cleanup w
  | some sid ↦ elim w.current_file_path [
    | none ↦ cleanup w
    | some path ↦
        if sid == "" || path == ""
        then cleanup w
        else await (stopping path) (
            effect (stop_file_capture sid)
              (show_state processing [] (record w { phase = processing })))
  ]
]

-- how an awaited promise settles; the text is the path that `stopFileCapture` answers
pub data Outcome : Type 0 where
  fulfilled : (path : String) → Outcome
  rejected : Outcome

-- the code behind an `await`
unfoldable pub resume : Task → Outcome → World → World
resume (starting stream) (fulfilled _) w = start_partial_sse stream w
resume (starting stream) rejected w = cleanup w
resume (stopping fallback) (fulfilled path) w =
    await submitting (effect (import_recording (if path == "" then fallback else path)) w)
resume (stopping fallback) rejected w = cleanup w
resume submitting o w = cleanup w
resume (unbinding_hold next) o w = start_hold next (record w { hold_accelerator = none })
resume (binding_hold a) (fulfilled _) w = record w { hold_accelerator = some a }
resume (binding_hold a) rejected w = w
resume unbinding_all o w = record w { hold_accelerator = none }

-- the `overlay.updateState` calls for the partial texts of a chunk
unfoldable pub show_partials : List (List ℕ) → World → World
show_partials [] w = w
show_partials (text ∷ texts) w = show_partials texts (show_state recording text w)

abbrev pub is_idle : Phase → Bool
is_idle idle = true
is_idle _ = false

abbrev pub is_recording : Phase → Bool
is_recording recording = true
is_recording _ = false

-- what happens: hotkeys, a settled promise, events of the stream, and calls of the class
pub data Event : Type 0 where
  toggle press : (token stream_id : String) → Event
  release : Event
  settle : (k : ℕ) (outcome : Outcome) → Event
  sse_data : (raw : List ℕ) → Event
  sse_end : Event
  call_bind_toggle : (accelerator : Option String) (claimed registers : Bool) → Event
  call_bind_hold : (accelerator : Option String) → Event
  call_unbind_all call_destroy : Event

-- the session id, with the time and the random part as one token
unfoldable pub session_of : String → String
session_of token = String.◌++◌ "dump-" token

-- `wav_path` is `path.join(tempDir, sessionId + ".wav")`; `parse_text` is `JSON.parse(data).text`
module _ (wav_path : String → String) (parse_text : List ℕ → Option (List ℕ)) where
  -- `startCapture` up to its `await`; `token` is the time and the random part of the session id
  unfoldable pub start_capture : String → String → World → World
  start_capture token stream w =
      let sid = session_of token in
      let path = wav_path sid in
      let begun = record w {
        phase = recording;
        current_session_id = some sid;
        current_file_path = some path;
      } in
      let shown =
        if w.has_overlay
        then effect (overlay_state recording []) (effect overlay_show begun)
        else begun in
      await (starting stream) (effect (start_file_capture path sid stream) shown)

  -- `handleToggle`
  unfoldable pub handle_toggle : String → String → World → World
  handle_toggle token stream w = elim w.phase [
    | idle ↦ start_capture token stream w
    | recording ↦ stop_capture_and_submit w
    | processing ↦ w
  ]

  -- `handleHoldPress`
  unfoldable pub handle_hold_press : String → String → World → World
  handle_hold_press token stream w =
      if not (is_idle w.phase) || w.holding
      then w
      else start_capture token stream (record w { holding = true })

  -- `handleHoldRelease`
  unfoldable pub handle_hold_release : World → World
  handle_hold_release w =
      if not w.holding
      then w
      else if is_recording w.phase
      then stop_capture_and_submit (record w { holding = false })
      else record w { holding = false }

  unfoldable pub step : World → Event → World
  step w (toggle token stream) = handle_toggle token stream w
  step w (press token stream) = handle_hold_press token stream w
  step w release = handle_hold_release w
  step w (settle k o) = elim (get_elem? w.tasks k) [
    | none ↦ w
    | some t ↦ resume t o (record w { tasks = erase_at w.tasks k })
  ]
  step w (sse_data raw) =
      if is_recording w.phase then show_partials (partial_texts parse_text raw) w else w
  step w sse_end = record w { partial_sse_controller = none }
  step w (call_bind_toggle a claimed registers) = bind_toggle a claimed registers w
  step w (call_bind_hold a) = bind_hold a w
  step w call_unbind_all = unbind_all w
  step w call_destroy = destroy w

  unfoldable pub run : World → List Event → World
  run w [] = w
  run w (e ∷ events) = run (step w e) events
