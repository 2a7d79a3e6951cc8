-- ===== src/Electron/Dictation.antt =====
-- frontend/electron/dictation/DictationOrchestrator.ts: push to talk. A press starts a session at the
-- backend and the capture at the helper, a release stops both and types the transcript. An `async`
-- method runs to its next `await` in one step; the answers of the helper and of the backend settle
-- the awaiting tasks in any order.
pub mod Talk
pub mod Errors
pub mod Counts
mod Tests
use mozgoslav.Prelude.{
  ℕ, String, Bool, true, false, not, ◌&&◌, Option, none, some, List, [], ◌∷◌, ◌++◌, ◌==◌,
  if◌then◌else◌, is_set, get_elem?, erase_at,
}
use mozgoslav.Electron.Sse.{partial_texts}

-- `DictationPhase`
pub data Phase : Type 0 where
  idle recording processing injecting error : Phase

-- What the orchestrator does to its environment. A change of phase is one effect: the tray and the
-- sound player are told of it together.
pub data Effect : Type 0 where
  show_phase : (phase : Phase) → Effect
  overlay_show overlay_hide overlay_destroy : Effect
  overlay_state : (phase : Phase) (text : List ℕ) → Effect
  start_session : Effect
  stop_session push_audio : (session_id : String) → Effect
  capture_start capture_stop : Effect
  inject_text : (text : List ℕ) → Effect
  open_stream abort_stream : (session_id : String) → Effect
  hotkey_stop helper_stop tray_destroy : Effect

-- What awaits: `handlePress` on the session and on the helper, `handleRelease` on the helper, on the
-- backend and on the injection, `pushAudioToBackend` on the backend, the public `injectText` on the
-- helper.
pub data Task : Type 0 where
  requesting : Task
  opening : (session_id : String) → Task
  closing : (session_id : String) → Task
  transcribing : Task
  typing : Task
  pushing : Task
  delivering : Task

-- The fields of the class, what awaits, and what was done, the latest first. The controller is named
-- by its session.
pub record World : Type 0 where
  pub overlay_enabled : Bool
  pub session_id : Option String
  pub phase : Phase
  pub partial_text : List ℕ
  pub sse_controller : Option String
  pub tasks : List Task
  pub log : List Effect

-- the constructor
unfoldable pub new : Bool → World
new overlay_enabled = record {
  overlay_enabled = overlay_enabled;
  session_id = none;
  phase = idle;
  partial_text = [];
  sse_controller = none;
  tasks = [];
  log = [];
}

abbrev pub effect : Effect → World → World
effect e w = record w { log = e ∷ w.log }

abbrev pub await : Task → World → World
await t w = record w { tasks = w.tasks ++ t ∷ [] }

-- an effect on the overlay, if it is enabled
abbrev pub overlaid : Effect → World → World
overlaid e w = record w { log = if w.overlay_enabled then e ∷ w.log else w.log }

abbrev pub set_phase : Phase → World → World
set_phase phase w = record w { phase = phase; log = show_phase phase ∷ w.log }

-- `this.sseController?.abort()`
abbrev aborted : World → List Effect
aborted w = elim w.sse_controller [ none ↦ w.log | some sid ↦ abort_stream sid ∷ w.log ]

-- `cleanupAfterFailure`, and the `finally` of `handleRelease`
unfoldable pub clean_up : World → World
clean_up w =
    set_phase idle (
      overlaid overlay_hide
        (record w { session_id = none; sse_controller = none; log = aborted w }))

-- the `catch` of `handlePress`
unfoldable pub fail_start : World → World
fail_start w = clean_up (overlaid (overlay_state error []) (set_phase error w))

-- the `catch` of `handleRelease`
unfoldable pub fail_stop : World → World
fail_stop w = clean_up (set_phase error w)

abbrev pub is_idle : Phase → Bool
is_idle idle = true
is_idle _ = false

abbrev pub is_recording : Phase → Bool
is_recording recording = true
is_recording _ = false

-- `handlePress` up to its first `await`
unfoldable pub handle_press : World → World
handle_press w =
    if not (is_idle w.phase)
    then w
    else await requesting (
        effect start_session (
          overlaid (overlay_state recording [])
            (overlaid overlay_show (record (set_phase recording w) { partial_text = [] }))))

-- `handleRelease` behind its guard
unfoldable pub stop_talking : String → World → World
stop_talking sid w = await (closing sid) (
    effect capture_stop
      (overlaid (overlay_state processing w.partial_text) (set_phase processing w)))

-- `handleRelease` up to its first `await`
unfoldable pub handle_release : World → World
handle_release w = elim w.session_id [
  | none ↦ w
  | some sid ↦ if is_recording w.phase && not (sid == "") then stop_talking sid w else w
]

-- `startSseSubscription`
unfoldable pub start_sse : String → World → World
start_sse sid w = effect (open_stream sid) (record w { sse_controller = some sid })

-- How an awaited promise settles. The backend answers a session id to the start and a text to the
-- stop; of the two a task reads the one that its promise gives.
pub data Outcome : Type 0 where
  fulfilled : (session_id : String) (polished_text : List ℕ) → Outcome
  rejected : Outcome

-- the code behind an `await`
unfoldable pub resume : Task → Outcome → World → World
resume requesting (fulfilled sid _) w =
    await (opening sid) (effect capture_start (record w { session_id = some sid }))
resume requesting rejected w = fail_start w
resume (opening sid) (fulfilled _ _) w = start_sse sid w
resume (opening sid) rejected w = fail_start w
resume (closing sid) (fulfilled _ _) w = await transcribing (effect (stop_session sid) w)
resume (closing sid) rejected w = fail_stop w
resume transcribing (fulfilled _ text) w =
    await typing
      (effect (inject_text text) (overlaid (overlay_state injecting text) (set_phase injecting w)))
resume transcribing rejected w = fail_stop w
resume typing (fulfilled _ _) w = clean_up w
resume typing rejected w = fail_stop w
resume pushing o w = w
resume delivering o w = w

-- `pushAudioToBackend` up to its `await`, whose failure is only logged
unfoldable pub push_audio_to_backend : World → World
push_audio_to_backend w = elim w.session_id [
  | none ↦ w
  | some sid ↦ if sid == "" then w else await pushing (effect (push_audio sid) w)
]

-- `injectText`, which another part of the process calls, with or without a session; how the helper
-- answers is passed on to the caller
unfoldable pub inject : List ℕ → World → World
inject text w = await delivering (effect (inject_text text) w)

-- what `parseSseChunk` does with the partial texts of a chunk
unfoldable pub show_partials : List (List ℕ) → World → World
show_partials [] w = w
show_partials (text ∷ texts) w =
    show_partials texts (overlaid (overlay_state recording text) (record w { partial_text = text }))

-- `destroy`; the controller is aborted and kept
unfoldable pub destroy : World → World
destroy w =
    let torn =
      effect tray_destroy (effect overlay_destroy (effect helper_stop (effect hotkey_stop w))) in
    record torn { log = aborted torn }

-- What happens: hotkeys, audio from the helper, a settled promise, events of the stream, calls of
-- `injectText` and of `destroy`.
pub data Event : Type 0 where
  press release audio : Event
  settle : (k : ℕ) (outcome : Outcome) → Event
  sse_data : (raw : List ℕ) → Event
  sse_end : Event
  call_inject_text : (text : List ℕ) → Event
  call_destroy : Event

-- `parse_text` is `JSON.parse(data).text`
module _ (parse_text : List ℕ → Option (List ℕ)) where
  unfoldable pub step : World → Event → World
  step w press = handle_press w
  step w release = handle_release w
  step w audio = push_audio_to_backend w
  step w (settle k o) = elim (get_elem? w.tasks k) [
    | none ↦ w
    | some t ↦ resume t o (record w { tasks = erase_at w.tasks k })
  ]
  step w (sse_data raw) = show_partials (partial_texts parse_text raw) w
  step w sse_end = record w { sse_controller = none }
  step w (call_inject_text text) = inject text w
  step w call_destroy = destroy w

  unfoldable pub run : World → List Event → World
  run w [] = w
  run w (e ∷ events) = run (step w e) events
