-- ===== src/Electron/Dump/Invariant.antt =====
-- What holds of the orchestrator in every interleaving.
use mozgoslav.Prelude.{
  ℕ, String, ◌≡◌, ◌≢◌, Bool, true, false, Option, none, some, List, [], ◌∷◌, is_set, get_elem?,
  erase_at, arith, eq_iff, Option-cases, inl, inr,
}
use mozgoslav.Electron.Sse.{partial_texts}
use mozgoslav.Electron.Dump.{
  Event, Task, World, new, cleanup, start_partial_sse, stop_capture_and_submit, Outcome, fulfilled,
  rejected, resume, start_capture, handle_toggle, handle_hold_press, handle_hold_release,
  session_of, toggle, press, release, settle, step, run, starting, stopping, submitting,
  bind_toggle, start_hold, bind_hold, unbind_all, destroy, show_partials, unbinding_hold,
  binding_hold, unbinding_all, sse_data, sse_end, call_bind_toggle, call_bind_hold, call_unbind_all,
  call_destroy, is_idle,
}
use mozgoslav.Electron.Dump.Capture.{session_of-ne-empty}

-- An idle orchestrator has no session, no file and no key held; a busy one names both.
pub record IsCoherent (w : World) : Type 0 where
  pub idle_clear :
      is_idle w.phase ≡ true
      → (w.current_session_id ≡ none) × (w.current_file_path ≡ none) × (w.holding ≡ false)
  pub busy_named :
      is_idle w.phase ≡ false
      → (is_set w.current_session_id ≡ true) × (is_set w.current_file_path ≡ true)

cleanup-IsCoherent : (w : World) → IsCoherent (cleanup w)
unfolding cleanup
cleanup-IsCoherent w = ground arith

stop-IsCoherent : (w : World) → IsCoherent w → IsCoherent (stop_capture_and_submit w)
unfolding stop_capture_and_submit
stop-IsCoherent w c = ground arith

start_hold-IsCoherent : (a : Option String) (w : World) → IsCoherent w → IsCoherent (start_hold a w)
unfolding start_hold
start_hold-IsCoherent none w c = c
start_hold-IsCoherent (some a) w c = ground arith

resume-IsCoherent : (t : Task) (o : Outcome) (w : World) → IsCoherent w → IsCoherent (resume t o w)
unfolding resume start_partial_sse
resume-IsCoherent (starting stream) (fulfilled _) w c = ground arith
resume-IsCoherent (starting stream) rejected w c = cleanup-IsCoherent w
resume-IsCoherent (stopping fallback) (fulfilled path) w c = ground arith
resume-IsCoherent (stopping fallback) rejected w c = cleanup-IsCoherent w
resume-IsCoherent submitting o w c = cleanup-IsCoherent w
resume-IsCoherent (unbinding_hold next) o w c =
    start_hold-IsCoherent next (record w { hold_accelerator = none }) (ground arith)
resume-IsCoherent (binding_hold a) (fulfilled _) w c = ground arith
resume-IsCoherent (binding_hold a) rejected w c = c
resume-IsCoherent unbinding_all o w c = ground arith

bind_toggle-IsCoherent :
    (a : Option String) (claimed registers : Bool) (w : World)
    → IsCoherent w
    → IsCoherent (bind_toggle a claimed registers w)
unfolding bind_toggle
bind_toggle-IsCoherent none claimed registers w c = ground arith
bind_toggle-IsCoherent (some a) claimed registers w c = ground arith

bind_hold-IsCoherent : (a : Option String) (w : World) → IsCoherent w → IsCoherent (bind_hold a w)
unfolding bind_hold
bind_hold-IsCoherent a w c = ground (arith, start_hold-IsCoherent a w c)

unbind_all-IsCoherent : (w : World) → IsCoherent w → IsCoherent (unbind_all w)
unfolding unbind_all
unbind_all-IsCoherent w c = ground arith

destroy-IsCoherent : (w : World) → IsCoherent w → IsCoherent (destroy w)
unfolding destroy
destroy-IsCoherent w c = ground arith

show_partials-IsCoherent :
    (texts : List (List ℕ)) (w : World) → IsCoherent w → IsCoherent (show_partials texts w)
unfolding show_partials
show_partials-IsCoherent [] w c = c
show_partials-IsCoherent (text ∷ texts) w c = show_partials-IsCoherent texts _ (ground arith)

-- `path.join` answers a path, never the empty text
module _ (wav_path : String → String) (parse_text : List ℕ → Option (List ℕ))
    (path_set : (s : String) → wav_path s ≢ "") where
  start_capture-IsCoherent :
      (token stream : String) (w : World)
      → IsCoherent (start_capture wav_path parse_text token stream w)
  unfolding start_capture
  start_capture-IsCoherent token stream w = ground (
    arith,
    session_of-ne-empty token,
    path_set (session_of token),
    eq_iff (session_of token) "",
    eq_iff (wav_path (session_of token)) "",
  )

  handle_toggle-IsCoherent :
      (token stream : String) (w : World)
      → IsCoherent w
      → IsCoherent (handle_toggle wav_path parse_text token stream w)
  unfolding handle_toggle
  handle_toggle-IsCoherent token stream w c =
      ground (arith, start_capture-IsCoherent token stream w, stop-IsCoherent w c)

  handle_hold_press-IsCoherent :
      (token stream : String) (w : World)
      → IsCoherent w
      → IsCoherent (handle_hold_press wav_path parse_text token stream w)
  unfolding handle_hold_press
  handle_hold_press-IsCoherent token stream w c =
      ground (arith, start_capture-IsCoherent token stream (record w { holding = true }))

  handle_hold_release-IsCoherent :
      (w : World) → IsCoherent w → IsCoherent (handle_hold_release wav_path parse_text w)
  unfolding handle_hold_release
  handle_hold_release-IsCoherent w c =
      let c' : IsCoherent (record w { holding = false }) = ground arith in
      ground (arith, stop-IsCoherent (record w { holding = false }) c')

  step-IsCoherent :
      (w : World) (e : Event) → IsCoherent w → IsCoherent (step wav_path parse_text w e)
  unfolding step
  step-IsCoherent w (toggle token stream) c = handle_toggle-IsCoherent token stream w c
  step-IsCoherent w (press token stream) c = handle_hold_press-IsCoherent token stream w c
  step-IsCoherent w release c = handle_hold_release-IsCoherent w c
  step-IsCoherent w (settle k o) c = elim (Option-cases (get_elem? w.tasks k)) [
    | inl e ↦ rw (e, step) c
    | inr (t, e) ↦
        rw (e, step)
          (resume-IsCoherent t o (record w { tasks = erase_at w.tasks k }) (ground arith))
  ]
  step-IsCoherent w (sse_data raw) c =
      ground (arith, show_partials-IsCoherent (partial_texts parse_text raw) w c)
  step-IsCoherent w sse_end c = ground arith
  step-IsCoherent w (call_bind_toggle a claimed registers) c =
      bind_toggle-IsCoherent a claimed registers w c
  step-IsCoherent w (call_bind_hold a) c = bind_hold-IsCoherent a w c
  step-IsCoherent w call_unbind_all c = unbind_all-IsCoherent w c
  step-IsCoherent w call_destroy c = destroy-IsCoherent w c

  run_from-IsCoherent :
      (w : World) (events : List Event)
      → IsCoherent w
      → IsCoherent (run wav_path parse_text w events)
  unfolding run
  run_from-IsCoherent w [] c = c
  run_from-IsCoherent w (e ∷ events) c =
      run_from-IsCoherent (step wav_path parse_text w e) events (step-IsCoherent w e c)

  -- However hotkeys, answers and stream events interleave, an idle orchestrator has no session, no
  -- file and no key held, and a busy one names its session and its file, so that a stop of a capture
  -- never finds them missing.
  pub run-IsCoherent :
      (has_overlay : Bool) (events : List Event)
      → IsCoherent (run wav_path parse_text (new has_overlay) events)
  unfolding new
  run-IsCoherent has_overlay events = run_from-IsCoherent (new has_overlay) events (ground arith)
