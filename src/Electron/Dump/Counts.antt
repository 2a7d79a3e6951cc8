-- ===== src/Electron/Dump/Counts.antt =====
-- How many captures are started, stopped and submitted.
use mozgoslav.Prelude.{
  ℕ, zero, suc, ◌+◌, ◌≤◌, String, ◌≡◌, Bool, true, false, Option, none, some, List, [], ◌∷◌, ◌++◌,
  get_elem?, erase_at, arith, Option-cases, inl, inr,
}
use mozgoslav.Electron.Sse.{partial_texts}
use mozgoslav.Electron.Dump.{
  Event, Task, Phase, recording, Effect, start_file_capture, stop_file_capture, import_recording,
  World, new, cleanup, start_partial_sse, stop_capture_and_submit, Outcome, fulfilled, rejected,
  resume, start_capture, handle_toggle, handle_hold_press, handle_hold_release, toggle, press,
  release, settle, step, run, starting, stopping, submitting, bind_toggle, start_hold, bind_hold,
  unbind_all, destroy, show_partials, unbinding_hold, binding_hold, unbinding_all, sse_data,
  sse_end, call_bind_toggle, call_bind_hold, call_unbind_all, call_destroy, is_idle,
}

abbrev pub starts : List Effect → ℕ
starts [] = 0
starts (start_file_capture _ _ _ ∷ log) = suc (starts log)
starts (_ ∷ log) = starts log

abbrev pub stops : List Effect → ℕ
stops [] = 0
stops (stop_file_capture _ ∷ log) = suc (stops log)
stops (_ ∷ log) = stops log

abbrev pub imports : List Effect → ℕ
imports [] = 0
imports (import_recording _ ∷ log) = suc (imports log)
imports (_ ∷ log) = imports log

abbrev awaits_stop : Task → ℕ
awaits_stop (stopping _) = 1
awaits_stop _ = 0

abbrev stopping_tasks : List Task → ℕ
stopping_tasks [] = 0
stopping_tasks (t ∷ tasks) = awaits_stop t + stopping_tasks tasks

stopping_tasks-push :
    (tasks : List Task) (t : Task)
    → stopping_tasks (tasks ++ t ∷ []) ≡ stopping_tasks tasks + awaits_stop t
stopping_tasks-push [] t = omega arith
stopping_tasks-push (u ∷ tasks) t = omega (arith, stopping_tasks-push tasks t)

stopping_tasks-erase_at :
    (tasks : List Task) (k : ℕ) (t : Task)
    → get_elem? tasks k ≡ some t
    → stopping_tasks (erase_at tasks k) + awaits_stop t ≡ stopping_tasks tasks
stopping_tasks-erase_at [] k t e = cc
stopping_tasks-erase_at (u ∷ tasks) zero t e = ground arith
stopping_tasks-erase_at (u ∷ tasks) (suc k) t e = omega (arith, stopping_tasks-erase_at tasks k t e)

abbrev in_recording : Phase → ℕ
in_recording recording = 1
in_recording _ = 0

-- `spare` is 1 while a settled stop still has to be submitted
record IsCounted (spare : ℕ) (w : World) : Type 0 where
  opened : stops w.log + in_recording w.phase ≤ starts w.log
  closed : imports w.log + stopping_tasks w.tasks + spare ≤ stops w.log

cleanup-IsCounted : (spare : ℕ) (w : World) → IsCounted spare w → IsCounted 0 (cleanup w)
unfolding cleanup
cleanup-IsCounted spare w c = ground arith

stop-IsCounted :
    (w : World) → w.phase ≡ recording → IsCounted 0 w → IsCounted 0 (stop_capture_and_submit w)
unfolding stop_capture_and_submit
stop-IsCounted w e c = elim (Option-cases w.current_session_id) [
  | inl a ↦ ground arith
  | inr (sid, a) ↦ elim (Option-cases w.current_file_path) [
    | inl b ↦ ground arith
    | inr (path, b) ↦ ground (arith, stopping_tasks-push w.tasks (stopping path))
  ]
]

start_hold-IsCounted :
    (a : Option String) (w : World) → IsCounted 0 w → IsCounted 0 (start_hold a w)
unfolding start_hold
start_hold-IsCounted none w c = c
start_hold-IsCounted (some a) w c = ground (arith, stopping_tasks-push w.tasks (binding_hold a))

resume-IsCounted :
    (t : Task) (o : Outcome) (w : World) → IsCounted (awaits_stop t) w → IsCounted 0 (resume t o w)
unfolding resume start_partial_sse
resume-IsCounted (starting stream) (fulfilled _) w c = ground arith
resume-IsCounted (starting stream) rejected w c = cleanup-IsCounted 0 w c
resume-IsCounted (stopping fallback) (fulfilled path) w c =
    ground (arith, stopping_tasks-push w.tasks submitting)
resume-IsCounted (stopping fallback) rejected w c = cleanup-IsCounted 1 w c
resume-IsCounted submitting o w c = cleanup-IsCounted 0 w c
resume-IsCounted (unbinding_hold next) o w c =
    start_hold-IsCounted next (record w { hold_accelerator = none }) (ground arith)
resume-IsCounted (binding_hold a) (fulfilled _) w c = ground arith
resume-IsCounted (binding_hold a) rejected w c = c
resume-IsCounted unbinding_all o w c = ground arith

bind_toggle-IsCounted :
    (a : Option String) (claimed registers : Bool) (w : World)
    → IsCounted 0 w
    → IsCounted 0 (bind_toggle a claimed registers w)
unfolding bind_toggle
bind_toggle-IsCounted none claimed registers w c = ground arith
bind_toggle-IsCounted (some a) claimed registers w c = ground arith

bind_hold-IsCounted : (a : Option String) (w : World) → IsCounted 0 w → IsCounted 0 (bind_hold a w)
unfolding bind_hold
bind_hold-IsCounted a w c =
    ground (arith, start_hold-IsCounted a w c, stopping_tasks-push w.tasks (unbinding_hold a))

unbind_all-IsCounted : (w : World) → IsCounted 0 w → IsCounted 0 (unbind_all w)
unfolding unbind_all
unbind_all-IsCounted w c = ground (arith, stopping_tasks-push w.tasks unbinding_all)

destroy-IsCounted : (w : World) → IsCounted 0 w → IsCounted 0 (destroy w)
unfolding destroy
destroy-IsCounted w c = ground (arith, unbind_all-IsCounted w c)

show_partials-IsCounted :
    (texts : List (List ℕ)) (w : World) → IsCounted 0 w → IsCounted 0 (show_partials texts w)
unfolding show_partials
show_partials-IsCounted [] w c = c
show_partials-IsCounted (text ∷ texts) w c = show_partials-IsCounted texts _ (ground arith)

module _ (wav_path : String → String) (parse_text : List ℕ → Option (List ℕ)) where
  start_capture-IsCounted :
      (token stream : String) (w : World)
      → is_idle w.phase ≡ true
      → IsCounted 0 w
      → IsCounted 0 (start_capture wav_path parse_text token stream w)
  unfolding start_capture
  start_capture-IsCounted token stream w e c =
      ground (arith, stopping_tasks-push w.tasks (starting stream))

  handle_toggle-IsCounted :
      (token stream : String) (w : World)
      → IsCounted 0 w
      → IsCounted 0 (handle_toggle wav_path parse_text token stream w)
  unfolding handle_toggle
  handle_toggle-IsCounted token stream w c =
      ground (arith, start_capture-IsCounted token stream w, stop-IsCounted w)

  handle_hold_press-IsCounted :
      (token stream : String) (w : World)
      → IsCounted 0 w
      → IsCounted 0 (handle_hold_press wav_path parse_text token stream w)
  unfolding handle_hold_press
  handle_hold_press-IsCounted token stream w c =
      let c' : IsCounted 0 (record w { holding = true }) = ground arith in
      ground (arith, start_capture-IsCounted token stream (record w { holding = true }))

  handle_hold_release-IsCounted :
      (w : World) → IsCounted 0 w → IsCounted 0 (handle_hold_release wav_path parse_text w)
  unfolding handle_hold_release
  handle_hold_release-IsCounted w c =
      let c' : IsCounted 0 (record w { holding = false }) = ground arith in
      ground (arith, stop-IsCounted (record w { holding = false }))

  settle-IsCounted :
      (k : ℕ) (o : Outcome) (w : World)
      → IsCounted 0 w
      → IsCounted 0 (step wav_path parse_text w (settle k o))
  unfolding step
  settle-IsCounted k o w c = elim (Option-cases (get_elem? w.tasks k)) [
    | inl e ↦ rw (e, step) c
    | inr (t, e) ↦
        rw (e, step)
          (resume-IsCounted t o (record w { tasks = erase_at w.tasks k })
            (ground (arith, stopping_tasks-erase_at w.tasks k t e)))
  ]

  step-IsCounted :
      (w : World) (e : Event) → IsCounted 0 w → IsCounted 0 (step wav_path parse_text w e)
  unfolding step
  step-IsCounted w (toggle token stream) c = handle_toggle-IsCounted token stream w c
  step-IsCounted w (press token stream) c = handle_hold_press-IsCounted token stream w c
  step-IsCounted w release c = handle_hold_release-IsCounted w c
  step-IsCounted w (settle k o) c = settle-IsCounted k o w c
  step-IsCounted w (sse_data raw) c =
      ground (arith, show_partials-IsCounted (partial_texts parse_text raw) w c)
  step-IsCounted w sse_end c = ground arith
  step-IsCounted w (call_bind_toggle a claimed registers) c =
      bind_toggle-IsCounted a claimed registers w c
  step-IsCounted w (call_bind_hold a) c = bind_hold-IsCounted a w c
  step-IsCounted w call_unbind_all c = unbind_all-IsCounted w c
  step-IsCounted w call_destroy c = destroy-IsCounted w c

  run_from-IsCounted :
      (w : World) (events : List Event)
      → IsCounted 0 w
      → IsCounted 0 (run wav_path parse_text w events)
  unfolding run
  run_from-IsCounted w [] c = c
  run_from-IsCounted w (e ∷ events) c =
      run_from-IsCounted (step wav_path parse_text w e) events (step-IsCounted w e c)

  -- In every interleaving no more captures are stopped than were started, and no more recordings are
  -- submitted than captures were stopped.
  pub imports-le-stops-le-starts :
      (has_overlay : Bool) (events : List Event)
      → let log = (run wav_path parse_text (new has_overlay) events).log in
        (imports log ≤ stops log) × (stops log ≤ starts log)
  unfolding new
  imports-le-stops-le-starts has_overlay events =
      let c : IsCounted 0 (run wav_path parse_text (new has_overlay) events) =
        run_from-IsCounted (new has_overlay) events (omega arith) in
      (omega (arith, c), omega (arith, c))
