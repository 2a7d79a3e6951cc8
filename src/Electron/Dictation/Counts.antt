-- ===== src/Electron/Dictation/Counts.antt =====
-- How many sessions are asked for, captures stopped, sessions stopped and texts typed.
use mozgoslav.Prelude.{
  ℕ, zero, suc, ◌+◌, ◌≤◌, ◌≡◌, Bool, Option, some, List, [], ◌∷◌, ◌++◌, get_elem?, erase_at, arith,
  Option-cases, inl, inr,
}
use mozgoslav.Electron.Sse.{partial_texts}
use mozgoslav.Electron.Dictation.{
  Phase, recording, Effect, start_session, stop_session, capture_stop, inject_text, Task,
  requesting, opening, closing, transcribing, typing, World, new, clean_up, fail_start, fail_stop,
  handle_press, stop_talking, handle_release, start_sse, Outcome, fulfilled, rejected, resume,
  push_audio_to_backend, show_partials, destroy, Event, press, release, audio, settle, sse_data,
  sse_end, call_inject_text, call_destroy, inject, pushing, delivering, step, run,
}

abbrev pub requests : List Effect → ℕ
requests [] = 0
requests (start_session ∷ log) = suc (requests log)
requests (_ ∷ log) = requests log

abbrev pub capture_stops : List Effect → ℕ
capture_stops [] = 0
capture_stops (capture_stop ∷ log) = suc (capture_stops log)
capture_stops (_ ∷ log) = capture_stops log

abbrev pub session_stops : List Effect → ℕ
session_stops [] = 0
session_stops (stop_session _ ∷ log) = suc (session_stops log)
session_stops (_ ∷ log) = session_stops log

abbrev pub injections : List Effect → ℕ
injections [] = 0
injections (inject_text _ ∷ log) = suc (injections log)
injections (_ ∷ log) = injections log

abbrev closes : Task → ℕ
closes (closing _) = 1
closes _ = 0

abbrev transcribes : Task → ℕ
transcribes transcribing = 1
transcribes _ = 0

-- the tasks counted by a measure
abbrev total : (Task → ℕ) → List Task → ℕ
total f [] = 0
total f (t ∷ tasks) = f t + total f tasks

total-push :
    (f : Task → ℕ) (tasks : List Task) (t : Task) → total f (tasks ++ t ∷ []) ≡ total f tasks + f t
total-push f [] t = omega arith
total-push f (u ∷ tasks) t = omega (arith, total-push f tasks t)

total-erase_at :
    (f : Task → ℕ) (tasks : List Task) (k : ℕ) (t : Task)
    → get_elem? tasks k ≡ some t
    → total f (erase_at tasks k) + f t ≡ total f tasks
total-erase_at f [] k t e = cc
total-erase_at f (u ∷ tasks) zero t e = ground arith
total-erase_at f (u ∷ tasks) (suc k) t e = omega (arith, total-erase_at f tasks k t e)

abbrev in_recording : Phase → ℕ
in_recording recording = 1
in_recording _ = 0

-- `n` counts the calls of `injectText`, `c` and `x` a settled task whose continuation has not run
-- yet
record IsCounted (n c x : ℕ) (w : World) : Type 0 where
  opened : capture_stops w.log + in_recording w.phase ≤ requests w.log
  closed : session_stops w.log + total closes w.tasks + c ≤ capture_stops w.log
  told : injections w.log + total transcribes w.tasks + x ≤ session_stops w.log + n

fail_start-IsCounted : (n : ℕ) (w : World) → IsCounted n 0 0 w → IsCounted n 0 0 (fail_start w)
unfolding fail_start clean_up
fail_start-IsCounted n w h = ground arith

fail_stop-IsCounted : (n c x : ℕ) (w : World) → IsCounted n c x w → IsCounted n 0 0 (fail_stop w)
unfolding fail_stop clean_up
fail_stop-IsCounted n c x w h = ground arith

clean_up-IsCounted : (n : ℕ) (w : World) → IsCounted n 0 0 w → IsCounted n 0 0 (clean_up w)
unfolding clean_up
clean_up-IsCounted n w h = ground arith

handle_press-IsCounted : (n : ℕ) (w : World) → IsCounted n 0 0 w → IsCounted n 0 0 (handle_press w)
unfolding handle_press
handle_press-IsCounted n w h =
    ground (arith, total-push closes w.tasks requesting, total-push transcribes w.tasks requesting)

handle_release-IsCounted :
    (n : ℕ) (w : World) → IsCounted n 0 0 w → IsCounted n 0 0 (handle_release w)
unfolding handle_release stop_talking
handle_release-IsCounted n w h = elim (Option-cases w.session_id) [
  | inl e ↦ ground arith
  | inr (sid, e) ↦
      ground (
        arith,
        total-push closes w.tasks (closing sid),
        total-push transcribes w.tasks (closing sid),
      )
]

resume-IsCounted :
    (n : ℕ) (t : Task) (o : Outcome) (w : World)
    → IsCounted n (closes t) (transcribes t) w
    → IsCounted n 0 0 (resume t o w)
unfolding resume start_sse
resume-IsCounted n requesting (fulfilled sid _) w h =
    ground
      (arith, total-push closes w.tasks (opening sid), total-push transcribes w.tasks (opening sid))
resume-IsCounted n requesting rejected w h = fail_start-IsCounted n w h
resume-IsCounted n (opening sid) (fulfilled _ _) w h = ground arith
resume-IsCounted n (opening sid) rejected w h = fail_start-IsCounted n w h
resume-IsCounted n (closing sid) (fulfilled _ _) w h =
    ground
      (arith, total-push closes w.tasks transcribing, total-push transcribes w.tasks transcribing)
resume-IsCounted n (closing sid) rejected w h = fail_stop-IsCounted n 1 0 w h
resume-IsCounted n transcribing (fulfilled _ text) w h =
    ground (arith, total-push closes w.tasks typing, total-push transcribes w.tasks typing)
resume-IsCounted n transcribing rejected w h = fail_stop-IsCounted n 0 1 w h
resume-IsCounted n typing (fulfilled _ _) w h = clean_up-IsCounted n w h
resume-IsCounted n typing rejected w h = fail_stop-IsCounted n 0 0 w h
resume-IsCounted n pushing o w h = h
resume-IsCounted n delivering o w h = h

push_audio-IsCounted :
    (n : ℕ) (w : World) → IsCounted n 0 0 w → IsCounted n 0 0 (push_audio_to_backend w)
unfolding push_audio_to_backend
push_audio-IsCounted n w h =
    ground (arith, total-push closes w.tasks pushing, total-push transcribes w.tasks pushing)

inject-IsCounted :
    (n : ℕ) (text : List ℕ) (w : World) → IsCounted n 0 0 w → IsCounted (n + 1) 0 0 (inject text w)
unfolding inject
inject-IsCounted n text w h =
    ground (arith, total-push closes w.tasks delivering, total-push transcribes w.tasks delivering)

destroy-IsCounted : (n : ℕ) (w : World) → IsCounted n 0 0 w → IsCounted n 0 0 (destroy w)
unfolding destroy
destroy-IsCounted n w h = ground arith

show_partials-IsCounted :
    (n : ℕ) (texts : List (List ℕ)) (w : World)
    → IsCounted n 0 0 w
    → IsCounted n 0 0 (show_partials texts w)
unfolding show_partials
show_partials-IsCounted n [] w h = h
show_partials-IsCounted n (text ∷ texts) w h = show_partials-IsCounted n texts _ (ground arith)

abbrev injects : Event → ℕ
injects (call_inject_text _) = 1
injects _ = 0

-- how often a list of events calls `injectText`
abbrev pub inject_calls : List Event → ℕ
inject_calls [] = 0
inject_calls (e ∷ events) = injects e + inject_calls events

weaker : (n m : ℕ) (w : World) → n ≤ m → IsCounted n 0 0 w → IsCounted m 0 0 w
weaker n m w le h = record { opened = h.opened; closed = h.closed; told = omega (arith, h.told) }

module _ (parse_text : List ℕ → Option (List ℕ)) where
  settle-IsCounted :
      (n k : ℕ) (o : Outcome) (w : World)
      → IsCounted n 0 0 w
      → IsCounted n 0 0 (step parse_text w (settle k o))
  unfolding step
  settle-IsCounted n k o w h = elim (Option-cases (get_elem? w.tasks k)) [
    | inl e ↦ rw (e, step) h
    | inr (t, e) ↦
        rw (e, step)
          (resume-IsCounted n t o (record w { tasks = erase_at w.tasks k })
            (ground (
              arith,
              total-erase_at closes w.tasks k t e,
              total-erase_at transcribes w.tasks k t e,
            )))
  ]

  step-IsCounted :
      (n : ℕ) (w : World) (e : Event)
      → IsCounted n 0 0 w
      → IsCounted (n + injects e) 0 0 (step parse_text w e)
  unfolding step
  step-IsCounted n w press h = weaker n _ _ (omega arith) (handle_press-IsCounted n w h)
  step-IsCounted n w release h = weaker n _ _ (omega arith) (handle_release-IsCounted n w h)
  step-IsCounted n w audio h = weaker n _ _ (omega arith) (push_audio-IsCounted n w h)
  step-IsCounted n w (settle k o) h = weaker n _ _ (omega arith) (settle-IsCounted n k o w h)
  step-IsCounted n w (sse_data raw) h =
      weaker n _ _ (omega arith) (show_partials-IsCounted n (partial_texts parse_text raw) w h)
  step-IsCounted n w sse_end h = ground arith
  step-IsCounted n w (call_inject_text text) h = inject-IsCounted n text w h
  step-IsCounted n w call_destroy h = weaker n _ _ (omega arith) (destroy-IsCounted n w h)

  run_from-IsCounted :
      (n : ℕ) (w : World) (events : List Event)
      → IsCounted n 0 0 w
      → IsCounted (n + inject_calls events) 0 0 (run parse_text w events)
  unfolding run
  run_from-IsCounted n w [] h = weaker n _ _ (omega arith) h
  run_from-IsCounted n w (e ∷ events) h =
      weaker (n + injects e + inject_calls events) _ _ (omega arith)
        (run_from-IsCounted (n + injects e) (step parse_text w e) events (step-IsCounted n w e h))

  -- In every interleaving, and with every call failing or not, no more texts are typed than sessions
  -- were stopped and the public `injectText` was called, no more sessions stopped than captures,
  -- and no more captures than sessions were asked for.
  pub injections-le-stops-le-requests :
      (overlay_enabled : Bool) (events : List Event)
      → let log = (run parse_text (new overlay_enabled) events).log in
        (injections log ≤ session_stops log + inject_calls events)
        × (session_stops log ≤ capture_stops log)
        × (capture_stops log ≤ requests log)
  unfolding new
  injections-le-stops-le-requests overlay_enabled events =
      let h : IsCounted (0 + inject_calls events) 0 0
          (run parse_text (new overlay_enabled) events) =
        run_from-IsCounted 0 (new overlay_enabled) events (omega arith) in
      (omega (arith, h), omega (arith, h), omega (arith, h))
