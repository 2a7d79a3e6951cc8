-- ===== src/Electron/Dictation/Errors.antt =====
-- What a rejected promise does.
use mozgoslav.Prelude.{
  ℕ, ◌≡◌, refl, Bool, true, false, Option, none, some, List, [], ◌∷◌, get_elem?, erase_at, arith,
}
use mozgoslav.Electron.Dictation.{
  Phase, idle, error, Effect, show_phase, World, Task, requesting, opening, closing, transcribing,
  typing, pushing, delivering, clean_up, fail_start, fail_stop, rejected, resume, settle, step,
}

-- the phases that the tray and the sound player are told, the latest first
abbrev pub phases : List Effect → List Phase
phases [] = []
phases (show_phase phase ∷ log) = phase ∷ phases log
phases (_ ∷ log) = phases log

-- At rest after an error: idle, without a session or a stream, the user told of the error and then of
-- idle, and nothing new to await. `tasks` and `log` are those before.
pub record IsAtRest (tasks : List Task) (log : List Effect) (w : World) : Type 0 where
  pub idle_phase : w.phase ≡ idle
  pub no_session : w.session_id ≡ none
  pub no_stream : w.sse_controller ≡ none
  pub told : phases w.log ≡ idle ∷ error ∷ phases log
  pub same_tasks : w.tasks ≡ tasks

fail_start-IsAtRest : (w : World) → IsAtRest w.tasks w.log (fail_start w)
unfolding fail_start clean_up
fail_start-IsAtRest w = ground arith

fail_stop-IsAtRest : (w : World) → IsAtRest w.tasks w.log (fail_stop w)
unfolding fail_stop clean_up
fail_stop-IsAtRest w = ground arith

-- Calls whose failure is not the orchestrator's to handle: a push of audio, whose failure is logged,
-- and a call of `injectText`, whose failure is the caller's.
abbrev pub is_apart : Task → Bool
is_apart pushing = true
is_apart delivering = true
is_apart _ = false

-- what the failure of an awaited call leaves of a world in which it is awaited no more
abbrev pub IsHandled : Task → World → World → Type 0
IsHandled t before after = elim (is_apart t) [
  | true ↦ after ≡ before
  | false ↦ IsAtRest before.tasks before.log after
]

resume-IsHandled : (t : Task) (w : World) → IsHandled t w (resume t rejected w)
unfolding resume
resume-IsHandled requesting w = fail_start-IsAtRest w
resume-IsHandled (opening sid) w = fail_start-IsAtRest w
resume-IsHandled (closing sid) w = fail_stop-IsAtRest w
resume-IsHandled transcribing w = fail_stop-IsAtRest w
resume-IsHandled typing w = fail_stop-IsAtRest w
resume-IsHandled pushing w = refl
resume-IsHandled delivering w = refl

module _ (parse_text : List ℕ → Option (List ℕ)) where
  -- Whichever awaited call of a press or a release fails, and whatever the state, the orchestrator tells
  -- the user of an error and is idle again, without a session and without a stream, and awaits
  -- nothing new. The failure of a push of audio, or of a call of the public `injectText`, changes
  -- nothing.
  pub rejected-IsHandled :
      (w : World) (k : ℕ) (t : Task)
      → get_elem? w.tasks k ≡ some t
      → IsHandled t
          (record w { tasks = erase_at w.tasks k })
          (step parse_text w (settle k rejected))
  unfolding step
  rejected-IsHandled w k t e =
      rw (e, step) (resume-IsHandled t (record w { tasks = erase_at w.tasks k }))
