-- ===== src/Store/Ui/OpenNote.antt =====
-- The notes that are looked up: several sagas run at once, as `takeEvery` allows.
use mozgoslav.Prelude.{
  ◌≡◌, refl, ap, ◌∙◌, String, Option, none, some, List, [], ◌∷◌, ◌==◌, if◌then◌else◌, lookup-insert,
  lookup-erase,
}
use mozgoslav.Store.Dictation.{Reply, data_of, thrown}
use mozgoslav.Store.Ui.{
  Resolution, pending, resolved, failed, State, reduce, open_note_requested,
  clear_open_note_resolution, open_note_saga, first_note, select_open_note_resolution,
}

-- the resolution that an answer stands for
abbrev pub outcome : Reply (Option (List String)) → Resolution
outcome (data_of recording) = resolved (first_note recording)
outcome (thrown e) = failed e

-- What happens to the resolutions: a request, the answer that its saga gets, the end of the view.
pub data Event : Type 0 where
  requested : (recording_id : String) → Event
  answered : (recording_id : String) → Reply (Option (List String)) → Event
  cleared : (recording_id : String) → Event

unfoldable pub step : State → Event → State
unfolding reduce
step s (requested id) = reduce s (open_note_requested id)
step s (answered id reply) = reduce s (open_note_saga id reply)
step s (cleared id) = reduce s (clear_open_note_resolution id)

unfoldable pub run : State → List Event → State
run s [] = s
run s (e ∷ events) = run (step s e) events

-- what the last event of a recording says of it, before which it was as given
abbrev pub told : String → Option Resolution → List Event → Option Resolution
told id before [] = before
told id before (requested k ∷ events) = told id (if k == id then some pending else before) events
told id before (answered k reply ∷ events) =
    told id (if k == id then some (outcome reply) else before) events
told id before (cleared k ∷ events) = told id (if k == id then none else before) events

answered-lookup :
    (s : State) (k id : String) (reply : Reply (Option (List String)))
    → select_open_note_resolution id (step s (answered k reply))
      ≡ (if k == id then some (outcome reply) else select_open_note_resolution id s)
unfolding select_open_note_resolution step reduce open_note_saga
answered-lookup s k id (data_of recording) =
    lookup-insert k id (resolved (first_note recording)) s.open_note_resolutions
answered-lookup s k id (thrown e) = lookup-insert k id (failed e) s.open_note_resolutions

-- Whatever the requests, the answers and the ends of views are and in whatever order they come,
-- the slice says of each recording what its own last event says, and events of other recordings
-- change nothing of it.
pub run-told :
    (s : State) (id : String) (events : List Event)
    → select_open_note_resolution id (run s events)
      ≡ told id (select_open_note_resolution id s) events
unfolding run step reduce select_open_note_resolution
run-told s id [] = refl
run-told s id (requested k ∷ events) =
    run-told (step s (requested k)) id events
    ∙ ap (λ before. told id before events) (lookup-insert k id pending s.open_note_resolutions)
run-told s id (answered k reply ∷ events) =
    run-told (step s (answered k reply)) id events
    ∙ ap (λ before. told id before events) (answered-lookup s k id reply)
run-told s id (cleared k ∷ events) =
    run-told (step s (cleared k)) id events
    ∙ ap (λ before. told id before events) (lookup-erase k id s.open_note_resolutions)
