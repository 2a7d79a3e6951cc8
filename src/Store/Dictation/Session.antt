-- ===== src/Store/Dictation/Session.antt =====
-- The session id and the persist flag through the reducer, and the reducer with its sagas.
use mozgoslav.Prelude.{
  ◌≡◌, refl, ◌≢◌, ◌⊎◌, String, Bool, Option, none, some, List, [], ◌∷◌, ◌++◌, arith, eq_iff,
}
use mozgoslav.Store.Dictation.{
  Status, idle, starting, active, stopping, cancelling, stopped, failed, Action, start_requested,
  started, stop_requested, cancel_requested, cancelled, reduce, run, Reply, data_of, thrown,
  start_saga, stop_saga, cancel_saga,
}

abbrev pub session : Status → Option String
session (active sid _ _) = some sid
session (stopping sid _) = some sid
session (cancelling sid _) = some sid
session _ = none

abbrev pub persists : Status → Option Bool
persists (starting _ p) = some p
persists (active _ _ p) = some p
persists (stopping _ p) = some p
persists (cancelling _ p) = some p
persists (stopped _ p) = some p
persists _ = none

-- No action replaces the session or the persist flag of a dictation under way: either is kept or
-- dropped, and only a start that finds the slice idle sets the flag anew.
pub reduce_keeps_session :
    (s : Status) (a : Action) (sid : String) (persist : Bool)
    → session s ≡ some sid
    → persists s ≡ some persist
    → let t = reduce s a in
      ((session t ≡ none) ⊎ (session t ≡ some sid))
      × ((persists t ≡ none) ⊎ (persists t ≡ some persist))
unfolding reduce
reduce_keeps_session s a sid persist h k = ground arith

abbrev pub IsLive : Status → Type 0
IsLive (active _ _ _) = Unit
IsLive (stopping _ _) = Unit
IsLive _ = ⊥

-- A cancel request on a live session calls the backend for that session, and whatever the backend
-- answers the slice is idle afterwards.
pub cancel_returns_idle :
    (s : Status) (call : String → Reply (List String))
    → IsLive s
    → let t = reduce s cancel_requested in
      (session t ≡ session s) × (run t (cancel_saga t call) ≡ idle)
unfolding reduce run cancel_saga
cancel_returns_idle (active sid source persist) call h = ground arith
cancel_returns_idle (stopping sid persist) call h = ground arith
cancel_returns_idle idle call h = elim h [ ]
cancel_returns_idle (starting _ _) call h = elim h [ ]
cancel_returns_idle (cancelling _ _) call h = elim h [ ]
cancel_returns_idle (stopped _ _) call h = elim h [ ]
cancel_returns_idle (failed _) call h = elim h [ ]

-- the status after the start request and the reply of the start call
abbrev pub after_start : String → Bool → Reply (Option String) → Status
after_start source persist reply = run idle (start_requested source persist ∷ start_saga reply ∷ [])

-- the status after a stop request too, and the reply of the stop call
abbrev pub after_stop : Status → (String → Reply (Option String)) → Status
after_stop s call = let t = reduce s stop_requested in run t (stop_saga t call)

-- what the two calls promise: the text of the stop call for the session of the start call, or the
-- error of the call that failed
abbrev pub outcome : Bool → Reply (Option String) → (String → Reply (Option String)) → Status
outcome persist (thrown e) stop_call = failed e
outcome persist (data_of none) stop_call = failed "dictation start failed"
outcome persist (data_of (some sid)) stop_call = elim (stop_call sid) [
  | data_of text ↦ stopped text persist
  | thrown e ↦ failed e
]

-- An undisturbed dictation from idle to its end: with any replies, a session id that is not empty
-- included, the slice ends in the outcome of the two backend calls.
pub dictation_outcome :
    (source : String) (persist : Bool) (reply : Reply (Option String))
    (stop_call : String → Reply (Option String))
    → reply ≢ data_of (some "")
    → after_stop (after_start source persist reply) stop_call ≡ outcome persist reply stop_call
unfolding reduce run start_saga stop_saga
dictation_outcome source persist (thrown e) stop_call h = refl
dictation_outcome source persist (data_of none) stop_call h = refl
dictation_outcome source persist (data_of (some sid)) stop_call h = ground (arith, eq_iff sid "")

-- A stop call that was pending when its session was cancelled still reports its failure: the reply
-- fails whichever dictation is active by then, with the error of the old session.
pub late_stop_failure :
    (old new source new_source error : String) (persist new_persist : Bool)
    → let before =
        stop_requested
        ∷ cancel_requested
        ∷ cancelled
        ∷ start_requested new_source new_persist
        ∷ started new
        ∷ [] in
      (run (active old source persist) before ≡ active new new_source new_persist)
      × (run
            (active old source persist)
            (before ++ stop_saga (stopping old persist) (λ _. thrown error))
          ≡ failed error)
unfolding reduce run stop_saga
late_stop_failure old new source new_source error persist new_persist = (refl, refl)
