-- ===== src/Store/Dictation/Tests.antt =====
-- Runs of the dictation slice, and its theorems at concrete sessions.
use mozgoslav.Prelude.{◌≡◌, refl, true, none, some, List, [], ◌∷◌, arith, eq_iff}
use mozgoslav.Store.Dictation.{
  idle, stopped, Action, start_requested, started, stop_requested, dictation_stopped, reduce, run,
  data_of,
}
use mozgoslav.Store.Dictation.Order.{InOrder, all_milestones, run-InOrder}
use mozgoslav.Store.Dictation.Session.{after_start, after_stop, dictation_outcome}

abbrev spoken : List Action
spoken =
    start_requested "mic" true
    ∷ started "s1"
    ∷ dictation_stopped none
    ∷ stop_requested
    ∷ dictation_stopped (some "hi")
    ∷ []

spoken_stops : run idle spoken ≡ stopped (some "hi") true
unfolding run reduce
spoken_stops = refl

-- a stop request that finds no session changes nothing
early_stop : run idle (stop_requested ∷ []) ≡ idle
unfolding run reduce
early_stop = refl

run-InOrder_example : InOrder all_milestones spoken
run-InOrder_example = run-InOrder spoken (some "hi") true spoken_stops

dictation_outcome_example :
    after_stop (after_start "mic" true (data_of (some "s1"))) (λ _. data_of (some "hi"))
    ≡ stopped (some "hi") true
dictation_outcome_example =
    dictation_outcome "mic" true (data_of (some "s1")) (λ _. data_of (some "hi"))
      (λ e. ground (arith, eq_iff "s1" ""))
