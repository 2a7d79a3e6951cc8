-- ===== src/Store/Onboarding/Quiet.antt =====
-- What a probe leaves alone.
use mozgoslav.Prelude.{◌≡◌, refl, ◌∙◌, Bool, true, false, List, [], ◌∷◌, arith}
use mozgoslav.Store.Dictation.{Reply, data_of, thrown}
use mozgoslav.Store.Onboarding.{Vault, AudioCapabilities, State, Action, reduce}
use mozgoslav.Store.Onboarding.Probe.{
  llm_turn, obsidian_turn, audio_turn, Loop, off, asking, sleeping, World, Event, started, stopped,
  woken, answered, step, run,
}

-- the walk through the steps is where it was
abbrev pub IsUnmoved : State → State → Type 0
IsUnmoved s t =
    (t.completed ≡ s.completed)
    × (t.current_step_index ≡ s.current_step_index)
    × (t.error ≡ s.error)

module _ {A : Type 0} (put : Reply A → Action) where
  module _ (quiet : (s : State) (reply : Reply A) → IsUnmoved s (reduce s (put reply))) where
    step-IsUnmoved :
        (s : State) (l : Loop) (e : Event A)
        → IsUnmoved s (step put (record { store = s; loop = l }) e).store
    unfolding step
    step-IsUnmoved s l started = (refl, refl, refl)
    step-IsUnmoved s l stopped = (refl, refl, refl)
    step-IsUnmoved s l woken = (refl, refl, refl)
    step-IsUnmoved s asking (answered reply) = quiet s reply
    step-IsUnmoved s sleeping (answered reply) = (refl, refl, refl)
    step-IsUnmoved s off (answered reply) = (refl, refl, refl)

    run-IsUnmoved :
        (w : World) (events : List (Event A)) → IsUnmoved w.store (run put w events).store
    unfolding run
    run-IsUnmoved w [] = (refl, refl, refl)
    run-IsUnmoved w (e ∷ events) =
        let (c, i, x) = step-IsUnmoved w.store w.loop e in
        let (d, j, y) = run-IsUnmoved (step put w e) events in (d ∙ c, j ∙ i, y ∙ x)

  -- no event of the list is a start
  abbrev pub no_start : List (Event A) → Bool
  no_start [] = true
  no_start (started ∷ events) = false
  no_start (_ ∷ events) = no_start events

  -- A probe that is stopped stores nothing, whatever still arrives, until it is started again.
  pub stopped_is_silent :
      (s : State) (events : List (Event A))
      → no_start events ≡ true
      → (run put (record { store = s; loop = off }) events).store ≡ s
  unfolding run step
  stopped_is_silent s [] h = refl
  stopped_is_silent s (started ∷ events) h = ground (arith, h)
  stopped_is_silent s (stopped ∷ events) h = stopped_is_silent s events h
  stopped_is_silent s (woken ∷ events) h = stopped_is_silent s events h
  stopped_is_silent s (answered reply ∷ events) h = stopped_is_silent s events h

  -- A probe that is started again asks at once, and an answer is stored once: a second answer
  -- before the delay is over changes nothing.
  pub started_asks :
      (w : World) (first second : Reply A)
      → let once = step put (step put w started) (answered first) in
        (once.store ≡ reduce w.store (put first)) × (step put once (answered second) ≡ once)
  unfolding step
  started_asks w first second = (refl, refl)

llm_turn-IsUnmoved : (s : State) (reply : Reply Bool) → IsUnmoved s (reduce s (llm_turn reply))
unfolding reduce
llm_turn-IsUnmoved s (data_of b) = (refl, refl, refl)
llm_turn-IsUnmoved s (thrown e) = (refl, refl, refl)

obsidian_turn-IsUnmoved :
    (s : State) (reply : Reply (List Vault)) → IsUnmoved s (reduce s (obsidian_turn reply))
unfolding reduce
obsidian_turn-IsUnmoved s (data_of vaults) = (refl, refl, refl)
obsidian_turn-IsUnmoved s (thrown e) = (refl, refl, refl)

audio_turn-IsUnmoved :
    (s : State) (reply : Reply AudioCapabilities) → IsUnmoved s (reduce s (audio_turn reply))
unfolding reduce
audio_turn-IsUnmoved s (data_of c) = (refl, refl, refl)
audio_turn-IsUnmoved s (thrown e) = (refl, refl, refl)

-- Whatever happens to the three probes, the walk through the steps stays where it is.
pub probes_are_quiet :
    (w : World) (llm_events : List (Event Bool)) (obsidian_events : List (Event (List Vault)))
    (audio_events : List (Event AudioCapabilities))
    → IsUnmoved w.store (run llm_turn w llm_events).store
      × IsUnmoved w.store (run obsidian_turn w obsidian_events).store
      × IsUnmoved w.store (run audio_turn w audio_events).store
probes_are_quiet w llm_events obsidian_events audio_events = (
  run-IsUnmoved llm_turn llm_turn-IsUnmoved w llm_events,
  run-IsUnmoved obsidian_turn obsidian_turn-IsUnmoved w obsidian_events,
  run-IsUnmoved audio_turn audio_turn-IsUnmoved w audio_events,
)
