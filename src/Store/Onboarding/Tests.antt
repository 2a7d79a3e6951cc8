-- ===== src/Store/Onboarding/Tests.antt =====
-- The onboarding at concrete presses and probes.
use mozgoslav.Prelude.{
  ◌≡◌, refl, ℕ, zero, suc, Bool, true, false, some, List, [], ◌∷◌, get_elem?, length, arith,
}
use mozgoslav.Store.Dictation.{data_of, thrown}
use mozgoslav.Store.Onboarding.{
  pos, initial, reduce, set_step, linux, ready, steps_for_platform, go_to_step, advance,
  current_step, shown_index, is_done, next, press_next, models_blocking_next, is_missing, models,
}
use mozgoslav.Store.Onboarding.Probe.{off, started, woken, answered, llm_turn, step, run}
use mozgoslav.Store.Onboarding.Steps.{pressed, onboarding_walk}

-- the page of a system without microphone and dictation steps ends after six presses
walked : (pressed 6 (steps_for_platform linux) (λ _. []) initial).completed ≡ true
unfolding pressed press_next models_blocking_next current_step next is_done shown_index reduce
    advance initial steps_for_platform
walked = refl

-- a step index out of range shows the last step
clamped : current_step (steps_for_platform linux) (reduce initial (set_step (pos 40))) ≡ some ready
unfolding current_step shown_index reduce go_to_step initial steps_for_platform
clamped = refl

-- the second turn finds the language model gone
lost :
    (run llm_turn
      (record { store = initial; loop = off })
      (started ∷ answered (data_of true) ∷ woken ∷ answered (thrown "down") ∷ [])).store.llm_health
    ≡ record { reachable = false; loaded = true }
unfolding run step reduce
lost = refl

-- the models are there from the third press on, and linux shows them third
abbrev loading : ℕ → List Bool
loading zero = false ∷ true ∷ []
loading (suc zero) = false ∷ true ∷ []
loading (suc (suc _)) = true ∷ true ∷ []

loaded :
    (j : ℕ) → get_elem? (steps_for_platform linux) j ≡ some models → is_missing (loading j) ≡ false
unfolding steps_for_platform
loaded zero e = cc
loaded (suc zero) e = cc
loaded (suc (suc j)) e = refl

onboarding_walk_example :
    let steps = steps_for_platform linux in
    (current_step steps (pressed 3 steps loading initial) ≡ get_elem? steps 3)
    × ((pressed 3 steps loading initial).completed ≡ false)
    × ((pressed (length steps) steps loading initial).completed ≡ true)
unfolding steps_for_platform
onboarding_walk_example = onboarding_walk linux loading 3 loaded (omega arith)

-- a press on the models while one is missing
blocked :
    current_step
      (steps_for_platform linux)
      (pressed 4 (steps_for_platform linux) (λ _. false ∷ []) initial)
    ≡ some models
unfolding pressed press_next models_blocking_next current_step next is_done shown_index reduce
    advance initial steps_for_platform
blocked = refl
