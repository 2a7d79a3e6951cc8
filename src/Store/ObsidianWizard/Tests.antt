-- ===== src/Store/ObsidianWizard/Tests.antt =====
-- The wizard at a concrete walk.
use mozgoslav.Prelude.{◌≡◌, refl, ℕ, true, Option, none, some, [], ◌∷◌}
use mozgoslav.Store.Dictation.{Reply, data_of, thrown}
use mozgoslav.Store.ObsidianWizard.{
  Payload, initial, reduce, wizard_saga, new, step_run, answered, step, run,
}

abbrev walked_to : ℕ → Option ℕ → Reply Payload
walked_to current next =
    data_of (record { current_step = current; next_step = next; diagnostics = none; errors = [] })

-- two steps, of which the second fails once, complete a wizard of two steps
completed :
    (run new (
      step_run 1
      ∷ answered (walked_to 2 (some 2))
      ∷ step_run 2
      ∷ answered (thrown "offline")
      ∷ step_run 2
      ∷ answered (walked_to 2 none)
      ∷ [])).store.is_complete
    ≡ true
unfolding run step reduce wizard_saga new initial
completed = refl
