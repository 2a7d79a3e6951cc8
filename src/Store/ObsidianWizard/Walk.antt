-- ===== src/Store/ObsidianWizard/Walk.antt =====
-- The walk of the wizard.
use mozgoslav.Prelude.{◌≡◌, refl, ℕ, Bool, true, false, Option, none, List, [], ◌∷◌, String, arith}
use mozgoslav.Store.Dictation.{Reply, data_of, thrown}
use mozgoslav.Store.Obsidian.Report.{VaultDiagnosticsReport}
use mozgoslav.Store.ObsidianWizard.{
  State, initial, reduce, wizard_saga, is_last, Payload, World, new, Event, step_run, reset,
  answered, step, run,
}

-- The wizard is complete exactly if there is no next step, and a step is shown as running only
-- while a saga waits for its answer.
abbrev pub IsSound : World → Type 0
IsSound w =
    (w.store.is_complete ≡ is_last w.store.next_step)
    × (w.store.is_step_running ≡ true → w.running ≡ true)

put-IsSound :
    (s : State) (current : ℕ) (next : Option ℕ) (report : Option VaultDiagnosticsReport)
    (errors : List String)
    → s.is_complete ≡ is_last s.next_step
    → let p : Payload = record {
      current_step = current;
      next_step = next;
      diagnostics = report;
      errors = errors;
    } in
      IsSound (record { store = reduce s (wizard_saga (data_of p)); running = false })
unfolding reduce wizard_saga
put-IsSound s current next report [] h = (refl, λ e. ground (arith, e))
put-IsSound s current next report (m ∷ rest) h = (h, λ e. ground (arith, e))

answered-IsSound :
    (s : State) (b : Bool) (reply : Reply Payload)
    → s.is_complete ≡ is_last s.next_step
    → (s.is_step_running ≡ true → b ≡ true)
    → IsSound (step (record { store = s; running = b }) (answered reply))
unfolding step reduce wizard_saga
answered-IsSound s true (data_of p) h k =
    put-IsSound s p.current_step p.next_step p.diagnostics p.errors h
answered-IsSound s true (thrown e) h k = (h, λ e. ground (arith, e))
answered-IsSound s false reply h k = (h, k)

step-IsSound : (w : World) (e : Event) → IsSound w → IsSound (step w e)
unfolding step reduce initial
step-IsSound w (step_run n) (h, k) = (h, λ _. refl)
step-IsSound w reset (h, k) = (refl, λ e. ground (arith, e))
step-IsSound w (answered reply) (h, k) = answered-IsSound w.store w.running reply h k

run-IsSound : (w : World) (events : List Event) → IsSound w → IsSound (run w events)
unfolding run
run-IsSound w [] h = h
run-IsSound w (e ∷ events) h = run-IsSound (step w e) events (step-IsSound w e h)

-- Whatever happens from the start, the wizard is complete exactly if the backend has named no next
-- step, and a step that is shown as running has a saga that waits for its answer.
pub wizard-IsSound : (events : List Event) → IsSound (run new events)
unfolding new initial
wizard-IsSound events = run-IsSound new events (refl, λ e. ground (arith, e))

-- A reset while a step runs is undone by the answer: the wizard then stands at the step that the
-- backend names.
pub reset_is_undone :
    (w : World) (n current : ℕ) (next : Option ℕ)
    → let p : Payload = record {
      current_step = current;
      next_step = next;
      diagnostics = none;
      errors = [];
    } in
      let after = step (step (step w (step_run n)) reset) (answered (data_of p)) in
      (after.store.current_step ≡ current) × (after.store.is_complete ≡ is_last next)
unfolding step reduce wizard_saga
reset_is_undone w n current next = (refl, refl)
