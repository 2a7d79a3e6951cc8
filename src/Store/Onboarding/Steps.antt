-- ===== src/Store/Onboarding/Steps.antt =====
-- The walk through the steps by the button of the page.
use mozgoslav.Prelude.{
  ◌≡◌, refl, ◌∙◌, Bool, ◌&&◌, Option, some, ℕ, zero, suc, ◌≤◌, ◌<◌, true, false, none, List, length,
  get_elem?, leb, min, arith,
}
use mozgoslav.Store.Onboarding.{
  pos, State, initial, reduce, advance, Platform, macos, linux, windows, other_platform, StepKey,
  steps_for_platform, shown_index, current_step, is_done, next, press_next, models_blocking_next,
  is_models, is_missing, welcome, try_it_now, models, llm, obsidian, mic, dictation, ready,
}

-- The button, pressed again and again; the press `j`, counted from 0, finds the models `bundle j`.
unfoldable pub pressed : ℕ → List StepKey → (ℕ → List Bool) → State → State
pressed zero steps bundle s = s
pressed (suc k) steps bundle s = press_next steps (bundle k) (pressed k steps bundle s)

unblocked :
    (o : Option StepKey) (b : Bool) → (o ≡ some models → b ≡ false) → (is_models o && b) ≡ false
unblocked none b h = refl
unblocked (some welcome) b h = refl
unblocked (some try_it_now) b h = refl
unblocked (some models) b h = h refl
unblocked (some llm) b h = refl
unblocked (some obsidian) b h = refl
unblocked (some mic) b h = refl
unblocked (some dictation) b h = refl
unblocked (some ready) b h = refl

-- While a bundle model is missing, the button does nothing on the step of the models.
pub models_step_blocks :
    (steps : List StepKey) (bundle : List Bool) (s : State)
    → current_step steps s ≡ some models
    → is_missing bundle ≡ true
    → press_next steps bundle s ≡ s
unfolding press_next models_blocking_next
models_step_blocks steps bundle s at missing = rw (at, missing) refl

module _ (steps : List StepKey) (n : ℕ) (size : length steps ≡ suc n) where
  shown_index_at :
      (s : State) (k : ℕ) → s.current_step_index ≡ pos k → k ≤ n → shown_index steps s ≡ k
  unfolding shown_index
  shown_index_at s k at le = rw (size, at) (omega arith)

  next_advances :
      (s : State) (k : ℕ)
      → s.current_step_index ≡ pos k
      → k < n
      → next steps s ≡ record s { current_step_index = pos (suc k) }
  unfolding next is_done reduce advance
  next_advances s k at lt =
      let le : k ≤ n = omega arith in
      let above : leb (suc n) (suc k) ≡ false = ground arith in
      let least : min n (suc k) ≡ suc k = omega arith in
      rw (shown_index_at s k at le, size, above, at, least) refl

  done_at :
      (s : State)
      → s.current_step_index ≡ pos n
      → next steps s ≡ record s { completed = true; error = none }
  unfolding next is_done reduce
  done_at s at =
      let le : n ≤ n = omega arith in
      let here : leb (suc n) (suc n) ≡ true = ground arith in
      rw (shown_index_at s n at le, size, here) refl

  module _ (bundle : ℕ → List Bool)
      (installed : (j : ℕ) → get_elem? steps j ≡ some models → is_missing (bundle j) ≡ false) where
    press_next_at :
        (s : State) (k : ℕ)
        → s.current_step_index ≡ pos k
        → k ≤ n
        → press_next steps (bundle k) s ≡ next steps s
    unfolding press_next models_blocking_next current_step
    press_next_at s k at le =
        rw
          (
            shown_index_at s k at le,
            unblocked (get_elem? steps k) (is_missing (bundle k)) (installed k),
          )
          refl

    pressed_at :
        (k : ℕ)
        → k ≤ n
        → pressed k steps bundle initial ≡ record initial { current_step_index = pos k }
    unfolding pressed initial
    pressed_at zero le = refl
    pressed_at (suc k) le =
        let below : k ≤ n = omega arith in
        let at : State = record initial { current_step_index = pos k } in
        rw (pressed_at k below) (press_next_at at k refl below ∙ next_advances at k refl le)

    -- With `n + 1` steps, `k` presses of the button, at most `n`, show the step at place `k`, with
    -- the onboarding not completed, and as many presses as there are steps complete it.
    pub pressed_walks :
        (k : ℕ)
        → k ≤ n
        → (current_step steps (pressed k steps bundle initial) ≡ get_elem? steps k)
          × ((pressed k steps bundle initial).completed ≡ false)
          × ((pressed (length steps) steps bundle initial).completed ≡ true)
    unfolding current_step pressed initial
    pressed_walks k le =
        let full : n ≤ n = omega arith in
        let at : State = record initial { current_step_index = pos k } in
        let end : State = record initial { current_step_index = pos n } in
        (
          rw (pressed_at k le, shown_index_at at k refl le) refl,
          rw (pressed_at k le) refl,
          rw (size, pressed, pressed_at n full, press_next_at end n refl full, done_at end refl)
              refl,
        )

size_of : (p : Platform) → (n : ℕ) × (length (steps_for_platform p) ≡ suc n)
unfolding steps_for_platform
size_of macos = (7, refl)
size_of linux = (5, refl)
size_of windows = (5, refl)
size_of other_platform = (5, refl)

-- On every platform, from the first start, and if no bundle model is missing when the button is
-- pressed on the step of the models: each press of the button before the last step shows the next
-- step of the platform and completes nothing, and as many presses as there are steps complete the
-- onboarding.
pub onboarding_walk :
    (p : Platform) (bundle : ℕ → List Bool) (k : ℕ)
    → ((j : ℕ) → get_elem? (steps_for_platform p) j ≡ some models → is_missing (bundle j) ≡ false)
    → k < length (steps_for_platform p)
    → let steps = steps_for_platform p in
      (current_step steps (pressed k steps bundle initial) ≡ get_elem? steps k)
      × ((pressed k steps bundle initial).completed ≡ false)
      × ((pressed (length steps) steps bundle initial).completed ≡ true)
onboarding_walk p bundle k installed lt =
    let (n, size) = size_of p in
    let le : k ≤ n = omega arith in
    pressed_walks (steps_for_platform p) n size bundle installed k le
