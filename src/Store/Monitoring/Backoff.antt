-- ===== src/Store/Monitoring/Backoff.antt =====
-- The delays of the subscription and what reaches it while it waits.
use mozgoslav.Prelude.{
  ℕ, ◌+◌, ◌≤◌, ◌<◌, suc, zero, ◌≡◌, refl, true, false, Option, none, some, List, [], ◌∷◌, arith,
  ltb, if_cases, All,
}
use mozgoslav.Store.Monitoring.{subscribe, unsubscribe, load_requested, reduce}
use mozgoslav.Store.Monitoring.Subscription.{
  Phase, ended, listening, waiting, two_to, backoff_ms, max_reconnect_attempts, World, new, Event,
  subscribed, unsubscribed, received, channel_ended, backoff_over, close_channel, next_attempt,
  cancel_task, leave, consume, back_off, retry, step, run,
}

two_to_pos : (n : ℕ) → 1 ≤ two_to n
unfolding two_to
two_to_pos zero = omega arith
two_to_pos (suc n) = omega (arith, two_to_pos n)

abbrev IsDelay : ℕ → Type 0
IsDelay d = (2000 ≤ d) × (d ≤ 30000)

backoff_ms-IsDelay : (a : ℕ) → IsDelay (backoff_ms (a + 1))
unfolding backoff_ms two_to
backoff_ms-IsDelay a = ground (arith, two_to_pos a)

module _ {Runtime : Type 0} where
  abbrev Delays : World Runtime → Type 0
  Delays w = All IsDelay w.delays

  next_attempt-Delays : (a : ℕ) (w : World Runtime) → Delays w → Delays (next_attempt a w)
  unfolding next_attempt
  next_attempt-Delays a w h =
      if_cases (λ (v : World Runtime). Delays v) (ltb a max_reconnect_attempts) (λ e. h) (λ e. h)

  cancel_task-Delays : (w : World Runtime) (p : Phase) → Delays w → Delays (cancel_task w p)
  unfolding cancel_task close_channel
  cancel_task-Delays w ended h = h
  cancel_task-Delays w (listening a) h = h
  cancel_task-Delays w (waiting a) h = h

  leave-Delays : (w : World Runtime) (p : Phase) → Delays w → Delays (leave w p)
  unfolding leave close_channel
  leave-Delays w ended h = h
  leave-Delays w (listening a) h = h
  leave-Delays w (waiting a) h = h

  consume-Delays :
      (w : World Runtime) (p : Phase) (r : Option Runtime) → Delays w → Delays (consume w p r)
  unfolding consume
  consume-Delays w (listening a) (some r) h = h
  consume-Delays w (listening a) none h = h
  consume-Delays w ended r h = h
  consume-Delays w (waiting a) r h = h

  back_off-Delays : (w : World Runtime) (p : Phase) → Delays w → Delays (back_off w p)
  unfolding back_off
  back_off-Delays w ended h = h
  back_off-Delays w (listening a) h = (backoff_ms-IsDelay a, h)
  back_off-Delays w (waiting a) h = h

  retry-Delays : (w : World Runtime) (p : Phase) → Delays w → Delays (retry w p)
  unfolding retry close_channel
  retry-Delays w ended h = h
  retry-Delays w (listening a) h = h
  retry-Delays w (waiting a) h = next_attempt-Delays a (close_channel w) h

  step-Delays : (w : World Runtime) (e : Event Runtime) → Delays w → Delays (step w e)
  unfolding step
  step-Delays w subscribed h =
      next_attempt-Delays 0
        (record (cancel_task w w.phase) {
          store = reduce (reduce (cancel_task w w.phase).store subscribe) load_requested;
        })
        (cancel_task-Delays w w.phase h)
  step-Delays w unsubscribed h =
      leave-Delays (record w { store = reduce w.store unsubscribe }) w.phase h
  step-Delays w (received r) h = consume-Delays w w.phase r h
  step-Delays w channel_ended h = back_off-Delays w w.phase h
  step-Delays w backoff_over h = retry-Delays w w.phase h

  run-Delays :
      (w : World Runtime) (events : List (Event Runtime)) → Delays w → Delays (run w events)
  unfolding run
  run-Delays w [] h = h
  run-Delays w (e ∷ events) h = run-Delays (step w e) events (step-Delays w e h)

  -- Every wait between two attempts lasts at least two seconds and at most half a minute.
  pub delays-IsDelay :
      (events : List (Event Runtime)) → All (λ d. (2000 ≤ d) × (d ≤ 30000)) (run new events).delays
  delays-IsDelay events = run-Delays new events (unfold new in tt)

  -- An unsubscription that comes while the saga waits for its next attempt is lost: the slice says
  -- that nothing is subscribed, and when the delay is over the saga opens another channel, unless
  -- that was its last attempt.
  pub unsubscribe_in_backoff :
      (w : World Runtime) (a : ℕ)
      → w.phase ≡ waiting a
      → a < 5
      → let later = step (step w unsubscribed) backoff_over in
        (later.phase ≡ listening a)
        × (later.opened ≡ w.opened + 1)
        × (later.store.is_subscribed ≡ false)
  unfolding step leave retry close_channel next_attempt reduce
  unsubscribe_in_backoff w a e h = ground (arith, e)

  -- a channel that ends and the delay after it
  abbrev pub failures : ℕ → List (Event Runtime)
  failures zero = []
  failures (suc n) = channel_ended ∷ backoff_over ∷ failures n

  -- A subscription whose channels all end is given up after the fifth: the saga has ended with an
  -- error in the slice, which goes on saying that it is subscribed.
  pub subscription_gives_up :
      (w : World Runtime)
      → let after = run (step w subscribed) (failures 5) in
        (after.phase ≡ ended)
        × (after.store.error ≡ some "Subscription reconnect failed after 5 attempts")
        × (after.store.is_subscribed ≡ true)
        × (after.opened ≡ (step w subscribed).opened + 4)
  unfolding run step cancel_task leave back_off retry close_channel next_attempt reduce
  subscription_gives_up w = (refl, refl, refl, omega arith)
