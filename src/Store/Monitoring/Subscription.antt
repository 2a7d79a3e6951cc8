-- ===== src/Store/Monitoring/Subscription.antt =====
-- `subscribeRuntimeStateSaga` under `takeLatest`: the loop that opens a channel, listens until it
-- ends, waits and opens the next one. The saga stands at one of its two waits, a race between the
-- end of the channel and `MONITORING_UNSUBSCRIBE`, or the delay before the next attempt.
use mozgoslav.Prelude.{
  ℕ, ◌+◌, ◌-◌, ◌*◌, suc, zero, Option, none, some, List, [], ◌∷◌, leb, ltb, if◌then◌else◌,
}
use mozgoslav.Store.Monitoring.{
  State, initial, reduce, subscribe, unsubscribe, state_updated, load_failed, load_requested,
}

-- where the saga is, with its variable `attempt`
pub data Phase : Type 0 where
  ended : Phase
  listening : (attempt : ℕ) → Phase
  waiting : (attempt : ℕ) → Phase

-- `MAX_RECONNECT_ATTEMPTS`
abbrev pub max_reconnect_attempts : ℕ
max_reconnect_attempts = 5

unfoldable pub two_to : ℕ → ℕ
two_to zero = 1
two_to (suc n) = 2 * two_to n

-- `Math.min(1000 * Math.pow(2, attempt), 30000)`
unfoldable pub backoff_ms : ℕ → ℕ
unfolding two_to
backoff_ms attempt = if leb (1000 * two_to attempt) 30000 then 1000 * two_to attempt else 30000

-- `opened` counts the channels that the saga ever created, `held` those that it has not closed;
-- `delays` are the waits between attempts, the last one first
pub record World (Runtime : Type 0) : Type 0 where
  pub store : State Runtime
  pub phase : Phase
  pub opened : ℕ
  pub held : ℕ
  pub delays : List ℕ

unfoldable pub new : {Runtime : Type 0} → World Runtime
new = record { store = initial; phase = ended; opened = 0; held = 0; delays = [] }

-- What happens: the two actions, an event of the channel, which may be empty, the end of the
-- channel, and the end of the delay.
pub data Event (Runtime : Type 0) : Type 0 where
  subscribed unsubscribed : Event Runtime
  received : Option Runtime → Event Runtime
  channel_ended backoff_over : Event Runtime

module _ {Runtime : Type 0} where
  -- the `finally` block: `channel.close()`
  unfoldable pub close_channel : World Runtime → World Runtime
  close_channel w = record w { held = w.held - 1 }

  -- the `while` test and, when it holds, the next channel
  unfoldable pub next_attempt : ℕ → World Runtime → World Runtime
  unfolding reduce
  next_attempt attempt w =
      if ltb attempt max_reconnect_attempts
      then record w { phase = listening attempt; opened = w.opened + 1; held = w.held + 1 }
      else record w {
        store = reduce w.store (load_failed "Subscription reconnect failed after 5 attempts");
        phase = ended;
      }

  -- what `takeLatest` does to the task that is running: its `finally` block runs
  unfoldable pub cancel_task : World Runtime → Phase → World Runtime
  unfolding close_channel
  cancel_task w ended = w
  cancel_task w (listening a) = record (close_channel w) { phase = ended }
  cancel_task w (waiting a) = record (close_channel w) { phase = ended }

  -- `MONITORING_UNSUBSCRIBE` reaches the saga only in the race
  unfoldable pub leave : World Runtime → Phase → World Runtime
  unfolding close_channel
  leave w (listening a) = record (close_channel w) { phase = ended }
  leave w ended = w
  leave w (waiting a) = w

  -- an event of the channel while the consumer takes from it
  unfoldable pub consume : World Runtime → Phase → Option Runtime → World Runtime
  unfolding reduce
  consume w (listening a) (some r) = record w { store = reduce w.store (state_updated r) }
  consume w (listening a) none = w
  consume w ended event = w
  consume w (waiting a) event = w

  -- the consumer has ended: `attempt += 1` and the delay
  unfoldable pub back_off : World Runtime → Phase → World Runtime
  unfolding backoff_ms
  back_off w (listening a) = record w {
    phase = waiting (a + 1);
    delays = backoff_ms (a + 1) ∷ w.delays;
  }
  back_off w ended = w
  back_off w (waiting a) = w

  -- the delay is over: the `finally` block and the loop's test
  unfoldable pub retry : World Runtime → Phase → World Runtime
  unfolding close_channel next_attempt
  retry w (waiting a) = next_attempt a (close_channel w)
  retry w ended = w
  retry w (listening a) = w

  unfoldable pub step : World Runtime → Event Runtime → World Runtime
  unfolding reduce cancel_task next_attempt leave consume back_off retry
  step w subscribed =
      let fresh = cancel_task w w.phase in
      next_attempt 0 (record fresh { store = reduce (reduce fresh.store subscribe) load_requested })
  step w unsubscribed = leave (record w { store = reduce w.store unsubscribe }) w.phase
  step w (received event) = consume w w.phase event
  step w channel_ended = back_off w w.phase
  step w backoff_over = retry w w.phase

  unfoldable pub run : World Runtime → List (Event Runtime) → World Runtime
  run w [] = w
  run w (e ∷ events) = run (step w e) events
