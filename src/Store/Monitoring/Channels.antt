-- ===== src/Store/Monitoring/Channels.antt =====
-- The channels of the subscription: how many are held and how many are opened.
use mozgoslav.Prelude.{
  ℕ, ◌+◌, ◌-◌, ◌*◌, ◌≤◌, ◌<◌, ◌≡◌, refl, subst, Option, none, some, List, [], ◌∷◌, arith, ltb,
  if_cases,
}
use mozgoslav.Store.Monitoring.{State, subscribe, unsubscribe, load_requested, reduce}
use mozgoslav.Store.Monitoring.Subscription.{
  Phase, ended, listening, waiting, max_reconnect_attempts, World, new, Event, subscribed,
  unsubscribed, received, channel_ended, backoff_over, close_channel, next_attempt, cancel_task,
  leave, consume, back_off, retry, step, run,
}

-- the saga holds one channel exactly while it is in its loop
abbrev Holds : Phase → ℕ → Type 0
Holds ended held = held ≡ 0
Holds (listening a) held = held ≡ 1
Holds (waiting a) held = held ≡ 1

-- the channels that the running subscription may still open
abbrev budget : Phase → ℕ
budget ended = 0
budget (listening a) = 4 - a
budget (waiting a) = 5 - a

abbrev IsFair : Phase → Type 0
IsFair ended = Unit
IsFair (listening a) = a < 5
IsFair (waiting a) = a ≤ 5

Holds-one : (p : Phase) (held : ℕ) → Holds p held → held ≤ 1
Holds-one ended held h = omega (arith, h)
Holds-one (listening a) held h = omega (arith, h)
Holds-one (waiting a) held h = omega (arith, h)

module _ {Runtime : Type 0} where
  -- the channels that were opened and those that may still be are at most `n`
  record IsBounded (n : ℕ) (w : World Runtime) : Type 0 where
    holds : Holds w.phase w.held
    fair : IsFair w.phase
    opens : w.opened + budget w.phase ≤ n

  next_attempt-IsBounded :
      (n a : ℕ) (w : World Runtime)
      → w.held ≡ 0
      → a ≤ 5
      → w.opened + (5 - a) ≤ n
      → IsBounded n (next_attempt a w)
  unfolding next_attempt
  next_attempt-IsBounded n a w h f o =
      if_cases (λ (v : World Runtime). IsBounded n v) (ltb a max_reconnect_attempts)
        (λ e. record { holds = rw h refl; fair = ground arith; opens = ground arith })
        (λ e. record { holds = h; fair = tt; opens = omega (arith, o) })

  cancel_task_held : (w : World Runtime) (p : Phase) → Holds p w.held → (cancel_task w p).held ≡ 0
  unfolding cancel_task close_channel
  cancel_task_held w ended h = h
  cancel_task_held w (listening a) h = omega (arith, h)
  cancel_task_held w (waiting a) h = omega (arith, h)

  cancel_task_opened : (w : World Runtime) (p : Phase) → (cancel_task w p).opened ≡ w.opened
  unfolding cancel_task close_channel
  cancel_task_opened w ended = refl
  cancel_task_opened w (listening a) = refl
  cancel_task_opened w (waiting a) = refl

  -- a step at a phase that is known
  leave-IsBounded :
      (n : ℕ) (s : State Runtime) (p : Phase) (w : World Runtime)
      → w.phase ≡ p
      → Holds p w.held
      → IsFair p
      → w.opened + budget p ≤ n
      → IsBounded n (leave (record w { store = s }) p)
  unfolding leave close_channel
  leave-IsBounded n s ended w e h f o = record { holds = rw e h; fair = rw e f; opens = rw e o }
  leave-IsBounded n s (listening a) w e h f o = record {
    holds = omega (arith, h);
    fair = tt;
    opens = omega (arith, o);
  }
  leave-IsBounded n s (waiting a) w e h f o = record {
    holds = rw e h;
    fair = rw e f;
    opens = rw e o;
  }

  consume-IsBounded :
      (n : ℕ) (p : Phase) (r : Option Runtime) (w : World Runtime)
      → IsBounded n w
      → IsBounded n (consume w p r)
  unfolding consume
  consume-IsBounded n (listening a) (some r) w v = record {
    holds = v.holds;
    fair = v.fair;
    opens = v.opens;
  }
  consume-IsBounded n (listening a) none w v = v
  consume-IsBounded n ended r w v = v
  consume-IsBounded n (waiting a) r w v = v

  back_off-IsBounded :
      (n : ℕ) (p : Phase) (w : World Runtime)
      → IsBounded n w
      → Holds p w.held
      → IsFair p
      → w.opened + budget p ≤ n
      → IsBounded n (back_off w p)
  unfolding back_off
  back_off-IsBounded n ended w v h f o = v
  back_off-IsBounded n (listening a) w v h f o = record {
    holds = h;
    fair = omega (arith, f);
    opens = omega (arith, o);
  }
  back_off-IsBounded n (waiting a) w v h f o = v

  retry-IsBounded :
      (n : ℕ) (p : Phase) (w : World Runtime)
      → IsBounded n w
      → Holds p w.held
      → IsFair p
      → w.opened + budget p ≤ n
      → IsBounded n (retry w p)
  unfolding retry close_channel
  retry-IsBounded n ended w v h f o = v
  retry-IsBounded n (listening a) w v h f o = v
  retry-IsBounded n (waiting a) w v h f o =
      next_attempt-IsBounded n a (record w { held = w.held - 1 }) (omega (arith, h)) f o

  abbrev asks : Event Runtime → ℕ
  asks subscribed = 1
  asks unsubscribed = 0
  asks (received r) = 0
  asks channel_ended = 0
  asks backoff_over = 0

  -- how often a list of events asks for a subscription
  abbrev pub subscriptions : List (Event Runtime) → ℕ
  subscriptions [] = 0
  subscriptions (e ∷ events) = asks e + subscriptions events

  weaker : (n m : ℕ) (w : World Runtime) → n ≤ m → IsBounded n w → IsBounded m w
  weaker n m w h v = record { holds = v.holds; fair = v.fair; opens = omega (arith, h, v.opens) }

  -- a new subscription pays for its own channels
  subscribed-IsBounded :
      (w : World Runtime) → Holds w.phase w.held → IsBounded (w.opened + 5) (step w subscribed)
  unfolding step
  subscribed-IsBounded w h =
      next_attempt-IsBounded (w.opened + 5) 0
        (record (cancel_task w w.phase) {
          store = reduce (reduce (cancel_task w w.phase).store subscribe) load_requested;
        })
        (cancel_task_held w w.phase h) (omega arith) (omega (arith, cancel_task_opened w w.phase))

  step-IsBounded :
      (n : ℕ) (w : World Runtime) (e : Event Runtime)
      → IsBounded n w
      → IsBounded (n + 5 * asks e) (step w e)
  unfolding step
  step-IsBounded n w subscribed v =
      weaker (w.opened + 5) (n + 5 * 1) (step w subscribed) (omega (arith, v.opens))
        (subscribed-IsBounded w v.holds)
  step-IsBounded n w unsubscribed v =
      weaker n (n + 5 * 0) _ (omega arith)
        (leave-IsBounded n (reduce w.store unsubscribe) w.phase w refl v.holds v.fair v.opens)
  step-IsBounded n w (received r) v =
      weaker n (n + 5 * 0) _ (omega arith) (consume-IsBounded n w.phase r w v)
  step-IsBounded n w channel_ended v =
      weaker n (n + 5 * 0) _ (omega arith) (back_off-IsBounded n w.phase w v v.holds v.fair v.opens)
  step-IsBounded n w backoff_over v =
      weaker n (n + 5 * 0) _ (omega arith) (retry-IsBounded n w.phase w v v.holds v.fair v.opens)

  run-IsBounded :
      (n : ℕ) (w : World Runtime) (events : List (Event Runtime))
      → IsBounded n w
      → IsBounded (n + 5 * subscriptions events) (run w events)
  unfolding run
  run-IsBounded n w [] v = weaker n (n + 5 * 0) w (omega arith) v
  run-IsBounded n w (e ∷ events) v =
      weaker (n + 5 * asks e + 5 * subscriptions events) _ _ (omega arith)
        (run-IsBounded (n + 5 * asks e) (step w e) events (step-IsBounded n w e v))

  new-IsBounded : IsBounded 0 (new {Runtime = Runtime})
  unfolding new
  new-IsBounded = record { holds = refl; fair = tt; opens = omega arith }

  -- In every run, and whatever subscriptions came before: a subscription that is asked for opens at
  -- most five channels until the next one is asked for, in whatever order channels end, delays
  -- run out and subscriptions are left.
  pub opened-le-five :
      (before later : List (Event Runtime))
      → subscriptions later ≡ 0
      → (run (step (run new before) subscribed) later).opened ≤ (run new before).opened + 5
  opened-le-five before later none_asked =
      let w : World Runtime = run new before in
      let v : IsBounded (0 + 5 * subscriptions before) w =
        run-IsBounded 0 new before new-IsBounded in
      let u : IsBounded (w.opened + 5 + 5 * subscriptions later) (run (step w subscribed) later) =
        run-IsBounded (w.opened + 5) (step w subscribed) later (subscribed-IsBounded w v.holds) in
      omega (arith, u.opens, none_asked)

  -- The saga never holds more than one channel, and none once it has ended: every channel that
  -- it opens is closed, also when a new subscription replaces it.
  pub held-le-one :
      (events : List (Event Runtime))
      → ((run new events).held ≤ 1) × ((run new events).phase ≡ ended → (run new events).held ≡ 0)
  held-le-one events =
      let v : IsBounded (0 + 5 * subscriptions events) (run new events) =
        run-IsBounded 0 new events new-IsBounded in
      (Holds-one _ _ v.holds, λ e. subst (λ p. Holds p (run new events).held) e v.holds)
