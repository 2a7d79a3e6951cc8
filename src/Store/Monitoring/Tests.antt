-- ===== src/Store/Monitoring/Tests.antt =====
-- The subscription at concrete events.
use mozgoslav.Prelude.{◌+◌, ◌≤◌, ◌≡◌, refl, String, true, false, none, some, List, [], ◌∷◌, arith}
use mozgoslav.Store.Monitoring.{reprobe_saga, reprobe_failed}
use mozgoslav.Store.Dictation.{data_of}
use mozgoslav.Store.Monitoring.Subscription.{
  World, Event, new, step, run, subscribed, unsubscribed, received, channel_ended, backoff_over,
  ended, listening, waiting, backoff_ms, two_to,
}
use mozgoslav.Store.Monitoring.Channels.{opened-le-five, held-le-one}
use mozgoslav.Store.Monitoring.Backoff.{unsubscribe_in_backoff}

-- a runtime state by its name alone
abbrev story : List (Event String)
story = subscribed ∷ received (some "up") ∷ channel_ended ∷ backoff_over ∷ channel_ended ∷ []

abbrev pausing : World String
pausing = record {
  store = record {
    runtime_state = none;
    is_loading = false;
    is_subscribed = true;
    is_reprobing = false;
    error = none;
  };
  phase = waiting 2;
  opened = 2;
  held = 1;
  delays = [];
}

backoffs : (backoff_ms 1 ≡ 2000) × (backoff_ms 4 ≡ 16000) × (backoff_ms 5 ≡ 30000)
unfolding backoff_ms two_to
backoffs = (refl, refl, refl)

reprobe_first_error :
    reprobe_saga {Runtime = String}
      (data_of (record { errors = "no" ∷ "never" ∷ []; state = some "up" }))
    ≡ reprobe_failed "no" ∷ []
unfolding reprobe_saga
reprobe_first_error = refl

opened-le-five_example :
    (run (step (run new story) subscribed) (channel_ended ∷ backoff_over ∷ [])).opened
    ≤ (run new story).opened + 5
opened-le-five_example = opened-le-five story (channel_ended ∷ backoff_over ∷ []) refl

held-le-one_example :
    ((run new story).held ≤ 1) × ((run new story).phase ≡ ended → (run new story).held ≡ 0)
held-le-one_example = held-le-one story

unsubscribe_in_backoff_example :
    let later = step (step pausing unsubscribed) backoff_over in
    (later.phase ≡ listening 2) × (later.opened ≡ 2 + 1) × (later.store.is_subscribed ≡ false)
unsubscribe_in_backoff_example = unsubscribe_in_backoff pausing 2 refl (omega arith)
