-- ===== src/Store/Feed.antt =====
-- The feeds of frontend/src/store/slices/hotkeys and frontend/src/store/slices/audioDevices: a saga under
-- `takeLatest` that opens a channel, forks a consumer and waits for its unsubscription.
pub mod Accepted
use mozgoslav.Prelude.{Bool, true, false, List, [], ◌∷◌}

-- Where the saga is: none runs, or one waits while its consumer runs or has ended.
pub data Phase : Type 0 where
  off : Phase
  listening : (consuming : Bool) → Phase

-- What happens: the two actions, a frame on the channel, the end of the channel.
pub data Event {ℓ} (F : Type ℓ) : Type ℓ where
  subscribed unsubscribed channel_ended : Event F
  received : F → Event F

pub record World {ℓ} (S : Type ℓ) : Type ℓ where
  pub store : S
  pub phase : Phase

abbrev pub end_consumer : Phase → Phase
end_consumer (listening on) = listening false
end_consumer off = off

module _ {ℓ} {F S : Type ℓ} (consume : S → F → S) where
  abbrev pub take_frame : Phase → S → F → S
  take_frame (listening true) s f = consume s f
  take_frame (listening false) s f = s
  take_frame off s f = s

  -- the actions that say that the stream is open or closed are handled by neither reducer
  unfoldable pub step : World S → Event F → World S
  step w subscribed = record w { phase = listening true }
  step w unsubscribed = record w { phase = off }
  step w channel_ended = record w { phase = end_consumer w.phase }
  step w (received f) = record w { store = take_frame w.phase w.store f }

  unfoldable pub run : World S → List (Event F) → World S
  run w [] = w
  run w (e ∷ events) = run (step w e) events
