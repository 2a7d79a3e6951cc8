-- ===== src/Store/AudioDevices/Counter.antt =====
-- The ids of the changes.
use mozgoslav.Prelude.{◌≡◌, some, List, ◌==◌, arith, if_cases}
use mozgoslav.Store.Feed.{Event, run, Phase}
use mozgoslav.Store.Feed.Accepted.{run-keeps}
use mozgoslav.Store.AudioDevices.{ChangeEvent, Sent, Counted, new, initial, reduce, consume}

-- the last change has the counter as its id
abbrev pub IsLatest : Counted → Type 0
IsLatest w = (e : ChangeEvent) → w.store.last_change ≡ some e → e.id ≡ w.counter

consume-IsLatest : (w : Counted) (p : Sent) → IsLatest w → IsLatest (consume w p)
unfolding consume reduce
consume-IsLatest w p h =
    if_cases IsLatest (p.kind == "snapshot") (λ _. h) (λ _ e s. ground (arith, s))

-- Whatever happens to the subscription, the change that the slice shows is the last one that was
-- counted; snapshots are not counted.
pub shown-IsLatest :
    (p : Phase) (events : List (Event Sent))
    → IsLatest (run consume (record { store = new; phase = p }) events).store
unfolding new initial
shown-IsLatest p events =
    run-keeps consume IsLatest consume-IsLatest (record { store = new; phase = p }) events
      (λ e s. ground (arith, s))
