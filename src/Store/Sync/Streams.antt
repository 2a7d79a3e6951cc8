-- ===== src/Store/Sync/Streams.antt =====
-- `watchSyncEventStream`: each `START_EVENT_STREAM` forks a stream of its own, which ends its
-- consumer at the next `STOP_EVENT_STREAM`.
use mozgoslav.Prelude.{
  ℕ, zero, suc, ◌≡◌, refl, sym, ◌∙◌, inl, inr, Bool-cases, get_elem?-append_left, Bool, true, false,
  ◌||◌, Option, none, some, List, [], ◌∷◌, ◌++◌, get_elem?, set,
}
use mozgoslav.Store.Sync.{
  State, Snapshot, PendingDevice, FolderCompletion, DeviceConnection, folder_event, device_event,
  pending_event, SyncEvent, initial, reduce, event_stream_connected, event_stream_disconnected,
  event_received, start_event_stream, stop_event_stream, apply_event,
}

-- the slice and the streams that wait for a stop, each with whether its consumer still runs
pub record World : Type 0 where
  pub store : State
  pub streams : List Bool

unfoldable pub new : World
new = record { store = initial; streams = [] }

-- What happens: a start, a stop, an event on the channel of one of the streams, the end of it.
pub data Event : Type 0 where
  started stopped : Event
  received : (stream : ℕ) → SyncEvent → Event
  channel_ended : (stream : ℕ) → Event

-- `cancel(consumer)` for every stream: a consumer that runs reports that it is disconnected
unfoldable pub cancel_all : State → List Bool → State
unfolding reduce
cancel_all s [] = s
cancel_all s (true ∷ streams) = cancel_all (reduce s event_stream_disconnected) streams
cancel_all s (false ∷ streams) = cancel_all s streams

-- the consumer of a stream takes an event
abbrev pub take_event : Option Bool → SyncEvent → State → State
take_event (some true) event s = reduce s (event_received event)
take_event (some false) event s = s
take_event none event s = s

-- its channel ends, and with it the consumer
abbrev pub end_channel : Option Bool → ℕ → World → World
end_channel (some true) stream w = record {
  store = reduce w.store event_stream_disconnected;
  streams = set w.streams stream false;
}
end_channel (some false) stream w = w
end_channel none stream w = w

unfoldable pub step : World → Event → World
unfolding cancel_all
step w started = record {
  store = reduce (reduce w.store start_event_stream) event_stream_connected;
  streams = w.streams ++ true ∷ [];
}
step w stopped = record {
  store = cancel_all (reduce w.store stop_event_stream) w.streams;
  streams = [];
}
step w (received stream event) = record w {
  store = take_event (get_elem? w.streams stream) event w.store;
}
step w (channel_ended stream) = end_channel (get_elem? w.streams stream) stream w

unfoldable pub run : World → List Event → World
run w [] = w
run w (e ∷ events) = run (step w e) events

-- a consumer runs
abbrev pub any_running : List Bool → Bool
any_running [] = false
any_running (b ∷ streams) = b || any_running streams

-- the flag is not set without a consumer
abbrev IsHonest : World → Type 0
IsHonest w = w.store.stream_connected ≡ true → any_running w.streams ≡ true

any_running-push : (streams : List Bool) → any_running (streams ++ true ∷ []) ≡ true
any_running-push [] = refl
any_running-push (true ∷ streams) = refl
any_running-push (false ∷ streams) = any_running-push streams

folder_event_connected :
    (o : Option FolderCompletion) (status : Option Snapshot) (s : State)
    → (folder_event o status s).stream_connected ≡ s.stream_connected
folder_event_connected (some c) (some status) s = refl
folder_event_connected (some c) none s = refl
folder_event_connected none status s = refl

device_event_connected :
    (o : Option DeviceConnection) (status : Option Snapshot) (s : State)
    → (device_event o status s).stream_connected ≡ s.stream_connected
device_event_connected (some c) (some status) s = refl
device_event_connected (some c) none s = refl
device_event_connected none status s = refl

pending_event_connected :
    (o : Option (List PendingDevice)) (existing : List PendingDevice) (s : State)
    → (pending_event o existing s).stream_connected ≡ s.stream_connected
pending_event_connected (some (d ∷ devices)) existing s = refl
pending_event_connected (some []) existing s = refl
pending_event_connected none existing s = refl

apply_event_connected :
    (s : State) (e : SyncEvent) → (apply_event s e).stream_connected ≡ s.stream_connected
unfolding apply_event
apply_event_connected s e =
    let next = record s { last_event = some e } in
    let next_folder = folder_event e.folder_completion s.status next in
    pending_event_connected e.pending_devices s.pending_devices
      (device_event e.device_connection s.status next_folder)
    ∙ device_event_connected e.device_connection s.status next_folder
    ∙ folder_event_connected e.folder_completion s.status next

-- a stop clears the flag, or nothing was running
cancel_all_connected :
    (s : State) (streams : List Bool)
    → (s.stream_connected ≡ true → any_running streams ≡ true)
    → (cancel_all s streams).stream_connected ≡ false
unfolding cancel_all reduce
cancel_all_connected s [] h = elim (Bool-cases s.stream_connected) [
  | inl e ↦ absurd (let f : false ≡ true = h e in cc)
  | inr e ↦ e
]
cancel_all_connected s (true ∷ streams) h =
    cancel_all_connected (record s { stream_connected = false }) streams (λ e. absurd (cc))
cancel_all_connected s (false ∷ streams) h = cancel_all_connected s streams h

take_event_connected :
    (o : Option Bool) (e : SyncEvent) (s : State)
    → (take_event o e s).stream_connected ≡ s.stream_connected
unfolding reduce
take_event_connected (some true) e s = apply_event_connected s e
take_event_connected (some false) e s = refl
take_event_connected none e s = refl

end_channel-IsHonest :
    (o : Option Bool) (i : ℕ) (w : World) → IsHonest w → IsHonest (end_channel o i w)
unfolding reduce
end_channel-IsHonest (some true) i w h = λ e. absurd (cc)
end_channel-IsHonest (some false) i w h = h
end_channel-IsHonest none i w h = h

step-IsHonest : (w : World) (e : Event) → IsHonest w → IsHonest (step w e)
unfolding step reduce
step-IsHonest w started h = λ e. any_running-push w.streams
step-IsHonest w stopped h =
    λ e. absurd (let f = cancel_all_connected (reduce w.store stop_event_stream) w.streams h in cc)
step-IsHonest w (received i event) h =
    λ e. h (sym (take_event_connected (get_elem? w.streams i) event w.store) ∙ e)
step-IsHonest w (channel_ended i) h = end_channel-IsHonest (get_elem? w.streams i) i w h

run-IsHonest_from : (w : World) (events : List Event) → IsHonest w → IsHonest (run w events)
unfolding run
run-IsHonest_from w [] h = h
run-IsHonest_from w (e ∷ events) h = run-IsHonest_from (step w e) events (step-IsHonest w e h)

-- From the start of the application on, whatever streams are started, stopped and end: the slice
-- says that it is connected only while a consumer of the events runs.
pub connected_is_running :
    (events : List Event)
    → (run new events).store.stream_connected ≡ true
    → any_running (run new events).streams ≡ true
connected_is_running events =
    run-IsHonest_from new events (unfold new initial in (λ e. absurd (cc)))

any_running-set_push :
    (streams : List Bool) (i : ℕ) (b : Bool)
    → get_elem? streams i ≡ some b
    → any_running (set (streams ++ true ∷ []) i false) ≡ true
any_running-set_push [] i b e = absurd (cc)
any_running-set_push (x ∷ streams) zero b e = any_running-push streams
any_running-set_push (true ∷ streams) (suc i) b e = refl
any_running-set_push (false ∷ streams) (suc i) b e = any_running-set_push streams i b e

-- The converse fails: when a stream is started beside one that runs and the channel of the older
-- one ends, the slice says that it is not connected while the consumer of the new one runs.
pub second_stream_hidden :
    (w : World) (i : ℕ)
    → get_elem? w.streams i ≡ some true
    → let after = step (step w started) (channel_ended i) in
      (after.store.stream_connected ≡ false) × (any_running after.streams ≡ true)
unfolding step reduce
second_stream_hidden w i e =
    rw (get_elem?-append_left w.streams (true ∷ []) i true e)
      (refl, any_running-set_push w.streams i true e)
