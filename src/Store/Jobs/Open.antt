-- ===== src/Store/Jobs/Open.antt =====
-- When the stream of jobs is open, and what arrives on it.
use mozgoslav.Prelude.{
  ◌≡◌, refl, Bool, true, false, Option, some, List, [], ◌∷◌, lookup, lookup-insert, arith, eq_iff,
}
use mozgoslav.Store.Dictation.{Reply}
use mozgoslav.Store.Jobs.{
  State, initial, reduce, set_streaming, upsert_job, stream_opened, stream_closed, job_updated,
}
use mozgoslav.Store.Jobs.Keys.{IsValid, initial-IsValid, reduce-IsValid}
use mozgoslav.Store.Jobs.Sagas.{GqlJob, map_gql_job}
use mozgoslav.Store.Jobs.Stream.{
  Phase, idle, seeding, listening, World, new, Event, subscribed, unsubscribed, channel_ended,
  answered, received, close_stream, seed, step, run, is_open,
}

abbrev pub IsShown : World → Type 0
IsShown w = w.store.is_streaming ≡ is_open w.phase

close_stream-IsShown :
    (p : Phase) (s : State) → s.is_streaming ≡ is_open p → (close_stream p s).is_streaming ≡ false
unfolding reduce set_streaming
close_stream-IsShown (listening true) s h = refl
close_stream-IsShown (listening false) s h = h
close_stream-IsShown seeding s h = h
close_stream-IsShown idle s h = h

step-IsShown :
    (s : State) (p : Phase) (e : Event)
    → s.is_streaming ≡ is_open p
    → IsShown (step (record { store = s; phase = p }) e)
unfolding step reduce set_streaming upsert_job
step-IsShown s p subscribed h = close_stream-IsShown p s h
step-IsShown s (listening on) unsubscribed h = close_stream-IsShown (listening on) s h
step-IsShown s seeding unsubscribed h = h
step-IsShown s idle unsubscribed h = h
step-IsShown s (listening on) channel_ended h = close_stream-IsShown (listening on) s h
step-IsShown s seeding channel_ended h = h
step-IsShown s idle channel_ended h = h
step-IsShown s (listening on) (answered reply) h = h
step-IsShown s seeding (answered reply) h = refl
step-IsShown s idle (answered reply) h = h
step-IsShown s (listening true) (received j) h = h
step-IsShown s (listening false) (received j) h = h
step-IsShown s seeding (received j) h = h
step-IsShown s idle (received j) h = h

run-IsShown : (w : World) (events : List Event) → IsShown w → IsShown (run w events)
unfolding run
run-IsShown w [] h = h
run-IsShown w (e ∷ events) h = run-IsShown (step w e) events (step-IsShown w.store w.phase e h)

-- Whatever happens from the start, the slice says that it streams exactly while a consumer runs.
pub streaming_is_open : (events : List Event) → IsShown (run new events)
unfolding new initial
streaming_is_open events = run-IsShown new events refl

-- An unsubscription while the first list is awaited is lost: whatever the answer is, the stream
-- is opened by it, and a job that arrives then is stored.
pub unsubscribe_while_seeding :
    (s : State) (reply : Reply (Option (List GqlJob))) (j : GqlJob)
    → let left = step (record { store = s; phase = seeding }) unsubscribed in
      let late = step left (answered reply) in
      (late.store.is_streaming ≡ true)
      × (lookup j.id (step late (received j)).store.by_id ≡ some (map_gql_job j).core)
unfolding step reduce set_streaming upsert_job map_gql_job
unsubscribe_while_seeding s reply j = (
  refl,
  rw
      (lookup-insert j.id j.id (map_gql_job j).core
        (reduce (reduce s (seed reply)) stream_opened).by_id)
      (ground (arith, eq_iff j.id j.id)),
)

-- no event of the list is a subscription
abbrev pub no_subscription : List Event → Bool
no_subscription [] = true
no_subscription (subscribed ∷ events) = false
no_subscription (_ ∷ events) = no_subscription events

-- After an unsubscription that a listening saga takes, nothing changes the jobs until the next
-- subscription.
idle_is_silent :
    (s : State) (events : List Event)
    → no_subscription events ≡ true
    → (run (record { store = s; phase = idle }) events).store ≡ s
unfolding run step
idle_is_silent s [] h = refl
idle_is_silent s (subscribed ∷ events) h = ground (arith, h)
idle_is_silent s (unsubscribed ∷ events) h = idle_is_silent s events h
idle_is_silent s (channel_ended ∷ events) h = idle_is_silent s events h
idle_is_silent s (answered reply ∷ events) h = idle_is_silent s events h
idle_is_silent s (received j ∷ events) h = idle_is_silent s events h

pub unsubscribed_is_silent :
    (s : State) (on : Bool) (events : List Event)
    → no_subscription events ≡ true
    → (run (record { store = s; phase = listening on }) (unsubscribed ∷ events)).store
      ≡ close_stream (listening on) s
unfolding run step
unsubscribed_is_silent s on events h = idle_is_silent (close_stream (listening on) s) events h

close_stream-IsValid : (p : Phase) (s : State) → IsValid s → IsValid (close_stream p s)
close_stream-IsValid (listening true) s v = reduce-IsValid s stream_closed v
close_stream-IsValid (listening false) s v = v
close_stream-IsValid seeding s v = v
close_stream-IsValid idle s v = v

step-IsValid :
    (s : State) (p : Phase) (e : Event)
    → IsValid s
    → IsValid (step (record { store = s; phase = p }) e).store
unfolding step
step-IsValid s p subscribed v = close_stream-IsValid p s v
step-IsValid s (listening on) unsubscribed v = close_stream-IsValid (listening on) s v
step-IsValid s seeding unsubscribed v = v
step-IsValid s idle unsubscribed v = v
step-IsValid s p channel_ended v = close_stream-IsValid p s v
step-IsValid s (listening on) (answered reply) v = v
step-IsValid s seeding (answered reply) v =
    reduce-IsValid (reduce s (seed reply)) stream_opened (reduce-IsValid s (seed reply) v)
step-IsValid s idle (answered reply) v = v
step-IsValid s (listening true) (received j) v = reduce-IsValid s (job_updated (map_gql_job j)) v
step-IsValid s (listening false) (received j) v = v
step-IsValid s seeding (received j) v = v
step-IsValid s idle (received j) v = v

run-IsValid : (w : World) (events : List Event) → IsValid w.store → IsValid (run w events).store
unfolding run
run-IsValid w [] v = v
run-IsValid w (e ∷ events) v = run-IsValid (step w e) events (step-IsValid w.store w.phase e v)

-- Whatever the backend sends and in whatever order, every job of the slice stands under its own
-- id, every pending upload under its temporary id, and no key is listed twice.
pub streamed-IsValid : (events : List Event) → IsValid (run new events).store
unfolding new
streamed-IsValid events = run-IsValid new events initial-IsValid
