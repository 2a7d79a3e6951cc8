-- ===== src/Store/Jobs/Stream.antt =====
-- The stream of jobs: `subscribeJobsSaga` under `takeLatest`, with its consumer.
use mozgoslav.Prelude.{Bool, true, false, Option, none, some, List, [], ◌∷◌, map}
use mozgoslav.Store.Dictation.{Reply, data_of, thrown}
use mozgoslav.Store.Jobs.{
  State, initial, Action, reduce, jobs_seeded, jobs_seed_failed, job_updated, stream_opened,
  stream_closed,
}
use mozgoslav.Store.Jobs.Sagas.{GqlJob, map_gql_job}

-- Where the saga is: none runs, it waits for the first list, or it waits for its unsubscription
-- while the consumer runs or has ended.
pub data Phase : Type 0 where
  idle seeding : Phase
  listening : (consuming : Bool) → Phase

pub record World : Type 0 where
  pub store : State
  pub phase : Phase

unfoldable pub new : World
new = record { store = initial; phase = idle }

-- What happens: the two actions, the answer to the query (its nodes may be missing), a job on the
-- channel, the end of the channel.
pub data Event : Type 0 where
  subscribed unsubscribed channel_ended : Event
  answered : Reply (Option (List GqlJob)) → Event
  received : GqlJob → Event

-- the `finally` block of the consumer, when it is cancelled or its channel ends
abbrev pub close_stream : Phase → State → State
close_stream (listening true) s = reduce s stream_closed
close_stream (listening false) s = s
close_stream seeding s = s
close_stream idle s = s

-- `result.jobs?.nodes ?? []`
abbrev pub nodes_or_empty : Option (List GqlJob) → List GqlJob
nodes_or_empty none = []
nodes_or_empty (some nodes) = nodes

-- the first `try` statement of `subscribeJobsSaga`
abbrev pub seed : Reply (Option (List GqlJob)) → Action
seed (data_of nodes) = jobs_seeded (map map_gql_job (nodes_or_empty nodes))
seed (thrown e) = jobs_seed_failed e

-- an unsubscription is taken only by a saga that waits for it
abbrev pub leave : Phase → World → World
leave (listening on) w = record { store = close_stream (listening on) w.store; phase = idle }
leave seeding w = w
leave idle w = w

-- the list arrives, and the channel is opened
abbrev pub open_stream : Phase → Reply (Option (List GqlJob)) → World → World
open_stream seeding reply w = record {
  store = reduce (reduce w.store (seed reply)) stream_opened;
  phase = listening true;
}
open_stream (listening on) reply w = w
open_stream idle reply w = w

abbrev pub consume : Phase → GqlJob → State → State
consume (listening true) j s = reduce s (job_updated (map_gql_job j))
consume (listening false) j s = s
consume seeding j s = s
consume idle j s = s

abbrev pub end_consumer : Phase → Phase
end_consumer (listening on) = listening false
end_consumer seeding = seeding
end_consumer idle = idle

unfoldable pub step : World → Event → World
unfolding reduce
step w subscribed = record { store = close_stream w.phase w.store; phase = seeding }
step w unsubscribed = leave w.phase w
step w (answered reply) = open_stream w.phase reply w
step w (received j) = record w { store = consume w.phase j w.store }
step w channel_ended = record { store = close_stream w.phase w.store; phase = end_consumer w.phase }

unfoldable pub run : World → List Event → World
run w [] = w
run w (e ∷ events) = run (step w e) events

abbrev pub is_open : Phase → Bool
is_open (listening on) = on
is_open seeding = false
is_open idle = false
