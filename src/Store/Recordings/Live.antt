-- ===== src/Store/Recordings/Live.antt =====
-- The live transcripts: `liveTranscriptSubscribeSaga` under `takeEvery`, with its consumer.
use mozgoslav.Prelude.{
  ℕ, zero, suc, ◌≡◌, refl, ◌≢◌, sym, ◌∙◌, String, Bool, true, false, not, ◌||◌, Option, none, some,
  List, [], ◌∷◌, ◌++◌, ◌==◌, arith, eq_iff, if◌then◌else◌, if_cases, eq_false, lookup,
  lookup-insert, lookup-erase, lookup-empty, get_elem?, set, filter,
}
use mozgoslav.Store.Recordings.{
  State, initial, reduce, live_transcript_partial, live_transcript_cleared,
}

-- a saga that waits for its unsubscription, with whether its consumer still runs
pub record Subscription : Type 0 where
  pub recording_id : String
  pub running : Bool

pub record World : Type 0 where
  pub store : State
  pub live : List Subscription

unfoldable pub new : World
new = record { store = initial; live = [] }

-- `data.recordingPartials`
pub record Partial : Type 0 where
  pub recording_id : String
  pub text : String
  pub observed_at : String

-- What happens: the two actions, data on the channel of one of the sagas, the end of it.
pub data Event : Type 0 where
  subscribed unsubscribed : (recording_id : String) → Event
  received : (saga : ℕ) → Option Partial → Event
  channel_ended : (saga : ℕ) → Event

-- the `finally` block of every saga of a recording
unfoldable pub clear_all : String → List Subscription → State → State
unfolding reduce
clear_all id [] s = s
clear_all id (l ∷ live) s =
    clear_all id live
      (if l.recording_id == id then reduce s (live_transcript_cleared l.recording_id) else s)

-- the body of the consumer's loop
abbrev pub consume : Option Subscription → Option Partial → State → State
consume (some l) (some p) s =
    if l.running
    then if p.recording_id == l.recording_id
      then reduce s (live_transcript_partial l.recording_id p.text p.observed_at)
      else s
    else s
consume (some l) none s = s
consume none p s = s

abbrev pub end_consumer : Option Subscription → ℕ → List Subscription → List Subscription
end_consumer (some l) saga live = set live saga (record l { running = false })
end_consumer none saga live = live

unfoldable pub step : World → Event → World
unfolding clear_all
step w (subscribed id) = record w {
  live = w.live ++ record { recording_id = id; running = true } ∷ [];
}
step w (unsubscribed id) = record {
  store = clear_all id w.live w.store;
  live = filter (λ (l : Subscription). not (l.recording_id == id)) w.live;
}
step w (received saga p) = record w { store = consume (get_elem? w.live saga) p w.store }
step w (channel_ended saga) = record w { live = end_consumer (get_elem? w.live saga) saga w.live }

unfoldable pub run : World → List Event → World
run w [] = w
run w (e ∷ events) = run (step w e) events

-- a saga of a recording waits
abbrev pub follows : String → List Subscription → Bool
follows id [] = false
follows id (l ∷ live) = (l.recording_id == id) || follows id live

-- a live text is shown only of recordings that are followed
abbrev IsFollowed : World → Type 0
IsFollowed w = (id : String) → follows id w.live ≡ false → lookup id w.store.live_partials ≡ none

follows-push :
    (id : String) (live : List Subscription) (l : Subscription)
    → follows id (live ++ l ∷ []) ≡ (follows id live || (l.recording_id == id))
follows-push id [] l = ground arith
follows-push id (x ∷ live) l = ground (arith, follows-push id live l)

follows-filter :
    (gone id : String) (live : List Subscription)
    → follows id (filter (λ (l : Subscription). not (l.recording_id == gone)) live)
      ≡ (if gone == id then false else follows id live)
follows-filter gone id [] = ground arith
follows-filter gone id (l ∷ live) = ground (
  arith,
  follows-filter gone id live,
  eq_iff l.recording_id gone,
  eq_iff l.recording_id id,
  eq_iff gone id,
)

follows-set :
    (id : String) (live : List Subscription) (i : ℕ) (l m : Subscription)
    → get_elem? live i ≡ some l
    → m.recording_id ≡ l.recording_id
    → follows id (set live i m) ≡ follows id live
follows-set id [] i l m e h = refl
follows-set id (x ∷ live) zero l m e h = ground (arith, e, h)
follows-set id (x ∷ live) (suc i) l m e h = ground (arith, follows-set id live i l m e h)

follows-get :
    (live : List Subscription) (i : ℕ) (l : Subscription)
    → get_elem? live i ≡ some l
    → follows l.recording_id live ≡ true
follows-get [] i l e = cc
follows-get (x ∷ live) zero l e = ground (arith, e, eq_iff x.recording_id l.recording_id)
follows-get (x ∷ live) (suc i) l e = ground (arith, follows-get live i l e)

-- what a clean-up finds under an id
lookup-clear_all :
    (gone id : String) (live : List Subscription) (s : State)
    → lookup id (clear_all gone live s).live_partials ≡ (
        if gone == id
        then (if follows gone live then none else lookup id s.live_partials)
        else lookup id s.live_partials)
unfolding clear_all reduce
lookup-clear_all gone id [] s = ground arith
lookup-clear_all gone id (l ∷ live) s =
    let next =
      if l.recording_id == gone then reduce s (live_transcript_cleared l.recording_id) else s in
    rw (lookup-clear_all gone id live next) (
      ground (
        arith,
        lookup-erase l.recording_id id s.live_partials,
        eq_iff l.recording_id gone,
        eq_iff l.recording_id id,
        eq_iff gone id,
      ))

consume_followed :
    (id : String) (o : Option Subscription) (p : Option Partial) (s : State)
    → ((l : Subscription) → o ≡ some l → l.recording_id ≢ id)
    → lookup id s.live_partials ≡ none
    → lookup id (consume o p s).live_partials ≡ none
unfolding reduce
consume_followed id (some l) (some p) s h e =
    if_cases (λ (t : State). lookup id t.live_partials ≡ none) l.running
      (λ _.
        if_cases (λ (t : State). lookup id t.live_partials ≡ none)
          (p.recording_id == l.recording_id)
          (λ _.
            rw
              (
                lookup-insert l.recording_id id
                    (record { text = p.text; observed_at = p.observed_at }) s.live_partials,
                eq_false l.recording_id id (h l refl),
              )
              e)
          (λ _. e))
      (λ _. e)
consume_followed id (some l) none s h e = e
consume_followed id none p s h e = e

follows-end_consumer :
    (id : String) (live : List Subscription) (i : ℕ) (o : Option Subscription)
    → get_elem? live i ≡ o
    → follows id (end_consumer o i live) ≡ follows id live
follows-end_consumer id live i (some l) e =
    follows-set id live i l (record l { running = false }) e refl
follows-end_consumer id live i none e = refl

step-IsFollowed : (w : World) (e : Event) → IsFollowed w → IsFollowed (step w e)
unfolding step
step-IsFollowed w (subscribed id) h j f =
    h j (ground (arith, follows-push j w.live (record { recording_id = id; running = true }), f))
step-IsFollowed w (unsubscribed id) h j f =
    rw (lookup-clear_all id j w.live w.store)
      (ground (arith, follows-filter id j w.live, f, h j, eq_iff id j))
step-IsFollowed w (received saga p) h j f =
    consume_followed j (get_elem? w.live saga) p w.store
      (λ l e same. ground (arith, follows-get w.live saga l e, same, f)) (h j f)
step-IsFollowed w (channel_ended saga) h j f =
    h j (sym (follows-end_consumer j w.live saga (get_elem? w.live saga) refl) ∙ f)

run-IsFollowed : (w : World) (events : List Event) → IsFollowed w → IsFollowed (run w events)
unfolding run
run-IsFollowed w [] h = h
run-IsFollowed w (e ∷ events) h = run-IsFollowed (step w e) events (step-IsFollowed w e h)

new-IsFollowed : IsFollowed new
unfolding new initial
new-IsFollowed id f = lookup-empty id

-- A recording that nobody follows shows no live text: whatever is subscribed, unsubscribed, received
-- and ended, a text stands under the id of a recording only while a saga of that recording waits
-- for its unsubscription.
pub unfollowed_is_silent :
    (events : List Event) (id : String)
    → follows id (run new events).live ≡ false
    → lookup id (run new events).store.live_partials ≡ none
unfollowed_is_silent events id f = run-IsFollowed new events new-IsFollowed id f

-- An unsubscription ends every saga of its recording and takes its text away, and leaves the sagas
-- and the texts of the others.
pub unsubscribed_clears :
    (events : List Event) (gone id : String)
    → let w = run new events in
      let after = step w (unsubscribed gone) in
      (follows id after.live ≡ (if gone == id then false else follows id w.live))
      × (lookup id after.store.live_partials
          ≡ (if gone == id then none else lookup id w.store.live_partials))
unfolding step
unsubscribed_clears events gone id = (
  follows-filter gone id (run new events).live,
  rw (lookup-clear_all gone id (run new events).live (run new events).store)
      (ground (arith, unfollowed_is_silent events id, eq_iff gone id)),
)
