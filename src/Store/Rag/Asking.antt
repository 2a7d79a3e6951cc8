-- ===== src/Store/Rag/Asking.antt =====
-- `watchAskQuestion`: `takeLatest` keeps the task of the latest question only.
use mozgoslav.Prelude.{
  ◌≡◌, refl, sym, ap, ◌≢◌, String, false, ℕ, Option, none, some, List, [], ◌∷◌, ◌++◌, map, arith,
  eq_iff, eq_false, eq_refl, is_some, All,
}
use mathlib.Core.Option.{some-injective}
use mozgoslav.Store.Dictation.{Reply, data_of, thrown}
use mozgoslav.Store.Rag.{
  State, Message, Answer, QueryResult, done, Action, ask_question, initial, reduce, ask_begin,
  ask_end, pending_assistant, citation_of, answer_of, answered, failed,
}
use mozgoslav.Store.Rag.Chat.{find_message, find_message-append, find_message-map}

-- the slice, and the assistant message that the running task waits to answer
pub record World : Type 0 where
  pub store : State
  pub running : Option String

unfoldable pub new : World
new = record { store = initial; running = none }

-- What happens to the chat: a question with the two ids that `newId` gives, the end of the request
-- of the running task, or a reset of the chat. The reply to a cancelled task
-- reaches nobody, so there is no event for it.
pub data Event : Type 0 where
  asked : (question : String) (top_k : Option ℕ) (user_id assistant_id : String) → Event
  settled : Reply (Option QueryResult) → Event
  chat_reset : Event

abbrev settle : World → Reply (Option QueryResult) → Option String → World
settle w reply none = w
settle w reply (some id) = record { store = reduce w.store (ask_end id reply); running = none }

unfoldable pub step : World → Event → World
step w (asked question k user_id id) = record {
  store = reduce (reduce w.store (ask_question question k)) (ask_begin question user_id id);
  running = some id;
}
step w (settled reply) = settle w reply w.running
step w chat_reset = record w { store = reduce w.store Action.reset_chat }

unfoldable pub run : World → List Event → World
run w [] = w
run w (e ∷ events) = run (step w e) events

answered_id : (id : String) (a : Answer) (m : Message) → (answered id a m).id ≡ m.id
answered_id id a m = ground arith

failed_id : (id message : String) (m : Message) → (failed id message m).id ≡ m.id
failed_id id message m = ground arith

find_message_id :
    (id : String) (xs : List Message) (m : Message) → find_message id xs ≡ some m → m.id ≡ id
find_message_id id [] m e = cc
find_message_id id (x ∷ xs) m e = ground (arith, eq_iff x.id id, find_message_id id xs m)

-- an answer or an error for another message
find_message-answered :
    (id j : String) (a : Answer) (xs : List Message) (m : Message)
    → j ≢ id
    → find_message j xs ≡ some m
    → find_message j (map (answered id a) xs) ≡ some m
find_message-answered id j a xs m h e =
    rw (find_message-map (answered id a) j xs (answered_id id a), e)
      (ground (arith, eq_iff m.id id, find_message_id j xs m e))

find_message-failed :
    (id j message : String) (xs : List Message) (m : Message)
    → j ≢ id
    → find_message j xs ≡ some m
    → find_message j (map (failed id message) xs) ≡ some m
find_message-failed id j message xs m h e =
    rw (find_message-map (failed id message) j xs (failed_id id message), e)
      (ground (arith, eq_iff m.id id, find_message_id j xs m e))

find_message-ask_end :
    (id j : String) (reply : Reply (Option QueryResult)) (s : State) (m : Message)
    → j ≢ id
    → find_message j s.messages ≡ some m
    → find_message j (reduce s (ask_end id reply)).messages ≡ some m
unfolding reduce ask_end
find_message-ask_end id j (data_of none) s m h e = find_message-failed id j _ s.messages m h e
find_message-ask_end id j (data_of (some r)) s m h e = find_message-answered id j _ s.messages m h e
find_message-ask_end id j (thrown message) s m h e =
    find_message-failed id j message s.messages m h e

-- events that neither clear the chat nor ask under an id
abbrev pub Spares : String → Event → Type 0
Spares id (asked question k user_id assistant_id) = assistant_id ≢ id
Spares id (settled reply) = Unit
Spares id chat_reset = ⊥

spared_settle :
    (id : String) (m : Message) (w : World) (reply : Reply (Option QueryResult))
    (running : Option String)
    → find_message id w.store.messages ≡ some m
    → w.running ≡ running
    → running ≢ some id
    → (find_message id (settle w reply running).store.messages ≡ some m)
      × ((settle w reply running).running ≢ some id)
spared_settle id m w reply none f same r = (f, rw same r)
spared_settle id m w reply (some j) f same r =
    (find_message-ask_end j id reply w.store m (λ e. r (ap some (sym e))) f, λ e. cc)

spared_step :
    (id : String) (m : Message) (w : World) (e : Event)
    → find_message id w.store.messages ≡ some m
    → w.running ≢ some id
    → Spares id e
    → (find_message id (step w e).store.messages ≡ some m) × ((step w e).running ≢ some id)
unfolding step reduce ask_begin
spared_step id m w (asked question k user_id assistant_id) f r h = (
  rw (find_message-append id w.store.messages _, f) refl,
  λ e. h (some-injective assistant_id id e),
)
spared_step id m w (settled reply) f r h = spared_settle id m w reply w.running f refl r
spared_step id m w chat_reset f r h = absurd h

spared_run :
    (id : String) (m : Message) (w : World) (events : List Event)
    → find_message id w.store.messages ≡ some m
    → w.running ≢ some id
    → All (Spares id) events
    → find_message id (run w events).store.messages ≡ some m
unfolding run
spared_run id m w [] f r h = f
spared_run id m w (e ∷ events) f r h =
    let next = spared_step id m w e f r h.0 in spared_run id m (step w e) events next.0 next.1 h.1

-- A question that another one replaces before its answer comes is never answered: its assistant
-- message stays pending through every later question and answer, until the chat is reset. The ids
-- of the messages are fresh.
pub superseded_question_hangs :
    (w : World) (first second : String) (k l : Option ℕ) (user_id id later_user later : String)
    (events : List Event)
    → find_message id w.store.messages ≡ none
    → user_id ≢ id
    → later ≢ id
    → All (Spares id) events
    → let both = step (step w (asked first k user_id id)) (asked second l later_user later) in
      find_message id (run both events).store.messages ≡ some (pending_assistant id)
unfolding step reduce ask_begin
superseded_question_hangs w first second k l user_id id later_user later events f u h spared =
    spared_run id (pending_assistant id)
      (step (step w (asked first k user_id id)) (asked second l later_user later)) events
      (rw
        (
          find_message-append id (w.store.messages ++ _) _,
          find_message-append id w.store.messages _,
        )
        (ground (arith, eq_iff user_id id, eq_iff id id)))
      (λ e. h (some-injective later id e)) spared

-- The answer to a question: after a question with fresh ids and the end of its request, the
-- assistant message is done with the backend's answer, the chat no longer asks, no task is
-- running, and every message that stood there before is as it was.
pub ask_round_trip :
    (w : World) (question : String) (k : Option ℕ) (user_id id : String) (r : QueryResult)
    → find_message id w.store.messages ≡ none
    → user_id ≢ id
    → let after = step (step w (asked question k user_id id)) (settled (data_of (some r))) in
      (find_message id after.store.messages
        ≡ some (record (pending_assistant id) {
          content = r.answer;
          citations = map citation_of r.citations;
          state = done;
          llm_available = r.llm_available;
        }))
      × (after.store.is_asking ≡ false)
      × (after.running ≡ none)
      × ((j : String) (m : Message)
          → find_message j w.store.messages ≡ some m
          → find_message j after.store.messages ≡ some m)
unfolding step reduce ask_begin ask_end pending_assistant
ask_round_trip w question k user_id id r f u = (
  rw
      (
        find_message-map (answered id (answer_of r)) id _ (answered_id id (answer_of r)),
        find_message-append id w.store.messages _,
        f,
        eq_false user_id id u,
        eq_refl,
      )
      (rw (eq_refl) refl),
  refl,
  refl,
  λ j m e.
      find_message-answered id j _ _ m (λ same. absurd (cc))
        (rw (find_message-append j w.store.messages _, e) refl),
)

-- only a running task makes the chat ask
abbrev IsServed : World → Type 0
IsServed w = is_some w.running ≡ false → w.store.is_asking ≡ false

ask_end_stops :
    (id : String) (reply : Reply (Option QueryResult)) (s : State)
    → (reduce s (ask_end id reply)).is_asking ≡ false
unfolding reduce ask_end
ask_end_stops id (data_of none) s = refl
ask_end_stops id (data_of (some r)) s = refl
ask_end_stops id (thrown message) s = refl

settle_stops :
    (w : World) (reply : Reply (Option QueryResult)) (running : Option String)
    → (is_some running ≡ false → w.store.is_asking ≡ false)
    → (settle w reply running).store.is_asking ≡ false
settle_stops w reply none h = h refl
settle_stops w reply (some id) h = ask_end_stops id reply w.store

step-IsServed : (w : World) (e : Event) → IsServed w → IsServed (step w e)
unfolding step reduce initial
step-IsServed w (asked question k user_id id) h e = absurd (cc)
step-IsServed w (settled reply) h e = settle_stops w reply w.running h
step-IsServed w chat_reset h e = refl

run-IsServed : (w : World) (events : List Event) → IsServed w → IsServed (run w events)
unfolding run
run-IsServed w [] h = h
run-IsServed w (e ∷ events) h = run-IsServed (step w e) events (step-IsServed w e h)

-- Whatever has happened to the chat, the end of the running request (an answer, no answer or an
-- exception) leaves it not asking.
pub settled_ends_asking :
    (events : List Event) (reply : Reply (Option QueryResult))
    → (step (run new events) (settled reply)).store.is_asking ≡ false
unfolding step
settled_ends_asking events reply =
    settle_stops (run new events) reply (run new events).running
      (run-IsServed new events (unfold new initial in (λ e. refl)))
