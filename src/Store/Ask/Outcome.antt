-- ===== src/Store/Ask/Outcome.antt =====
-- A question, from its submission to the end of its saga.
use mozgoslav.Prelude.{◌≡◌, refl, String, Bool, false, List, [], ◌∷◌, ◌++◌, map, ◌==◌, eq_refl, All}
use mozgoslav.Store.Dictation.{Reply, data_of, thrown}
use mozgoslav.Store.Ask.{
  Message, State, reduce, submit_ask, pending_assistant, answered, refused, done, error,
  question_of, ask_begin, ask_end, Found,
}

-- the message that an answer leaves
abbrev pub outcome : String → Reply Found → Message
outcome id (data_of found) = record (pending_assistant id) {
  content = found.answer;
  citations = found.citations;
  state = done;
}
outcome id (thrown e) = record (pending_assistant id) { content = e; state = error }

-- no message of the list has the id
abbrev pub IsFresh : String → List Message → Type 0
IsFresh id messages = All (λ (m : Message). (m.id == id) ≡ false) messages

answered_off :
    (id : String) (found : Found) (m : Message)
    → (m.id == id) ≡ false
    → answered id found.answer found.citations m ≡ m
answered_off id found m h = rw h refl

refused_off : (id e : String) (m : Message) → (m.id == id) ≡ false → refused id e m ≡ m
refused_off id e m h = rw h refl

-- The end of a saga over the messages of the chat: the answer takes the place of the pending
-- message.
settled_messages :
    (messages : List Message) (user_id id question : String) (f : Message → Message) (m : Message)
    → ((n : Message) → (n.id == id) ≡ false → f n ≡ n)
    → IsFresh id messages
    → (user_id == id) ≡ false
    → f (pending_assistant id) ≡ m
    → map f (messages ++ question_of user_id question ∷ pending_assistant id ∷ [])
      ≡ messages ++ question_of user_id question ∷ m ∷ []
settled_messages [] user_id id question f m off fresh ne e =
    rw (off (question_of user_id question) ne, e) refl
settled_messages (n ∷ messages) user_id id question f m off (h, fresh) ne e =
    rw (off n h, settled_messages messages user_id id question f m off fresh ne e) refl

-- A question whose assistant id is new, whatever the search answers: the chat ends with the
-- question and with the answer, or the error, in place of the pending message; the messages before
-- it are as they were, and nothing is asked any more.
pub ask_ends :
    (s : State) (user_id id question : String) (web : Bool) (reply : Reply Found)
    → IsFresh id s.messages
    → (user_id == id) ≡ false
    → let begun = reduce (reduce s (submit_ask question web)) (ask_begin user_id id question) in
      let after = reduce begun (ask_end id reply) in
      (after.messages ≡ s.messages ++ question_of user_id question ∷ outcome id reply ∷ [])
      × (after.is_asking ≡ false)
unfolding reduce ask_end
ask_ends s user_id id question web (data_of found) fresh ne = (
  settled_messages s.messages user_id id question (answered id found.answer found.citations)
      (outcome id (data_of found)) (answered_off id found) fresh ne (rw (eq_refl) refl),
  refl,
)
ask_ends s user_id id question web (thrown e) fresh ne = (
  settled_messages s.messages user_id id question (refused id e) (outcome id (thrown e))
      (refused_off id e) fresh ne (rw (eq_refl) refl),
  refl,
)
