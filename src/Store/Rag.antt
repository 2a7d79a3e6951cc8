-- ===== src/Store/Rag.antt =====
-- frontend/src/store/slices/rag: the chat over the notes: types.ts, actions.ts, reducer.ts and the
-- sagas behind its requests.
pub mod Chat
pub mod Asking
mod Tests
use mozgoslav.Prelude.{
  ℕ, String, Bool, true, false, Option, none, some, List, [], ◌∷◌, ◌++◌, map, ◌==◌, if◌then◌else◌,
}
use mozgoslav.Store.Dictation.{Reply, data_of, thrown}

-- `RagCitation`; the only score that the slice writes is 0
pub record Citation : Type 0 where
  pub note_id : String
  pub chunk_id : String
  pub text : String
  pub score : ℕ

-- `RagAnswer`
pub record Answer : Type 0 where
  pub answer : String
  pub llm_available : Bool
  pub citations : List Citation

-- `RagMessageRole`
pub data Role : Type 0 where
  user assistant : Role

-- `RagMessageState`
pub data MessageState : Type 0 where
  pending done error : MessageState

-- `RagMessage`
pub record Message : Type 0 where
  pub id : String
  pub role : Role
  pub content : String
  pub citations : List Citation
  pub state : MessageState
  pub llm_available : Bool

-- `RagStatus`
pub record Status : Type 0 where
  pub embedded_notes : ℕ
  pub chunks : ℕ

-- `RagState`
pub record State : Type 0 where
  pub messages : List Message
  pub is_asking : Bool
  pub error : Option String
  pub status : Option Status
  pub is_loading_status : Bool
  pub is_reindexing : Bool
  pub last_reindex_count : Option ℕ

unfoldable pub initial : State
initial = record {
  messages = [];
  is_asking = false;
  error = none;
  status = none;
  is_loading_status = false;
  is_reindexing = false;
  last_reindex_count = none;
}

-- `RagAction`; `other` is an action of another slice
pub data Action : Type 0 where
  ask_question : (question : String) (top_k : Option ℕ) → Action
  ask_pending : (user_message : Message) (pending_assistant_id : String) → Action
  ask_success : (assistant_id : String) → Answer → Action
  ask_failure : (assistant_id message : String) → Action
  reset_chat load_rag_status : Action
  load_rag_status_success : Status → Action
  load_rag_status_failure : (message : String) → Action
  reindex_rag : Action
  reindex_rag_success : (embedded_notes : ℕ) → Action
  reindex_rag_failure : (message : String) → Action
  other : Action

-- the message that waits for an answer
unfoldable pub pending_assistant : String → Message
pending_assistant id = record {
  id = id;
  role = assistant;
  content = "";
  citations = [];
  state = pending;
  llm_available = true;
}

-- one message under `ASK_SUCCESS`
abbrev pub answered : String → Answer → Message → Message
answered id a m =
    if m.id == id
    then record m {
      content = a.answer;
      citations = a.citations;
      state = done;
      llm_available = a.llm_available;
    }
    else m

-- one message under `ASK_FAILURE`
abbrev pub failed : String → String → Message → Message
failed id message m =
    if m.id == id then record m { content = message; state = error; llm_available = false } else m

abbrev recount : ℕ → Option Status → Option Status
recount n none = none
recount n (some status) = some (record status { embedded_notes = n })

-- `ragReducer`
unfoldable pub reduce : State → Action → State
unfolding pending_assistant
reduce s (ask_question question k) = record s { is_asking = true; error = none }
reduce s (ask_pending user_message id) = record s {
  messages = s.messages ++ user_message ∷ pending_assistant id ∷ [];
}
reduce s (ask_success id a) = record s {
  is_asking = false;
  error = none;
  messages = map (answered id a) s.messages;
}
reduce s (ask_failure id message) = record s {
  is_asking = false;
  error = some message;
  messages = map (failed id message) s.messages;
}
reduce s reset_chat = initial
reduce s load_rag_status = record s { is_loading_status = true }
reduce s (load_rag_status_success status) = record s {
  is_loading_status = false;
  status = some status;
}
reduce s (load_rag_status_failure message) = record s { is_loading_status = false }
reduce s reindex_rag = record s { is_reindexing = true }
reduce s (reindex_rag_success n) = record s {
  is_reindexing = false;
  last_reindex_count = some n;
  status = recount n s.status;
}
reduce s (reindex_rag_failure message) = record s { is_reindexing = false }
reduce s other = s

-- a citation of the backend's answer
pub record Cited : Type 0 where
  pub note_id : String
  pub segment_id : String
  pub text : String

-- `data.ragQuery`
pub record QueryResult : Type 0 where
  pub answer : String
  pub citations : List Cited
  pub llm_available : Bool

abbrev pub citation_of : Cited → Citation
citation_of c = record { note_id = c.note_id; chunk_id = c.segment_id; text = c.text; score = 0 }

-- the action of `askQuestionSaga` before its request
unfoldable pub ask_begin : String → String → String → Action
ask_begin question user_id id =
    ask_pending
      (record {
        id = user_id;
        role = user;
        content = question;
        citations = [];
        state = done;
        llm_available = true;
      })
      id

abbrev pub answer_of : QueryResult → Answer
answer_of r = record {
  answer = r.answer;
  llm_available = r.llm_available;
  citations = map citation_of r.citations;
}

-- the action of `askQuestionSaga` after its request
unfoldable pub ask_end : String → Reply (Option QueryResult) → Action
ask_end id (data_of none) = ask_failure id "No result returned"
ask_end id (data_of (some r)) = ask_success id (answer_of r)
ask_end id (thrown message) = ask_failure id message

-- `loadRagStatusSaga`
unfoldable pub load_status_saga : Reply Status → Action
load_status_saga (data_of status) = load_rag_status_success status
load_status_saga (thrown message) = load_rag_status_failure message

-- `reindexRagSaga`, the notifications left out
unfoldable pub reindex_saga : Reply (Option ℕ) → List Action
reindex_saga (data_of none) = reindex_rag_success 0 ∷ load_rag_status ∷ []
reindex_saga (data_of (some n)) = reindex_rag_success n ∷ load_rag_status ∷ []
reindex_saga (thrown message) = reindex_rag_failure message ∷ []
