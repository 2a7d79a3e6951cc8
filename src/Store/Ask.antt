-- ===== src/Store/Ask.antt =====
-- frontend/src/store/slices/ask: the chat of the ask overlay over notes, vault and web: actions.ts,
-- reducer.ts and saga.ts, with features/Ask/types.ts.
pub mod Outcome
mod Tests
use mozgoslav.Prelude.{
  String, Bool, true, false, Option, none, some, List, [], ◌∷◌, ◌++◌, map, ◌==◌, if◌then◌else◌,
}
use mozgoslav.Store.Dictation.{Reply, data_of, thrown}

-- the source of a citation; a text that is none of the three is let through by the cast
pub data Source : Type 0 where
  corpus vault web : Source
  unknown : String → Source

-- `UnifiedCitation`
pub record Citation : Type 0 where
  pub source : Source
  pub reference : String
  pub snippet : String
  pub url : Option String

pub data Role : Type 0 where
  user assistant : Role

pub data MessageState : Type 0 where
  pending done error : MessageState

-- `AskMessage`
pub record Message : Type 0 where
  pub id : String
  pub role : Role
  pub content : String
  pub citations : List Citation
  pub state : MessageState

-- `AskState`
pub record State : Type 0 where
  pub messages : List Message
  pub is_asking : Bool
  pub error : Option String

unfoldable pub initial : State
initial = record { messages = []; is_asking = false; error = none }

-- `AskAction`; `other` is any other action
pub data Action : Type 0 where
  submit_ask : (question : String) (include_web : Bool) → Action
  ask_pending : (user_message : Message) (pending_assistant_id : String) → Action
  ask_success : (assistant_id answer : String) → List Citation → Action
  ask_failure : (assistant_id message : String) → Action
  other : Action

abbrev pub pending_assistant : String → Message
pending_assistant id = record {
  id = id;
  role = assistant;
  content = "";
  citations = [];
  state = pending;
}

abbrev pub answered : String → String → List Citation → Message → Message
answered id answer citations m =
    if m.id == id then record m { content = answer; citations = citations; state = done } else m

abbrev pub refused : String → String → Message → Message
refused id message m = if m.id == id then record m { content = message; state = error } else m

-- `askReducer`
unfoldable pub reduce : State → Action → State
reduce s (submit_ask question include_web) = record s { is_asking = true; error = none }
reduce s (ask_pending user_message id) = record s {
  messages = s.messages ++ user_message ∷ pending_assistant id ∷ [];
}
reduce s (ask_success id answer citations) = record s {
  is_asking = false;
  error = none;
  messages = map (answered id answer citations) s.messages;
}
reduce s (ask_failure id message) = record s {
  is_asking = false;
  error = some message;
  messages = map (refused id message) s.messages;
}
reduce s other = s

-- `UnifiedSearchResult`
pub record Found : Type 0 where
  pub answer : String
  pub citations : List Citation

abbrev pub question_of : String → String → Message
question_of id question = record {
  id = id;
  role = user;
  content = question;
  citations = [];
  state = done;
}

-- `submitAskSaga` up to its request, with the two ids that `newId` makes
abbrev pub ask_begin : String → String → String → Action
ask_begin user_id assistant_id question = ask_pending (question_of user_id question) assistant_id

-- `submitAskSaga` after its request; its citations are those of the result, field by field
unfoldable pub ask_end : String → Reply Found → Action
ask_end id (data_of found) = ask_success id found.answer found.citations
ask_end id (thrown e) = ask_failure id e
