-- ===== src/Store/Notes.antt =====
-- frontend/src/store/slices/notes: the notes, and the marks of the requests that run on them:
-- types.ts, actions.ts, reducer.ts, selectors.ts and the sagas.
pub mod Marks
mod Tests
use mozgoslav.Prelude.{
  ℕ, String, Bool, true, false, Option, none, some, List, [], ◌∷◌, Dict, lookup, insert, erase,
  values, index_by,
}
use mozgoslav.Store.Dictation.{Reply, data_of, thrown}

-- `ActionItem`
pub record ActionItem : Type 0 where
  pub person : String
  pub task : String
  pub deadline : Option String

-- `ConversationType`
pub data ConversationType : Type 0 where
  meeting one_on_one idea personal other_conversation : ConversationType

-- `ProcessedNote`, to which the sagas cast what a query selects
pub record ProcessedNote : Type 0 where
  pub id : String
  pub transcript_id : String
  pub profile_id : String
  pub version : ℕ
  pub summary : String
  pub key_points : List String
  pub decisions : List String
  pub action_items : List ActionItem
  pub unresolved_questions : List String
  pub participants : List String
  pub topic : String
  pub conversation_type : ConversationType
  pub clean_transcript : String
  pub full_transcript : String
  pub tags : List String
  pub markdown_content : String
  pub exported_to_vault : Bool
  pub vault_path : Option String
  pub created_at : String

-- `NotesState`; a key of the marks stands for the value `true`
pub record State : Type 0 where
  pub by_id : Dict ProcessedNote
  pub is_loading_list : Bool
  pub is_submitting : Bool
  pub deleting_ids : Dict (Unit {0})
  pub exporting_ids : Dict (Unit {0})
  pub last_list_error : Option String

unfoldable pub initial : State
initial = record {
  by_id = [];
  is_loading_list = false;
  is_submitting = false;
  deleting_ids = [];
  exporting_ids = [];
  last_list_error = none;
}

-- `NotesAction`; the reducer has no case for a request of one note nor for its failure, and `other`
-- is an action of another slice
pub data Action : Type 0 where
  load_notes : Action
  load_notes_success : List ProcessedNote → Action
  load_notes_failure : (error : String) → Action
  load_note : (id : String) → Action
  load_note_success : ProcessedNote → Action
  load_note_failure : (id error : String) → Action
  delete_note delete_note_success : (id : String) → Action
  delete_note_failure : (id error : String) → Action
  create_note : (title body : String) → Action
  create_note_success : ProcessedNote → Action
  create_note_failure : (error : String) → Action
  export_note : (id : String) → Action
  export_note_success : ProcessedNote → Action
  export_note_failure : (id error : String) → Action
  other : Action

abbrev pub note_id : ProcessedNote → String
note_id n = n.id

-- `notesReducer`
unfoldable pub reduce : State → Action → State
reduce s load_notes = record s { is_loading_list = true; last_list_error = none }
reduce s (load_notes_success notes) = record s {
  by_id = index_by note_id [] notes;
  is_loading_list = false;
}
reduce s (load_notes_failure e) = record s { is_loading_list = false; last_list_error = some e }
reduce s (load_note_success n) = record s { by_id = insert n.id n s.by_id }
reduce s (delete_note id) = record s { deleting_ids = insert id tt s.deleting_ids }
reduce s (delete_note_success id) = record s {
  by_id = erase id s.by_id;
  deleting_ids = erase id s.deleting_ids;
}
reduce s (delete_note_failure id e) = record s { deleting_ids = erase id s.deleting_ids }
reduce s (create_note title body) = record s { is_submitting = true }
reduce s (create_note_success n) = record s { by_id = insert n.id n s.by_id; is_submitting = false }
reduce s (create_note_failure e) = record s { is_submitting = false }
reduce s (export_note id) = record s { exporting_ids = insert id tt s.exporting_ids }
reduce s (export_note_success n) = record s {
  by_id = insert n.id n s.by_id;
  exporting_ids = erase n.id s.exporting_ids;
}
reduce s (export_note_failure id e) = record s { exporting_ids = erase id s.exporting_ids }
reduce s (load_note id) = s
reduce s (load_note_failure id e) = s
reduce s other = s

unfoldable pub select_all_notes : State → List ProcessedNote
select_all_notes s = values s.by_id

unfoldable pub select_note_by_id : String → State → Option ProcessedNote
select_note_by_id id s = lookup id s.by_id

-- `result.notes?.nodes ?? []`
abbrev pub nodes_or_empty : Option (List ProcessedNote) → List ProcessedNote
nodes_or_empty none = []
nodes_or_empty (some nodes) = nodes

-- `loadNotesSaga` after its request
unfoldable pub load_notes_saga : Reply (Option (List ProcessedNote)) → Action
load_notes_saga (data_of nodes) = load_notes_success (nodes_or_empty nodes)
load_notes_saga (thrown e) = load_notes_failure e

-- `loadNoteSaga` after its request
unfoldable pub load_note_saga : String → Reply (Option ProcessedNote) → Action
load_note_saga id (data_of none) = load_note_failure id "not found"
load_note_saga id (data_of (some n)) = load_note_success n
load_note_saga id (thrown e) = load_note_failure id e

-- `deleteNoteSaga` after its request, the notifications left out here and below
unfoldable pub delete_note_saga : String → Reply (Unit {0}) → Action
delete_note_saga id (data_of _) = delete_note_success id
delete_note_saga id (thrown e) = delete_note_failure id e

-- the message of the exception that the reducer throws when it reads the id of a missing note,
-- which comes back to the saga from its `put`
abbrev pub missing_note : String
missing_note = "Cannot read properties of null (reading 'id')"

-- `createNoteSaga` after its request; the answer is cast to a note, its errors are not read
unfoldable pub create_note_saga : Reply (Option ProcessedNote) → Action
create_note_saga (data_of (some n)) = create_note_success n
create_note_saga (data_of none) = create_note_failure missing_note
create_note_saga (thrown e) = create_note_failure e

-- `exportNoteSaga` after its request, in the same way
unfoldable pub export_note_saga : String → Reply (Option ProcessedNote) → Action
export_note_saga id (data_of (some n)) = export_note_success n
export_note_saga id (data_of none) = export_note_failure id missing_note
export_note_saga id (thrown e) = export_note_failure id e
