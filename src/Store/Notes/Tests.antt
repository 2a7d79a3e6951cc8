-- ===== src/Store/Notes/Tests.antt =====
-- The notes at concrete requests.
use mozgoslav.Prelude.{String, false, none, [], ◌∷◌}
use mozgoslav.Store.Notes.{ProcessedNote, State, idea}

abbrev thought : String → ProcessedNote
thought id = record {
  id = id;
  transcript_id = "";
  profile_id = "";
  version = 1;
  summary = "";
  key_points = [];
  decisions = [];
  action_items = [];
  unresolved_questions = [];
  participants = [];
  topic = "";
  conversation_type = idea;
  clean_transcript = "";
  full_transcript = "";
  tags = [];
  markdown_content = "# thought";
  exported_to_vault = false;
  vault_path = none;
  created_at = "now";
}

abbrev two : State
two = record {
  by_id = ("a", thought "a") ∷ ("b", thought "b") ∷ [];
  is_loading_list = false;
  is_submitting = false;
  deleting_ids = [];
  exporting_ids = [];
  last_list_error = none;
}
