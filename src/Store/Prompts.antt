-- ===== src/Store/Prompts.antt =====
-- frontend/src/store/slices/prompts: the prompt templates and the marks of the requests on them:
-- types.ts, actions.ts, reducer.ts and saga.ts.
pub mod Marks
mod Tests
use mozgoslav.Prelude.{
  String, Bool, true, false, not, Option, none, some, List, [], ◌∷◌, ◌++◌, map, ◌==◌, if◌then◌else◌,
  filter, Dict, insert, erase,
}
use mozgoslav.Store.Dictation.{Reply, data_of, thrown}

-- `PromptTemplate`
pub record Template : Type 0 where
  pub id : String
  pub name : String
  pub body : String
  pub created_at : String

-- `PromptsState`; a key of the marks stands for the value `true`
pub record State : Type 0 where
  pub templates : List Template
  pub is_loading : Bool
  pub error : Option String
  pub saving_ids : Dict (Unit {0})
  pub deleting_ids : Dict (Unit {0})
  pub preview_result : Option String
  pub is_preview_loading : Bool

unfoldable pub initial : State
initial = record {
  templates = [];
  is_loading = false;
  error = none;
  saving_ids = [];
  deleting_ids = [];
  preview_result = none;
  is_preview_loading = false;
}

-- `PromptsAction`; `other` is any other action
pub data Action : Type 0 where
  load_prompts : Action
  load_prompts_success : List Template → Action
  load_prompts_failure : (message : String) → Action
  create_prompt : (name body : String) → Action
  create_prompt_success : Template → Action
  create_prompt_failure : (message : String) → Action
  update_prompt : (id name body : String) → Action
  update_prompt_success : Template → Action
  update_prompt_failure : (message : String) → Action
  delete_prompt delete_prompt_success : (id : String) → Action
  delete_prompt_failure : (message : String) → Action
  preview_prompt : (template_body : String) → Action
  preview_prompt_success : (text : String) → Action
  preview_prompt_failure : (message : String) → Action
  preview_prompt_clear other : Action

-- `promptsReducer`
unfoldable pub reduce : State → Action → State
reduce s load_prompts = record s { is_loading = true; error = none }
reduce s (load_prompts_success templates) = record s {
  is_loading = false;
  templates = templates;
  error = none;
}
reduce s (load_prompts_failure message) = record s { is_loading = false; error = some message }
reduce s (create_prompt name body) = record s { error = none }
reduce s (create_prompt_success t) = record s { templates = s.templates ++ t ∷ [] }
reduce s (create_prompt_failure message) = record s { error = some message }
reduce s (update_prompt id name body) = record s {
  saving_ids = insert id tt s.saving_ids;
  error = none;
}
reduce s (update_prompt_success updated) = record s {
  saving_ids = erase updated.id s.saving_ids;
  templates = map (λ (t : Template). if t.id == updated.id then updated else t) s.templates;
}
reduce s (update_prompt_failure message) = record s { saving_ids = []; error = some message }
reduce s (delete_prompt id) = record s { deleting_ids = insert id tt s.deleting_ids; error = none }
reduce s (delete_prompt_success id) = record s {
  deleting_ids = erase id s.deleting_ids;
  templates = filter (λ (t : Template). not (t.id == id)) s.templates;
}
reduce s (delete_prompt_failure message) = record s { deleting_ids = []; error = some message }
reduce s (preview_prompt body) = record s { is_preview_loading = true; preview_result = none }
reduce s (preview_prompt_success text) = record s {
  is_preview_loading = false;
  preview_result = some text;
}
reduce s (preview_prompt_failure message) = record s {
  is_preview_loading = false;
  error = some message;
}
reduce s preview_prompt_clear = record s { preview_result = none; is_preview_loading = false }
reduce s other = s

-- `result.promptTemplates ?? []`
abbrev templates_or_empty : Option (List Template) → List Template
templates_or_empty none = []
templates_or_empty (some templates) = templates

-- `loadPromptsSaga`; the template that it builds has the fields of the answer's
unfoldable pub load_saga : Reply (Option (List Template)) → Action
load_saga (data_of templates) = load_prompts_success (templates_or_empty templates)
load_saga (thrown e) = load_prompts_failure e

-- `createPromptSaga`
unfoldable pub create_saga : Reply Template → Action
create_saga (data_of t) = create_prompt_success t
create_saga (thrown e) = create_prompt_failure e

-- `updatePromptSaga`
unfoldable pub update_saga : Reply (Option Template) → Action
update_saga (data_of (some t)) = update_prompt_success t
update_saga (data_of none) = update_prompt_failure "Template not found"
update_saga (thrown e) = update_prompt_failure e

-- `deletePromptSaga`
unfoldable pub delete_saga : String → Reply Bool → Action
delete_saga id (data_of deleted) =
    if deleted then delete_prompt_success id else delete_prompt_failure "Template not found"
delete_saga id (thrown e) = delete_prompt_failure e

-- `previewPromptSaga`
unfoldable pub preview_saga : Reply String → Action
preview_saga (data_of text) = preview_prompt_success text
preview_saga (thrown e) = preview_prompt_failure e
