-- ===== src/Store/WebSearch.antt =====
-- frontend/src/store/slices/webSearch and frontend/src/store/slices/systemActions: two slices of one
-- request each, and the saving of the configuration of the web search.
pub mod Saving
use mozgoslav.Prelude.{ℕ, String, Bool, true, false, Option, none, some, List, []}
use mozgoslav.Store.Dictation.{Reply, data_of, thrown}

-- `WebSearchConfig`
pub record Config : Type 0 where
  pub ddg_enabled : Bool
  pub yandex_enabled : Bool
  pub google_enabled : Bool
  pub cache_ttl_hours : ℕ
  pub raw_settings_yaml : String

-- `WebSearchState`
pub record State : Type 0 where
  pub config : Option Config
  pub is_loading : Bool
  pub is_saving : Bool

unfoldable pub initial : State
initial = record { config = none; is_loading = false; is_saving = false }

-- `WebSearchAction`; `other` is any other action
pub data Action : Type 0 where
  load_config : Action
  load_config_success : Config → Action
  load_config_failure : Action
  save_config save_config_success : Config → Action
  save_config_failure other : Action

-- `webSearchReducer`
unfoldable pub reduce : State → Action → State
reduce s load_config = record s { is_loading = true }
reduce s (load_config_success config) = record s { is_loading = false; config = some config }
reduce s load_config_failure = record s { is_loading = false }
reduce s (save_config config) = record s { is_saving = true }
reduce s (save_config_success config) = record s { is_saving = false; config = some config }
reduce s save_config_failure = record s { is_saving = false }
reduce s other = s

-- `loadWebSearchConfigSaga`
unfoldable pub load_saga : Reply Config → Action
load_saga (data_of config) = load_config_success config
load_saga (thrown e) = load_config_failure

-- `saveWebSearchConfigSaga`; of the payload only the configuration is read
unfoldable pub save_saga : Reply (Option Config) → Action
save_saga (data_of (some config)) = save_config_success config
save_saga (data_of none) = save_config_failure
save_saga (thrown e) = save_config_failure

-- `SystemActionTemplate`
pub record SystemTemplate : Type 0 where
  pub name : String
  pub description : String
  pub deeplink_url : String

-- `SystemActionsState`
pub record SystemState : Type 0 where
  pub templates : List SystemTemplate
  pub is_loading : Bool
  pub error : Option String

unfoldable pub initial_system : SystemState
initial_system = record { templates = []; is_loading = false; error = none }

-- `SystemActionsAction`; `other_system` is any other action
pub data SystemAction : Type 0 where
  load_templates : SystemAction
  load_templates_success : List SystemTemplate → SystemAction
  load_templates_failure : (message : String) → SystemAction
  other_system : SystemAction

-- `systemActionsReducer`
unfoldable pub reduce_system : SystemState → SystemAction → SystemState
reduce_system s load_templates = record s { is_loading = true; error = none }
reduce_system s (load_templates_success templates) = record s {
  is_loading = false;
  templates = templates;
}
reduce_system s (load_templates_failure message) = record s {
  is_loading = false;
  error = some message;
}
reduce_system s other_system = s

-- `loadSystemActionTemplatesSaga`
unfoldable pub load_templates_saga : Reply (List SystemTemplate) → SystemAction
load_templates_saga (data_of templates) = load_templates_success templates
load_templates_saga (thrown e) = load_templates_failure e
