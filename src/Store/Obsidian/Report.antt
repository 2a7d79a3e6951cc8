-- ===== src/Store/Obsidian/Report.antt =====
-- frontend/src/domain/obsidian/types.ts and frontend/src/store/slices/obsidian/diagnosticsMapper.ts: the
-- report of the diagnostics. The report of the backend has the same fields; what it leaves
-- undefined is none.
use mozgoslav.Prelude.{◌≡◌, refl, String, Bool, Option, List, [], ◌∷◌, map}

-- `CheckSeverity`
pub data CheckSeverity : Type 0 where
  severity_ok advisory warning severity_error : CheckSeverity

-- `DiagnosticAction`
pub data DiagnosticAction : Type 0 where
  open_onboarding reinstall_plugins reapply_bootstrap refresh_rest_token open_lm_studio_help
        open_settings :
      DiagnosticAction

-- `BootstrapDriftStatus`
pub data BootstrapDriftStatus : Type 0 where
  drift_ok missing outdated user_modified extra : BootstrapDriftStatus

-- `VaultPathCheck`
pub record VaultPathCheck : Type 0 where
  pub ok : Bool
  pub severity : CheckSeverity
  pub code : String
  pub message : String
  pub actions : List DiagnosticAction
  pub vault_path : String

-- `PluginCheck`
pub record PluginCheck : Type 0 where
  pub plugin_id : String
  pub installed : Bool
  pub enabled : Bool
  pub hash_matches : Bool
  pub optional : Bool
  pub expected_version : String
  pub installed_version : Option String
  pub severity : CheckSeverity
  pub code : String
  pub message : String
  pub actions : List DiagnosticAction
  pub ok : Bool

-- `TemplaterSettingsCheck`
pub record TemplaterSettingsCheck : Type 0 where
  pub ok : Bool
  pub severity : CheckSeverity
  pub code : String
  pub message : String
  pub actions : List DiagnosticAction
  pub templates_folder : Option String
  pub user_scripts_folder : Option String

-- `BootstrapFileDrift`
pub record BootstrapFileDrift : Type 0 where
  pub vault_relative_path : String
  pub status : BootstrapDriftStatus
  pub expected_sha256 : String
  pub actual_sha256 : Option String

-- `BootstrapDriftCheck`
pub record BootstrapDriftCheck : Type 0 where
  pub ok : Bool
  pub severity : CheckSeverity
  pub code : String
  pub message : String
  pub actions : List DiagnosticAction
  pub files : List BootstrapFileDrift

-- `RestApiCheck`
pub record RestApiCheck : Type 0 where
  pub ok : Bool
  pub required : Bool
  pub severity : CheckSeverity
  pub code : String
  pub message : String
  pub actions : List DiagnosticAction
  pub host : Option String
  pub version : Option String

-- `LmStudioCheck`
pub record LmStudioCheck : Type 0 where
  pub ok : Bool
  pub severity : CheckSeverity
  pub code : String
  pub message : String
  pub actions : List DiagnosticAction
  pub endpoint : Option String

-- `VaultDiagnosticsReport`
pub record VaultDiagnosticsReport : Type 0 where
  pub snapshot_id : String
  pub vault : VaultPathCheck
  pub plugins : List PluginCheck
  pub templater : TemplaterSettingsCheck
  pub bootstrap : BootstrapDriftCheck
  pub rest_api : RestApiCheck
  pub lm_studio : LmStudioCheck
  pub generated_at : String
  pub is_healthy : Bool

unfoldable pub map_vault : VaultPathCheck → VaultPathCheck
map_vault c = record {
  ok = c.ok;
  severity = c.severity;
  code = c.code;
  message = c.message;
  actions = c.actions;
  vault_path = c.vault_path;
}

unfoldable pub map_plugin : PluginCheck → PluginCheck
map_plugin p = record {
  plugin_id = p.plugin_id;
  installed = p.installed;
  enabled = p.enabled;
  hash_matches = p.hash_matches;
  optional = p.optional;
  expected_version = p.expected_version;
  installed_version = p.installed_version;
  severity = p.severity;
  code = p.code;
  message = p.message;
  actions = p.actions;
  ok = p.ok;
}

unfoldable pub map_templater : TemplaterSettingsCheck → TemplaterSettingsCheck
map_templater c = record {
  ok = c.ok;
  severity = c.severity;
  code = c.code;
  message = c.message;
  actions = c.actions;
  templates_folder = c.templates_folder;
  user_scripts_folder = c.user_scripts_folder;
}

unfoldable pub map_file : BootstrapFileDrift → BootstrapFileDrift
map_file f = record {
  vault_relative_path = f.vault_relative_path;
  status = f.status;
  expected_sha256 = f.expected_sha256;
  actual_sha256 = f.actual_sha256;
}

unfoldable pub map_bootstrap : BootstrapDriftCheck → BootstrapDriftCheck
map_bootstrap c = record {
  ok = c.ok;
  severity = c.severity;
  code = c.code;
  message = c.message;
  actions = c.actions;
  files = map map_file c.files;
}

unfoldable pub map_rest_api : RestApiCheck → RestApiCheck
map_rest_api c = record {
  ok = c.ok;
  required = c.required;
  severity = c.severity;
  code = c.code;
  message = c.message;
  actions = c.actions;
  host = c.host;
  version = c.version;
}

unfoldable pub map_lm_studio : LmStudioCheck → LmStudioCheck
map_lm_studio c = record {
  ok = c.ok;
  severity = c.severity;
  code = c.code;
  message = c.message;
  actions = c.actions;
  endpoint = c.endpoint;
}

unfoldable pub map_gql_diagnostics : VaultDiagnosticsReport → VaultDiagnosticsReport
map_gql_diagnostics gql = record {
  snapshot_id = gql.snapshot_id;
  generated_at = gql.generated_at;
  is_healthy = gql.is_healthy;
  vault = map_vault gql.vault;
  plugins = map map_plugin gql.plugins;
  templater = map_templater gql.templater;
  bootstrap = map_bootstrap gql.bootstrap;
  rest_api = map_rest_api gql.rest_api;
  lm_studio = map_lm_studio gql.lm_studio;
}

map_file-id : (files : List BootstrapFileDrift) → map map_file files ≡ files
unfolding map_file
map_file-id [] = refl
map_file-id (f ∷ files) = rw (map_file-id files) refl

map_plugin-id : (plugins : List PluginCheck) → map map_plugin plugins ≡ plugins
unfolding map_plugin
map_plugin-id [] = refl
map_plugin-id (p ∷ plugins) = rw (map_plugin-id plugins) refl

-- The mapping loses and mixes up nothing: every field of the backend's report arrives as it was
-- sent.
pub map_gql_diagnostics_id : (r : VaultDiagnosticsReport) → map_gql_diagnostics r ≡ r
unfolding map_gql_diagnostics map_vault map_templater map_bootstrap map_rest_api map_lm_studio
map_gql_diagnostics_id r = rw (map_file-id r.bootstrap.files, map_plugin-id r.plugins) refl
