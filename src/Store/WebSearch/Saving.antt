-- ===== src/Store/WebSearch/Saving.antt =====
-- How the requests of the two slices end.
use mozgoslav.Prelude.{◌≡◌, refl, false, Option, none, some, List}
use mozgoslav.Store.Dictation.{Reply, data_of, thrown}
use mozgoslav.Store.WebSearch.{
  Config, State, reduce, save_config, save_saga, SystemTemplate, SystemState, reduce_system,
  load_templates, load_templates_saga,
}

-- the configuration after a save
abbrev pub saved : Reply (Option Config) → Option Config → Option Config
saved (data_of (some config)) before = some config
saved (data_of none) before = before
saved (thrown e) before = before

-- A save of the configuration ends its flag, whatever the backend answers, and the configuration is
-- then what the backend says it is: the one that was sent is not kept, and a refused save leaves
-- the old one and no error.
pub save_ends :
    (s : State) (config : Config) (reply : Reply (Option Config))
    → let after = reduce (reduce s (save_config config)) (save_saga reply) in
      (after.is_saving ≡ false) × (after.config ≡ saved reply s.config)
unfolding reduce save_saga
save_ends s config (data_of (some answer)) = (refl, refl)
save_ends s config (data_of none) = (refl, refl)
save_ends s config (thrown e) = (refl, refl)

-- the templates and the error after a load
abbrev pub loaded : Reply (List SystemTemplate) → SystemState → SystemState
loaded (data_of templates) s = record { templates = templates; is_loading = false; error = none }
loaded (thrown e) s = record { templates = s.templates; is_loading = false; error = some e }

-- A load of the templates of the system's actions ends its flag and shows either the new templates
-- and no error, or the old ones and the error.
pub load_ends :
    (s : SystemState) (reply : Reply (List SystemTemplate))
    → reduce_system (reduce_system s load_templates) (load_templates_saga reply) ≡ loaded reply s
unfolding reduce_system load_templates_saga
load_ends s (data_of templates) = refl
load_ends s (thrown e) = refl
