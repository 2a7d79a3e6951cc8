-- ===== src/Store/Routines/Tests.antt =====
-- The routines at concrete requests.
use mozgoslav.Prelude.{Bool, true, false, none, [], ◌∷◌}
use mozgoslav.Store.Routines.{Routine, State}

abbrev daily : Bool → Routine
daily on = record {
  key = "daily";
  display_name = "Daily";
  description = "";
  is_enabled = on;
  last_run = none;
}

abbrev weekly : Routine
weekly = record {
  key = "weekly";
  display_name = "Weekly";
  description = "";
  is_enabled = true;
  last_run = none;
}

abbrev both : State
both = record {
  routines = daily false ∷ weekly ∷ [];
  is_loading = false;
  error = none;
  toggling_keys = [];
  running_keys = [];
}
