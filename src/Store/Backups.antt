-- ===== src/Store/Backups.antt =====
-- frontend/src/store/slices/backups: the backups: types.ts, actions.ts, reducer.ts and the sagas, without
-- their notifications.
pub mod Ends
use mozgoslav.Prelude.{ℕ, zero, String, Bool, true, false, Option, none, some, List, [], ◌∷◌}
use mozgoslav.Store.Dictation.{Reply, data_of, thrown}

-- `BackupFile`
pub record BackupFile : Type 0 where
  pub name : String
  pub path : String
  pub size_bytes : ℕ
  pub created_at : String

-- `BackupsState`
pub record State : Type 0 where
  pub items : List BackupFile
  pub is_loading : Bool
  pub is_creating : Bool

unfoldable pub initial : State
initial = record { items = []; is_loading = false; is_creating = false }

-- `BackupsAction`; `other` is any other action
pub data Action : Type 0 where
  load_backups : Action
  load_backups_success : List BackupFile → Action
  load_backups_failure : (message : String) → Action
  create_backup : Action
  create_backup_success : BackupFile → Action
  create_backup_failure : (message : String) → Action
  other : Action

-- `backupsReducer`
unfoldable pub reduce : State → Action → State
reduce s load_backups = record s { is_loading = true }
reduce s (load_backups_success items) = record s { is_loading = false; items = items }
reduce s (load_backups_failure message) = record s { is_loading = false }
reduce s create_backup = record s { is_creating = true }
reduce s (create_backup_success item) = record s { is_creating = false }
reduce s (create_backup_failure message) = record s { is_creating = false }
reduce s other = s

-- `loadBackupsSaga`; the sizes of the answer are numbers already
unfoldable pub load_saga : Reply (List BackupFile) → Action
load_saga (data_of items) = load_backups_success items
load_saga (thrown e) = load_backups_failure e

-- `result.createBackup`: the backup, if any, and the messages of the errors
pub record Payload : Type 0 where
  pub backup : Option BackupFile
  pub errors : List String

abbrev pub backup_or_empty : Option BackupFile → BackupFile
backup_or_empty (some dto) = dto
backup_or_empty none = record { name = ""; path = ""; size_bytes = zero; created_at = "" }

-- `createBackupSaga`: the list is loaded again after a backup
unfoldable pub create_saga : Reply Payload → List Action
create_saga (data_of p) = elim p.errors [
  | message ∷ _ ↦ create_backup_failure message ∷ []
  | [] ↦ create_backup_success (backup_or_empty p.backup) ∷ load_backups ∷ []
]
create_saga (thrown e) = create_backup_failure e ∷ []

unfoldable pub reduce_all : State → List Action → State
reduce_all s [] = s
reduce_all s (a ∷ actions) = reduce_all (reduce s a) actions
