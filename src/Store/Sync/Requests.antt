-- ===== src/Store/Sync/Requests.antt =====
-- The request sagas of saga.ts and the mapping of what the backend sends.
use mozgoslav.Prelude.{
  ℕ, ◌≡◌, ◌≢◌, ◌↔◌, refl, String, false, Option, none, some, List, [], ◌∷◌, map,
}
use mozgoslav.Store.Dictation.{Reply, data_of, thrown}
use mozgoslav.Store.Sync.{
  State, Snapshot, Pairing, PendingDevice, FolderCompletion, DeviceConnection, FileConflict,
  SyncEvent, Action, reduce, reduce_all, load_status, load_status_success, load_status_failure,
  load_pairing_success, load_pairing_failure, accept_device, accept_device_success,
  accept_device_failure,
}

-- `loadStatusSaga` after its request. `mapGqlStatus` copies a status field by field, so the model's
-- snapshot stands for both.
unfoldable pub load_status_saga : Reply (Option Snapshot) → List Action
load_status_saga (data_of (some snapshot)) = load_status_success snapshot ∷ []
load_status_saga (data_of none) = []
load_status_saga (thrown e) = load_status_failure e ∷ []

-- `loadPairingSaga` after its request
unfoldable pub load_pairing_saga : Reply (Option Pairing) → List Action
load_pairing_saga (data_of (some p)) = load_pairing_success p ∷ []
load_pairing_saga (data_of none) = []
load_pairing_saga (thrown e) = load_pairing_failure e ∷ []

-- `acceptDeviceSaga` after its request; the answer is the list of error messages, since `accepted`
-- is not read
unfoldable pub accept_device_saga : String → Reply (List String) → List Action
accept_device_saga id (data_of (message ∷ _)) = accept_device_failure id message ∷ []
accept_device_saga id (data_of []) = accept_device_success id ∷ []
accept_device_saga id (thrown e) = accept_device_failure id e ∷ []

-- an entry of `pendingDevices.added`
pub record AddedDevice : Type 0 where
  pub device_id : String
  pub name : Option String
  pub address : Option String

-- `syncEvents`, the fields that the client reads; `removed` is one that it does not
pub record SyncMessage (Raw : Type 0) : Type 0 where
  pub id : Raw
  pub kind : String
  pub time : String
  pub folder_completion : Option FolderCompletion
  pub device_connection : Option DeviceConnection
  pub added : Option (List AddedDevice)
  pub removed : List String
  pub file_conflict : Option FileConflict

-- `e.name ?? ""`
abbrev name_or_empty : Option String → String
name_or_empty none = ""
name_or_empty (some name) = name

abbrev pub added_device : AddedDevice → PendingDevice
added_device e = record {
  device_id = e.device_id;
  name = name_or_empty e.name;
  address = e.address;
}

-- `mapGqlEvent`; `Number` is the argument
unfoldable pub map_event : {Raw : Type 0} → (Raw → ℕ) → SyncMessage Raw → SyncEvent
map_event number m = record {
  id = number m.id;
  kind = m.kind;
  time = m.time;
  folder_completion = m.folder_completion;
  device_connection = m.device_connection;
  pending_devices = elim m.added [ none ↦ none | some added ↦ some (map added_device added) ];
  file_conflict = m.file_conflict;
}

-- A request for the status ends its loading flag exactly if the backend has a status or fails: an
-- answer without a status leaves the slice loading for ever.
pub load_status_settles :
    (s : State) (reply : Reply (Option Snapshot))
    → ((reduce_all (reduce s load_status) (load_status_saga reply)).is_loading_status ≡ false)
      ↔ (reply ≢ data_of none)
unfolding reduce reduce_all load_status_saga
load_status_settles s (data_of (some snapshot)) = (λ e. λ f. cc, λ f. refl)
load_status_settles s (data_of none) = (λ e. absurd (cc), λ f. absurd (f refl))
load_status_settles s (thrown e) = (λ x. λ f. cc, λ f. refl)

-- An acceptance always ends: after the backend's answer or failure no device is being accepted,
-- and the pending devices change only if there was no error.
pub accept_device_settles :
    (s : State) (d : PendingDevice) (reply : Reply (List String))
    → let after = reduce_all (reduce s (accept_device d)) (accept_device_saga d.device_id reply) in
      (after.accepting_device_id ≡ none)
      × (reply ≢ data_of [] → after.pending_devices ≡ s.pending_devices)
unfolding reduce reduce_all accept_device_saga
accept_device_settles s d (data_of (message ∷ rest)) = (refl, λ h. refl)
accept_device_settles s d (data_of []) = (refl, λ h. absurd (h refl))
accept_device_settles s d (thrown e) = (refl, λ h. refl)
