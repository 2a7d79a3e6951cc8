-- ===== src/Store/Sync.antt =====
-- frontend/src/store/slices/sync: the state of the file synchronisation: types.ts, actions.ts,
-- reducer.ts and the request sagas of saga.ts. Percentages and counts are only stored.
pub mod Devices
pub mod Requests
pub mod Streams
mod Tests
use mozgoslav.Prelude.{
  ℕ, String, Bool, true, false, not, Option, none, some, List, [], ◌∷◌, map, ◌==◌, if◌then◌else◌,
  values, filter, index_by,
}
use mozgoslav.Store.Dictation.{Reply, data_of, thrown}

-- `SyncFolderSnapshot`
pub record Folder : Type 0 where
  pub id : String
  pub state : String
  pub completion_pct : ℕ
  pub conflicts : ℕ

-- `SyncDeviceSnapshot`
pub record Device : Type 0 where
  pub id : String
  pub name : String
  pub connected : Bool
  pub last_seen : Option String

-- `SyncStatusSnapshot`
pub record Snapshot : Type 0 where
  pub folders : List Folder
  pub devices : List Device

-- `SyncPairingPayload`
pub record Pairing : Type 0 where
  pub device_id : String
  pub folder_ids : List String
  pub uri : String

-- `SyncPendingDevice`
pub record PendingDevice : Type 0 where
  pub device_id : String
  pub name : String
  pub address : Option String

-- `SyncFolderCompletion`
pub record FolderCompletion : Type 0 where
  pub folder_id : String
  pub completion_pct : ℕ

-- `SyncDeviceConnection`
pub record DeviceConnection : Type 0 where
  pub device_id : String
  pub connected : Bool

-- `SyncFileConflict`
pub record FileConflict : Type 0 where
  pub folder_id : String
  pub path : String

-- `SyncEvent`
pub record SyncEvent : Type 0 where
  pub id : ℕ
  pub kind : String
  pub time : String
  pub folder_completion : Option FolderCompletion
  pub device_connection : Option DeviceConnection
  pub pending_devices : Option (List PendingDevice)
  pub file_conflict : Option FileConflict

-- `SyncState`
pub record State : Type 0 where
  pub status : Option Snapshot
  pub pairing : Option Pairing
  pub pending_devices : List PendingDevice
  pub last_event : Option SyncEvent
  pub stream_connected : Bool
  pub is_loading_status : Bool
  pub is_loading_pairing : Bool
  pub accepting_device_id : Option String
  pub status_error : Option String
  pub pairing_error : Option String
  pub accept_error : Option String

unfoldable pub initial : State
initial = record {
  status = none;
  pairing = none;
  pending_devices = [];
  last_event = none;
  stream_connected = false;
  is_loading_status = false;
  is_loading_pairing = false;
  accepting_device_id = none;
  status_error = none;
  pairing_error = none;
  accept_error = none;
}

-- `SyncAction`; the reducer has no case for the two actions that start and stop the stream, and
-- `other` is an action of another slice
pub data Action : Type 0 where
  load_status : Action
  load_status_success : Snapshot → Action
  load_status_failure : (message : String) → Action
  load_pairing : Action
  load_pairing_success : Pairing → Action
  load_pairing_failure : (message : String) → Action
  accept_device : PendingDevice → Action
  accept_device_success : (device_id : String) → Action
  accept_device_failure : (device_id error : String) → Action
  start_event_stream stop_event_stream event_stream_connected event_stream_disconnected : Action
  event_received : SyncEvent → Action
  other : Action

unfoldable pub update_folder : FolderCompletion → Snapshot → Snapshot
update_folder c s = record s {
  folders =
      map
        (λ (f : Folder).
          if f.id == c.folder_id then record f { completion_pct = c.completion_pct } else f)
        s.folders;
}

unfoldable pub update_device : DeviceConnection → Snapshot → Snapshot
update_device c s = record s {
  devices =
      map (λ (d : Device). if d.id == c.device_id then record d { connected = c.connected } else d)
        s.devices;
}

abbrev pub device_id : PendingDevice → String
device_id d = d.device_id

-- a map of the old entries into which the new ones are set
unfoldable pub merge_pending : List PendingDevice → List PendingDevice → List PendingDevice
merge_pending existing incoming =
    values (index_by device_id (index_by device_id [] existing) incoming)

-- the first `if` of `applyEvent`, at `state.status`
abbrev pub folder_event : Option FolderCompletion → Option Snapshot → State → State
folder_event (some c) (some status) next = record next { status = some (update_folder c status) }
folder_event none status next = next
folder_event (some c) none next = next

-- the second one
abbrev pub device_event : Option DeviceConnection → Option Snapshot → State → State
device_event (some c) (some status) next = record next { status = some (update_device c status) }
device_event none status next = next
device_event (some c) none next = next

-- the third one
abbrev pub pending_event : Option (List PendingDevice) → List PendingDevice → State → State
pending_event (some (d ∷ devices)) existing next = record next {
  pending_devices = merge_pending existing (d ∷ devices);
}
pending_event (some []) existing next = next
pending_event none existing next = next

-- `applyEvent`
unfoldable pub apply_event : State → SyncEvent → State
apply_event s event =
    let next = record s { last_event = some event } in
    let next_folder = folder_event event.folder_completion s.status next in
    let next_device = device_event event.device_connection s.status next_folder in
    pending_event event.pending_devices s.pending_devices next_device

-- `syncReducer`
unfoldable pub reduce : State → Action → State
reduce s load_status = record s { is_loading_status = true; status_error = none }
reduce s (load_status_success snapshot) = record s {
  is_loading_status = false;
  status = some snapshot;
  status_error = none;
}
reduce s (load_status_failure e) = record s { is_loading_status = false; status_error = some e }
reduce s load_pairing = record s { is_loading_pairing = true; pairing_error = none }
reduce s (load_pairing_success p) = record s {
  is_loading_pairing = false;
  pairing = some p;
  pairing_error = none;
}
reduce s (load_pairing_failure e) = record s { is_loading_pairing = false; pairing_error = some e }
reduce s (accept_device d) = record s {
  accepting_device_id = some d.device_id;
  accept_error = none;
}
reduce s (accept_device_success id) = record s {
  accepting_device_id = none;
  pending_devices = filter (λ d. not (device_id d == id)) s.pending_devices;
}
reduce s (accept_device_failure id e) = record s {
  accepting_device_id = none;
  accept_error = some e;
}
reduce s event_stream_connected = record s { stream_connected = true }
reduce s event_stream_disconnected = record s { stream_connected = false }
reduce s (event_received event) = apply_event s event
reduce s start_event_stream = s
reduce s stop_event_stream = s
reduce s other = s

unfoldable pub reduce_all : State → List Action → State
reduce_all s [] = s
reduce_all s (a ∷ acts) = reduce_all (reduce s a) acts
