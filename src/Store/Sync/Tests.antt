-- ===== src/Store/Sync/Tests.antt =====
-- The synchronisation slice at concrete events.
use mozgoslav.Prelude.{
  ◌≡◌, refl, true, false, none, some, [], ◌∷◌, or_else, last_keyed, find_by, DistinctBy,
}
use mozgoslav.Store.Sync.{
  State, Snapshot, PendingDevice, SyncEvent, FolderCompletion, DeviceConnection, device_id,
  merge_pending, apply_event, reduce, update_device,
}
use mozgoslav.Store.Sync.Devices.{find_by-merge_pending, folder_completion_lost}
use mozgoslav.Store.Sync.Streams

abbrev phone : PendingDevice
phone = record { device_id = "p"; name = "phone"; address = none }

abbrev renamed : PendingDevice
renamed = record { device_id = "p"; name = "telephone"; address = none }

abbrev laptop : PendingDevice
laptop = record { device_id = "l"; name = "laptop"; address = none }

abbrev vault : Snapshot
vault = record {
  folders = record { id = "f"; state = "idle"; completion_pct = 10; conflicts = 0 } ∷ [];
  devices = record { id = "p"; name = "phone"; connected = false; last_seen = none } ∷ [];
}

abbrev half : FolderCompletion
half = record { folder_id = "f"; completion_pct = 50 }

abbrev up : DeviceConnection
up = record { device_id = "p"; connected = true }

abbrev both : SyncEvent
both = record {
  id = 1;
  kind = "both";
  time = "now";
  folder_completion = some half;
  device_connection = some up;
  pending_devices = some (renamed ∷ []);
  file_conflict = none;
}

abbrev listing : State
listing = record {
  status = some vault;
  pairing = none;
  pending_devices = phone ∷ laptop ∷ [];
  last_event = none;
  stream_connected = false;
  is_loading_status = false;
  is_loading_pairing = false;
  accepting_device_id = none;
  status_error = none;
  pairing_error = none;
  accept_error = none;
}

find_by-merge_pending_example :
    find_by device_id "p" (merge_pending (phone ∷ []) (renamed ∷ []))
    ≡ or_else (last_keyed device_id "p" (renamed ∷ [])) (last_keyed device_id "p" (phone ∷ []))
find_by-merge_pending_example = find_by-merge_pending "p" (phone ∷ []) (renamed ∷ [])

listing-DistinctBy : DistinctBy device_id listing.pending_devices
listing-DistinctBy = (refl, (refl, tt))

folder_completion_lost_example :
    ((apply_event listing both).status ≡ some (update_device up vault))
    × ((update_device up vault).folders ≡ vault.folders)
folder_completion_lost_example = folder_completion_lost listing both vault half up refl refl refl

abbrev streaming : Streams.World
streaming = record { store = record listing { stream_connected = true }; streams = true ∷ [] }

is_connected : (Streams.run Streams.new (Streams.started ∷ [])).store.stream_connected ≡ true
unfolding Streams.run Streams.new Streams.step reduce
is_connected = refl

connected_is_running_example :
    Streams.any_running (Streams.run Streams.new (Streams.started ∷ [])).streams ≡ true
connected_is_running_example = Streams.connected_is_running (Streams.started ∷ []) is_connected
