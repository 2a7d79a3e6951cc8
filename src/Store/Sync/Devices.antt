-- ===== src/Store/Sync/Devices.antt =====
-- The devices that wait to be accepted, and what an event changes.
use mozgoslav.Prelude.{
  ◌≡◌, refl, String, not, Option, none, some, List, [], ◌∷◌, ◌==◌, arith, if◌then◌else◌, or_else,
  lookup-empty, index_by, index_by-Keyed, index_by-Unique, lookup-index_by, last_keyed, Keyed-empty,
  find_by, DistinctBy, find_by-values, DistinctBy-values, DistinctBy-filter, find_by-without,
}
use mozgoslav.Store.Sync.{
  State, Snapshot, PendingDevice, SyncEvent, FolderCompletion, DeviceConnection, Action, device_id,
  merge_pending, folder_event, device_event, pending_event, apply_event, reduce, update_device,
  load_status, load_status_success, load_status_failure, load_pairing, load_pairing_success,
  load_pairing_failure, accept_device, accept_device_success, accept_device_failure,
  start_event_stream, stop_event_stream, event_stream_connected, event_stream_disconnected,
  event_received, other,
}

merge_pending-DistinctBy :
    (existing incoming : List PendingDevice)
    → DistinctBy device_id (merge_pending existing incoming)
unfolding merge_pending
merge_pending-DistinctBy existing incoming =
    let old = index_by device_id [] existing in
    DistinctBy-values device_id (index_by device_id old incoming)
      (index_by-Unique device_id old incoming (index_by-Unique device_id [] existing tt))
      (index_by-Keyed device_id old incoming
        (index_by-Keyed device_id [] existing (Keyed-empty device_id)))

-- Merging reads as a union in which the new entry of a device wins: a device is listed after it if
-- it is in one of the lists, with the entry of the incoming list when that has one.
pub find_by-merge_pending :
    (id : String) (existing incoming : List PendingDevice)
    → find_by device_id id (merge_pending existing incoming)
      ≡ or_else (last_keyed device_id id incoming) (last_keyed device_id id existing)
unfolding merge_pending
find_by-merge_pending id existing incoming =
    let old = index_by device_id [] existing in
    rw
      (
        find_by-values device_id id (index_by device_id old incoming)
            (index_by-Unique device_id old incoming (index_by-Unique device_id [] existing tt))
            (index_by-Keyed device_id old incoming
              (index_by-Keyed device_id [] existing (Keyed-empty device_id))),
        lookup-index_by device_id id old incoming,
        lookup-index_by device_id id [] existing,
      )
      (ground (arith, lookup-empty {V = PendingDevice} id))

folder_event_pending :
    (o : Option FolderCompletion) (status : Option Snapshot) (s : State)
    → (folder_event o status s).pending_devices ≡ s.pending_devices
folder_event_pending (some c) (some status) s = refl
folder_event_pending (some c) none s = refl
folder_event_pending none status s = refl

device_event_pending :
    (o : Option DeviceConnection) (status : Option Snapshot) (s : State)
    → (device_event o status s).pending_devices ≡ s.pending_devices
device_event_pending (some c) (some status) s = refl
device_event_pending (some c) none s = refl
device_event_pending none status s = refl

abbrev IsListed : State → Type 0
IsListed s = DistinctBy device_id s.pending_devices

pending_event-IsListed :
    (o : Option (List PendingDevice)) (existing : List PendingDevice) (s : State)
    → IsListed s
    → IsListed (pending_event o existing s)
pending_event-IsListed (some (d ∷ devices)) existing s h =
    merge_pending-DistinctBy existing (d ∷ devices)
pending_event-IsListed (some []) existing s h = h
pending_event-IsListed none existing s h = h

apply_event-IsListed : (s : State) (e : SyncEvent) → IsListed s → IsListed (apply_event s e)
unfolding apply_event
apply_event-IsListed s e h =
    let next = folder_event e.folder_completion s.status (record s { last_event = some e }) in
    pending_event-IsListed e.pending_devices s.pending_devices
      (device_event e.device_connection s.status next)
      (rw
        (
          device_event_pending e.device_connection s.status next,
          folder_event_pending e.folder_completion s.status (record s { last_event = some e }),
        )
        h)

-- No device is listed twice among the pending ones, whatever the slice is told.
pub reduce-DistinctBy :
    (s : State) (a : Action)
    → DistinctBy device_id s.pending_devices
    → DistinctBy device_id (reduce s a).pending_devices
unfolding reduce
reduce-DistinctBy s load_status h = h
reduce-DistinctBy s (load_status_success x) h = h
reduce-DistinctBy s (load_status_failure e) h = h
reduce-DistinctBy s load_pairing h = h
reduce-DistinctBy s (load_pairing_success p) h = h
reduce-DistinctBy s (load_pairing_failure e) h = h
reduce-DistinctBy s (accept_device d) h = h
reduce-DistinctBy s (accept_device_success id) h =
    DistinctBy-filter device_id (λ d. not (device_id d == id)) s.pending_devices h
reduce-DistinctBy s (accept_device_failure id e) h = h
reduce-DistinctBy s start_event_stream h = h
reduce-DistinctBy s stop_event_stream h = h
reduce-DistinctBy s event_stream_connected h = h
reduce-DistinctBy s event_stream_disconnected h = h
reduce-DistinctBy s (event_received event) h = apply_event-IsListed s event h
reduce-DistinctBy s other h = h

-- An accepted device is taken out of the pending ones, and every other device stays.
pub accepted-find_by :
    (s : State) (gone id : String)
    → find_by device_id id (reduce s (accept_device_success gone)).pending_devices
      ≡ (if gone == id then none else find_by device_id id s.pending_devices)
unfolding reduce
accepted-find_by s gone id = find_by-without device_id gone id s.pending_devices

pending_event_status :
    (o : Option (List PendingDevice)) (existing : List PendingDevice) (s : State)
    → (pending_event o existing s).status ≡ s.status
pending_event_status (some (d ∷ devices)) existing s = refl
pending_event_status (some []) existing s = refl
pending_event_status none existing s = refl

-- An event that reports both the completion of a folder and the connection of a device changes the
-- device only: the second change starts from the old snapshot, so the completion is lost.
pub folder_completion_lost :
    (s : State) (event : SyncEvent) (status : Snapshot) (f : FolderCompletion)
    (d : DeviceConnection)
    → s.status ≡ some status
    → event.folder_completion ≡ some f
    → event.device_connection ≡ some d
    → ((apply_event s event).status ≡ some (update_device d status))
      × ((update_device d status).folders ≡ status.folders)
unfolding apply_event update_device
folder_completion_lost s event status f d h g k = (rw (pending_event_status, h, g, k) refl, refl)
