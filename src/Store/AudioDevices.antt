-- ===== src/Store/AudioDevices.antt =====
-- frontend/src/store/slices/audioDevices: the changes of the audio devices: types.ts, actions.ts,
-- reducer.ts and subscribeAudioDevicesSaga.ts.
pub mod Counter
use mozgoslav.Prelude.{
  ℕ, zero, suc, String, Bool, Option, none, some, List, [], ◌∷◌, ◌==◌, if◌then◌else◌,
}

-- `AudioDevice`
pub record AudioDevice : Type 0 where
  pub name : String
  pub is_default : Bool

-- `AudioDeviceChangeEvent`
pub record ChangeEvent : Type 0 where
  pub id : ℕ
  pub kind : String
  pub default_name : String

-- `AudioDevicesState`
pub record State : Type 0 where
  pub last_change : Option ChangeEvent

unfoldable pub initial : State
initial = record { last_change = none }

-- the action that the reducer handles; `other` is any other one
pub data Action : Type 0 where
  audio_device_changed : ChangeEvent → Action
  other : Action

-- `audioDevicesReducer`
unfoldable pub reduce : State → Action → State
reduce s (audio_device_changed e) = record s { last_change = some e }
reduce s other = s

-- `data.audioDeviceChanged`
pub record Sent : Type 0 where
  pub kind : String
  pub devices : List AudioDevice

-- the slice and the counter of the module
pub record Counted : Type 0 where
  pub store : State
  pub counter : ℕ

unfoldable pub new : Counted
new = record { store = initial; counter = zero }

-- `payload.devices.find((d) => d.isDefault)?.name`
abbrev pub default_device : List AudioDevice → Option String
default_device [] = none
default_device (d ∷ devices) = if d.is_default then some d.name else default_device devices

-- `payload.devices[0]?.name ?? "unknown"`
abbrev pub first_device : List AudioDevice → String
first_device [] = "unknown"
first_device (d ∷ devices) = d.name

unfoldable pub default_name : List AudioDevice → String
default_name devices = elim (default_device devices) [
  | some name ↦ name
  | none ↦ first_device devices
]

-- the body of the loop of `consumeChannel`
unfoldable pub consume : Counted → Sent → Counted
consume w p = if p.kind == "snapshot" then w else record {
  counter = suc w.counter;
  store = reduce w.store (
      audio_device_changed
        (record { id = suc w.counter; kind = p.kind; default_name = default_name p.devices }));
}
