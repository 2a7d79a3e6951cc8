-- ===== src/Store/Hotkeys.antt =====
-- frontend/src/store/slices/hotkeys: the presses and releases of the global hotkey: types.ts,
-- actions.ts, reducer.ts and subscribeHotkeysSaga.ts.
pub mod Sequence
use mozgoslav.Prelude.{ℕ, zero, suc, String, Option, none, some, ◌==◌, if◌then◌else◌}

-- the kind of a `HotkeyEventFrame`
pub data Kind : Type 0 where
  press release : Kind

-- `HotkeyEventFrame`
pub record Frame : Type 0 where
  pub kind : Kind
  pub accelerator : String
  pub observed_at : String

-- `HotkeysState`
pub record State : Type 0 where
  pub last_press : Option Frame
  pub last_release : Option Frame
  pub sequence : ℕ

unfoldable pub initial : State
initial = record { last_press = none; last_release = none; sequence = zero }

-- the actions that the reducer handles; `other` is any other one
pub data Action : Type 0 where
  hotkey_pressed hotkey_released : Frame → Action
  other : Action

-- `hotkeysReducer`
unfoldable pub reduce : State → Action → State
reduce s (hotkey_pressed f) = record s { last_press = some f; sequence = suc s.sequence }
reduce s (hotkey_released f) = record s { last_release = some f; sequence = suc s.sequence }
reduce s other = s

-- `data.hotkeyEvents`
pub record Sent : Type 0 where
  pub kind : String
  pub accelerator : String
  pub observed_at : String

abbrev pub frame_of : Kind → Sent → Frame
frame_of kind f = record { kind = kind; accelerator = f.accelerator; observed_at = f.observed_at }

-- the body of the loop of `consumeChannel`
unfoldable pub consume : State → Sent → State
consume s f =
    if f.kind == "press"
    then reduce s (hotkey_pressed (frame_of press f))
    else if f.kind == "release"
    then reduce s (hotkey_released (frame_of release f))
    else s
