-- ===== src/Electron/Hotkey.antt =====
-- frontend/electron/dictation/HotkeyMonitor.ts: mouse and keyboard events become presses and releases.
-- `start` awaits the import of the hook, which settles later; the hook calls each listener that was
-- added to it.
pub mod Alternation
mod Tests
use mozgoslav.Prelude.{
  ℕ, zero, suc, ◌+◌, ◌-◌, Bool, true, false, not, ◌&&◌, ◌||◌, Option, none, some, List, [], ◌∷◌,
  if◌then◌else◌, eqb, is_some,
}

pub data Source : Type 0 where
  mouse keyboard : Source

-- `HotkeyEvent`
pub data HotkeyEvent : Type 0 where
  press release : (source : Source) → HotkeyEvent

-- The fields of the class, the imports that are awaited, the listeners at the hook (counted, as each
-- start adds one of each kind), and the events emitted, the latest first. Those of the keyboard are
-- added only if there is a key code.
pub record Monitor : Type 0 where
  pub started : Bool
  pub has_hook : Bool
  pub pressed : Bool
  pub mouse_button : Option ℕ
  pub keyboard_fallback_keycode : Option ℕ
  pub imports : ℕ
  pub listeners : ℕ
  pub emitted : List HotkeyEvent

-- the constructor
unfoldable pub new : Option ℕ → Option ℕ → Monitor
new button keycode = record {
  started = false;
  has_hook = false;
  pressed = false;
  mouse_button = button;
  keyboard_fallback_keycode = keycode;
  imports = 0;
  listeners = 0;
  emitted = [];
}

-- `setMouseButton`
unfoldable pub set_mouse_button : Option ℕ → Monitor → Monitor
set_mouse_button button m = record m { mouse_button = button }

-- `start` up to its `await`
unfoldable pub start : Monitor → Monitor
start m = if m.started then m else record m { imports = suc m.imports }

-- `start` behind its `await`, with the import found or not
unfoldable pub imported : Bool → Monitor → Monitor
imported found m = elim m.imports [
  | zero ↦ m
  | suc n ↦
      if found
      then record m { imports = n; has_hook = true; listeners = suc m.listeners; started = true }
      else record m { imports = n }
]

-- `stop`
unfoldable pub stop : Monitor → Monitor
stop m =
    if not m.started || not m.has_hook
    then m
    else record m { listeners = 0; started = false; pressed = false }

abbrev is_code : ℕ → Option ℕ → Bool
is_code n none = false
is_code n (some code) = eqb n code

-- `handleMouseDown`, `handleMouseUp`, `handleKeyDown` and `handleKeyUp`
unfoldable pub handle_down : Source → Option ℕ → ℕ → Monitor → Monitor
handle_down source wanted n m =
    if not (is_code n wanted) || m.pressed
    then m
    else record m { pressed = true; emitted = press source ∷ m.emitted }

unfoldable pub handle_up : Source → Option ℕ → ℕ → Monitor → Monitor
handle_up source wanted n m =
    if not (is_code n wanted) || not m.pressed
    then m
    else record m { pressed = false; emitted = release source ∷ m.emitted }

-- the hook calls a handler once for each listener
unfoldable pub deliver : ℕ → (Monitor → Monitor) → Monitor → Monitor
deliver zero handler m = m
deliver (suc n) handler m = deliver n handler (handler m)

-- what happens: calls of the class, the end of an import, and events of the hook
pub data Event : Type 0 where
  call_start call_stop : Event
  import_settles : (found : Bool) → Event
  call_set_mouse_button : (button : Option ℕ) → Event
  mouse_down mouse_up key_down key_up : (n : ℕ) → Event

unfoldable pub step : Monitor → Event → Monitor
step m call_start = start m
step m call_stop = stop m
step m (import_settles found) = imported found m
step m (call_set_mouse_button button) = set_mouse_button button m
step m (mouse_down n) = deliver m.listeners (handle_down mouse m.mouse_button n) m
step m (mouse_up n) = deliver m.listeners (handle_up mouse m.mouse_button n) m
step m (key_down n) = deliver m.listeners (handle_down keyboard m.keyboard_fallback_keycode n) m
step m (key_up n) = deliver m.listeners (handle_up keyboard m.keyboard_fallback_keycode n) m

unfoldable pub run : Monitor → List Event → Monitor
run m [] = m
run m (e ∷ events) = run (step m e) events
