-- ===== src/Electron/Overlay.antt =====
-- frontend/electron/dictation/OverlayWindow.ts: the window that shows the state of a dictation next to
-- the cursor. Screen coordinates count from the left and the top of the whole desktop, so that they
-- are natural numbers; the creation and the loading of the window are left out.
pub mod Place
pub mod Visible
mod Tests
use mozgoslav.Prelude.{
  ℕ, ◌+◌, ◌-◌, String, Bool, true, false, not, Option, none, some, List, [], ◌∷◌, ◌++◌, ltb,
  if◌then◌else◌,
}
use mozgoslav.Electron.Dictation.{Phase, error}

abbrev pub overlay_width : ℕ
overlay_width = 340

abbrev pub overlay_height : ℕ
overlay_height = 80

abbrev pub cursor_offset_x : ℕ
cursor_offset_x = 20

abbrev pub cursor_offset_y : ℕ
cursor_offset_y = 20

pub record Point : Type 0 where
  pub x : ℕ
  pub y : ℕ

-- a work area or the bounds of a window
pub record Rectangle : Type 0 where
  pub x : ℕ
  pub y : ℕ
  pub width : ℕ
  pub height : ℕ

-- the two tests of one coordinate: `size` is the window's, `low` and `extent` are the work area's
unfoldable pub fit : (wanted size low extent : ℕ) → ℕ
fit wanted size low extent =
    let right = if ltb (low + extent) (wanted + size) then low + extent - size else wanted in
    if ltb right low then low else right

-- `computePositionNextToCursor`, for the display that `getDisplayMatching` returns
unfoldable pub position_next_to_cursor : Point → Rectangle → Point
unfolding fit
position_next_to_cursor cursor area = record {
  x = fit (cursor.x + cursor_offset_x) overlay_width area.x area.width;
  y = fit (cursor.y + cursor_offset_y) overlay_height area.y area.height;
}

-- a `BrowserWindow`, while it is not destroyed
pub record Window : Type 0 where
  pub bounds : Rectangle
  pub visible : Bool

-- `OverlayWindow`: `window` is missing or destroyed as `none`; `timer` is whether `hideTimer` runs;
-- `states` are the states that were sent to the window
pub record Overlay : Type 0 where
  pub window : Option Window
  pub timer : Bool
  pub states : List (Phase × String)

unfoldable pub new : Overlay
new = record { window = none; timer = false; states = [] }

-- `setBounds` and `showInactive`
unfoldable pub show : Point → Rectangle → Overlay → Overlay
unfolding position_next_to_cursor
show cursor area o =
    let place = position_next_to_cursor cursor area in
    record o {
      timer = false;
      window = some (record {
        bounds = record {
          x = place.x;
          y = place.y;
          width = overlay_width;
          height = overlay_height;
        };
        visible = true;
      });
    }

abbrev pub hidden : Option Window → Option Window
hidden none = none
hidden (some w) = some (record w { visible = false })

abbrev pub is_error : Phase → Bool
is_error error = true
is_error _ = false

abbrev pub updated : Option Window → Phase → String → Overlay → Overlay
updated none phase text o = o
updated (some w) phase text o = record o {
  states = o.states ++ (phase, text) ∷ [];
  timer = if is_error phase then false else o.timer;
  window = if is_error phase then hidden o.window else o.window;
}

unfoldable pub update_state : Phase → String → Overlay → Overlay
update_state phase text o = updated o.window phase text o

unfoldable pub schedule_hide : Overlay → Overlay
schedule_hide o = record o { timer = true }

-- the callback of the timer, which runs only while the timer is set
unfoldable pub timer_fires : Overlay → Overlay
timer_fires o = if o.timer then record o { window = hidden o.window; timer = false } else o

unfoldable pub destroy : Overlay → Overlay
destroy o = record o { timer = false; window = none }

-- the window is destroyed by something else
unfoldable pub window_gone : Overlay → Overlay
window_gone o = record o { window = none }

-- what happens to the overlay
pub data Event : Type 0 where
  shown : (cursor : Point) (area : Rectangle) → Event
  told : (phase : Phase) (text : String) → Event
  hide_scheduled fired destroyed gone : Event

unfoldable pub step : Overlay → Event → Overlay
unfolding show update_state schedule_hide timer_fires destroy window_gone
step o (shown cursor area) = show cursor area o
step o (told phase text) = update_state phase text o
step o hide_scheduled = schedule_hide o
step o fired = timer_fires o
step o destroyed = destroy o
step o gone = window_gone o

unfoldable pub run : Overlay → List Event → Overlay
run o [] = o
run o (e ∷ events) = run (step o e) events
