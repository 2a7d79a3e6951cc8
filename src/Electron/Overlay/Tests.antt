-- ===== src/Electron/Overlay/Tests.antt =====
-- The overlay at concrete places and events.
use mozgoslav.Prelude.{◌≡◌, refl, true, none, [], ◌∷◌}
use mozgoslav.Electron.Dictation.{recording}
use mozgoslav.Electron.Overlay.{
  Point, Rectangle, Overlay, position_next_to_cursor, fit, shown, told, fired, step, run,
}
use mozgoslav.Electron.Overlay.Visible.{is_visible, shown_stays}

abbrev corner : Point
corner = record { x = 1900; y = 1060 }

abbrev desk : Rectangle
desk = record { x = 0; y = 24; width = 1920; height = 1056 }

placed : position_next_to_cursor corner desk ≡ record { x = 1580; y = 1000 }
unfolding position_next_to_cursor fit
placed = refl

abbrev leaving : Overlay
leaving = record { window = none; timer = true; states = [] }

shown_stays_example :
    is_visible (run (step leaving (shown corner desk)) (fired ∷ told recording "he" ∷ [])).window
    ≡ true
shown_stays_example =
    shown_stays leaving corner desk (fired ∷ told recording "he" ∷ []) (tt, (refl, tt))
