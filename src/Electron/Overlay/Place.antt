-- ===== src/Electron/Overlay/Place.antt =====
-- Where the overlay stands.
use mozgoslav.Prelude.{ℕ, ◌+◌, ◌≤◌, ◌≡◌, arith}
use mozgoslav.Electron.Overlay.{
  Point, Rectangle, overlay_width, overlay_height, cursor_offset_x, cursor_offset_y, fit,
  position_next_to_cursor,
}

fit-low : (wanted size low extent : ℕ) → low ≤ fit wanted size low extent
unfolding fit
fit-low wanted size low extent = ground arith

fit-high :
    (wanted size low extent : ℕ) → size ≤ extent → fit wanted size low extent + size ≤ low + extent
unfolding fit
fit-high wanted size low extent h = ground arith

-- a place that fits is kept
fit-kept :
    (wanted size low extent : ℕ)
    → low ≤ wanted
    → wanted + size ≤ low + extent
    → fit wanted size low extent ≡ wanted
unfolding fit
fit-kept wanted size low extent h k = ground arith

-- The overlay never leaves the work area at the left or the top, and on a work area that has room for
-- it, it never leaves at the right or the bottom either.
pub position-IsInside :
    (cursor : Point) (area : Rectangle)
    → overlay_width ≤ area.width
    → overlay_height ≤ area.height
    → let place = position_next_to_cursor cursor area in
      ((area.x ≤ place.x) × (place.x + overlay_width ≤ area.x + area.width))
      × ((area.y ≤ place.y) × (place.y + overlay_height ≤ area.y + area.height))
unfolding position_next_to_cursor
position-IsInside cursor area h k = (
  (
    fit-low (cursor.x + cursor_offset_x) overlay_width area.x area.width,
    fit-high (cursor.x + cursor_offset_x) overlay_width area.x area.width h,
  ),
  (
    fit-low (cursor.y + cursor_offset_y) overlay_height area.y area.height,
    fit-high (cursor.y + cursor_offset_y) overlay_height area.y area.height k,
  ),
)
