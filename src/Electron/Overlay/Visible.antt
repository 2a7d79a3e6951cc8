-- ===== src/Electron/Overlay/Visible.antt =====
-- When the overlay is on the screen.
use mozgoslav.Prelude.{
  ◌≡◌, refl, String, Bool, true, false, Option, none, some, List, [], ◌∷◌, All, if_cases,
}
use mozgoslav.Electron.Dictation.{Phase}
use mozgoslav.Electron.Overlay.{
  Point, Rectangle, Window, Overlay, show, is_error, updated, update_state, timer_fires, Event,
  shown, told, hide_scheduled, fired, destroyed, gone, step, run,
}

abbrev pub is_visible : Option Window → Bool
is_visible none = false
is_visible (some w) = w.visible

-- events that do not ask for the overlay to go
abbrev pub Keeps : Event → Type 0
Keeps (shown cursor area) = Unit
Keeps (told phase text) = is_error phase ≡ false
Keeps hide_scheduled = ⊥
Keeps fired = Unit
Keeps destroyed = ⊥
Keeps gone = ⊥

abbrev IsShown : Overlay → Type 0
IsShown o = (is_visible o.window ≡ true) × (o.timer ≡ false)

updated-IsShown :
    (phase : Phase) (text : String) (window : Option Window) (o : Overlay)
    → is_visible window ≡ true
    → is_error phase ≡ false
    → IsShown o
    → IsShown (updated window phase text o)
updated-IsShown phase text none o v f h = absurd (cc)
updated-IsShown phase text (some w) o v f h = (
  if_cases (λ (t : Option Window). is_visible t ≡ true) (is_error phase) (λ e. absurd (cc))
      (λ _. h.0),
  if_cases (λ (t : Bool). t ≡ false) (is_error phase) (λ _. refl) (λ _. h.1),
)

step-IsShown : (o : Overlay) (e : Event) → Keeps e → IsShown o → IsShown (step o e)
unfolding step show update_state timer_fires
step-IsShown o (shown cursor area) k h = (refl, refl)
step-IsShown o (told phase text) k h = updated-IsShown phase text o.window o h.0 k h
step-IsShown o hide_scheduled k h = absurd k
step-IsShown o fired k h =
    if_cases (λ (v : Overlay). IsShown v) o.timer (λ e. absurd (let f = h.1 in cc)) (λ _. h)
step-IsShown o destroyed k h = absurd k
step-IsShown o gone k h = absurd k

run-IsShown :
    (o : Overlay) (events : List Event) → All Keeps events → IsShown o → IsShown (run o events)
unfolding run
run-IsShown o [] k h = h
run-IsShown o (e ∷ events) k h = run-IsShown (step o e) events k.1 (step-IsShown o e k.0 h)

-- A new press keeps the overlay on the screen: after it is shown, whatever was scheduled before, no
-- timer hides it, until a hide is scheduled again, an error is told, or the window is destroyed.
pub shown_stays :
    (o : Overlay) (cursor : Point) (area : Rectangle) (events : List Event)
    → All Keeps events
    → is_visible (run (step o (shown cursor area)) events).window ≡ true
unfolding step show
shown_stays o cursor area events k =
    (run-IsShown (step o (shown cursor area)) events k (refl, refl)).0
