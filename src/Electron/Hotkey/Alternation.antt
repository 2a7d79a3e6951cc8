-- ===== src/Electron/Hotkey/Alternation.antt =====
-- The order of presses and releases, and a stop.
use mozgoslav.Prelude.{
  ℕ, zero, suc, ◌≡◌, refl, ◌≢◌, Bool, true, false, not, ◌||◌, Option, List, [], ◌∷◌, arith, All,
  if_cases, subst,
}
use mozgoslav.Electron.Hotkey.{
  Source, mouse, keyboard, HotkeyEvent, press, release, Monitor, new, set_mouse_button, start,
  imported, stop, handle_down, handle_up, is_code, deliver, Event, call_start, call_stop,
  import_settles, call_set_mouse_button, mouse_down, mouse_up, key_down, key_up, step, run,
}

-- The events, the latest first, alternate from a first press; `held` says that the latest is a press.
abbrev pub Alternates : Bool → List HotkeyEvent → Type 0
Alternates true (press _ ∷ log) = Alternates false log
Alternates true _ = ⊥
Alternates false [] = Unit
Alternates false (release _ ∷ log) = Alternates true log
Alternates false (press _ ∷ log) = ⊥

abbrev pub IsAlternating : Monitor → Type 0
IsAlternating m = Alternates m.pressed m.emitted

handle_down-IsAlternating :
    (source : Source) (wanted : Option ℕ) (n : ℕ) (m : Monitor)
    → IsAlternating m
    → IsAlternating (handle_down source wanted n m)
unfolding handle_down
handle_down-IsAlternating source wanted n m h =
    if_cases IsAlternating (not (is_code n wanted) || m.pressed) (λ e. h)
      (λ e. let up : m.pressed ≡ false = ground arith in subst (λ b. Alternates b m.emitted) up h)

handle_up-IsAlternating :
    (source : Source) (wanted : Option ℕ) (n : ℕ) (m : Monitor)
    → IsAlternating m
    → IsAlternating (handle_up source wanted n m)
unfolding handle_up
handle_up-IsAlternating source wanted n m h =
    if_cases IsAlternating (not (is_code n wanted) || not m.pressed) (λ e. h)
      (λ e.
        let down : m.pressed ≡ true = ground arith in subst (λ b. Alternates b m.emitted) down h)

deliver-IsAlternating :
    (n : ℕ) (handler : Monitor → Monitor) (m : Monitor)
    → ((x : Monitor) → IsAlternating x → IsAlternating (handler x))
    → IsAlternating m
    → IsAlternating (deliver n handler m)
unfolding deliver
deliver-IsAlternating zero handler m f h = h
deliver-IsAlternating (suc n) handler m f h = deliver-IsAlternating n handler (handler m) f (f m h)

-- an import emits nothing
imported_lem :
    (found : Bool) (m : Monitor)
    → ((imported found m).pressed ≡ m.pressed) × ((imported found m).emitted ≡ m.emitted)
unfolding imported
imported_lem found m = ground arith

imported-IsAlternating :
    (found : Bool) (m : Monitor) → IsAlternating m → IsAlternating (imported found m)
imported-IsAlternating found m h = let (p, e) = imported_lem found m in rw (p, e) h

step-IsAlternating :
    (m : Monitor) (e : Event) → e ≢ call_stop → IsAlternating m → IsAlternating (step m e)
unfolding step start set_mouse_button
step-IsAlternating m call_start n h = if_cases IsAlternating m.started (λ e. h) (λ e. h)
step-IsAlternating m call_stop n h = absurd (n refl)
step-IsAlternating m (import_settles found) n h = imported-IsAlternating found m h
step-IsAlternating m (call_set_mouse_button button) n h = h
step-IsAlternating m (mouse_down k) n h =
    deliver-IsAlternating m.listeners _ m (handle_down-IsAlternating mouse m.mouse_button k) h
step-IsAlternating m (mouse_up k) n h =
    deliver-IsAlternating m.listeners _ m (handle_up-IsAlternating mouse m.mouse_button k) h
step-IsAlternating m (key_down k) n h =
    deliver-IsAlternating m.listeners _ m
      (handle_down-IsAlternating keyboard m.keyboard_fallback_keycode k) h
step-IsAlternating m (key_up k) n h =
    deliver-IsAlternating m.listeners _ m
      (handle_up-IsAlternating keyboard m.keyboard_fallback_keycode k) h

run_from-IsAlternating :
    (m : Monitor) (events : List Event)
    → All (λ e. e ≢ call_stop) events
    → IsAlternating m
    → IsAlternating (run m events)
unfolding run
run_from-IsAlternating m [] n h = h
run_from-IsAlternating m (e ∷ events) n h =
    run_from-IsAlternating (step m e) events n.1 (step-IsAlternating m e n.0 h)

-- While the monitor is not stopped, the events it emits are a press and a release in turn, a press
-- first, whatever the mouse and the keyboard do, however often it is started and however often the
-- button is changed; and it holds a key exactly if the latest is a press.
pub run-IsAlternating :
    (button keycode : Option ℕ) (events : List Event)
    → All (λ e. e ≢ call_stop) events
    → IsAlternating (run (new button keycode) events)
unfolding new
run-IsAlternating button keycode events n = run_from-IsAlternating (new button keycode) events n tt

-- no start is under way or asked for
abbrev pub IsNoStart : Event → Type 0
IsNoStart call_start = ⊥
IsNoStart _ = Unit

deliver-still :
    (n : ℕ) (handler : Monitor → Monitor) (m : Monitor) → n ≡ 0 → deliver n handler m ≡ m
unfolding deliver
deliver-still zero handler m e = refl
deliver-still (suc n) handler m e = absurd (ground arith)

-- stopped, with no import awaited
record IsStopped (log : List HotkeyEvent) (m : Monitor) : Type 0 where
  deaf : m.listeners ≡ 0
  no_import : m.imports ≡ 0
  same_log : m.emitted ≡ log

step-IsStopped :
    (log : List HotkeyEvent) (m : Monitor) (e : Event)
    → IsNoStart e
    → IsStopped log m
    → IsStopped log (step m e)
unfolding step imported stop set_mouse_button
step-IsStopped log m call_start n h = absurd n
step-IsStopped log m call_stop n h = ground arith
step-IsStopped log m (import_settles found) n h = rw (h.no_import, imported) h
step-IsStopped log m (call_set_mouse_button button) n h = ground arith
step-IsStopped log m (mouse_down k) n h =
    rw (deliver-still m.listeners (handle_down mouse m.mouse_button k) m h.deaf) h
step-IsStopped log m (mouse_up k) n h =
    rw (deliver-still m.listeners (handle_up mouse m.mouse_button k) m h.deaf) h
step-IsStopped log m (key_down k) n h =
    rw (deliver-still m.listeners (handle_down keyboard m.keyboard_fallback_keycode k) m h.deaf) h
step-IsStopped log m (key_up k) n h =
    rw (deliver-still m.listeners (handle_up keyboard m.keyboard_fallback_keycode k) m h.deaf) h

run-IsStopped :
    (log : List HotkeyEvent) (m : Monitor) (events : List Event)
    → All IsNoStart events
    → IsStopped log m
    → IsStopped log (run m events)
unfolding run
run-IsStopped log m [] n h = h
run-IsStopped log m (e ∷ events) n h =
    run-IsStopped log (step m e) events n.1 (step-IsStopped log m e n.0 h)

-- A stop while a key is held swallows the release: the monitor forgets that the key is held, and until
-- it is started again nothing is emitted, so the latest event stays the press.
pub stop_swallows_release :
    (m : Monitor) (source : Source) (log : List HotkeyEvent) (events : List Event)
    → m.started ≡ true
    → m.has_hook ≡ true
    → m.imports ≡ 0
    → m.emitted ≡ press source ∷ log
    → All IsNoStart events
    → ((stop m).pressed ≡ false) × ((run (stop m) events).emitted ≡ press source ∷ log)
unfolding stop
stop_swallows_release m source log events s k i e n =
    let h : IsStopped (press source ∷ log) (stop m) = ground arith in
    (ground arith, (run-IsStopped (press source ∷ log) (stop m) events n h).same_log)
