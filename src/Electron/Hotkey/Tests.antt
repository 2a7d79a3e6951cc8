-- ===== src/Electron/Hotkey/Tests.antt =====
-- The hotkey monitor at concrete events.
use mozgoslav.Prelude.{◌≡◌, refl, true, none, some, List, [], ◌∷◌}
use mozgoslav.Electron.Hotkey.{
  mouse, keyboard, press, release, Monitor, new, start, imported, handle_down, handle_up, deliver,
  Event, call_start, import_settles, mouse_down, mouse_up, key_down, key_up, step, run,
}
use mozgoslav.Electron.Hotkey.Alternation.{IsAlternating, run-IsAlternating}

-- two starts before the import settles add two listeners, of which the second finds nothing to do
abbrev twice : List Event
twice =
    call_start
    ∷ call_start
    ∷ import_settles true
    ∷ import_settles true
    ∷ mouse_down 4
    ∷ key_down 9
    ∷ key_up 9
    ∷ mouse_up 4
    ∷ []

twice_emits : (run (new (some 4) (some 9)) twice).emitted ≡ release keyboard ∷ press mouse ∷ []
unfolding run step new start imported deliver handle_down handle_up
twice_emits = refl

run-IsAlternating_example : IsAlternating (run (new (some 4) (some 9)) twice)
run-IsAlternating_example = run-IsAlternating (some 4) (some 9) twice (
  (λ e. cc),
  ((λ e. cc), ((λ e. cc), ((λ e. cc), ((λ e. cc), ((λ e. cc), ((λ e. cc), ((λ e. cc), tt))))))),
)

abbrev held : Monitor
held = record {
  started = true;
  has_hook = true;
  pressed = true;
  mouse_button = some 4;
  keyboard_fallback_keycode = none;
  imports = 0;
  listeners = 1;
  emitted = press mouse ∷ [];
}
