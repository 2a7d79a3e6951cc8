-- ===== src/Electron/Sounds/Tests.antt =====
-- The sounds of a dictation.
use mozgoslav.Prelude.{◌≡◌, refl, List, [], ◌∷◌, map}
use mozgoslav.Electron.Dictation.{Phase, idle, recording, processing, injecting}
use mozgoslav.Electron.Sounds.{
  linux, PlayCommand, new, run, handle_transition, select_cue, eq_phase, play_cue, resolve_command,
  linux_sound_path,
}

abbrev talk : List Phase
talk = recording ∷ processing ∷ injecting ∷ idle ∷ []

talk_sounds :
    map (λ (c : PlayCommand). c.args) (run linux new talk).played
    ≡ ("/usr/share/sounds/freedesktop/stereo/message.oga" ∷ [])
      ∷ ("/usr/share/sounds/freedesktop/stereo/complete.oga" ∷ [])
      ∷ []
unfolding run new handle_transition select_cue eq_phase play_cue resolve_command linux_sound_path
talk_sounds = refl
