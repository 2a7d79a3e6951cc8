-- ===== src/Electron/Sounds.antt =====
-- frontend/electron/dictation/PhaseSoundPlayer.ts: the sounds at the changes of the phase. The process
-- that plays a file is only started.
pub mod Cues
mod Tests
use mozgoslav.Prelude.{
  String, Bool, true, false, if◌then◌else◌, Option, none, some, List, [], ◌∷◌, ◌++◌,
}
use mozgoslav.Electron.Dictation.{Phase, idle, recording, processing, injecting, error}

-- `SoundCue`
pub data SoundCue : Type 0 where
  start done failure : SoundCue

-- `previous === next`
unfoldable pub eq_phase : Phase → Phase → Bool
eq_phase idle idle = true
eq_phase recording recording = true
eq_phase processing processing = true
eq_phase injecting injecting = true
eq_phase error error = true
eq_phase _ _ = false

-- `selectCue`
unfoldable pub select_cue : Phase → Phase → Option SoundCue
unfolding eq_phase
select_cue previous recording = if eq_phase previous recording then none else some start
select_cue previous injecting = if eq_phase previous injecting then none else some done
select_cue previous error = if eq_phase previous error then none else some failure
select_cue previous idle = none
select_cue previous processing = none

-- `PlayCommand`
pub record PlayCommand : Type 0 where
  pub bin : String
  pub args : List String

-- `NodeJS.Platform`, the two that the player knows and all others
pub data Platform : Type 0 where
  darwin linux other : Platform

unfoldable pub darwin_sound_path : SoundCue → String
darwin_sound_path start = "/System/Library/Sounds/Tink.aiff"
darwin_sound_path done = "/System/Library/Sounds/Glass.aiff"
darwin_sound_path failure = "/System/Library/Sounds/Funk.aiff"

unfoldable pub linux_sound_path : SoundCue → String
linux_sound_path start = "/usr/share/sounds/freedesktop/stereo/message.oga"
linux_sound_path done = "/usr/share/sounds/freedesktop/stereo/complete.oga"
linux_sound_path failure = "/usr/share/sounds/freedesktop/stereo/dialog-error.oga"

-- `resolveCommand`
unfoldable pub resolve_command : Platform → SoundCue → Option PlayCommand
unfolding darwin_sound_path linux_sound_path
resolve_command darwin cue = some (record { bin = "afplay"; args = darwin_sound_path cue ∷ [] })
resolve_command linux cue = some (record { bin = "paplay"; args = linux_sound_path cue ∷ [] })
resolve_command other cue = none

-- `PhaseSoundPlayer`, with the commands that it has started
pub record Player : Type 0 where
  pub last_phase : Phase
  pub played : List PlayCommand

unfoldable pub new : Player
new = record { last_phase = idle; played = [] }

abbrev pub append_command : Option PlayCommand → List PlayCommand → List PlayCommand
append_command none played = played
append_command (some command) played = played ++ command ∷ []

-- `playCue` for the cue, if there is one
unfoldable pub play_cue : Platform → Option SoundCue → List PlayCommand → List PlayCommand
unfolding resolve_command
play_cue platform none played = played
play_cue platform (some cue) played = append_command (resolve_command platform cue) played

-- `handleTransition`
unfoldable pub handle_transition : Platform → Player → Phase → Player
unfolding eq_phase select_cue play_cue
handle_transition platform p next = record {
  last_phase = next;
  played =
      if eq_phase p.last_phase next
      then p.played
      else play_cue platform (select_cue p.last_phase next) p.played;
}

unfoldable pub run : Platform → Player → List Phase → Player
run platform p [] = p
run platform p (next ∷ phases) = run platform (handle_transition platform p next) phases
