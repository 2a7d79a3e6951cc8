-- ===== src/Electron/Sounds/Cues.antt =====
-- Which sounds are heard.
use mozgoslav.Prelude.{◌≡◌, refl, ap, ◌∙◌, true, none, List, [], ◌∷◌}
use mozgoslav.Electron.Dictation.{Phase, idle, recording, processing, injecting, error}
use mozgoslav.Electron.Sounds.{eq_phase, select_cue, Platform, Player, handle_transition, run}

same_phase : (p : Phase) → select_cue p p ≡ none
unfolding select_cue eq_phase
same_phase idle = refl
same_phase recording = refl
same_phase processing = refl
same_phase injecting = refl
same_phase error = refl

eq_phase_refl : (p : Phase) → eq_phase p p ≡ true
unfolding eq_phase
eq_phase_refl idle = refl
eq_phase_refl recording = refl
eq_phase_refl processing = refl
eq_phase_refl injecting = refl
eq_phase_refl error = refl

-- every phase told twice
abbrev pub stutter : List Phase → List Phase
stutter [] = []
stutter (p ∷ phases) = p ∷ p ∷ stutter phases

told_again :
    (platform : Platform) (p : Player) (next : Phase)
    → handle_transition platform (handle_transition platform p next) next
      ≡ handle_transition platform p next
unfolding handle_transition
told_again platform p next = rw (eq_phase_refl next) refl

-- A phase that is told again makes no sound: telling every phase twice plays what telling it once
-- plays.
pub run-stutter :
    (platform : Platform) (p : Player) (phases : List Phase)
    → run platform p (stutter phases) ≡ run platform p phases
unfolding run
run-stutter platform p [] = refl
run-stutter platform p (next ∷ phases) =
    ap (λ q. run platform q (stutter phases)) (told_again platform p next)
    ∙ run-stutter platform (handle_transition platform p next) phases
