-- ===== src/Store/Ui/Tests.antt =====
-- The slice at concrete modals and notes.
use mozgoslav.Prelude.{◌≡◌, refl, String, none, some, [], ◌∷◌, lookup, insert, erase}
use mozgoslav.Store.Dictation.{data_of}
use mozgoslav.Store.Ui.{
  initial, reduce, open_modal, add_modal, resolved, open_note_saga, select_open_note_resolution,
}
use mozgoslav.Store.Ui.OpenNote.{requested, answered, cleared, step, run}

abbrev settings : String
settings = "settings"

reopened :
    let both = reduce (reduce initial (open_modal "a")) (open_modal settings) in
    (reduce both (open_modal "a")).open_modals ≡ "a" ∷ settings ∷ []
unfolding reduce add_modal initial
reopened = refl

-- an answer that comes after the view ended stands in the slice again
late_answer :
    select_open_note_resolution "r"
      (run initial (requested "r" ∷ cleared "r" ∷ answered "r" (data_of none) ∷ []))
    ≡ some (resolved none)
unfolding run step reduce initial open_note_saga select_open_note_resolution lookup insert erase
late_answer = refl
