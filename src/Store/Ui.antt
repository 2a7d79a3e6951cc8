-- ===== src/Store/Ui.antt =====
-- frontend/src/store/slices/ui: the theme, the open modals, the toasts and the notes that are
-- looked up to be opened: types.ts, actions.ts, mutations.ts, reducer.ts, selectors.ts and
-- openNoteSaga.ts.
pub mod Modals
pub mod OpenNote
mod Tests
use mozgoslav.Prelude.{
  String, Bool, not, Option, none, some, List, [], ◌∷◌, ◌++◌, ◌==◌, if◌then◌else◌, any, filter,
  Dict, lookup, insert, erase,
}
use mozgoslav.Store.Dictation.{Reply, data_of, thrown}

-- `ThemeMode`
pub data ThemeMode : Type 0 where
  system light dark : ThemeMode

-- the kinds of a toast
pub data ToastKind : Type 0 where
  success error info warning : ToastKind

-- `ToastEntry`
pub record Toast : Type 0 where
  pub id : String
  pub kind : ToastKind
  pub message : String

-- `OpenNoteResolution`
pub data Resolution : Type 0 where
  pending : Resolution
  resolved : (first_note_id : Option String) → Resolution
  failed : (error : String) → Resolution

-- `UiState`
pub record State : Type 0 where
  pub theme_mode : ThemeMode
  pub open_modals : List String
  pub toasts : List Toast
  pub open_note_resolutions : Dict Resolution

unfoldable pub initial : State
initial = record { theme_mode = system; open_modals = []; toasts = []; open_note_resolutions = [] }

-- `list.includes(id)`
abbrev pub is_listed : String → List String → Bool
is_listed id list = any (λ (m : String). m == id) list

unfoldable pub add_modal : State → String → State
add_modal s id =
    if is_listed id s.open_modals then s else record s { open_modals = s.open_modals ++ id ∷ [] }

unfoldable pub remove_modal : State → String → State
remove_modal s id = record s { open_modals = filter (λ (m : String). not (m == id)) s.open_modals }

unfoldable pub add_toast : State → Toast → State
add_toast s toast = record s { toasts = s.toasts ++ toast ∷ [] }

unfoldable pub remove_toast : State → String → State
remove_toast s id = record s { toasts = filter (λ (t : Toast). not (t.id == id)) s.toasts }

-- `UiAction`; `other` is any other action
pub data Action : Type 0 where
  set_theme_mode : ThemeMode → Action
  open_modal close_modal : (id : String) → Action
  push_toast : Toast → Action
  dismiss_toast : (id : String) → Action
  open_note_requested : (recording_id : String) → Action
  open_note_resolved : (recording_id : String) (first_note_id : Option String) → Action
  open_note_failed : (recording_id error : String) → Action
  clear_open_note_resolution : (recording_id : String) → Action
  other : Action

-- `uiReducer`
unfoldable pub reduce : State → Action → State
reduce s (set_theme_mode mode) = record s { theme_mode = mode }
reduce s (open_modal id) = add_modal s id
reduce s (close_modal id) = remove_modal s id
reduce s (push_toast toast) = add_toast s toast
reduce s (dismiss_toast id) = remove_toast s id
reduce s (open_note_requested id) = record s {
  open_note_resolutions = insert id pending s.open_note_resolutions;
}
reduce s (open_note_resolved id first) = record s {
  open_note_resolutions = insert id (resolved first) s.open_note_resolutions;
}
reduce s (open_note_failed id e) = record s {
  open_note_resolutions = insert id (failed e) s.open_note_resolutions;
}
reduce s (clear_open_note_resolution id) = record s {
  open_note_resolutions = erase id s.open_note_resolutions;
}
reduce s other = s

unfoldable pub select_is_modal_open : String → State → Bool
select_is_modal_open id s = is_listed id s.open_modals

unfoldable pub select_open_note_resolution : String → State → Option Resolution
select_open_note_resolution id s = lookup id s.open_note_resolutions

-- `result.recording?.notes[0]?.id ?? null`, of the ids of the notes
abbrev pub first_note : Option (List String) → Option String
first_note none = none
first_note (some []) = none
first_note (some (id ∷ _)) = some id

-- `openNoteSaga`; a recording is the list of the ids of its notes
unfoldable pub open_note_saga : String → Reply (Option (List String)) → Action
open_note_saga id (data_of recording) = open_note_resolved id (first_note recording)
open_note_saga id (thrown e) = open_note_failed id e
