-- ===== src/Store/Ui/Modals.antt =====
-- Modals and toasts.
use mozgoslav.Prelude.{
  ◌≡◌, refl, String, Bool, true, false, not, ◌||◌, List, [], ◌∷◌, ◌++◌, ◌==◌, arith, eq_iff,
  if_cases, if◌then◌else◌, filter,
}
use mozgoslav.Store.Ui.{
  State, Action, reduce, set_theme_mode, open_modal, close_modal, push_toast, dismiss_toast,
  open_note_requested, open_note_resolved, open_note_failed, clear_open_note_resolution, other,
  is_listed, add_modal, remove_modal, add_toast, remove_toast, select_is_modal_open,
}

is_listed-push :
    (id x : String) (xs : List String)
    → is_listed id (xs ++ x ∷ []) ≡ (is_listed id xs || (x == id))
is_listed-push id x [] = ground arith
is_listed-push id x (y ∷ ys) = ground (arith, is_listed-push id x ys)

is_listed-filter :
    (id gone : String) (xs : List String)
    → is_listed id (filter (λ (m : String). not (m == gone)) xs)
      ≡ (if gone == id then false else is_listed id xs)
is_listed-filter id gone [] = ground arith
is_listed-filter id gone (x ∷ xs) =
    ground (arith, is_listed-filter id gone xs, eq_iff x gone, eq_iff x id, eq_iff gone id)

is_listed-add_modal :
    (s : State) (id k : String)
    → is_listed k (add_modal s id).open_modals
      ≡ (if id == k then true else is_listed k s.open_modals)
unfolding add_modal
is_listed-add_modal s id k = ground (arith, is_listed-push k id s.open_modals, eq_iff id k)

-- After a modal is opened or closed, that one is open or closed, whether or not it was before, and
-- every other is as it was.
pub modal_is_set :
    (s : State) (id k : String)
    → (select_is_modal_open k (reduce s (open_modal id))
        ≡ (if id == k then true else select_is_modal_open k s))
      × (select_is_modal_open k (reduce s (close_modal id))
          ≡ (if id == k then false else select_is_modal_open k s))
unfolding select_is_modal_open reduce remove_modal
modal_is_set s id k = (is_listed-add_modal s id k, is_listed-filter k id s.open_modals)

-- no modal stands twice in the list
abbrev pub AreDistinct : List String → Type 0
AreDistinct [] = Unit
AreDistinct (m ∷ modals) = (is_listed m modals ≡ false) × AreDistinct modals

AreDistinct-push :
    (xs : List String) (x : String)
    → is_listed x xs ≡ false
    → AreDistinct xs
    → AreDistinct (xs ++ x ∷ [])
AreDistinct-push [] x h d = (refl, tt)
AreDistinct-push (y ∷ ys) x h (n, d) = (
  ground (arith, is_listed-push y x ys, n, h, eq_iff y x, eq_iff x y),
  AreDistinct-push ys x (ground (arith, h)) d,
)

AreDistinct-keep :
    (b : Bool) (x : String) (xs : List String)
    → is_listed x xs ≡ false
    → AreDistinct xs
    → AreDistinct (if b then x ∷ xs else xs)
AreDistinct-keep true x xs n d = (n, d)
AreDistinct-keep false x xs n d = d

AreDistinct-filter :
    (xs : List String) (gone : String)
    → AreDistinct xs
    → AreDistinct (filter (λ (m : String). not (m == gone)) xs)
AreDistinct-filter [] gone d = tt
AreDistinct-filter (x ∷ xs) gone (n, d) =
    AreDistinct-keep (not (x == gone)) x (filter (λ (m : String). not (m == gone)) xs)
      (ground (arith, is_listed-filter x gone xs, n, eq_iff gone x)) (AreDistinct-filter xs gone d)

add_modal-AreDistinct :
    (s : State) (id : String) → AreDistinct s.open_modals → AreDistinct (add_modal s id).open_modals
unfolding add_modal
add_modal-AreDistinct s id d =
    if_cases (λ (t : State). AreDistinct t.open_modals) (is_listed id s.open_modals) (λ _. d)
      (λ h. AreDistinct-push s.open_modals id h d)

-- The reducer keeps the open modals distinct: a modal that is opened twice stands once.
pub reduce-AreDistinct :
    (s : State) (a : Action) → AreDistinct s.open_modals → AreDistinct (reduce s a).open_modals
unfolding reduce remove_modal add_toast remove_toast
reduce-AreDistinct s (set_theme_mode mode) d = d
reduce-AreDistinct s (open_modal id) d = add_modal-AreDistinct s id d
reduce-AreDistinct s (close_modal id) d = AreDistinct-filter s.open_modals id d
reduce-AreDistinct s (push_toast toast) d = d
reduce-AreDistinct s (dismiss_toast id) d = d
reduce-AreDistinct s (open_note_requested id) d = d
reduce-AreDistinct s (open_note_resolved id first) d = d
reduce-AreDistinct s (open_note_failed id e) d = d
reduce-AreDistinct s (clear_open_note_resolution id) d = d
reduce-AreDistinct s other d = d
