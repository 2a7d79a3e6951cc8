-- ===== src/Store/Prompts/Marks.antt =====
-- The marks of the requests, and the templates that they leave.
use mozgoslav.Prelude.{
  ◌≡◌, refl, String, Bool, true, false, not, Option, none, some, List, [], ◌∷◌, ◌==◌, arith, eq_iff,
  if◌then◌else◌, lookup, lookup-erase, lookup-set_and_erase, lookup-empty, filter, any, map,
}
use mozgoslav.Store.Dictation.{Reply, data_of, thrown}
use mozgoslav.Store.Prompts.{
  Template, State, reduce, delete_prompt, update_saga, delete_saga, preview_prompt,
  preview_prompt_clear, preview_saga,
}

-- some template of the list has the id
abbrev pub is_known : String → List Template → Bool
is_known id templates = any (λ (t : Template). t.id == id) templates

is_known-filter :
    (id gone : String) (templates : List Template)
    → is_known id (filter (λ (t : Template). not (t.id == gone)) templates)
      ≡ (if gone == id then false else is_known id templates)
is_known-filter id gone [] = ground arith
is_known-filter id gone (t ∷ templates) =
    ground
      (arith, is_known-filter id gone templates, eq_iff t.id gone, eq_iff t.id id, eq_iff gone id)

-- what a deletion leaves of the template `k`, and of its mark
abbrev pub IsDeleted : Reply Bool → String → String → State → State → Type 0
IsDeleted (data_of true) id k s after =
    (lookup k after.deleting_ids ≡ (if id == k then none else lookup k s.deleting_ids))
    × (is_known k after.templates ≡ (if id == k then false else is_known k s.templates))
IsDeleted (data_of false) id k s after =
    (lookup k after.deleting_ids ≡ none) × (after.templates ≡ s.templates)
IsDeleted (thrown e) id k s after =
    (lookup k after.deleting_ids ≡ none) × (after.templates ≡ s.templates)

-- A deletion of a template, whatever the backend answers: if it went through, the mark and the
-- template are gone and those of other templates are as they were; otherwise every template is as
-- it was, and the marks of all templates are gone, also of those whose own deletion still runs.
pub delete_ends :
    (s : State) (id k : String) (reply : Reply Bool)
    → IsDeleted reply id k s (reduce (reduce s (delete_prompt id)) (delete_saga id reply))
unfolding reduce delete_saga
delete_ends s id k (data_of true) =
    (lookup-set_and_erase id k tt s.deleting_ids, is_known-filter k id s.templates)
delete_ends s id k (data_of false) = (lookup-empty k, refl)
delete_ends s id k (thrown e) = (lookup-empty k, refl)

-- what an update leaves of the mark of the template `k`
abbrev pub IsUpdated : Reply (Option Template) → String → State → State → Type 0
IsUpdated (data_of (some t)) k s after =
    (lookup k after.saving_ids ≡ (if t.id == k then none else lookup k s.saving_ids))
    × ((id : String) → is_known id after.templates ≡ is_known id s.templates)
IsUpdated (data_of none) k s after =
    (lookup k after.saving_ids ≡ none) × (after.templates ≡ s.templates)
IsUpdated (thrown e) k s after =
    (lookup k after.saving_ids ≡ none) × (after.templates ≡ s.templates)

is_known-replaced :
    (id : String) (updated : Template) (templates : List Template)
    → is_known id (map (λ (t : Template). if t.id == updated.id then updated else t) templates)
      ≡ is_known id templates
is_known-replaced id updated [] = refl
is_known-replaced id updated (t ∷ templates) =
    ground (arith, is_known-replaced id updated templates, eq_iff t.id updated.id)

-- The answer to an update, whatever it is: if it has the template, the mark of that template is
-- gone and those of others are as they were, and the same templates are known; otherwise every
-- template is as it was, and all marks are gone.
pub update_ends :
    (s : State) (k : String) (reply : Reply (Option Template))
    → IsUpdated reply k s (reduce s (update_saga reply))
unfolding reduce update_saga
update_ends s k (data_of (some t)) =
    (lookup-erase t.id k s.saving_ids, λ id. is_known-replaced id t s.templates)
update_ends s k (data_of none) = (lookup-empty k, refl)
update_ends s k (thrown e) = (lookup-empty k, refl)

-- A preview that is cleared while its request runs shows the answer all the same when it arrives.
pub late_preview :
    (s : State) (body text : String)
    → (reduce
        (reduce (reduce s (preview_prompt body)) preview_prompt_clear)
        (preview_saga (data_of text))).preview_result
      ≡ some text
unfolding reduce preview_saga
late_preview s body text = refl
