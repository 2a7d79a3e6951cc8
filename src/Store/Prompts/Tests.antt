-- ===== src/Store/Prompts/Tests.antt =====
-- The prompts at concrete requests.
use mozgoslav.Prelude.{◌≡◌, refl, String, some, [], ◌∷◌}
use mozgoslav.Store.Dictation.{data_of, thrown}
use mozgoslav.Store.Prompts.{
  Template, State, initial, reduce, load_saga, update_prompt, update_saga,
}

abbrev titled : String → Template
titled id = record { id = id; name = "Summary"; body = "Sum up."; created_at = "now" }

abbrev loaded : State
loaded = reduce initial (load_saga (data_of (some (titled "a" ∷ titled "b" ∷ []))))

-- the failure of one update takes the mark of another off
marks_lost :
    let both = reduce (reduce loaded (update_prompt "a" "" "")) (update_prompt "b" "" "") in
    (reduce both (update_saga (thrown "offline"))).saving_ids ≡ []
unfolding reduce load_saga update_saga initial
marks_lost = refl
