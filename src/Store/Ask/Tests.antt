-- ===== src/Store/Ask/Tests.antt =====
-- The chat at a concrete question.
use mozgoslav.Prelude.{◌≡◌, refl, true, [], ◌∷◌}
use mozgoslav.Store.Dictation.{thrown}
use mozgoslav.Store.Ask.{
  initial, reduce, submit_ask, question_of, pending_assistant, ask_begin, ask_end, error,
}

-- a search that fails leaves its message in the chat
failed_search :
    let begun = reduce (reduce initial (submit_ask "1 + 1?" true)) (ask_begin "u" "a" "1 + 1?") in
    (reduce begun (ask_end "a" (thrown "offline"))).messages
    ≡ question_of "u" "1 + 1?"
      ∷ record (pending_assistant "a") { content = "offline"; state = error }
      ∷ []
unfolding reduce ask_end initial
failed_search = refl
