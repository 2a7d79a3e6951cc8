-- ===== src/Store/Rag/Tests.antt =====
-- The chat over the notes at concrete questions.
use mozgoslav.Prelude.{◌≡◌, ◌≢◌, refl, String, true, false, none, some, [], ◌∷◌, map, arith, eq_iff}
use mozgoslav.Store.Dictation.{data_of}
use mozgoslav.Store.Rag.{QueryResult, Message, pending_assistant, done, citation_of, initial}
use mozgoslav.Store.Rag.Chat.{find_message}
use mozgoslav.Store.Rag.Asking.{
  new, step, run, asked, settled, superseded_question_hangs, ask_round_trip,
}

abbrev result : QueryResult
result = record {
  answer = "two";
  citations = record { note_id = "n"; segment_id = "s"; text = "1 + 1 = 2" } ∷ [];
  llm_available = true;
}

differ : ◌≢◌ {A = String} "u" "a"
differ e = ground (arith, eq_iff "u" "a")

second_differs : ◌≢◌ {A = String} "b" "a"
second_differs e = ground (arith, eq_iff "b" "a")

empty_chat : find_message "a" new.store.messages ≡ none
unfolding new initial
empty_chat = refl

superseded_question_hangs_example :
    let first = step new (asked "1 + 1?" none "u" "a") in
    let both = step first (asked "2 + 2?" none "v" "b") in
    find_message "a" (run both (settled (data_of (some result)) ∷ [])).store.messages
    ≡ some (pending_assistant "a")
superseded_question_hangs_example =
    superseded_question_hangs new "1 + 1?" "2 + 2?" none none "u" "a" "v" "b"
      (settled (data_of (some result)) ∷ []) empty_chat differ second_differs (tt, tt)

ask_round_trip_example :
    let after = step (step new (asked "1 + 1?" none "u" "a")) (settled (data_of (some result))) in
    (find_message "a" after.store.messages
      ≡ some (record (pending_assistant "a") {
        content = "two";
        citations = map citation_of result.citations;
        state = done;
        llm_available = true;
      }))
    × (after.store.is_asking ≡ false)
    × (after.running ≡ none)
    × ((j : String) (m : Message)
        → find_message j new.store.messages ≡ some m
        → find_message j after.store.messages ≡ some m)
ask_round_trip_example = ask_round_trip new "1 + 1?" none "u" "a" result empty_chat differ
