-- ===== src/Electron/Helper/Tests.antt =====
-- The client of the native helper at concrete answers.
use mozgoslav.Prelude.{
  ℕ, ◌≡◌, refl, String, true, Option, none, some, List, [], ◌∷◌, ◌++◌, All, is_some, ltb,
  if◌then◌else◌, lookup, insert, erase,
}
use mozgoslav.Prelude.Text.{codes}
use mozgoslav.Prelude.JsText.{trim, is_space, strip_prefix}
use mozgoslav.Electron.Helper.{
  resolved, Message, Client, new, dispatch, handle_message, handle_line, drain, take_text,
  handle_stdout, Event, call_start, call_send, stdout_data, child_gone, step, run,
}
use mozgoslav.Electron.Helper.Lines.{IsPartial, feed, feed-joined}
use mozgoslav.Electron.Helper.Requests.{gone_settles_every}

-- a stand-in for `JSON.parse`: a line of one letter answers the request `r` with it
abbrev one_letter : List ℕ → Option (Message ℕ)
one_letter (u ∷ []) =
    some (record { id = some "r"; result = u; event = none; params = none; error = none })
one_letter _ = none

-- a stand-in for `toString`: a byte below 128 is its character, another is replaced
abbrev ascii : List ℕ → List ℕ
ascii [] = []
ascii (b ∷ bytes) = (if ltb b 128 then b else 65533) ∷ ascii bytes

abbrev running : Client ℕ
running = record {
  process = some 0;
  buffer = [];
  pending = ("r", "capture.stop") ∷ [];
  settled = [];
  spawned = 1;
  sent = "r" ∷ [];
  emitted = [];
}

-- an answer in two chunks, with a carriage return
answered :
    (run ascii one_letter running (
      stdout_data (codes "{" ++ (13 ∷ 10 ∷ []))
      ∷ stdout_data (codes "a")
      ∷ stdout_data (13 ∷ 10 ∷ codes "b")
      ∷ [])).buffer
    ≡ codes "b"
unfolding run step handle_stdout take_text drain handle_line handle_message dispatch strip_prefix
    trim is_space lookup insert erase
answered = refl

feed-joined_example :
    let chunks = codes "a" ∷ (10 ∷ []) ∷ codes "b" ∷ [] in
    (feed ascii one_letter chunks running
      ≡ handle_stdout ascii one_letter (codes "a" ++ (10 ∷ codes "b")) running)
    × IsPartial (feed ascii one_letter chunks running).buffer
feed-joined_example =
    feed-joined ascii one_letter (codes "a" ∷ (10 ∷ []) ∷ codes "b" ∷ []) running refl tt

abbrev done : Client ℕ
done = record running { pending = []; settled = ("r", resolved 97) ∷ [] }

abbrev asked : List Event
asked =
    call_start
    ∷ call_send "r" "capture.stop" true
    ∷ call_send "s" "inject.text" true
    ∷ stdout_data (97 ∷ 10 ∷ [])
    ∷ []

gone_settles_every_example :
    let c = step ascii one_letter (run ascii one_letter new asked) (child_gone 0) in
    All (λ id. is_some (lookup id c.settled) ≡ true) c.sent × (c.pending ≡ [])
gone_settles_every_example = gone_settles_every ascii one_letter asked 0

abbrev answer : Message ℕ
answer = record { id = some "r"; result = 7; event = none; params = none; error = none }

abbrev other_id : String
other_id = "s"
