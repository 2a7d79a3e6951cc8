-- ===== src/Store/Recordings/Tests.antt =====
-- The recordings at concrete actions.
use mozgoslav.Prelude.{◌≡◌, refl, String, true, false, none, some, List, [], ◌∷◌, lookup}
use mozgoslav.Store.Recordings.{Recording, wav, imported, fresh}
use mozgoslav.Store.Recordings.Requests.{is_backend_down}
use mozgoslav.Store.Recordings.Live.{
  Event, new, step, run, subscribed, unsubscribed, received, follows, unfollowed_is_silent,
}

abbrev tape : String → Recording
tape id = record {
  id = id;
  file_name = "a.wav";
  file_path = "/a.wav";
  sha256 = "0";
  duration = "1";
  format = wav;
  source_type = imported;
  status = fresh;
  created_at = "now";
}

backend_down : is_backend_down "connect ECONNREFUSED ::1" ≡ true
unfolding is_backend_down
backend_down = refl

abbrev listening : List Event
listening =
    subscribed "a"
    ∷ subscribed "b"
    ∷ received 0 (some (record { recording_id = "a"; text = "he"; observed_at = "now" }))
    ∷ unsubscribed "a"
    ∷ received 0 (some (record { recording_id = "b"; text = "lo"; observed_at = "now" }))
    ∷ []

unfollowed : follows "a" (run new listening).live ≡ false
unfolding run new step
unfollowed = refl

unfollowed_is_silent_example : lookup "a" (run new listening).store.live_partials ≡ none
unfollowed_is_silent_example = unfollowed_is_silent listening "a" unfollowed
