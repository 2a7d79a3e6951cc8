-- ===== src/Store/Jobs/Tests.antt =====
-- The jobs slice at concrete states.
use mozgoslav.Prelude.{
  ◌≡◌, refl, ◌≢◌, String, none, some, arith, lookup, insert, values, eq_iff, [], ◌∷◌, ◌∷◌,
}
use mozgoslav.Store.Jobs.{
  done, JobWithStages, PendingJob, initial, upsert_job, add_pending, State, job_updated, reduce,
  select_job_by_recording_id, last_with_recording,
}
use mozgoslav.Store.Dictation.{data_of}
use mozgoslav.Store.Jobs.Stream.{new, run, subscribed, answered, channel_ended}
use mozgoslav.Store.Jobs.Open.{IsShown, streaming_is_open}
use mozgoslav.Store.Jobs.Keys.{IsValid, initial-IsValid, reduce-IsValid}
use mozgoslav.Store.Jobs.Pending.{upsert_job_lem}

abbrev job : JobWithStages
job = record {
  core = record {
    id = "j1";
    recording_id = "r1";
    profile_id = "p";
    status = done;
    progress = 100;
    current_step = none;
    error_message = none;
    user_hint = none;
    created_at = "t0";
    started_at = none;
    finished_at = none;
    resumed_from_checkpoint = none;
    checkpoint_at = none;
  };
  stages = none;
}

abbrev upload_of : String → PendingJob
upload_of temp = record {
  temp_id = temp;
  label = "a.wav";
  started_at = "t0";
  recording_id = none;
  error = none;
}

reduce-IsValid_example : IsValid (reduce initial (job_updated job))
reduce-IsValid_example = reduce-IsValid initial (job_updated job) initial-IsValid

upsert_job_lem_example :
    (lookup "j1" (upsert_job initial job).by_id ≡ some job.core)
    × (lookup "j1" (upsert_job initial job).pending ≡ none)
    × (lookup "j1" (upsert_job initial job).stages_by_job_id ≡ none)
unfolding initial lookup
upsert_job_lem_example = upsert_job_lem initial job "j1" initial-IsValid

r1_set : ◌≢◌ {A = String} "r1" ""
r1_set = ground (arith, eq_iff "r1" "")

abbrev with_other : State
with_other = add_pending initial (upload_of "u2")

u2-ne-u1 : ◌≢◌ {A = String} "u2" "u1"
u2-ne-u1 = ground (arith, eq_iff "u2" "u1")

found_by_recording : select_job_by_recording_id "r1" (upsert_job initial job) ≡ some job.core
unfolding select_job_by_recording_id upsert_job initial insert values last_with_recording
found_by_recording = refl

streaming_is_open_example :
    IsShown (run new (subscribed ∷ answered (data_of none) ∷ channel_ended ∷ []))
streaming_is_open_example =
    streaming_is_open (subscribed ∷ answered (data_of none) ∷ channel_ended ∷ [])
