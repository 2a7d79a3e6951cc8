-- ===== src/Store/Jobs.antt =====
-- frontend/src/store/slices/jobs: the slice of processing jobs and pending uploads: types.ts,
-- mutations.ts, reducer.ts and selectors.ts. Times and progress are only stored.
pub mod Controls
pub mod Keys
pub mod Open
pub mod Pending
pub mod Sagas
pub mod Select
pub mod Stream
mod Tests
use mozgoslav.Prelude.{
  ℕ, String, Bool, true, false, not, ◌&&◌, Option, none, some, List, [], ◌∷◌, ◌++◌, map, ◌==◌,
  if◌then◌else◌, Dict, lookup, insert, erase, assign, values, filter,
}

-- `JobStatus`
pub data Status : Type 0 where
  queued preflight_checks transcribing correcting summarizing exporting done failed cancelled
        paused :
      Status

-- `ProcessingJob`
pub record Job : Type 0 where
  pub id : String
  pub recording_id : String
  pub profile_id : String
  pub status : Status
  pub progress : ℕ
  pub current_step : Option String
  pub error_message : Option String
  pub user_hint : Option String
  pub created_at : String
  pub started_at : Option String
  pub finished_at : Option String
  pub resumed_from_checkpoint : Option Bool
  pub checkpoint_at : Option String

-- `ProcessingJobStage`
pub record Stage : Type 0 where
  pub id : String
  pub job_id : String
  pub stage_name : String
  pub started_at : String
  pub finished_at : Option String
  pub duration_ms : Option ℕ
  pub error_message : Option String

-- `JobWithStages`: `stages` may be missing
pub record JobWithStages : Type 0 where
  pub core : Job
  pub stages : Option (List Stage)

-- `PendingJob`; its `kind` is always "uploading"
pub record PendingJob : Type 0 where
  pub temp_id : String
  pub label : String
  pub started_at : String
  pub recording_id : Option String
  pub error : Option String

-- `JobsState`
pub record State : Type 0 where
  pub by_id : Dict Job
  pub stages_by_job_id : Dict (List Stage)
  pub pending : Dict PendingJob
  pub is_streaming : Bool
  pub last_error : Option String
  pub errors : Dict String

unfoldable pub initial : State
initial = record {
  by_id = [];
  stages_by_job_id = [];
  pending = [];
  is_streaming = false;
  last_error = none;
  errors = [];
}

-- the two `reduce` calls of `seedJobs`
unfoldable pub index_jobs : Dict Job → List JobWithStages → Dict Job
index_jobs acc [] = acc
index_jobs acc (j ∷ jobs) = index_jobs (insert j.core.id j.core acc) jobs

abbrev stages_or_empty : Option (List Stage) → List Stage
stages_or_empty none = []
stages_or_empty (some stages) = stages

unfoldable pub index_stages : Dict (List Stage) → List JobWithStages → Dict (List Stage)
index_stages acc [] = acc
index_stages acc (j ∷ jobs) = index_stages (insert j.core.id (stages_or_empty j.stages) acc) jobs

unfoldable pub seed_jobs : State → List JobWithStages → State
seed_jobs s jobs = record s {
  by_id = index_jobs [] jobs;
  stages_by_job_id = assign s.stages_by_job_id (index_stages [] jobs);
  last_error = none;
}

-- `pending.recordingId && pending.recordingId === jobCore.recordingId`
abbrev pub is_for : String → Option String → Bool
is_for rid none = false
is_for rid (some r) = if r == "" then false else r == rid

-- the loop of `upsertJob` over the entries of the old `pending`
unfoldable pub drop_pending : String → Dict PendingJob → Dict PendingJob → Dict PendingJob
drop_pending rid [] next = next
drop_pending rid ((temp, p) ∷ entries) next =
    drop_pending rid entries (if is_for rid p.recording_id then erase temp next else next)

abbrev set_stages : String → Option (List Stage) → Dict (List Stage) → Dict (List Stage)
set_stages id none m = m
set_stages id (some stages) m = insert id stages m

unfoldable pub upsert_job : State → JobWithStages → State
upsert_job s j = record s {
  by_id = insert j.core.id j.core s.by_id;
  stages_by_job_id = set_stages j.core.id j.stages s.stages_by_job_id;
  pending = drop_pending j.core.recording_id s.pending s.pending;
}

unfoldable pub set_seed_error : State → String → State
set_seed_error s error = record s { last_error = some error }

unfoldable pub set_streaming : State → Bool → State
set_streaming s on = record s { is_streaming = on }

unfoldable pub add_pending : State → PendingJob → State
add_pending s p = record s { pending = insert p.temp_id p s.pending }

unfoldable pub resolve_pending : State → String → Option String → State
resolve_pending s temp rid = elim (lookup temp s.pending) [
  | none ↦ s
  | some existing ↦ record s {
    pending = insert temp (record existing { recording_id = rid }) s.pending;
  }
]

unfoldable pub fail_pending : State → String → String → State
fail_pending s temp error = elim (lookup temp s.pending) [
  | none ↦ s
  | some existing ↦ record s {
    pending = insert temp (record existing { error = some error }) s.pending;
  }
]

-- the `PAUSE_JOB_SUCCEEDED` case
unfoldable pub pause_succeeded : State → String → State
pause_succeeded s id = elim (lookup id s.by_id) [
  | none ↦ s
  | some existing ↦ record s {
    by_id = insert id (record existing { status = paused }) s.by_id;
    errors = erase id s.errors;
  }
]

-- the actions of the mutations and those that the reducer handles; `other` is any other one
pub data Action : Type 0 where
  jobs_seeded : List JobWithStages → Action
  jobs_seed_failed : (error : String) → Action
  job_updated : JobWithStages → Action
  stream_opened stream_closed : Action
  pending_created : PendingJob → Action
  pending_resolved : (temp_id : String) (recording_id : Option String) → Action
  pending_failed : (temp_id error : String) → Action
  pause_job_succeeded : (job_id : String) → Action
  pause_job_failed : (job_id error : String) → Action
  resume_job_succeeded : JobWithStages → Action
  resume_job_failed : (job_id error : String) → Action
  retry_job_succeeded : JobWithStages → Action
  retry_job_failed : (job_id error : String) → Action
  other : Action

-- `jobsReducer`
unfoldable pub reduce : State → Action → State
reduce s (jobs_seeded jobs) = seed_jobs s jobs
reduce s (jobs_seed_failed error) = set_seed_error s error
reduce s (job_updated j) = upsert_job s j
reduce s stream_opened = set_streaming s true
reduce s stream_closed = set_streaming s false
reduce s (pending_created p) = add_pending s p
reduce s (pending_resolved temp rid) = resolve_pending s temp rid
reduce s (pending_failed temp error) = fail_pending s temp error
reduce s (pause_job_succeeded id) = pause_succeeded s id
reduce s (pause_job_failed id error) = record s { errors = insert id error s.errors }
reduce s (resume_job_succeeded j) = upsert_job s j
reduce s (retry_job_succeeded j) = upsert_job s j
reduce s (resume_job_failed id error) = s
reduce s (retry_job_failed id error) = s
reduce s other = s

-- `TERMINAL_STATUSES.has`
abbrev pub is_terminal : Status → Bool
is_terminal done = true
is_terminal failed = true
is_terminal cancelled = true
is_terminal _ = false

unfoldable pub select_active_backend_jobs : State → List Job
select_active_backend_jobs s = filter (λ j. not (is_terminal j.status)) (values s.by_id)

-- `(ProcessingJob | PendingJob)[]`
pub data ActiveJob : Type 0 where
  upload : PendingJob → ActiveJob
  backend : Job → ActiveJob

unfoldable pub select_active_jobs : State → List ActiveJob
select_active_jobs s = map upload (values s.pending) ++ map backend (select_active_backend_jobs s)

-- `selectJobByRecordingId`: the loop from the last job to the first is a search in which a later
-- job wins
unfoldable pub last_with_recording : String → List Job → Option Job
last_with_recording rid [] = none
last_with_recording rid (j ∷ jobs) = elim (last_with_recording rid jobs) [
  | some found ↦ some found
  | none ↦ if j.recording_id == rid then some j else none
]

unfoldable pub select_job_by_recording_id : String → State → Option Job
select_job_by_recording_id rid s = last_with_recording rid (values s.by_id)

unfoldable pub select_jobs_for_recording : String → State → List Job
select_jobs_for_recording rid s = filter (λ j. j.recording_id == rid) (values s.by_id)
