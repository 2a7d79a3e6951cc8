-- ===== src/Store/Jobs/Select.antt =====
-- The selectors of the slice.
use mozgoslav.Prelude.{
  ◌≡◌, refl, ◌≢◌, String, true, not, Option, none, some, List, [], ◌∷◌, ◌==◌, arith, eq_iff, values,
  filter, All, All-append, All-map, All-filter, All-values,
}
use mozgoslav.Store.Jobs.{
  Job, JobWithStages, PendingJob, State, is_for, upsert_job, is_terminal,
  select_active_backend_jobs, ActiveJob, upload, backend, select_active_jobs, last_with_recording,
  select_job_by_recording_id, select_jobs_for_recording,
}
use mozgoslav.Store.Jobs.Keys.{IsValid, upsert_job-IsValid}
use mozgoslav.Store.Jobs.Pending.{upsert_job_lem}

abbrev pub last : List Job → Option Job
last [] = none
last (j ∷ []) = some j
last (j ∷ k ∷ jobs) = last (k ∷ jobs)

last-of_cons : (j : Job) (jobs : List Job) → (k : Job) × (last (j ∷ jobs) ≡ some k)
last-of_cons j [] = (j, refl)
last-of_cons j (k ∷ jobs) = last-of_cons k jobs

last-cons :
    (j : Job) (jobs : List Job)
    → last (j ∷ jobs) ≡ elim (last jobs) [ none ↦ some j | some k ↦ some k ]
last-cons j [] = refl
last-cons j (k ∷ jobs) = let (l, e) = last-of_cons k jobs in rw e refl

last_with_recording_lem :
    (rid : String) (jobs : List Job)
    → last_with_recording rid jobs ≡ last (filter (λ j. j.recording_id == rid) jobs)
unfolding last_with_recording
last_with_recording_lem rid [] = refl
last_with_recording_lem rid (j ∷ jobs) = ground (
  arith,
  last_with_recording_lem rid jobs,
  last-cons j (filter (λ (k : Job). k.recording_id == rid) jobs),
)

-- The backwards search of `selectJobByRecordingId` finds the last job that
-- `selectJobsForRecording` lists, and finds none exactly if that lists none.
pub select_job_by_recording_id_lem :
    (rid : String) (s : State)
    → select_job_by_recording_id rid s ≡ last (select_jobs_for_recording rid s)
unfolding select_job_by_recording_id select_jobs_for_recording
select_job_by_recording_id_lem rid s = last_with_recording_lem rid (values s.by_id)

-- an active entry that still shows a job or an upload of a recording
abbrev pub Shows : String → String → ActiveJob → Type 0
Shows id rid (upload p) = is_for rid p.recording_id ≡ true
Shows id rid (backend j) = j.id ≡ id

abbrev IsEnded : Job → Job → Type 0
IsEnded j k = k.id ≡ j.id → is_terminal k.status ≡ true

upsert_job-IsEnded :
    (s : State) (j : JobWithStages)
    → IsValid s
    → is_terminal j.core.status ≡ true
    → All (IsEnded j.core) (values (upsert_job s j).by_id)
upsert_job-IsEnded s j v e =
    let w : IsValid (upsert_job s j) = upsert_job-IsValid s j v in
    All-values (IsEnded j.core) (upsert_job s j).by_id w.jobs_unique (λ k found held same.
      ground (arith, w.jobs_keyed k found held, (upsert_job_lem s j k v).0, eq_iff j.core.id k))

unlisted_uploads :
    (s : State) (j : JobWithStages)
    → IsValid s
    → All
        (λ (p : PendingJob). ¬ (is_for j.core.recording_id p.recording_id ≡ true))
        (values (upsert_job s j).pending)
unlisted_uploads s j v =
    All-values (λ (p : PendingJob). ¬ (is_for j.core.recording_id p.recording_id ≡ true))
      (upsert_job s j).pending (upsert_job-IsValid s j v).pending_unique
      (λ k found held shown. ground (arith, (upsert_job_lem s j k v).1))

-- After an update that ends a job (done, failed or cancelled), the list of active jobs shows
-- neither the job nor any upload of its recording.
pub finished_job_inactive :
    (s : State) (j : JobWithStages)
    → IsValid s
    → is_terminal j.core.status ≡ true
    → All (λ a. ¬ Shows j.core.id j.core.recording_id a) (select_active_jobs (upsert_job s j))
unfolding select_active_jobs select_active_backend_jobs
finished_job_inactive s j v e =
    All-append (λ a. ¬ Shows j.core.id j.core.recording_id a) _ _
      (All-map _ upload (values (upsert_job s j).pending) (unlisted_uploads s j v))
      (All-map _ backend _ (
        All-filter (IsEnded j.core) (λ k. k.id ≢ j.core.id) (λ k. not (is_terminal k.status))
          (values (upsert_job s j).by_id) (λ k ended live same. ground (arith, ended same))
          (upsert_job-IsEnded s j v e)))
