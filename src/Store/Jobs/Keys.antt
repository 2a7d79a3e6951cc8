-- ===== src/Store/Jobs/Keys.antt =====
-- The keys of the slice's dictionaries.
use mozgoslav.Prelude.{
  inl, inr, Option-cases, refl, String, Bool, true, false, Option, none, some, List, [], ◌∷◌,
  if◌then◌else◌, Dict, lookup, insert, erase, Unique, insert-Unique, erase-Unique, assign-Unique,
  Keyed, Keyed-empty, Keyed-insert, Keyed-erase,
}
use mozgoslav.Store.Jobs.{
  Job, Stage, JobWithStages, PendingJob, State, initial, index_jobs, index_stages, seed_jobs,
  is_for, drop_pending, upsert_job, set_seed_error, set_streaming, add_pending, resolve_pending,
  fail_pending, pause_succeeded, Action, set_stages, paused, other, resume_job_failed,
  retry_job_failed, stream_opened, stream_closed, jobs_seed_failed, jobs_seeded, job_updated,
  pending_created, pending_resolved, pending_failed, pause_job_succeeded, pause_job_failed,
  resume_job_succeeded, retry_job_succeeded, reduce,
}

abbrev pub job_id : Job → String
job_id j = j.id

abbrev pub temp_id : PendingJob → String
temp_id p = p.temp_id

-- jobs under their ids, uploads under their temporary ids, and no key twice
pub record IsValid (s : State) : Type 0 where
  pub jobs_keyed : Keyed job_id s.by_id
  pub pending_keyed : Keyed temp_id s.pending
  pub jobs_unique : Unique s.by_id
  pub stages_unique : Unique s.stages_by_job_id
  pub pending_unique : Unique s.pending
  pub errors_unique : Unique s.errors

index_jobs-Keyed :
    (acc : Dict Job) (jobs : List JobWithStages)
    → Keyed job_id acc
    → Keyed job_id (index_jobs acc jobs)
unfolding index_jobs
index_jobs-Keyed acc [] h = h
index_jobs-Keyed acc (j ∷ jobs) h =
    index_jobs-Keyed (insert j.core.id j.core acc) jobs
      (Keyed-insert job_id j.core.id j.core acc refl h)

index_jobs-Unique :
    (acc : Dict Job) (jobs : List JobWithStages) → Unique acc → Unique (index_jobs acc jobs)
unfolding index_jobs
index_jobs-Unique acc [] h = h
index_jobs-Unique acc (j ∷ jobs) h =
    index_jobs-Unique (insert j.core.id j.core acc) jobs (insert-Unique j.core.id j.core acc h)

drop_pending-Keyed :
    (rid : String) (entries next : Dict PendingJob)
    → Keyed temp_id next
    → Keyed temp_id (drop_pending rid entries next)
unfolding drop_pending
drop_pending-Keyed rid [] next h = h
drop_pending-Keyed rid ((t, p) ∷ entries) next h =
    drop_pending-Keyed rid entries _ (step (is_for rid p.recording_id))
  where
    step : (b : Bool) → Keyed temp_id (if b then erase t next else next)
    step true = Keyed-erase temp_id t next h
    step false = h

drop_pending-Unique :
    (rid : String) (entries next : Dict PendingJob)
    → Unique next
    → Unique (drop_pending rid entries next)
unfolding drop_pending
drop_pending-Unique rid [] next h = h
drop_pending-Unique rid ((t, p) ∷ entries) next h =
    drop_pending-Unique rid entries _ (step (is_for rid p.recording_id))
  where
    step : (b : Bool) → Unique (if b then erase t next else next)
    step true = erase-Unique t next h
    step false = h

pub initial-IsValid : IsValid initial
unfolding initial
initial-IsValid = record {
  jobs_keyed = Keyed-empty job_id;
  pending_keyed = Keyed-empty temp_id;
  jobs_unique = tt;
  stages_unique = tt;
  pending_unique = tt;
  errors_unique = tt;
}

set_stages-Unique :
    (id : String) (stages : Option (List Stage)) (m : Dict (List Stage))
    → Unique m
    → Unique (set_stages id stages m)
set_stages-Unique id none m h = h
set_stages-Unique id (some stages) m h = insert-Unique id stages m h

pub upsert_job-IsValid : (s : State) (j : JobWithStages) → IsValid s → IsValid (upsert_job s j)
unfolding upsert_job
upsert_job-IsValid s j v = record {
  jobs_keyed = Keyed-insert job_id j.core.id j.core s.by_id refl v.jobs_keyed;
  pending_keyed = drop_pending-Keyed j.core.recording_id s.pending s.pending v.pending_keyed;
  jobs_unique = insert-Unique j.core.id j.core s.by_id v.jobs_unique;
  stages_unique = set_stages-Unique j.core.id j.stages s.stages_by_job_id v.stages_unique;
  pending_unique = drop_pending-Unique j.core.recording_id s.pending s.pending v.pending_unique;
  errors_unique = v.errors_unique;
}

insert_pending-IsValid :
    (s : State) (p : PendingJob)
    → IsValid s
    → IsValid (record s { pending = insert p.temp_id p s.pending })
insert_pending-IsValid s p v = record {
  jobs_keyed = v.jobs_keyed;
  pending_keyed = Keyed-insert temp_id p.temp_id p s.pending refl v.pending_keyed;
  jobs_unique = v.jobs_unique;
  stages_unique = v.stages_unique;
  pending_unique = insert-Unique p.temp_id p s.pending v.pending_unique;
  errors_unique = v.errors_unique;
}

pub add_pending-IsValid : (s : State) (p : PendingJob) → IsValid s → IsValid (add_pending s p)
unfolding add_pending
add_pending-IsValid s p v = insert_pending-IsValid s p v

pub resolve_pending-IsValid :
    (s : State) (temp : String) (rid : Option String)
    → IsValid s
    → IsValid (resolve_pending s temp rid)
unfolding resolve_pending
resolve_pending-IsValid s temp rid v = elim (Option-cases (lookup temp s.pending)) [
  | inl e ↦ rw (e, resolve_pending) v
  | inr (p, e) ↦
      rw (e, resolve_pending, ← v.pending_keyed temp p e)
        (insert_pending-IsValid s (record p { recording_id = rid }) v)
]

fail_pending-IsValid :
    (s : State) (temp error : String) → IsValid s → IsValid (fail_pending s temp error)
unfolding fail_pending
fail_pending-IsValid s temp error v = elim (Option-cases (lookup temp s.pending)) [
  | inl e ↦ rw (e, fail_pending) v
  | inr (p, e) ↦
      rw (e, fail_pending, ← v.pending_keyed temp p e)
        (insert_pending-IsValid s (record p { error = some error }) v)
]

pause_succeeded-IsValid : (s : State) (id : String) → IsValid s → IsValid (pause_succeeded s id)
unfolding pause_succeeded
pause_succeeded-IsValid s id v = elim (Option-cases (lookup id s.by_id)) [
  | inl e ↦ rw (e, pause_succeeded) v
  | inr (j, e) ↦
      rw (e, pause_succeeded)
        (record {
          jobs_keyed =
              Keyed-insert job_id id (record j { status = paused }) s.by_id (v.jobs_keyed id j e)
                v.jobs_keyed;
          pending_keyed = v.pending_keyed;
          jobs_unique = insert-Unique id (record j { status = paused }) s.by_id v.jobs_unique;
          stages_unique = v.stages_unique;
          pending_unique = v.pending_unique;
          errors_unique = erase-Unique id s.errors v.errors_unique;
        })
]

seed_jobs-IsValid : (s : State) (jobs : List JobWithStages) → IsValid s → IsValid (seed_jobs s jobs)
unfolding seed_jobs
seed_jobs-IsValid s jobs v = record {
  jobs_keyed = index_jobs-Keyed [] jobs (Keyed-empty job_id);
  pending_keyed = v.pending_keyed;
  jobs_unique = index_jobs-Unique [] jobs tt;
  stages_unique = assign-Unique s.stages_by_job_id (index_stages [] jobs) v.stages_unique;
  pending_unique = v.pending_unique;
  errors_unique = v.errors_unique;
}

-- the same slice with another error table or other flags
refit-IsValid :
    (s : State) (errors : Dict String) (on : Bool) (error : Option String)
    → Unique errors
    → IsValid s
    → IsValid (record s { errors = errors; is_streaming = on; last_error = error })
refit-IsValid s errors on error u v = record {
  jobs_keyed = v.jobs_keyed;
  pending_keyed = v.pending_keyed;
  jobs_unique = v.jobs_unique;
  stages_unique = v.stages_unique;
  pending_unique = v.pending_unique;
  errors_unique = u;
}

-- The reducer keeps the slice valid: every job stands under its own id, every pending upload under
-- its temporary id, and no key is listed twice.
pub reduce-IsValid : (s : State) (a : Action) → IsValid s → IsValid (reduce s a)
unfolding reduce set_seed_error set_streaming
reduce-IsValid s (jobs_seeded jobs) v = seed_jobs-IsValid s jobs v
reduce-IsValid s (jobs_seed_failed e) v =
    refit-IsValid s s.errors s.is_streaming (some e) v.errors_unique v
reduce-IsValid s (job_updated j) v = upsert_job-IsValid s j v
reduce-IsValid s stream_opened v = refit-IsValid s s.errors true s.last_error v.errors_unique v
reduce-IsValid s stream_closed v = refit-IsValid s s.errors false s.last_error v.errors_unique v
reduce-IsValid s (pending_created p) v = add_pending-IsValid s p v
reduce-IsValid s (pending_resolved temp rid) v = resolve_pending-IsValid s temp rid v
reduce-IsValid s (pending_failed temp error) v = fail_pending-IsValid s temp error v
reduce-IsValid s (pause_job_succeeded id) v = pause_succeeded-IsValid s id v
reduce-IsValid s (pause_job_failed id e) v =
    refit-IsValid s (insert id e s.errors) s.is_streaming s.last_error
      (insert-Unique id e s.errors v.errors_unique) v
reduce-IsValid s (resume_job_succeeded j) v = upsert_job-IsValid s j v
reduce-IsValid s (retry_job_succeeded j) v = upsert_job-IsValid s j v
reduce-IsValid s (resume_job_failed id e) v = v
reduce-IsValid s (retry_job_failed id e) v = v
reduce-IsValid s other v = v
