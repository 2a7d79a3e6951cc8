-- ===== src/Store/Jobs/Sagas.antt =====
-- jobMapper.ts and the sagas behind the buttons of a job: pauseJobSaga.ts, resumeJobSaga.ts and
-- retryJobFromStageSaga.ts.
use mozgoslav.Prelude.{ℕ, String, Option, none, some, List, [], ◌∷◌, map}
use mozgoslav.Store.Dictation.{Reply, data_of, thrown}
use mozgoslav.Store.Jobs.{
  Status, queued, preflight_checks, transcribing, correcting, summarizing, exporting, done, failed,
  cancelled, paused, Stage, JobWithStages, Action, pause_job_succeeded, pause_job_failed,
  resume_job_succeeded, resume_job_failed, retry_job_succeeded, retry_job_failed,
}

-- `GqlJobStatus`; `gql_unknown` is a status that this build does not know
pub data GqlStatus : Type 0 where
  gql_queued gql_preflight_checks gql_transcribing gql_correcting gql_summarizing gql_exporting
        gql_done gql_failed gql_cancelled gql_paused gql_unknown :
      GqlStatus

-- `GqlStageNode`
pub record GqlStage : Type 0 where
  pub id : String
  pub job_id : String
  pub stage_name : String
  pub started_at : String
  pub finished_at : Option String
  pub duration_ms : Option ℕ
  pub error_message : Option String

-- `GqlJobNode`
pub record GqlJob : Type 0 where
  pub id : String
  pub recording_id : String
  pub profile_id : String
  pub status : GqlStatus
  pub progress : ℕ
  pub current_step : Option String
  pub error_message : Option String
  pub user_hint : Option String
  pub created_at : String
  pub started_at : Option String
  pub finished_at : Option String
  pub stages : Option (List GqlStage)

abbrev pub gql_job_status_to_domain : GqlStatus → Status
gql_job_status_to_domain gql_queued = queued
gql_job_status_to_domain gql_preflight_checks = preflight_checks
gql_job_status_to_domain gql_transcribing = transcribing
gql_job_status_to_domain gql_correcting = correcting
gql_job_status_to_domain gql_summarizing = summarizing
gql_job_status_to_domain gql_exporting = exporting
gql_job_status_to_domain gql_done = done
gql_job_status_to_domain gql_failed = failed
gql_job_status_to_domain gql_cancelled = cancelled
gql_job_status_to_domain gql_paused = paused
gql_job_status_to_domain gql_unknown = queued

unfoldable pub map_gql_stage : GqlStage → Stage
map_gql_stage s = record {
  id = s.id;
  job_id = s.job_id;
  stage_name = s.stage_name;
  started_at = s.started_at;
  finished_at = s.finished_at;
  duration_ms = s.duration_ms;
  error_message = s.error_message;
}

-- `j.stages ?? []`
abbrev listed_stages : Option (List GqlStage) → List GqlStage
listed_stages none = []
listed_stages (some stages) = stages

unfoldable pub map_gql_job : GqlJob → JobWithStages
map_gql_job j = record {
  core = record {
    id = j.id;
    recording_id = j.recording_id;
    profile_id = j.profile_id;
    status = gql_job_status_to_domain j.status;
    progress = j.progress;
    current_step = j.current_step;
    error_message = j.error_message;
    user_hint = j.user_hint;
    created_at = j.created_at;
    started_at = j.started_at;
    finished_at = j.finished_at;
    resumed_from_checkpoint = none;
    checkpoint_at = none;
  };
  stages = some (map map_gql_stage (listed_stages j.stages));
}

-- `pauseJobSaga`; the payload is read for the messages of its errors only
unfoldable pub pause_saga : String → Reply (List String) → Action
pause_saga id (data_of (message ∷ _)) = pause_job_failed id message
pause_saga id (data_of []) = pause_job_succeeded id
pause_saga id (thrown e) = pause_job_failed id e

-- the payload of a resumption or a retry: the job, if any, and the messages of the errors
pub record Payload : Type 0 where
  pub job : Option GqlJob
  pub errors : List String

-- the `try` block after the request, which both sagas have; nothing is put if there is no job
abbrev pub put_job : (JobWithStages → Action) → (String → Action) → Payload → Option Action
put_job succeeded refused p = elim p.errors [
  | message ∷ _ ↦ some (refused message)
  | [] ↦ elim p.job [ some j ↦ some (succeeded (map_gql_job j)) | none ↦ none ]
]

-- `resumeJobSaga`
unfoldable pub resume_saga : String → Reply Payload → Option Action
resume_saga id (data_of p) = put_job resume_job_succeeded (resume_job_failed id) p
resume_saga id (thrown e) = some (resume_job_failed id e)

-- `JobStage`
pub data JobStage : Type 0 where
  stage_transcribing stage_correcting stage_llm_correction stage_summarizing stage_exporting :
      JobStage

-- the stages of the backend
pub data GqlStageName : Type 0 where
  gql_stage_transcribing gql_stage_correcting gql_stage_llm_correction gql_stage_summarizing
        gql_stage_exporting :
      GqlStageName

abbrev pub domain_stage_to_gql : JobStage → GqlStageName
domain_stage_to_gql stage_transcribing = gql_stage_transcribing
domain_stage_to_gql stage_correcting = gql_stage_correcting
domain_stage_to_gql stage_llm_correction = gql_stage_llm_correction
domain_stage_to_gql stage_summarizing = gql_stage_summarizing
domain_stage_to_gql stage_exporting = gql_stage_exporting

-- `retryJobFromStageSaga`
unfoldable pub retry_saga : String → Reply Payload → Option Action
retry_saga id (data_of p) = put_job retry_job_succeeded (retry_job_failed id) p
retry_saga id (thrown e) = some (retry_job_failed id e)
