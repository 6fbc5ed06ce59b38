-- ===== src/Jobs.antt =====
-- virtizai_core/jobs.py: the durable jobs table, delegated jobs and the bounded state machine
-- `JobManager.transition`. The table is keyed by the primary key `id`; `now_iso()` is the argument `now`.
-- A method that may raise returns the table beside its result, so that what an exception leaves behind is
-- visible.
pub mod Machine
pub mod Trace
use virtiz_ai.Common.{
  ℕ, suc, String, Bool, true, false, Option, none, some, List, [], ◌∷◌, if◌then◌else◌, is_some,
  Result, ok, raised,
}
use virtiz_ai.Common.Dict
use virtiz_ai.Common.Dict.{Dict}
use virtiz_ai.Common.Json.{Value}

-- the texts of the column `status`; `other` is any text that the module does not write itself
pub data Status : Type 0 where
  queued running succeeded failed cancelled : Status
  other : String → Status

pub record Job : Type 0 where
  pub user_id : Option String
  pub session_id : Option String
  pub project_id : Option String
  pub role_id : Option String
  pub provider_id : Option String
  pub model_id : Option String
  pub worker_id : Option String
  pub environment_target_id : Option String
  pub kind : String
  pub status : Status
  pub objective : Option String
  pub payload : Value
  pub result : Option Value
  pub started_at : Option ℕ
  pub finished_at : Option ℕ

pub data JobError : Type 0 where
  cannot_transition : Status → Status → JobError
  duplicate_id : JobError

-- the columns that a caller of `create_delegated` chooses
pub record Delegation : Type 0 where
  pub kind : String
  pub payload : Value
  pub user_id : Option String
  pub session_id : Option String
  pub project_id : Option String
  pub role_id : Option String
  pub provider_id : Option String
  pub model_id : Option String
  pub worker_id : Option String
  pub environment_target_id : Option String
  pub objective : Option String

abbrev delegated_job : Delegation → Job
delegated_job d = record {
  user_id = d.user_id;
  session_id = d.session_id;
  project_id = d.project_id;
  role_id = d.role_id;
  provider_id = d.provider_id;
  model_id = d.model_id;
  worker_id = d.worker_id;
  environment_target_id = d.environment_target_id;
  kind = d.kind;
  status = queued;
  objective = d.objective;
  payload = d.payload;
  result = none;
  started_at = none;
  finished_at = none;
}

-- INSERT refuses an `id` that the table has
unfoldable pub insert_job : String → Job → Dict Job → Dict Job × Result JobError String
insert_job job_id job jobs =
    if is_some (Dict.get jobs job_id)
    then (jobs, raised duplicate_id)
    else (Dict.put jobs job_id job, ok job_id)

-- `job_id` is the fresh `uuid4`
unfoldable pub create_delegated : String → Delegation → Dict Job → Dict Job × Result JobError String
unfolding insert_job
create_delegated job_id d jobs = insert_job job_id (delegated_job d) jobs

-- the table `allowed` of `transition`
unfoldable pub allowed : Status → Status → Bool
allowed queued running = true
allowed queued cancelled = true
allowed running succeeded = true
allowed running failed = true
allowed running cancelled = true
allowed _ _ = false

-- UPDATE of the status and of the column `timestamp_column`
unfoldable pub stamped : ℕ → Status → Job → Job
stamped now running job = record job { status = running; started_at = some now }
stamped now status job = record job { status = status; finished_at = some now }

unfoldable pub transition : ℕ → String → Status → Dict Job → Dict Job × Result JobError (Option Job)
unfolding allowed stamped
transition now job_id status jobs = elim (Dict.get jobs job_id) [
  | none ↦ (jobs, ok none)
  | some job ↦
      if allowed job.status status
      then (
        Dict.put jobs job_id (stamped now status job),
        ok (Dict.get (Dict.put jobs job_id (stamped now status job)) job_id),
      )
      else (jobs, raised (cannot_transition job.status status))
]

-- one request to the state machine, and a run of them whose callers catch the exceptions
pub record Request : Type 0 where
  pub now : ℕ
  pub job_id : String
  pub status : Status

unfoldable pub transitions : Dict Job → List Request → Dict Job
transitions jobs [] = jobs
transitions jobs (r ∷ rs) = transitions (transition r.now r.job_id r.status jobs).0 rs
