-- ===== src/Runner.antt =====
-- virtizai_core/jobs.py: `JobManager` as an asyncio program. A task of `submit` runs `_run` in slices between
-- two awaits, and the event loop chooses which slice comes next: an `Event` is one slice, with what the
-- awaited code did (the handler of a job kind, and the listeners, are not this module's code). A slice that
-- does not fit the phase of its task changes nothing.
pub mod Tracking
pub mod Outcome
pub mod Cancelling
pub mod Elsewhere
pub mod Settled
use virtiz_ai.Common.{
  ℕ, String, Bool, true, false, Option, none, some, List, [], ◌∷◌, if◌then◌else◌, match_some, mem,
  Result, ok, raised, ◌==◌,
}
use virtiz_ai.Common.Dict
use virtiz_ai.Common.Dict.{Dict}
use virtiz_ai.Common.Json.{Value, null, str, obj, arr, field, end, get_field}
use virtiz_ai.Jobs.{
  Status, queued, running, succeeded, failed, cancelled, Job, JobError, insert_job,
}

-- why `_notify` is being awaited: in the `try`, or in one of the two handlers of `_run`
pub data Notice : Type 0 where
  of_result of_cancellation of_failure : Notice

-- Where a task stands. `dead` is a task that was cancelled before its first slice: asyncio then never enters
-- the coroutine, so neither the handlers nor the `finally` of `_run` run.
pub data Phase : Type 0 where
  scheduled : Phase
  in_handler : Phase
  notifying : Notice → Phase
  dead : Phase

pub record Task : Type 0 where
  pub kind : String
  pub phase : Phase
  pub cancel_requested : Bool

pub record Manager : Type 0 where
  pub jobs : Dict Job
  pub tasks : Dict Task
  pub handlers : List String

-- how an await ended; `raised_error` carries `type(exc).__name__`
pub data HandlerEnd : Type 0 where
  returned : Value → HandlerEnd
  raised_error : String → HandlerEnd
  was_cancelled : HandlerEnd

pub data ListenerEnd : Type 0 where
  listener_returned listener_raised listener_cancelled : ListenerEnd

-- `for listener in ...: try: await listener(event) except Exception: continue`; true if a
-- CancelledError leaves the loop
unfoldable pub notify : List ListenerEnd → Bool
notify [] = false
notify (listener_returned ∷ rest) = notify rest
notify (listener_raised ∷ rest) = notify rest
notify (listener_cancelled ∷ rest) = true

-- `"succeeded" if result.get("status") in {None, "succeeded"} else "failed"`: a list or a dict cannot be
-- hashed, and a result that is no dict has no `get`
unfoldable pub status_of : Option Value → Result String Status
status_of none = ok succeeded
status_of (some null) = ok succeeded
status_of (some (str s)) = if s == "succeeded" then ok succeeded else ok failed
status_of (some (arr vs)) = raised "TypeError"
status_of (some (obj fs)) = raised "TypeError"
status_of (some _) = ok failed

unfoldable pub final_status : Value → Result String Status
unfolding status_of
final_status (obj fs) = status_of (get_field fs "status")
final_status _ = raised "AttributeError"

-- UPDATE jobs SET ... WHERE id = ?
unfoldable pub update_job : Dict Job → String → (Job → Job) → Dict Job
update_job jobs id f = elim (Dict.get jobs id) [ none ↦ jobs | some job ↦ Dict.put jobs id (f job) ]

unfoldable pub started : ℕ → Job → Job
started now job = record job { status = running; started_at = some now }

unfoldable pub finished : ℕ → Status → Value → Job → Job
finished now status value job = record job {
  status = status;
  result = some value;
  finished_at = some now;
}

abbrev set_phase : Phase → Task → Task
set_phase p t = record t { phase = p }

abbrev move_to : String → Phase → Task → Dict Task → Dict Task
move_to id p t tasks = Dict.put tasks id (set_phase p t)

-- `except asyncio.CancelledError`, up to its `await self._notify`
unfoldable pub on_cancelled : ℕ → String → Task → Manager → Manager
unfolding finished
on_cancelled now id t m = record m {
  jobs = update_job m.jobs id (
      finished now cancelled
        (obj (field "worker" (str t.kind) (field "status" (str "cancelled") end))));
  tasks = move_to id (notifying of_cancellation) t m.tasks;
}

-- `except Exception`, up to its `await self._notify`
unfoldable pub on_error : ℕ → String → Task → String → Manager → Manager
unfolding finished
on_error now id t name m = record m {
  jobs = update_job m.jobs id (finished now failed (obj (field "error" (str name) end)));
  tasks = move_to id (notifying of_failure) t m.tasks;
}

-- the `finally`
abbrev pop_task : String → Manager → Manager
pop_task id m = record m { tasks = Dict.remove m.tasks id }

abbrev submitted_job : String → Value → Option String → Option String → Job
submitted_job kind payload user_id session_id = record {
  user_id = user_id;
  session_id = session_id;
  project_id = none;
  role_id = none;
  provider_id = none;
  model_id = none;
  worker_id = none;
  environment_target_id = none;
  kind = kind;
  status = queued;
  objective = none;
  payload = payload;
  result = none;
  started_at = none;
  finished_at = none;
}

pub record Submission : Type 0 where
  pub job_id : String
  pub kind : String
  pub payload : Value
  pub user_id : Option String
  pub session_id : Option String

abbrev created_task : String → Task
created_task kind = record { kind = kind; phase = scheduled; cancel_requested = false }

abbrev schedule : Submission → Dict Task → Dict Job × Result JobError String → Manager → Manager
schedule s tasks (jobs, raised e) m = m
schedule s tasks (jobs, ok id) m = record m {
  jobs = jobs;
  tasks = Dict.put tasks id (created_task s.kind);
}

-- `submit`; no task is created if the INSERT raises
unfoldable pub submit : Submission → Manager → Manager
unfolding insert_job
submit s m =
    schedule s m.tasks
      (insert_job s.job_id (submitted_job s.kind s.payload s.user_id s.session_id) m.jobs) m

-- the first slice of `_run`
unfoldable pub begin : ℕ → String → Phase → Task → Manager → Manager
unfolding on_error started
begin now id scheduled t m =
    if t.cancel_requested
    then record m { tasks = move_to id dead t m.tasks }
    else let m' = record m { jobs = update_job m.jobs id (started now) } in
      if mem t.kind m.handlers
      then record m' { tasks = move_to id in_handler t m.tasks }
      else on_error now id t "LookupError" m'
begin now id _ t m = m

abbrev conclude : ℕ → String → Task → Value → Result String Status → Manager → Manager
conclude now id t value (ok status) m = record m {
  jobs = update_job m.jobs id (finished now status value);
  tasks = move_to id (notifying of_result) t m.tasks;
}
conclude now id t value (raised name) m = on_error now id t name m

abbrev handled : ℕ → String → Task → HandlerEnd → Manager → Manager
handled now id t (returned value) m = conclude now id t value (final_status value) m
handled now id t (raised_error name) m = on_error now id t name m
handled now id t was_cancelled m = on_cancelled now id t m

-- the slice after `await handler(...)`
unfoldable pub after_handler : ℕ → String → Phase → Task → HandlerEnd → Manager → Manager
unfolding on_error on_cancelled finished
after_handler now id in_handler t e m = handled now id t e m
after_handler now id _ t e m = m

-- the slice after `await self._notify(job_id)`
unfoldable pub after_notify : ℕ → String → Phase → Task → Bool → Manager → Manager
unfolding on_cancelled
after_notify now id (notifying of_result) t true m = on_cancelled now id t m
after_notify now id (notifying _) t _ m = pop_task id m
after_notify now id _ t _ m = m

-- `cancel`
unfoldable pub cancel : String → Manager → Manager × Bool
cancel id m = elim (Dict.get m.tasks id) [
  | none ↦ (m, false)
  | some t ↦ (record m { tasks = Dict.put m.tasks id (record t { cancel_requested = true }) }, true)
]

pub data Event : Type 0 where
  submitted : Submission → Event
  first_slice : ℕ → String → Event
  handler_ended : ℕ → String → HandlerEnd → Event
  notice_ended : ℕ → String → List ListenerEnd → Event
  cancel_asked : String → Event
  handler_registered : String → Event

abbrev with_task : String → Manager → (Task → Manager) → Manager
with_task id m f = match_some (Dict.get m.tasks id) m f

unfoldable pub step : Manager → Event → Manager
unfolding submit begin after_handler after_notify cancel notify
step m (submitted s) = submit s m
step m (first_slice now id) = with_task id m (λ t. begin now id t.phase t m)
step m (handler_ended now id e) = with_task id m (λ t. after_handler now id t.phase t e m)
step m (notice_ended now id ends) =
    with_task id m (λ t. after_notify now id t.phase t (notify ends) m)
step m (cancel_asked id) = (cancel id m).0
step m (handler_registered kind) = record m { handlers = kind ∷ m.handlers }

unfoldable pub run : Manager → List Event → Manager
run m [] = m
run m (e ∷ es) = run (step m e) es
