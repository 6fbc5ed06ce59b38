-- ===== src/Tests/Runner.antt =====
-- Interleavings of slices at concrete inputs.
use virtiz_ai.Common.{◌++◌, ◌≡◌, refl, false, none, some, List, [], ◌∷◌}
use virtiz_ai.Common.Dict
use virtiz_ai.Common.Dict.{Dict}
use virtiz_ai.Common.Json.{Value, null, str, obj, field, end}
use virtiz_ai.Jobs.{queued, succeeded, Job}
use virtiz_ai.Runner.{
  handler_registered, Manager, Submission, Task, Event, scheduled, submitted, first_slice,
  handler_ended, notice_ended, cancel_asked, returned, listener_raised, listener_returned, notify,
  submit, step, run, final_status, update_job, started, finished,
}
use virtiz_ai.Runner.Tracking.{IsTracked, submitted-IsTracked}
use virtiz_ai.Runner.Settled.{EndsAsCalled, run_settles}
use virtiz_ai.Runner.Cancelling.{IsStuck, cancelled_before_start-IsStuck}

abbrev echo : Submission
echo = record { job_id = "a"; kind = "echo"; payload = null; user_id = none; session_id = none }

abbrev ready : Manager
ready = record {
  jobs = record { entries = [] };
  tasks = record { entries = [] };
  handlers = "echo" ∷ [];
}

abbrev echo_row : Job
echo_row = record {
  user_id = none;
  session_id = none;
  project_id = none;
  role_id = none;
  provider_id = none;
  model_id = none;
  worker_id = none;
  environment_target_id = none;
  kind = "echo";
  status = queued;
  objective = none;
  payload = null;
  result = none;
  started_at = none;
  finished_at = none;
}

abbrev echo_task : Task
echo_task = record { kind = "echo"; phase = scheduled; cancel_requested = false }

abbrev accepted : Manager
accepted = record {
  jobs = record { entries = ("a", echo_row) ∷ [] };
  tasks = record { entries = ("a", echo_task) ∷ [] };
  handlers = "echo" ∷ [];
}

submit-echo : submit echo ready ≡ accepted
unfolding submit Dict.get Dict.put
submit-echo = refl

abbrev reply : Value
reply = obj (field "status" (str "succeeded") end)

abbrev mixed : List Event
mixed =
    first_slice 1 "a"
    ∷ submitted echo
    ∷ cancel_asked "b"
    ∷ handler_ended 4 "a" (returned reply)
    ∷ notice_ended 5 "a" (listener_raised ∷ listener_returned ∷ [])
    ∷ []

mixed_end :
    Dict.get (run accepted mixed).jobs "a"
    ≡ some (record echo_row {
      status = succeeded;
      result = some reply;
      started_at = some 1;
      finished_at = some 4;
    })
unfolding run step update_job started finished Dict.get Dict.put Dict.remove final_status
mixed_end = refl

fresh : Dict.get ready.jobs "a" ≡ none
unfolding Dict.get
fresh = refl

row_found : Dict.get accepted.jobs "a" ≡ some echo_row
unfolding Dict.get
row_found = refl

task_found : Dict.get accepted.tasks "a" ≡ some echo_task
unfolding Dict.get
task_found = refl

submitted-IsTracked_example : IsTracked "a" (run (submit echo ready) mixed)
submitted-IsTracked_example = submitted-IsTracked ready echo mixed fresh

heard : notify (listener_raised ∷ []) ≡ false
unfolding notify
heard = refl

run_settles_example : EndsAsCalled "a" echo_row "echo" 1 4 (returned reply) (
    run accepted (
      first_slice 1 "a"
      ∷ ((handler_registered "other" ∷ [])
          ++ (handler_ended 4 "a" (returned reply)
              ∷ ((cancel_asked "b" ∷ []) ++ (notice_ended 5 "a" (listener_raised ∷ []) ∷ []))))))
run_settles_example =
    run_settles accepted "a" echo_row echo_task 1 4 5 (returned reply) (listener_raised ∷ [])
      (handler_registered "other" ∷ []) (cancel_asked "b" ∷ []) (row_found, task_found) refl refl
      refl heard (tt, tt) (refl, tt)

-- the task is asked to cancel, another job arrives, and then the task is due
cancelled_before_start-IsStuck_example : IsStuck "a" echo_row "echo" (
    run accepted (
      cancel_asked "a"
      ∷ ((handler_registered "other" ∷ first_slice 1 "b" ∷ []) ++ (first_slice 1 "a" ∷ mixed))))
cancelled_before_start-IsStuck_example =
    cancelled_before_start-IsStuck accepted "a" echo_row echo_task 1
      (handler_registered "other" ∷ first_slice 1 "b" ∷ []) mixed row_found task_found refl
      (tt, (refl, tt))
