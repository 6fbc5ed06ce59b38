-- ===== src/Runner/Tracking.antt =====
-- What a submitted job's row and its entry in `JobManager.tasks` say of one another, between any two slices.
use virtiz_ai.Common.{
  ℕ, String, ◌≡◌, refl, inl, inr, Bool, true, false, Option, none, some, List, [], ◌∷◌, arith,
  if◌then◌else◌, if_ind, match_some_ind, mem, is_some, Result, ok, raised, ◌==◌, eq_iff,
  Option-cases,
}
use virtiz_ai.Common.Dict
use virtiz_ai.Common.Dict.{Dict, dict_laws, get-put, get-remove}
use virtiz_ai.Jobs.{Status, queued, running, succeeded, failed, cancelled, Job}
use virtiz_ai.Jobs.Machine.{is_terminal}
use virtiz_ai.Common.Json.{Value, str, obj, get_field}
use virtiz_ai.Runner.{
  run, Notice, of_result, of_cancellation, of_failure, Phase, scheduled, in_handler, notifying,
  dead, Task, Manager, Event, submitted, first_slice, handler_ended, notice_ended, cancel_asked,
  handler_registered, HandlerEnd, returned, raised_error, was_cancelled, update_job, started,
  finished, on_error, on_cancelled, begin, after_handler, after_notify, cancel, submit, Submission,
  final_status, status_of, notify, conclude, submitted_job, created_task, step,
}

unfoldable pub map_job : (Job → Job) → Option Job → Option Job
map_job f none = none
map_job f (some job) = some (f job)

pub get-update_job :
    (jobs : Dict Job) (id k : String) (f : Job → Job)
    → Dict.get (update_job jobs id f) k
      ≡ (if id == k then map_job f (Dict.get jobs k) else Dict.get jobs k)
unfolding update_job map_job
get-update_job jobs id k f = elim (Option-cases (Dict.get jobs id)) [
  | inl e ↦ ground (arith, eq_iff id k)
  | inr (job, e) ↦ ground (arith, eq_iff id k, get-put jobs id k (f job))
]

abbrev pub agrees : Phase → Status → Bool
agrees scheduled queued = true
agrees dead queued = true
agrees in_handler running = true
agrees (notifying of_result) succeeded = true
agrees (notifying of_result) failed = true
agrees (notifying of_failure) failed = true
agrees (notifying of_cancellation) cancelled = true
agrees _ _ = false

abbrev is_settled : Job → Bool
is_settled job = if is_terminal job.status then is_some job.finished_at else false

abbrev is_open_or_stamped : Job → Bool
is_open_or_stamped job = if is_terminal job.status then is_some job.finished_at else true

-- A row without a task is of a job that has ended and has its finish time; a row with a task has the status
-- of the phase that the task is in.
abbrev pub tracked : Option Job → Option Task → Bool
tracked none _ = false
tracked (some job) none = is_settled job
tracked (some job) (some t) = if is_open_or_stamped job then agrees t.phase job.status else false

abbrev pub IsTracked : String → Manager → Type 0
IsTracked k m = tracked (Dict.get m.jobs k) (Dict.get m.tasks k) ≡ true

status_of-agrees :
    (v : Option Value) (s : Status) → status_of v ≡ ok s → agrees (notifying of_result) s ≡ true
unfolding status_of
status_of-agrees none s e = ground arith
status_of-agrees (some (str x)) s e = ground arith
status_of-agrees (some _) s e = ground arith

final_status-agrees :
    (value : Value) (s : Status) → final_status value ≡ ok s → agrees (notifying of_result) s ≡ true
unfolding final_status
final_status-agrees (obj fs) s e = status_of-agrees (get_field fs "status") s e
final_status-agrees _ s e = ground arith

module _ (k : String) (m : Manager) (h : IsTracked k m) where
  on_error-IsTracked :
      (now : ℕ) (id : String) (t : Task) (name : String) → IsTracked k (on_error now id t name m)
  unfolding on_error map_job
  on_error-IsTracked now id t name = simp (dict_laws, get-update_job) (ground arith)

  on_cancelled-IsTracked :
      (now : ℕ) (id : String) (t : Task) → IsTracked k (on_cancelled now id t m)
  unfolding on_cancelled map_job
  on_cancelled-IsTracked now id t = simp (dict_laws, get-update_job) (ground arith)

  cancelled_early :
      (id : String) (t : Task)
      → Dict.get m.tasks id ≡ some t
      → t.phase ≡ scheduled
      → IsTracked k (record m { tasks = Dict.put m.tasks id (record t { phase = dead }) })
  cancelled_early id t e p = simp dict_laws (ground (arith, eq_iff id k))

  entered :
      (now : ℕ) (id : String) (t : Task)
      → Dict.get m.tasks id ≡ some t
      → t.phase ≡ scheduled
      → IsTracked k (record m {
        jobs = update_job m.jobs id (started now);
        tasks = Dict.put m.tasks id (record t { phase = in_handler });
      })
  unfolding map_job started
  entered now id t e p = simp (dict_laws, get-update_job) (ground (arith, eq_iff id k))

  unhandled :
      (now : ℕ) (id : String) (t : Task) (name : String)
      → IsTracked k
          (on_error now id t name (record m { jobs = update_job m.jobs id (started now) }))
  unfolding on_error map_job started
  unhandled now id t name = simp (dict_laws, get-update_job) (ground (arith, eq_iff id k))

  begin-IsTracked :
      (now : ℕ) (id : String) (p : Phase) (t : Task)
      → Dict.get m.tasks id ≡ some t
      → t.phase ≡ p
      → IsTracked k (begin now id p t m)
  unfolding begin
  begin-IsTracked now id scheduled t e q =
      if_ind (IsTracked k) t.cancel_requested _ _ (λ _. cancelled_early id t e q)
        (λ _.
          if_ind (IsTracked k) (mem t.kind m.handlers) _ _ (λ _. entered now id t e q)
            (λ _. unhandled now id t "LookupError"))
  begin-IsTracked now id _ t e q = h

  concluded :
      (now : ℕ) (id : String) (t : Task) (s : Status) (value : Value)
      → agrees (notifying of_result) s ≡ true
      → IsTracked k (record m {
        jobs = update_job m.jobs id (finished now s value);
        tasks = Dict.put m.tasks id (record t { phase = notifying of_result });
      })
  unfolding map_job finished
  concluded now id t s value a = simp (dict_laws, get-update_job) (ground (arith, eq_iff id k))

  conclude-IsTracked :
      (now : ℕ) (id : String) (t : Task) (value : Value) (r : Result String Status)
      → ((s : Status) → r ≡ ok s → agrees (notifying of_result) s ≡ true)
      → IsTracked k (conclude now id t value r m)
  conclude-IsTracked now id t value (ok s) a = concluded now id t s value (a s refl)
  conclude-IsTracked now id t value (raised name) a = on_error-IsTracked now id t name

  after_handler-IsTracked :
      (now : ℕ) (id : String) (p : Phase) (t : Task) (end : HandlerEnd)
      → IsTracked k (after_handler now id p t end m)
  unfolding after_handler
  after_handler-IsTracked now id in_handler t (returned value) =
      conclude-IsTracked now id t value (final_status value) (final_status-agrees value)
  after_handler-IsTracked now id in_handler t (raised_error name) = on_error-IsTracked now id t name
  after_handler-IsTracked now id in_handler t was_cancelled = on_cancelled-IsTracked now id t
  after_handler-IsTracked now id _ t _ = h

  popped :
      (id : String) (t : Task) (n : Notice)
      → Dict.get m.tasks id ≡ some t
      → t.phase ≡ notifying n
      → IsTracked k (record m { tasks = Dict.remove m.tasks id })
  popped id t n e q = simp dict_laws (ground (arith, eq_iff id k))

  after_notify-IsTracked :
      (now : ℕ) (id : String) (p : Phase) (t : Task) (b : Bool)
      → Dict.get m.tasks id ≡ some t
      → t.phase ≡ p
      → IsTracked k (after_notify now id p t b m)
  unfolding after_notify
  after_notify-IsTracked now id (notifying of_result) t true e q = on_cancelled-IsTracked now id t
  after_notify-IsTracked now id (notifying n) t _ e q = popped id t _ e q
  after_notify-IsTracked now id _ t _ e q = h

  cancel-IsTracked : (id : String) → IsTracked k (cancel id m).0
  unfolding cancel
  cancel-IsTracked id = elim (Option-cases (Dict.get m.tasks id)) [
    | inl e ↦ ground arith
    | inr (t, e) ↦
        ground (arith, eq_iff id k, get-put m.tasks id k (record t { cancel_requested = true }))
  ]

  submit-IsTracked : (s : Submission) → IsTracked k (submit s m)
  unfolding submit
  submit-IsTracked s = elim (Option-cases (Dict.get m.jobs s.job_id)) [
    | inl e ↦ ground (
      arith,
      eq_iff s.job_id k,
      get-put m.jobs s.job_id k (submitted_job s.kind s.payload s.user_id s.session_id),
      get-put m.tasks s.job_id k (created_task s.kind),
    )
    | inr (job, e) ↦ ground arith
  ]

-- Every slice of every task keeps every job tracked.
step-IsTracked : (k : String) (m : Manager) (e : Event) → IsTracked k m → IsTracked k (step m e)
unfolding step
step-IsTracked k m (submitted s) h = submit-IsTracked k m h s
step-IsTracked k m (first_slice now id) h =
    match_some_ind (IsTracked k) (Dict.get m.tasks id) _ _ h
      (λ t e. begin-IsTracked k m h now id t.phase t e refl)
step-IsTracked k m (handler_ended now id end) h =
    match_some_ind (IsTracked k) (Dict.get m.tasks id) _ _ h
      (λ t e. after_handler-IsTracked k m h now id t.phase t end)
step-IsTracked k m (notice_ended now id ends) h =
    match_some_ind (IsTracked k) (Dict.get m.tasks id) _ _ h
      (λ t e. after_notify-IsTracked k m h now id t.phase t (notify ends) e refl)
step-IsTracked k m (cancel_asked id) h = cancel-IsTracked k m h id
step-IsTracked k m (handler_registered kind) h = h

pub run-IsTracked :
    (k : String) (m : Manager) (es : List Event) → IsTracked k m → IsTracked k (run m es)
unfolding run
run-IsTracked k m [] h = h
run-IsTracked k m (e ∷ es) h = run-IsTracked k (step m e) es (step-IsTracked k m e h)

submit_fresh :
    (m : Manager) (s : Submission)
    → Dict.get m.jobs s.job_id ≡ none
    → IsTracked s.job_id (submit s m)
unfolding submit
submit_fresh m s e = ground (
  arith,
  eq_iff s.job_id s.job_id,
  get-put m.jobs s.job_id s.job_id (submitted_job s.kind s.payload s.user_id s.session_id),
  get-put m.tasks s.job_id s.job_id (created_task s.kind),
)

-- A job submitted under a fresh id is tracked from then on, in every interleaving of slices, cancellations,
-- submissions and listener failures: its row has the status of the phase of its task, and once the manager
-- has dropped the task, the row has a terminal status and a finish time.
pub submitted-IsTracked :
    (m : Manager) (s : Submission) (es : List Event)
    → Dict.get m.jobs s.job_id ≡ none
    → IsTracked s.job_id (run (submit s m) es)
submitted-IsTracked m s es e = run-IsTracked s.job_id (submit s m) es (submit_fresh m s e)
