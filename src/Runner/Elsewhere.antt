-- ===== src/Runner/Elsewhere.antt =====
-- virtizai_core/jobs.py: the events of the other jobs leave the row and the task of a job.
use virtiz_ai.Common.{
  ◌++◌, All, ℕ, String, ◌≡◌, refl, inl, inr, Bool, true, false, List, [], ◌∷◌, arith, if_ind, mem,
  match_some_ind, ◌∙◌, Result, raised, ◌==◌, Option-cases, ok,
}
use virtiz_ai.Common.Dict
use virtiz_ai.Common.Dict.{Dict, dict_laws, get-put, get-remove}
use virtiz_ai.Common.Json.{Value}
use virtiz_ai.Jobs.{Status, Job}
use virtiz_ai.Runner.{
  Phase, in_handler, returned, raised_error, was_cancelled, scheduled, notifying, dead, of_result,
  Task, Manager, Event, submitted, first_slice, handler_ended, notice_ended, cancel_asked,
  handler_registered, HandlerEnd, update_job, started, on_error, on_cancelled, begin, after_handler,
  after_notify, cancel, submit, Submission, final_status, conclude, notify, step, run,
  submitted_job, created_task,
}
use virtiz_ai.Runner.Tracking.{get-update_job, map_job}

-- the row and the task of `k` are those of `m`
unfoldable pub SameSlot : String → Manager → Manager → Type 0
SameSlot k m m' =
    (Dict.get m'.jobs k ≡ Dict.get m.jobs k) × (Dict.get m'.tasks k ≡ Dict.get m.tasks k)

module _ (k id : String) (ne : (id == k) ≡ false) (m : Manager) where
  written_elsewhere :
      (f : Job → Job) (t : Task)
      → SameSlot k m (record m { jobs = update_job m.jobs id f; tasks = Dict.put m.tasks id t })
  unfolding SameSlot
  written_elsewhere f t =
      (ground (arith, get-update_job m.jobs id k f), ground (arith, get-put m.tasks id k t))

  same : SameSlot k m m
  unfolding SameSlot
  same = (refl, refl)

  error_elsewhere : (now : ℕ) (t : Task) (name : String) → SameSlot k m (on_error now id t name m)
  unfolding on_error
  error_elsewhere now t name = written_elsewhere _ _

  cancellation_elsewhere : (now : ℕ) (t : Task) → SameSlot k m (on_cancelled now id t m)
  unfolding on_cancelled
  cancellation_elsewhere now t = written_elsewhere _ _

  pub begin_elsewhere : (now : ℕ) (p : Phase) (t : Task) → SameSlot k m (begin now id p t m)
  unfolding begin on_error SameSlot map_job
  begin_elsewhere now scheduled t =
      if_ind (SameSlot k m) t.cancel_requested _ _
        (λ _. (refl, ground (arith, get-put m.tasks id k (record t { phase = dead }))))
        (λ _.
          if_ind (SameSlot k m) (mem t.kind m.handlers) _ _ (λ _. written_elsewhere (started now) _)
            (λ _. simp (dict_laws, get-update_job) (ground arith)))
  begin_elsewhere now _ t = same

  conclusion_elsewhere :
      (now : ℕ) (t : Task) (value : Value) (r : Result String Status)
      → SameSlot k m (conclude now id t value r m)
  conclusion_elsewhere now t value (ok s) = written_elsewhere _ _
  conclusion_elsewhere now t value (raised name) = error_elsewhere now t name

  pub after_handler_elsewhere :
      (now : ℕ) (p : Phase) (t : Task) (e : HandlerEnd)
      → SameSlot k m (after_handler now id p t e m)
  unfolding after_handler
  after_handler_elsewhere now in_handler t (returned value) =
      conclusion_elsewhere now t value (final_status value)
  after_handler_elsewhere now in_handler t (raised_error name) = error_elsewhere now t name
  after_handler_elsewhere now in_handler t was_cancelled = cancellation_elsewhere now t
  after_handler_elsewhere now _ t _ = same

  pub after_notify_elsewhere :
      (now : ℕ) (p : Phase) (t : Task) (b : Bool) → SameSlot k m (after_notify now id p t b m)
  unfolding after_notify SameSlot
  after_notify_elsewhere now (notifying of_result) t true = cancellation_elsewhere now t
  after_notify_elsewhere now (notifying n) t _ = (refl, ground (arith, get-remove m.tasks id k))
  after_notify_elsewhere now _ t _ = same

  submit_elsewhere : (s : Submission) → s.job_id ≡ id → SameSlot k m (submit s m)
  unfolding submit SameSlot
  submit_elsewhere s e = elim (Option-cases (Dict.get m.jobs s.job_id)) [
    | inl f ↦ ground (
      arith,
      get-put m.jobs s.job_id k (submitted_job s.kind s.payload s.user_id s.session_id),
      get-put m.tasks s.job_id k (created_task s.kind),
    )
    | inr (other, f) ↦ ground arith
  ]

  cancel_elsewhere : SameSlot k m (cancel id m).0
  unfolding cancel SameSlot
  cancel_elsewhere = elim (Option-cases (Dict.get m.tasks id)) [
    | inl e ↦ ground arith
    | inr (t, e) ↦ ground (arith, get-put m.tasks id k (record t { cancel_requested = true }))
  ]

-- an event that is of another job
abbrev pub Spares : String → Event → Type 0
Spares k (submitted s) = (s.job_id == k) ≡ false
Spares k (first_slice now id) = (id == k) ≡ false
Spares k (handler_ended now id e) = (id == k) ≡ false
Spares k (notice_ended now id ends) = (id == k) ≡ false
Spares k (cancel_asked id) = (id == k) ≡ false
Spares k (handler_registered kind) = Unit {0}

step_elsewhere : (k : String) (m : Manager) (e : Event) → Spares k e → SameSlot k m (step m e)
unfolding step SameSlot
step_elsewhere k m (submitted s) n = submit_elsewhere k s.job_id n m s refl
step_elsewhere k m (first_slice now id) n =
    match_some_ind (SameSlot k m) (Dict.get m.tasks id) _ _ (refl, refl)
      (λ t _. begin_elsewhere k id n m now t.phase t)
step_elsewhere k m (handler_ended now id e) n =
    match_some_ind (SameSlot k m) (Dict.get m.tasks id) _ _ (refl, refl)
      (λ t _. after_handler_elsewhere k id n m now t.phase t e)
step_elsewhere k m (notice_ended now id ends) n =
    match_some_ind (SameSlot k m) (Dict.get m.tasks id) _ _ (refl, refl)
      (λ t _. after_notify_elsewhere k id n m now t.phase t (notify ends))
step_elsewhere k m (cancel_asked id) n = cancel_elsewhere k id n m
step_elsewhere k m (handler_registered kind) n = (refl, refl)

pub run_elsewhere :
    (k : String) (m : Manager) (es : List Event) → All (Spares k) es → SameSlot k m (run m es)
unfolding run SameSlot
run_elsewhere k m [] n = (refl, refl)
run_elsewhere k m (e ∷ es) n =
    let (a, b) = step_elsewhere k m e n.0 in
    let (c, d) = run_elsewhere k (step m e) es n.1 in (c ∙ a, d ∙ b)

pub run-append : (m : Manager) (es fs : List Event) → run m (es ++ fs) ≡ run (run m es) fs
unfolding run
run-append m [] fs = refl
run-append m (e ∷ es) fs = run-append (step m e) es fs
