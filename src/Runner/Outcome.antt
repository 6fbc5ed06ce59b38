-- ===== src/Runner/Outcome.antt =====
-- virtizai_core/jobs.py: the three slices of a task that nobody cancels.
use mathlib.Core.Path.{subst}
use virtiz_ai.Common.{
  sym, ℕ, String, ◌≡◌, refl, Bool, true, false, none, some, List, arith, mem, Result, ok, raised,
  eq_iff,
}
use virtiz_ai.Common.Dict
use virtiz_ai.Common.Dict.{Dict, dict_laws, get-put, get-remove}
use virtiz_ai.Common.Json.{Value, str, obj, field, end}
use virtiz_ai.Jobs.{Status, failed, cancelled, Job}
use virtiz_ai.Runner.{
  scheduled, in_handler, notifying, Notice, of_result, of_failure, of_cancellation, with_task, Task,
  Manager, first_slice, handler_ended, notice_ended, HandlerEnd, ListenerEnd, returned,
  raised_error, was_cancelled, update_job, started, finished, final_status, on_error, on_cancelled,
  begin, after_handler, after_notify, conclude, handled, notify, step,
}
use virtiz_ai.Runner.Tracking.{get-update_job, map_job}

-- the status and the result that the end of a handler calls for
abbrev pub verdict_of : Value → Result String Status → Status × Value
verdict_of value (ok s) = (s, value)
verdict_of value (raised name) = (failed, obj (field "error" (str name) end))

unfoldable pub verdict : String → HandlerEnd → Status × Value
verdict kind (returned value) = verdict_of value (final_status value)
verdict kind (raised_error name) = (failed, obj (field "error" (str name) end))
verdict kind was_cancelled =
    (cancelled, obj (field "worker" (str kind) (field "status" (str "cancelled") end)))

abbrev notice_of_result : Result String Status → Notice
notice_of_result (ok s) = of_result
notice_of_result (raised name) = of_failure

abbrev pub notice_of : HandlerEnd → Notice
notice_of (returned value) = notice_of_result (final_status value)
notice_of (raised_error name) = of_failure
notice_of was_cancelled = of_cancellation

-- the row and the task of one id
abbrev pub HasSlot : String → Manager → Job → Task → Type 0
HasSlot id m job t = (Dict.get m.jobs id ≡ some job) × (Dict.get m.tasks id ≡ some t)

module _ (id : String) (job : Job) (t : Task) (m : Manager) (now : ℕ) (h : HasSlot id m job t) where
  written :
      (f : Job → Job) (t' : Task)
      → HasSlot id
          (record m { jobs = update_job m.jobs id f; tasks = Dict.put m.tasks id t' })
          (f job)
          t'
  unfolding map_job
  written f t' = (
    ground (arith, get-update_job m.jobs id id f, eq_iff id id),
    ground (arith, get-put m.tasks id id t', eq_iff id id),
  )

  task_known : (f : Task → Manager) → with_task id m f ≡ f t
  task_known f = ground arith

  in_task : (P : Manager → Type 0) (f : Task → Manager) → P (f t) → P (with_task id m f)
  in_task P f u = subst P (sym (task_known f)) u

  begin_registered :
      t.phase ≡ scheduled
      → t.cancel_requested ≡ false
      → mem t.kind m.handlers ≡ true
      → begin now id t.phase t m ≡ record m {
        jobs = update_job m.jobs id (started now);
        tasks = Dict.put m.tasks id (record t { phase = in_handler });
      }
  unfolding begin
  begin_registered p c b = ground arith

  popped :
      (n : Notice) (b : Bool)
      → b ≡ false
      → after_notify now id (notifying n) t b m ≡ record m { tasks = Dict.remove m.tasks id }
  unfolding after_notify
  popped of_result b q = rw q
  popped n b q = refl

  pub first_slice-HasSlot :
      t.phase ≡ scheduled
      → t.cancel_requested ≡ false
      → mem t.kind m.handlers ≡ true
      → HasSlot id (step m (first_slice now id)) (started now job) (record t { phase = in_handler })
  unfolding step
  first_slice-HasSlot p c b =
      let Q : Manager → Type 0 =
        λ m'. HasSlot id m' (started now job) (record t { phase = in_handler }) in
      in_task Q (λ u. begin now id u.phase u m)
        (subst Q (sym (begin_registered p c b)) (written (started now) _))

  concluded-HasSlot :
      (value : Value) (r : Result String Status)
      → HasSlot id
          (conclude now id t value r m)
          (finished now (verdict_of value r).0 (verdict_of value r).1 job)
          (record t { phase = notifying (notice_of_result r) })
  unfolding on_error
  concluded-HasSlot value (ok s) = written (finished now s value) _
  concluded-HasSlot value (raised name) = written (finished now failed _) _

  handled-HasSlot :
      (e : HandlerEnd)
      → HasSlot id
          (handled now id t e m)
          (finished now (verdict t.kind e).0 (verdict t.kind e).1 job)
          (record t { phase = notifying (notice_of e) })
  unfolding verdict on_error on_cancelled
  handled-HasSlot (returned value) = concluded-HasSlot value (final_status value)
  handled-HasSlot (raised_error name) = written (finished now failed _) _
  handled-HasSlot was_cancelled = written (finished now cancelled _) _

  pub handler_ended-HasSlot :
      (e : HandlerEnd)
      → t.phase ≡ in_handler
      → HasSlot id
          (step m (handler_ended now id e))
          (finished now (verdict t.kind e).0 (verdict t.kind e).1 job)
          (record t { phase = notifying (notice_of e) })
  unfolding step after_handler
  handler_ended-HasSlot e p =
      let Q : Manager → Type 0 = λ m'.
        HasSlot id m' (finished now (verdict t.kind e).0 (verdict t.kind e).1 job)
          (record t { phase = notifying (notice_of e) }) in
      in_task Q (λ u. after_handler now id u.phase u e m)
        (subst (λ q. Q (after_handler now id q t e m)) (sym p) (handled-HasSlot e))

  pub notice_ended_pops :
      (n : Notice) (ends : List ListenerEnd)
      → t.phase ≡ notifying n
      → notify ends ≡ false
      → (Dict.get (step m (notice_ended now id ends)).jobs id ≡ some job)
        × (Dict.get (step m (notice_ended now id ends)).tasks id ≡ none)
  unfolding step
  notice_ended_pops n ends p q =
      let Q : Manager → Type 0 =
        λ m'. (Dict.get m'.jobs id ≡ some job) × (Dict.get m'.tasks id ≡ none) in
      in_task Q (λ u. after_notify now id u.phase u (notify ends) m)
        (subst (λ r. Q (after_notify now id r t (notify ends) m)) (sym p)
          (subst Q (sym (popped n (notify ends) q))
            (h.0, ground (arith, get-remove m.tasks id id, eq_iff id id))))
