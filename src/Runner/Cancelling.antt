-- ===== src/Runner/Cancelling.antt =====
-- virtizai_core/jobs.py: what `JobManager.cancel` does before the first slice of a task.
use mathlib.Core.Path.{subst}
use virtiz_ai.Common.{
  ap, ◌⊎◌, ◌++◌, All, ℕ, String, ◌≡◌, refl, sym, inl, inr, Bool, true, false, some, List, [], ◌∷◌,
  arith, match_some_ind, ◌∙◌, ◌==◌, eq_iff, Bool-cases, Option-cases,
}
use virtiz_ai.Common.Dict
use virtiz_ai.Common.Dict.{Dict, dict_laws, get-put, get-remove}
use virtiz_ai.Jobs.{Job}
use virtiz_ai.Runner.{
  Phase, scheduled, dead, Task, Manager, Event, submitted, first_slice, handler_ended, notice_ended,
  cancel_asked, handler_registered, HandlerEnd, begin, after_handler, after_notify, cancel, submit,
  Submission, notify, step, run, submitted_job, created_task,
}
use virtiz_ai.Runner.Elsewhere.{
  SameSlot, begin_elsewhere, after_handler_elsewhere, after_notify_elsewhere,
}

-- the row and the task of a job whose cancellation was asked for before its first slice, in a phase
abbrev pub IsAsked : Phase → String → Job → String → Manager → Type 0
IsAsked p k job kind m =
    (Dict.get m.jobs k ≡ some job)
    × (Dict.get m.tasks k ≡ some (record { kind = kind; phase = p; cancel_requested = true }))

-- a row with a task that was cancelled before its first slice
abbrev pub IsStuck : String → Job → String → Manager → Type 0
IsStuck k job kind m = IsAsked dead k job kind m

-- the phases in which no await of a task can end
abbrev IsIdle : Phase → Type 0
IsIdle p = (p ≡ dead) ⊎ (p ≡ scheduled)

-- an event that is not the first slice of a task
abbrev pub IsOther : String → Event → Type 0
IsOther k (first_slice now id) = (id == k) ≡ false
IsOther k _ = Unit {0}

module _ (now : ℕ) (id : String) (p : Phase) (idle : IsIdle p) (t : Task) (m : Manager) where
  after_handler_idle : (e : HandlerEnd) → after_handler now id p t e m ≡ m
  unfolding after_handler
  after_handler_idle e = elim idle [
    | inl q ↦ subst (λ z. after_handler now id z t e m ≡ m) (sym q) refl
    | inr q ↦ subst (λ z. after_handler now id z t e m ≡ m) (sym q) refl
  ]

  after_notify_idle : (b : Bool) → after_notify now id p t b m ≡ m
  unfolding after_notify
  after_notify_idle b = elim idle [
    | inl q ↦ subst (λ z. after_notify now id z t b m ≡ m) (sym q) refl
    | inr q ↦ subst (λ z. after_notify now id z t b m ≡ m) (sym q) refl
  ]

begin_dead : (now : ℕ) (id : String) (t : Task) (m : Manager) → begin now id dead t m ≡ m
unfolding begin
begin_dead now id t m = refl

module _ (p : Phase) (idle : IsIdle p) (k : String) (job : Job) (kind : String) (m : Manager)
    (h : IsAsked p k job kind m) where
  kept : (m' : Manager) → SameSlot k m m' → IsAsked p k job kind m'
  unfolding SameSlot
  kept m' s = (s.0 ∙ h.0, s.1 ∙ h.1)

  the_task :
      (id : String) (t : Task) → (id == k) ≡ true → Dict.get m.tasks id ≡ some t → t.phase ≡ p
  the_task id t i e = ground (arith, eq_iff id k)

  begin-IsAsked :
      (now : ℕ) (id : String) (t : Task)
      → Dict.get m.tasks id ≡ some t
      → (p ≡ dead) ⊎ ((id == k) ≡ false)
      → IsAsked p k job kind (begin now id t.phase t m)
  begin-IsAsked now id t e other = elim (Bool-cases (id == k)) [
    | inr n ↦ kept _ (begin_elsewhere k id n m now t.phase t)
    | inl i ↦ elim other [
      | inr n ↦ absurd (cc)
      | inl d ↦
          subst (IsAsked p k job kind)
            (sym (ap (λ z. begin now id z t m) (the_task id t i e ∙ d) ∙ begin_dead now id t m)) h
    ]
  ]

  after_handler-IsAsked :
      (now : ℕ) (id : String) (t : Task) (e' : HandlerEnd)
      → Dict.get m.tasks id ≡ some t
      → IsAsked p k job kind (after_handler now id t.phase t e' m)
  after_handler-IsAsked now id t e' e = elim (Bool-cases (id == k)) [
    | inr n ↦ kept _ (after_handler_elsewhere k id n m now t.phase t e')
    | inl i ↦
        subst (IsAsked p k job kind)
          (sym (
            ap (λ z. after_handler now id z t e' m) (the_task id t i e)
            ∙ after_handler_idle now id p idle t m e'))
          h
  ]

  after_notify-IsAsked :
      (now : ℕ) (id : String) (t : Task) (b : Bool)
      → Dict.get m.tasks id ≡ some t
      → IsAsked p k job kind (after_notify now id t.phase t b m)
  after_notify-IsAsked now id t b e = elim (Bool-cases (id == k)) [
    | inr n ↦ kept _ (after_notify_elsewhere k id n m now t.phase t b)
    | inl i ↦
        subst (IsAsked p k job kind)
          (sym (
            ap (λ z. after_notify now id z t b m) (the_task id t i e)
            ∙ after_notify_idle now id p idle t m b))
          h
  ]

  cancel-IsAsked : (id : String) → IsAsked p k job kind (cancel id m).0
  unfolding cancel
  cancel-IsAsked id = elim (Option-cases (Dict.get m.tasks id)) [
    | inl e ↦ ground arith
    | inr (t, e) ↦
        ground (arith, eq_iff id k, get-put m.tasks id k (record t { cancel_requested = true }))
  ]

  submit-IsAsked : (s : Submission) → IsAsked p k job kind (submit s m)
  unfolding submit
  submit-IsAsked s = elim (Option-cases (Dict.get m.jobs s.job_id)) [
    | inl e ↦ ground (
      arith,
      eq_iff s.job_id k,
      get-put m.jobs s.job_id k (submitted_job s.kind s.payload s.user_id s.session_id),
      get-put m.tasks s.job_id k (created_task s.kind),
    )
    | inr (other, e) ↦ ground arith
  ]

  step-IsAsked : (e : Event) → (p ≡ dead) ⊎ IsOther k e → IsAsked p k job kind (step m e)
  unfolding step
  step-IsAsked (submitted s) o = submit-IsAsked s
  step-IsAsked (first_slice now id) o =
      match_some_ind (IsAsked p k job kind) (Dict.get m.tasks id) _ _ h
        (λ t e. begin-IsAsked now id t e o)
  step-IsAsked (handler_ended now id e') o =
      match_some_ind (IsAsked p k job kind) (Dict.get m.tasks id) _ _ h
        (λ t. after_handler-IsAsked now id t e')
  step-IsAsked (notice_ended now id ends) o =
      match_some_ind (IsAsked p k job kind) (Dict.get m.tasks id) _ _ h
        (λ t. after_notify-IsAsked now id t (notify ends))
  step-IsAsked (cancel_asked id) o = cancel-IsAsked id
  step-IsAsked (handler_registered _) o = h

run-IsStuck :
    (k : String) (job : Job) (kind : String) (m : Manager) (es : List Event)
    → IsStuck k job kind m
    → IsStuck k job kind (run m es)
unfolding run
run-IsStuck k job kind m [] h = h
run-IsStuck k job kind m (e ∷ es) h =
    run-IsStuck k job kind (step m e) es (step-IsAsked dead (inl refl) k job kind m h e (inl refl))

-- the first slice of the task that was asked to cancel
IsAsked-started :
    (k : String) (job : Job) (kind : String) (m : Manager) (now : ℕ)
    → IsAsked scheduled k job kind m
    → IsStuck k job kind (step m (first_slice now k))
unfolding step begin
IsAsked-started k job kind m now h = ground (
  arith,
  eq_iff k k,
  get-put m.tasks k k (record { kind = kind; phase = dead; cancel_requested = true }),
)

run_waiting-IsStuck :
    (k : String) (job : Job) (kind : String) (m : Manager) (now : ℕ) (before after : List Event)
    → All (IsOther k) before
    → IsAsked scheduled k job kind m
    → IsStuck k job kind (run m (before ++ (first_slice now k ∷ after)))
unfolding run
run_waiting-IsStuck k job kind m now [] after o h =
    run-IsStuck k job kind (step m (first_slice now k)) after (IsAsked-started k job kind m now h)
run_waiting-IsStuck k job kind m now (e ∷ es) after o h =
    run_waiting-IsStuck k job kind (step m e) now es after o.1
      (step-IsAsked scheduled (inr refl) k job kind m h e (inr o.0))

IsAsked-at_once :
    (m : Manager) (id : String) (job : Job) (t : Task)
    → Dict.get m.jobs id ≡ some job
    → Dict.get m.tasks id ≡ some t
    → t.phase ≡ scheduled
    → IsAsked scheduled id job t.kind (step m (cancel_asked id))
unfolding step cancel
IsAsked-at_once m id job t j e p =
    let asked : Task = record t { cancel_requested = true } in
    ground (arith, eq_iff id id, get-put m.tasks id id asked)

-- A job whose cancellation is asked for before the first slice of its task keeps the row that it had, and once
-- that slice is due, its task stays in the manager for ever: whatever the manager is told and whatever
-- its tasks do between the two and afterwards. A request to `transition` the row is not among these events.
pub cancelled_before_start-IsStuck :
    (m : Manager) (id : String) (job : Job) (t : Task) (now : ℕ) (before after : List Event)
    → Dict.get m.jobs id ≡ some job
    → Dict.get m.tasks id ≡ some t
    → t.phase ≡ scheduled
    → All (IsOther id) before
    → IsStuck id job t.kind (run m (cancel_asked id ∷ (before ++ (first_slice now id ∷ after))))
unfolding run
cancelled_before_start-IsStuck m id job t now before after j e p o =
    run_waiting-IsStuck id job t.kind (step m (cancel_asked id)) now before after o
      (IsAsked-at_once m id job t j e p)
