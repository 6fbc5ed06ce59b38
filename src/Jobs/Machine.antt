-- ===== src/Jobs/Machine.antt =====
-- One call of `JobManager.transition`: which moves it accepts, what it writes, what it leaves alone.
use virtiz_ai.Common.{
  ℕ, String, ◌≡◌, refl, ◌⊎◌, inl, inr, Bool, true, false, none, some, arith, if◌then◌else◌, is_some,
  ok, raised, ◌==◌, eq_iff, Bool-cases, Option-cases,
}
use virtiz_ai.Common.Dict
use virtiz_ai.Common.Dict.{Dict, dict_laws, get-put}
use virtiz_ai.Jobs.{
  Status, queued, running, succeeded, failed, cancelled, Job, cannot_transition, allowed, stamped,
  transition,
}

-- The diagram of a job's life.
infix 40 ◌⟶◌
pub data ◌⟶◌ : Status → Status → Type 0 where
  begin : queued ⟶ running
  abandon : queued ⟶ cancelled
  succeed : running ⟶ succeeded
  fail : running ⟶ failed
  stop : running ⟶ cancelled

ruleset edges = (begin, abandon, succeed, fail, stop)

allowed-⟶ : (s t : Status) → allowed s t ≡ true → s ⟶ t
unfolding allowed
allowed-⟶ s t h = grind (arith, edges)

⟶-allowed : {s t : Status} → s ⟶ t → allowed s t ≡ true
unfolding allowed
⟶-allowed begin = refl
⟶-allowed abandon = refl
⟶-allowed succeed = refl
⟶-allowed fail = refl
⟶-allowed stop = refl

abbrev pub is_terminal : Status → Bool
is_terminal succeeded = true
is_terminal failed = true
is_terminal cancelled = true
is_terminal _ = false

-- What the timestamps of a job say about its status.
pub record IsTimed (job : Job) : Type 0 where
  pub queued_unstamped : job.status ≡ queued → (job.started_at ≡ none) × (job.finished_at ≡ none)
  pub running_started :
      job.status ≡ running → (is_some job.started_at ≡ true) × (job.finished_at ≡ none)
  pub terminal_finished : is_terminal job.status ≡ true → is_some job.finished_at ≡ true

stamped-IsTimed :
    (now : ℕ) (s : Status) (job : Job)
    → allowed job.status s ≡ true
    → IsTimed job
    → IsTimed (stamped now s job)
unfolding allowed stamped
stamped-IsTimed now s job h t = ground arith

abbrev pub IsTimedTable : Dict Job → Type 0
IsTimedTable jobs = (k : String) (job : Job) → Dict.get jobs k ≡ some job → IsTimed job

module _ (now : ℕ) (id : String) (s : Status) (jobs : Dict Job) where
  transition_missing : Dict.get jobs id ≡ none → transition now id s jobs ≡ (jobs, ok none)
  unfolding transition
  transition_missing h = ground arith

  transition_accepts :
      (job : Job)
      → Dict.get jobs id ≡ some job
      → allowed job.status s ≡ true
      → transition now id s jobs
        ≡ (Dict.put jobs id (stamped now s job), ok (some (stamped now s job)))
  unfolding transition
  transition_accepts job h a = ground (arith, get-put jobs id id (stamped now s job), eq_iff id id)

  transition_refuses :
      (job : Job)
      → Dict.get jobs id ≡ some job
      → allowed job.status s ≡ false
      → transition now id s jobs ≡ (jobs, raised (cannot_transition job.status s))
  unfolding transition
  transition_refuses job h a = ground arith

  -- A request for a job that exists either follows an edge of the diagram, and then the call returns the
  -- job with the new status and its timestamp, and no other job changes, or it follows none, and then the
  -- call raises and leaves the table as it was.
  pub transition-refines :
      (job : Job)
      → Dict.get jobs id ≡ some job
      → ((job.status ⟶ s)
          × ((transition now id s jobs).1 ≡ ok (some (stamped now s job)))
          × ((k : String)
              → Dict.get (transition now id s jobs).0 k
                ≡ (if id == k then some (stamped now s job) else Dict.get jobs k)))
        ⊎ ((¬ (job.status ⟶ s))
            × (transition now id s jobs ≡ (jobs, raised (cannot_transition job.status s))))
  transition-refines job h = elim (Bool-cases (allowed job.status s)) [
    | inl a ↦ inl (
      allowed-⟶ job.status s a,
      rw (transition_accepts job h a),
      λ k. rw (transition_accepts job h a) (get-put jobs id k (stamped now s job)),
    )
    | inr a ↦ inr (λ e. cc (⟶-allowed e), transition_refuses job h a)
  ]

  -- what a table holds under `k` after one request
  pub transition-get :
      (k : String) (job' : Job)
      → Dict.get (transition now id s jobs).0 k ≡ some job'
      → (Dict.get jobs k ≡ some job')
        ⊎ ((job : Job) × (id ≡ k)
            × (Dict.get jobs k ≡ some job)
            × (allowed job.status s ≡ true)
            × (job' ≡ stamped now s job))
  unfolding transition
  transition-get k job' h = elim (Option-cases (Dict.get jobs id)) [
    | inl e ↦ inl (rw (transition_missing e) at h)
    | inr (job, e) ↦ elim (Bool-cases (allowed job.status s)) [
      | inr a ↦ inl (rw (transition_refuses job e a) at h)
      | inl a ↦ written job e a (rw (transition_accepts job e a) at h)
    ]
  ]
    where
      written :
          (job : Job)
          → Dict.get jobs id ≡ some job
          → allowed job.status s ≡ true
          → Dict.get (Dict.put jobs id (stamped now s job)) k ≡ some job'
          → (Dict.get jobs k ≡ some job')
            ⊎ ((old : Job) × (id ≡ k)
                × (Dict.get jobs k ≡ some old)
                × (allowed old.status s ≡ true)
                × (job' ≡ stamped now s old))
      written job e a p = elim (Bool-cases (id == k)) [
        | inl q ↦ inr (
          job,
          (eq_iff id k).0 q,
          rw (← (eq_iff id k).0 q) e,
          a,
          ground (arith, get-put jobs id k (stamped now s job)),
        )
        | inr q ↦ inl (ground (arith, get-put jobs id k (stamped now s job)))
      ]

  -- A table whose timestamps agree with its statuses stays so, whether the request is accepted or not.
  pub transition-IsTimedTable : IsTimedTable jobs → IsTimedTable (transition now id s jobs).0
  transition-IsTimedTable t k job' h = elim (transition-get k job' h) [
    | inl e ↦ t k job' e
    | inr (job, i, e, a, p) ↦ rw p (stamped-IsTimed now s job a (t k job e))
  ]
