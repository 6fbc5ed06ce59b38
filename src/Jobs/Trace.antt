-- ===== src/Jobs/Trace.antt =====
-- Any sequence of requests to `JobManager.transition`, refused ones included.
use virtiz_ai.Common.{
  ℕ, ◌+◌, ◌≤◌, String, ◌≡◌, ◌∙◌, ◌⊎◌, ap, refl, inl, inr, true, false, Option, some, List, [], ◌∷◌,
  arith, if◌then◌else◌, Result, ok, ◌==◌, eq_iff, Option-cases, Bool-cases,
}
use virtiz_ai.Common.Dict
use virtiz_ai.Common.Dict.{Dict, get-put}
use virtiz_ai.Jobs.{
  Status, queued, running, Job, JobError, Request, allowed, stamped, transition, transitions,
}
use virtiz_ai.Jobs.Machine.{is_terminal, IsTimedTable, transition-IsTimedTable}

-- A table whose timestamps agree with its statuses stays so through any sequence of requests.
pub transitions-IsTimedTable :
    (jobs : Dict Job) (rs : List Request) → IsTimedTable jobs → IsTimedTable (transitions jobs rs)
unfolding transitions
transitions-IsTimedTable jobs [] t = t
transitions-IsTimedTable jobs (r ∷ rs) t =
    transitions-IsTimedTable (transition r.now r.job_id r.status jobs).0 rs
      (transition-IsTimedTable r.now r.job_id r.status jobs t)

-- how many more moves a job has
abbrev pub moves_left : Status → ℕ
moves_left queued = 2
moves_left running = 1
moves_left _ = 0

-- did this request move the job `k`
abbrev moved : String → Request → Result JobError (Option Job) → ℕ
moved k r (ok (some job)) = if r.job_id == k then 1 else 0
moved k r _ = 0

-- the requests of a sequence that move the job `k`
pub moves : String → Dict Job → List Request → ℕ
moves k jobs [] = 0
moves k jobs (r ∷ rs) =
    let (jobs', result) = transition r.now r.job_id r.status jobs in
    moved k r result + moves k jobs' rs

-- one request moves the job along, or leaves it as it is
move :
    (k : String) (jobs : Dict Job) (r : Request) (job : Job)
    → Dict.get jobs k ≡ some job
    → (job' : Job) × (Dict.get (transition r.now r.job_id r.status jobs).0 k ≡ some job')
      × (moved k r (transition r.now r.job_id r.status jobs).1 + moves_left job'.status
          ≤ moves_left job.status)
      × (is_terminal job.status ≡ true → job' ≡ job)
unfolding transition allowed stamped
move k jobs r job h = elim (Bool-cases (r.job_id == k)) [
  | inl i ↦ elim (Bool-cases (allowed job.status r.status)) [
    | inl a ↦ (
      stamped r.now r.status job,
      ground (arith, get-put jobs r.job_id k (stamped r.now r.status job), eq_iff r.job_id k),
      ground
          (arith, get-put jobs r.job_id r.job_id (stamped r.now r.status job), eq_iff r.job_id k),
      λ t. ground arith,
    )
    | inr a ↦ (job, ground (arith, eq_iff r.job_id k), ground (arith, eq_iff r.job_id k), λ _. refl)
  ]
  | inr i ↦ elim (Option-cases (Dict.get jobs r.job_id)) [
    | inl e ↦ (job, ground arith, ground arith, λ _. refl)
    | inr (other, e) ↦ (
      job,
      ground (arith, get-put jobs r.job_id k (stamped r.now r.status other)),
      ground (arith, get-put jobs r.job_id r.job_id (stamped r.now r.status other)),
      λ _. refl,
    )
  ]
]

unmoved :
    (job job' job'' : Job)
    → (is_terminal job.status ≡ true → job' ≡ job)
    → (is_terminal job'.status ≡ false) ⊎ (job'' ≡ job')
    → (is_terminal job.status ≡ false) ⊎ (job'' ≡ job)
unmoved job job' job'' same same' = elim (Bool-cases (is_terminal job.status)) [
  | inr e ↦ inl e
  | inl e ↦ elim same' [
    | inl n ↦ absurd (cc (ap (λ (j : Job). is_terminal j.status) (same e)))
    | inr q ↦ inr (q ∙ same e)
  ]
]

-- The moves of one job are bounded by its status: whatever is asked for, a queued job moves at most twice, a
-- running one at most once, and a job that has succeeded, failed or been cancelled never, and its row
-- does not change.
pub transitions_bounded :
    (k : String) (jobs : Dict Job) (rs : List Request) (job : Job)
    → Dict.get jobs k ≡ some job
    → (job' : Job) × (Dict.get (transitions jobs rs) k ≡ some job')
      × (moves k jobs rs + moves_left job'.status ≤ moves_left job.status)
      × ((is_terminal job.status ≡ false) ⊎ (job' ≡ job))
unfolding transitions moves
transitions_bounded k jobs [] job h = (job, h, omega arith, inr refl)
transitions_bounded k jobs (r ∷ rs) job h =
    let (job', e, le, same) = move k jobs r job h in
    let (job'', e', le', same') =
      transitions_bounded k (transition r.now r.job_id r.status jobs).0 rs job' e in
    (job'', e', omega arith, unmoved job job' job'' same same')
