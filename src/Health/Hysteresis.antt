-- ===== src/Health/Hysteresis.antt =====
-- How many answers in a row it takes to change the health of a provider.
use mathlib.Core.Path.{ap₂}
use native.Mathlib.Nat.{add-zero}
use virtiz_ai.Common.{
  ◌∙◌, ℕ, ◌+◌, ◌≡◌, refl, ◌⊎◌, inl, inr, true, false, List, [], ◌∷◌, arith, if◌then◌else◌, length,
  All, leb,
}
use virtiz_ai.Health.{
  Status, healthy, degraded, unavailable, Provider, ProviderHealth, is_healthy, is_fresh_or_healthy,
  observe, observe_all,
}

abbrev pub AllHealthy : List ProviderHealth → Type 0
AllHealthy = All (λ r. is_healthy r.state ≡ true)

abbrev pub AllFailing : List ProviderHealth → Type 0
AllFailing = All (λ r. is_healthy r.state ≡ false)

-- the status after that many failures in a row, of a provider that was healthy before them
abbrev pub after_failures : ℕ → ℕ → Status
after_failures threshold count = if leb threshold count then unavailable else degraded

-- the status after that many healthy answers in a row, of a provider that had the status `s` before them
abbrev pub after_successes : Status → ℕ → ℕ → Status
after_successes s threshold count = if leb threshold count then healthy else s

module _ (now : ℕ) (r : ProviderHealth) (row : Provider) where
  failure :
      is_healthy r.state ≡ false
      → (row.health_status ≡ healthy)
        ⊎ (row.health_status ≡ after_failures row.failure_threshold row.failure_count)
      → ((observe r now row).health_status
          ≡ after_failures row.failure_threshold (row.failure_count + 1))
        × ((observe r now row).failure_count ≡ row.failure_count + 1)
        × ((observe r now row).failure_threshold ≡ row.failure_threshold)
  unfolding observe
  failure f e = ground arith

  success :
      (s : Status)
      → is_healthy r.state ≡ true
      → is_fresh_or_healthy s ≡ false
      → (row.health_status ≡ s)
        ⊎ (row.health_status ≡ after_successes s row.recovery_threshold row.success_count)
      → ((observe r now row).health_status
          ≡ after_successes s row.recovery_threshold (row.success_count + 1))
        × ((observe r now row).success_count ≡ row.success_count + 1)
        × ((observe r now row).recovery_threshold ≡ row.recovery_threshold)
  unfolding observe
  success s h u e = ground arith

failing_further :
    (now : ℕ) (rs : List ProviderHealth) (row : Provider)
    → AllFailing rs
    → row.health_status ≡ after_failures row.failure_threshold row.failure_count
    → (observe_all now rs row).health_status
      ≡ after_failures row.failure_threshold (row.failure_count + length rs)
unfolding observe_all
failing_further now [] row f e = rw add-zero e
failing_further now (r ∷ rs) row f e =
    let (s, c, t) = failure now r row f.0 (inr e) in
    let ih = failing_further (now + 1) rs (observe r now row) f.1 (rw (t, c) s) in
    ih ∙ ap₂ after_failures t (omega (arith, c))

succeeding_further :
    (now : ℕ) (rs : List ProviderHealth) (row : Provider) (s : Status)
    → AllHealthy rs
    → is_fresh_or_healthy s ≡ false
    → row.health_status ≡ after_successes s row.recovery_threshold row.success_count
    → (observe_all now rs row).health_status
      ≡ after_successes s row.recovery_threshold (row.success_count + length rs)
unfolding observe_all
succeeding_further now [] row s h u e = rw add-zero e
succeeding_further now (r ∷ rs) row s h u e =
    let (q, c, t) = success now r row s h.0 u (inr e) in
    let ih = succeeding_further (now + 1) rs (observe r now row) s h.1 u (rw (t, c) q) in
    ih ∙ ap₂ (after_successes s) t (omega (arith, c))

-- A healthy provider whose answers fail one after the other is degraded until the failures counted reach its
-- failure threshold, and unavailable from then on, for as long as they go on failing.
pub failing_run :
    (now : ℕ) (r : ProviderHealth) (rs : List ProviderHealth) (row : Provider)
    → AllFailing (r ∷ rs)
    → row.health_status ≡ healthy
    → (observe_all now (r ∷ rs) row).health_status ≡ (
        if leb row.failure_threshold (row.failure_count + length (r ∷ rs))
        then unavailable
        else degraded)
unfolding observe_all
failing_run now r rs row f e =
    let (s, c, t) = failure now r row f.0 (inl e) in
    failing_further (now + 1) rs (observe r now row) f.1 (rw (t, c) s)
    ∙ ap₂ after_failures t (omega (arith, c))

-- A provider that is neither healthy nor unknown keeps its status through healthy answers in a row until
-- those counted reach its recovery threshold, and is healthy from then on, for as long as they last.
pub recovering_run :
    (now : ℕ) (r : ProviderHealth) (rs : List ProviderHealth) (row : Provider)
    → AllHealthy (r ∷ rs)
    → is_fresh_or_healthy row.health_status ≡ false
    → (observe_all now (r ∷ rs) row).health_status ≡ (
        if leb row.recovery_threshold (row.success_count + length (r ∷ rs))
        then healthy
        else row.health_status)
unfolding observe_all
recovering_run now r rs row h u =
    let (q, c, t) = success now r row row.health_status h.0 u (inl refl) in
    succeeding_further (now + 1) rs (observe r now row) row.health_status h.1 u (rw (t, c) q)
    ∙ ap₂ (after_successes row.health_status) t (omega (arith, c))
