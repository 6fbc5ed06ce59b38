-- ===== src/Tests/Health.antt =====
-- The health of a provider at concrete inputs.
use virtiz_ai.Common.{◌≡◌, refl, inl, true, none, some, List, [], ◌∷◌}
use virtiz_ai.Common.Json.{Value}
use virtiz_ai.Alerts.{latest}
use virtiz_ai.Health.{Status, healthy, degraded, unavailable, Provider, ProviderHealth, observe_all}
use virtiz_ai.Health.Hysteresis.{failing_run, recovering_run}
use virtiz_ai.Health.Announced.{IsAnnounced, Call, check_all, check_all-IsAnnounced}

abbrev answer : Status → ProviderHealth
answer s = record { state = s; latency_ms = Value.null; error = none; capabilities = Value.null }

abbrev provider : Status → Provider
provider s = record {
  id = "p";
  name = "Provider";
  enabled = true;
  health_status = s;
  failure_count = 0;
  success_count = 0;
  failure_threshold = 3;
  recovery_threshold = 2;
  last_health_check_at = none;
  last_health_error = none;
}

abbrev bad : ProviderHealth
bad = answer unavailable

abbrev good : ProviderHealth
good = answer healthy

failing_run_example :
    (observe_all 7 (bad ∷ bad ∷ bad ∷ []) (provider healthy)).health_status ≡ unavailable
failing_run_example =
    failing_run 7 bad (bad ∷ bad ∷ []) (provider healthy) (refl, (refl, (refl, tt))) refl

recovering_run_instance : (observe_all 7 (good ∷ []) (provider degraded)).health_status ≡ degraded
recovering_run_instance = recovering_run 7 good [] (provider degraded) (refl, tt) refl

abbrev calls : List Call
calls =
    record { event_id = "a"; now = 1; answer = some bad }
    ∷ record { event_id = "b"; now = 2; answer = none }
    ∷ record { event_id = "c"; now = 3; answer = some good }
    ∷ []

unknown_yet : latest [] "provider" "p" ≡ none
unfolding latest
unknown_yet = refl

check_all-IsAnnounced_example :
    IsAnnounced "p"
      (check_all "p" calls (some (provider healthy)) []).0
      (check_all "p" calls (some (provider healthy)) []).1
check_all-IsAnnounced_example =
    check_all-IsAnnounced "p" calls (some (provider healthy)) [] (refl, refl, inl unknown_yet)
