-- ===== src/Health.antt =====
-- virtizai_core/health.py: the hysteretic health of providers. The adapter's `health()` is not this module's code:
-- its answer is an argument. `events` of the manager is the service of `Alerts`, always configured here.
pub mod Hysteresis
pub mod Announced
use virtiz_ai.Common.{
  ℕ, zero, suc, ◌+◌, String, Bool, true, false, ◌||◌, Option, none, some, List, [], ◌∷◌,
  if◌then◌else◌, leb, match_some, Result, ok, raised, ◌==◌,
}
use virtiz_ai.Common.Json.{Value}
use virtiz_ai.Alerts
use virtiz_ai.Alerts.{Event, Report}

-- the texts of `health_status`; `other` is any that this module does not write
pub data Status : Type 0 where
  healthy degraded unavailable disabled unknown : Status
  other : String → Status

abbrev pub text_of : Status → String
text_of healthy = "healthy"
text_of degraded = "degraded"
text_of unavailable = "unavailable"
text_of disabled = "disabled"
text_of unknown = "unknown"
text_of (other s) = s

pub record Provider : Type 0 where
  pub id : String
  pub name : String
  pub enabled : Bool
  pub health_status : Status
  pub failure_count : ℕ
  pub success_count : ℕ
  pub failure_threshold : ℕ
  pub recovery_threshold : ℕ
  pub last_health_check_at : Option ℕ
  pub last_health_error : Option String

-- adapters.py, `ProviderHealth`; latency and capabilities are passed on
pub record ProviderHealth : Type 0 where
  pub state : Status
  pub latency_ms : Value
  pub error : Option String
  pub capabilities : Value

abbrev pub is_healthy : Status → Bool
is_healthy healthy = true
is_healthy _ = false

abbrev is_fresh_or_healthy : Status → Bool
is_fresh_or_healthy healthy = true
is_fresh_or_healthy unknown = true
is_fresh_or_healthy _ = false

abbrev drop_to : Status → Status
drop_to healthy = degraded
drop_to s = s

-- the two branches on `result.state`
unfoldable pub observe : ProviderHealth → ℕ → Provider → Provider
observe result now row =
    if is_healthy result.state
    then record row {
      health_status =
          if leb row.recovery_threshold (row.success_count + 1)
            || is_fresh_or_healthy row.health_status
          then healthy
          else row.health_status;
      failure_count = 0;
      success_count = row.success_count + 1;
      last_health_check_at = some now;
      last_health_error = result.error;
    }
    else record row {
      health_status =
          if leb row.failure_threshold (row.failure_count + 1)
          then unavailable
          else drop_to row.health_status;
      failure_count = row.failure_count + 1;
      success_count = 0;
      last_health_check_at = some now;
      last_health_error = result.error;
    }

-- `next_state != current`, as texts
abbrev same_status : Status → Status → Bool
same_status s t = text_of s == text_of t

abbrev is_bad : Status → Bool
is_bad unavailable = true
is_bad degraded = true
is_bad _ = false

abbrev report_of : String → ℕ → Provider → ProviderHealth → Report
report_of event_id now row result = record {
  component_type = "provider";
  component_id = row.id;
  component_name = row.name;
  new_state = text_of row.health_status;
  reason = result.error;
  severity = if is_bad row.health_status then "error" else "info";
  initial = false;
  event_id = event_id;
  now = now;
}

pub data HealthError : Type 0 where
  unknown_provider : String → HealthError

-- The row of the provider and the events afterwards, and what the call returns.
pub record Checked : Type 0 where
  pub row : Option Provider
  pub events : List Event
  pub reply : Result HealthError ProviderHealth

abbrev no_value : Value
no_value = Value.null

abbrev plain_health : Status → Option String → ProviderHealth
plain_health state error = record {
  state = state;
  latency_ms = no_value;
  error = error;
  capabilities = no_value;
}

-- from `result = await adapter.health()` on
unfoldable pub probed : String → ℕ → ProviderHealth → Provider → List Event → Checked
unfolding observe
probed event_id now result row events =
    let row' = observe result now row in
    record {
      row = some row';
      events =
          if same_status row'.health_status row.health_status
          then events
          else (Alerts.transition (report_of event_id now row' result) events).0;
      reply = ok (record {
        state = row'.health_status;
        latency_ms = result.latency_ms;
        error = result.error;
        capabilities = result.capabilities;
      });
    }

-- `none` for the answer is an adapter that is not registered
unfoldable pub check_provider :
    String → String → ℕ → Option ProviderHealth → Option Provider → List Event → Checked
unfolding probed
check_provider provider_id event_id now answer none events = record {
  row = none;
  events = events;
  reply = raised (unknown_provider provider_id);
}
check_provider provider_id event_id now answer (some row) events =
    if row.enabled
    then match_some answer
        (record {
          row = some row;
          events = events;
          reply = ok (plain_health unknown (some "adapter not registered"));
        })
        (λ result. probed event_id now result row events)
    else record {
      row = some (record row { health_status = disabled; last_health_check_at = some now });
      events = events;
      reply = ok (plain_health disabled none);
    }

-- a run of answers of a registered adapter of an enabled provider
unfoldable pub observe_all : ℕ → List ProviderHealth → Provider → Provider
observe_all now [] row = row
observe_all now (r ∷ rs) row = observe_all (now + 1) rs (observe r now row)
