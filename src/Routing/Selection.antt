-- ===== src/Routing/Selection.antt =====
-- virtizai_core/routing.py: `RoutingEngine.capability_selection`.
use virtiz_ai.Common.{
  ℕ, String, Bool, true, false, not, ◌&&◌, ◌||◌, Option, none, some, List, [], ◌∷◌, if◌then◌else◌,
  mem, where_, take, opt_is, head_or_none, otherwise, Result, ok, ◌>>=◌, ◌==◌,
}
use virtiz_ai.Common.Sort.{Order, by_key, lex, sort, nat_order}
use virtiz_ai.Common.Orders.{int_order, text_order}
use virtiz_ai.Common.Json.{ℤ, Value, str, get_value, truthy, is_obj}
use virtiz_ai.Capability.{TaskRequirements, Evidence, Unhashable, capability_state}
use virtiz_ai.Capability.Proven.{is_proven}
use virtiz_ai.Routing.{Floats, Row, effective_locality, known_locality}
use virtiz_ai.Routing.Strategy.{live_providers, live_models, row_order, nonzero_or}

-- `execution_tier`; any other text, and `None`, is the automatic one
pub data Tier : Type 0 where
  local cloud automatic : Tier

pub data Reason : Type 0 where
  execution_tier_mismatch route_target_disabled provider_disabled provider_unhealthy model_disabled
        capability_missing capability_unverified :
      Reason

pub record Entry (F : Type 0) : Type 0 where
  pub route_id : String
  pub provider_id : String
  pub model_id : String
  pub ordinal : ℤ
  pub priority : ℤ
  pub locality : Option String
  pub latency : Option F
  pub cost : Option F
  pub capability_enforced : Bool
  pub execution_plan : Value
  pub worker_id : Option Value
  pub environment_id : Option Value

-- `replace(requirements, prefer_local=(execution_tier == "local"))` for the two named tiers
abbrev pub for_tier : Tier → TaskRequirements → TaskRequirements
for_tier local r = record r { prefer_local = true }
for_tier cloud r = record r { prefer_local = false }
for_tier automatic r = r

-- `policy["capability_routing"].get("enforce", True)`, where it is a dict
abbrev enforced_by : Option Value → Bool
enforced_by none = false
enforced_by (some v) = is_obj v && truthy (otherwise (get_value v "enforce") (Value.bool true))

abbrev pub enforces : Option Value → Bool
enforces none = false
enforces (some policy) = enforced_by (get_value policy "capability_routing")

abbrev text_or : Option Value → String → Value
text_or none d = str d
text_or (some v) d = v

abbrev in_conditions : Option Value → String → Option Value
in_conditions none key = none
in_conditions (some conditions) key = get_value conditions key

abbrev missing_or_unverified : String → Reason
missing_or_unverified state =
    if state == "unsupported" || state == "failed"
    then capability_missing
    else capability_unverified

-- the loop over the required capabilities, which breaks at the first that is not proven
unfoldable pub required_reason : Evidence → List String → Result Unhashable (Option Reason)
required_reason row [] = ok none
required_reason row (c ∷ cs) =
    let rest = required_reason row cs in
    capability_state row c >>= λ state.
    if is_proven state then rest else ok (some (missing_or_unverified state))

-- `any(capability_state(row, cap) in {...} for cap in capabilities)`, which stops at the first
unfoldable pub any_proven : Evidence → List String → Result Unhashable Bool
any_proven row [] = ok false
any_proven row (c ∷ cs) =
    let rest = any_proven row cs in
    capability_state row c >>= λ state. if is_proven state then ok true else rest

abbrev pub execution_reason : Evidence → List String → Result Unhashable (Option Reason)
execution_reason row [] = ok none
execution_reason row (c ∷ cs) =
    any_proven row (c ∷ cs) >>= λ found. ok (if found then none else some capability_missing)

abbrev pub capability_reason : Evidence → TaskRequirements → Result Unhashable (Option Reason)
capability_reason row requirements =
    required_reason row requirements.required_capabilities >>= λ reason. elim reason [
      | none ↦ execution_reason row requirements.execution_capabilities
      | some r ↦ ok (some r)
    ]

abbrev pub tier_mismatch : Tier → Option String → Bool
tier_mismatch local locality = not (opt_is locality "local")
tier_mismatch cloud locality = not (opt_is locality "remote")
tier_mismatch automatic locality = false

module _ {F : Type 0} where
  abbrev pub evidence_of : Row F → Evidence
  evidence_of r = record { capabilities = r.capabilities; user_overrides = r.user_overrides }

  abbrev pub enforced_reason : TaskRequirements → Row F → Result Unhashable (Option Reason)
  enforced_reason requirements r =
      if not (mem r.health_status live_providers)
      then ok (some provider_unhealthy)
      else if not (mem r.model_status live_models)
      then ok (some model_disabled)
      else capability_reason (evidence_of r) requirements

  -- the chain of tests that sets `reason`
  abbrev pub reason_in :
      Tier → TaskRequirements → Row F → Option String → Result Unhashable (Option Reason)
  reason_in tier requirements r locality =
      if tier_mismatch tier locality
      then ok (some execution_tier_mismatch)
      else if not r.target_enabled
      then ok (some route_target_disabled)
      else if not r.provider_enabled
      then ok (some provider_disabled)
      else if enforces r.policy
      then enforced_reason requirements r
      else ok none

  unfoldable pub reason_for : Tier → TaskRequirements → Row F → Result Unhashable (Option Reason)
  unfolding effective_locality
  reason_for tier requirements r =
      effective_locality r >>= λ locality. reason_in tier requirements r locality

module _ (floats : Floats) where
  open floats use {Float, order, is_zero, huge}

  abbrev pub entry_of : Row Float → Entry Float
  entry_of r = record {
    route_id = r.route_id;
    provider_id = r.provider_id;
    model_id = r.model_id;
    ordinal = r.ordinal;
    priority = r.priority;
    locality = known_locality r;
    latency = nonzero_or floats r.first_token_latency_ms r.expected_latency_ms;
    cost = r.relative_cost;
    capability_enforced = enforces r.policy;
    execution_plan = text_or (in_conditions r.conditions "execution_plan") "native_tool_coding";
    worker_id = in_conditions r.conditions "worker_id";
    environment_id = in_conditions r.conditions "environment_id";
  }

  abbrev pub Excluded : Type 0
  Excluded = Entry Float × Reason

  abbrev pub sorted_out :
      Entry Float
      → Option Reason
      → List (Entry Float) × List Excluded
      → List (Entry Float) × List Excluded
  sorted_out e none (eligible, excluded) = (e ∷ eligible, excluded)
  sorted_out e (some reason) (eligible, excluded) = (eligible, (e, reason) ∷ excluded)

  -- the loop over the rows
  unfoldable pub sort_out :
      Tier
      → TaskRequirements
      → List (Row Float)
      → Result Unhashable (List (Entry Float) × List Excluded)
  sort_out tier requirements [] = ok ([], [])
  sort_out tier requirements (r ∷ rs) =
      let rest = sort_out tier requirements rs in
      reason_for tier requirements r >>= λ reason.
      rest >>= λ lists. ok (sorted_out (entry_of r) reason lists)

  abbrev locality_rank : Bool → Entry Float → ℕ
  locality_rank prefer_local e = if prefer_local && opt_is e.locality "local" then 0 else 1

  -- `x if preference == "low" and x is not None else 1e12`
  abbrev if_low : String → Option Float → Float
  if_low preference x = if preference == "low" then otherwise x huge else huge

  -- the key of `eligible.sort`
  abbrev pub ranking : TaskRequirements → Order (Entry Float)
  ranking q = lex (by_key (λ (e : Entry Float). e.priority) int_order) (
      lex (by_key (locality_rank q.prefer_local) nat_order) (
        lex (by_key (λ (e : Entry Float). if_low q.latency_preference e.latency) order) (
          lex (by_key (λ (e : Entry Float). if_low q.cost_preference e.cost) order) (
            lex (by_key (λ (e : Entry Float). e.ordinal) int_order) (
              lex (by_key (λ (e : Entry Float). e.provider_id) text_order)
                (by_key (λ (e : Entry Float). e.model_id) text_order))))))

  -- the fields of the answer that the selection decides
  pub record Answer : Type 0 where
    pub eligible : List (Entry Float)
    pub excluded : List Excluded
    pub selected : Option (Entry Float)
    pub fallback_candidates : List (Entry Float)
    pub selection_reason : String

  abbrev selection_reason_of : Option (Entry Float) → String
  selection_reason_of none = "no_eligible_target"
  selection_reason_of (some e) =
      if e.capability_enforced then "capability_eligible_ranked" else "legacy_fixed_target"

  -- `eligible[1:2]`
  abbrev second_only : List (Entry Float) → List (Entry Float)
  second_only [] = []
  second_only (e ∷ es) = take 1 es

  abbrev pub answer_of : List (Entry Float) → List Excluded → Answer
  answer_of eligible excluded = record {
    eligible = eligible;
    excluded = excluded;
    selected = head_or_none eligible;
    fallback_candidates = second_only eligible;
    selection_reason = selection_reason_of (head_or_none eligible);
  }

  -- WHERE r.role_id=? AND r.enabled=1 ORDER BY r.priority,rt.ordinal, and `rows[:32]`
  abbrev pub candidates : List (Row Float) → String → List (Row Float)
  candidates table role_id =
      take 32
        (sort row_order (where_ (λ (r : Row Float). r.role_id == role_id && r.route_enabled) table))

  unfoldable pub capability_selection :
      List (Row Float) → String → TaskRequirements → Tier → Result Unhashable Answer
  unfolding sort_out
  capability_selection table role_id requirements tier =
      let q = for_tier tier requirements in
      sort_out tier q (candidates table role_id) >>= λ (lists : List (Entry Float) × List Excluded).
      ok (answer_of (sort (ranking q) lists.0) lists.1)
