-- ===== src/Routing/Strategy.antt =====
-- virtizai_core/routing.py: `RoutingEngine.eligible_routes` and the four strategies that order its routes.
use virtiz_ai.Common.{
  String, Bool, false, ◌&&◌, ◌||◌, Option, none, some, List, [], ◌∷◌, if◌then◌else◌, mem, where_,
  any_of, all_of, Result, ok, raised, length, ltb, otherwise, ◌==◌,
}
use virtiz_ai.Common.Sort.{Order, by_key, lex, sort}
use virtiz_ai.Common.Orders.{int_order}
use virtiz_ai.Common.Json.{ℤ}
use virtiz_ai.Routing.{Floats, Row, known_locality, has_locality}
use virtiz_ai.Capability.{Unhashable, unhashable}

abbrev pub live_providers : List String
live_providers = "healthy" ∷ "degraded" ∷ []

abbrev pub live_models : List String
live_models = "warm" ∷ "cold" ∷ "loading" ∷ "available" ∷ "unknown" ∷ []

pub record EligibleRoute (F : Type 0) : Type 0 where
  pub route_id : String
  pub provider_id : String
  pub model_id : String
  pub model_name : String
  pub provider_name : String
  pub priority : ℤ
  pub ordinal : ℤ
  pub expected_latency_ms : Option F
  pub first_token_latency_ms : Option F
  pub relative_cost : Option F
  pub locality : Option String
  pub same_provider_fallback : Bool

pub data Strategy : Type 0 where
  priority lowest_latency cheapest_capable balanced : Strategy

-- `STRATEGIES.get(strategy, STRATEGIES["priority"])`
unfoldable pub strategy_named : String → Strategy
strategy_named name =
    if name == "lowest_latency"
    then lowest_latency
    else if name == "cheapest_capable"
    then cheapest_capable
    else if name == "balanced"
    then balanced
    else priority

module _ {F : Type 0} where
  -- ORDER BY r.priority, rt.ordinal
  abbrev pub row_order : Order (Row F)
  row_order =
      lex (by_key (λ (r : Row F). r.priority) int_order)
        (by_key (λ (r : Row F). r.ordinal) int_order)

  -- the WHERE of `eligible_routes` and the conditions of its joins
  abbrev pub is_eligible : String → Row F → Bool
  is_eligible role_id r =
      r.role_id == role_id
      && (r.route_enabled
          && (r.target_enabled
              && (r.provider_enabled
                  && (mem r.health_status live_providers && mem r.model_status live_models))))

  abbrev pub route_of : Row F → Bool → EligibleRoute F
  route_of r same_provider = record {
    route_id = r.route_id;
    provider_id = r.provider_id;
    model_id = r.model_id;
    model_name = r.model_name;
    provider_name = r.provider_name;
    priority = r.priority;
    ordinal = r.ordinal;
    expected_latency_ms = r.expected_latency_ms;
    first_token_latency_ms = r.first_token_latency_ms;
    relative_cost = r.relative_cost;
    locality = known_locality r;
    same_provider_fallback = same_provider;
  }

  -- the loop over the rows, with `seen_providers`
  unfoldable pub routes_of : List String → List (Row F) → List (EligibleRoute F)
  routes_of seen [] = []
  routes_of seen (r ∷ rs) =
      route_of r (mem r.provider_id seen) ∷ routes_of (r.provider_id ∷ seen) rs

  abbrev by_place : Order (EligibleRoute F)
  by_place =
      lex (by_key (λ (r : EligibleRoute F). r.priority) int_order)
        (by_key (λ (r : EligibleRoute F). r.ordinal) int_order)

  -- does a provider stand twice among the routes
  unfoldable pub repeats : List (EligibleRoute F) → Bool
  repeats [] = false
  repeats (r ∷ rs) =
      any_of (λ (q : EligibleRoute F). q.provider_id == r.provider_id) rs || repeats rs

  -- `warnings` gives its one text exactly if this holds
  unfoldable pub is_provider_correlated : List (EligibleRoute F) → Bool
  unfolding repeats
  is_provider_correlated routes = ltb 1 (length routes) && repeats routes

module _ (floats : Floats) where
  open floats use {Float, order, is_zero, add, thousandth, from_int, one, thousand, huge}

  -- `a or b` of two nullable numbers
  abbrev pub nonzero_or : Option Float → Option Float → Option Float
  nonzero_or none b = b
  nonzero_or (some x) b = if is_zero x then b else some x

  -- `a or b or d`
  abbrev latency_or : EligibleRoute Float → Float → Float
  latency_or r d =
      otherwise (nonzero_or r.first_token_latency_ms (nonzero_or r.expected_latency_ms none)) d

  abbrev score : EligibleRoute Float → Float
  score r =
      add (add (thousandth (latency_or r thousand)) (otherwise r.relative_cost one))
        (thousandth (from_int r.priority))

  abbrev pub strategy_order : Strategy → Order (EligibleRoute Float)
  strategy_order priority = by_place
  strategy_order lowest_latency =
      lex (by_key (λ (r : EligibleRoute Float). latency_or r huge) order) by_place
  strategy_order cheapest_capable =
      lex (by_key (λ (r : EligibleRoute Float). otherwise r.relative_cost huge) order) by_place
  strategy_order balanced = by_key score order

  -- The loop stops at a row whose locality is an exception.
  unfoldable pub eligible_routes :
      List (Row Float) → String → String → Result Unhashable (List (EligibleRoute Float))
  unfolding strategy_named routes_of
  eligible_routes table role_id strategy =
      let rows = sort row_order (where_ (is_eligible role_id) table) in
      if all_of has_locality rows
      then ok (sort (strategy_order (strategy_named strategy)) (routes_of [] rows))
      else raised unhashable
