-- ===== src/Tests/Routing.antt =====
-- The routing of a role at a table of two rows, with natural numbers for the REAL columns.
use virtiz_ai.Common.{
  ℕ, zero, suc, ◌+◌, String, ◌≡◌, refl, ◌⊎◌, true, false, none, some, List, [], ◌∷◌, length, All,
  ok,
}
use virtiz_ai.Common.Sort.{nat_order, IsSorted, sort, insert}
use virtiz_ai.Common.Json.{pos, negsuc, str, obj, end, field}
use virtiz_ai.Capability.{TaskRequirements, capability_state}
use virtiz_ai.Routing.{Floats, Row, effective_locality}
use virtiz_ai.Routing.Strategy.{EligibleRoute, route_of}
use virtiz_ai.Routing.Selection.{
  Tier, Entry, Answer, for_tier, entry_of, ranking, candidates, capability_selection, sort_out,
  reason_for, required_reason, any_proven, answer_of,
}
use virtiz_ai.Routing.Returns.{IsReadableRow, capability_selection_returns}
use virtiz_ai.Routing.Selected.{IsEligible, capability_selection_sound, selected_best}

abbrev floats : Floats
floats = record {
  Float = ℕ;
  order = nat_order;
  is_zero = λ n. elim n [ zero ↦ true | suc k ↦ false ];
  add = λ m n. m + n;
  thousandth = λ n. n;
  from_int = λ z. elim z [ pos n ↦ n | negsuc n ↦ 0 ];
  one = 1;
  thousand = 1000;
  huge = 1000000000000;
}

abbrev row : String → ℕ → Row ℕ
row provider priority = record {
  role_id = "role-secretary";
  route_id = "r";
  route_enabled = true;
  policy = some (obj (field "capability_routing" (obj end) end));
  priority = pos priority;
  ordinal = pos 0;
  target_enabled = true;
  conditions = none;
  provider_id = provider;
  provider_name = provider;
  provider_enabled = true;
  health_status = "healthy";
  model_id = "m";
  model_name = "m";
  model_status = "warm";
  capabilities = none;
  user_overrides =
      some (obj (field "capability_evidence" (obj (field "chat" (str "verified") end)) end));
  expected_latency_ms = some 40;
  first_token_latency_ms = none;
  relative_cost = none;
  locality = some "local";
}

abbrev table : List (Row ℕ)
table = row "slow" 2 ∷ row "fast" 1 ∷ []

abbrev fastest_first : List (EligibleRoute ℕ)
fastest_first = route_of (row "fast" 1) false ∷ route_of (row "slow" 2) false ∷ []

abbrev chat : TaskRequirements
chat = record {
  required_capabilities = "chat" ∷ [];
  preferred_capabilities = [];
  prefer_local = false;
  latency_preference = "low";
  cost_preference = "balanced";
  execution_capabilities = [];
}

abbrev answer : Answer floats
answer = answer_of floats (entry_of floats (row "fast" 1) ∷ entry_of floats (row "slow" 2) ∷ []) []

selects : capability_selection floats table "role-secretary" chat Tier.local ≡ ok answer
unfolding capability_selection sort_out reason_for required_reason any_proven capability_state sort
    insert effective_locality
selects = refl

capability_selection_sound_example :
    let q = for_tier Tier.local chat in
    IsSorted (ranking floats q) answer.eligible
    × All
        (IsEligible floats Tier.local q (candidates floats table "role-secretary"))
        answer.eligible
    × (length answer.eligible + length answer.excluded
        ≡ length (candidates floats table "role-secretary"))
capability_selection_sound_example =
    capability_selection_sound floats table "role-secretary" chat Tier.local answer selects

selected_best_instance :
    ((answer.selected ≡ none) × (answer.eligible ≡ []))
    ⊎ ((e : Entry ℕ) × (answer.selected ≡ some e)
        × All (λ x. (ranking floats (for_tier Tier.local chat)).le e x ≡ true) answer.eligible)
selected_best_instance = selected_best floats table "role-secretary" chat Tier.local answer selects

abbrev bare : Row ℕ
bare = record (row "bare" 1) { policy = none; user_overrides = none }

bare-IsReadable : IsReadableRow floats bare
unfolding capability_state effective_locality
bare-IsReadable = ((some "local", refl), λ c. ("unsupported", refl))

bare_listed : All (IsReadableRow floats) (candidates floats (bare ∷ []) "role-secretary")
unfolding sort insert
bare_listed = (bare-IsReadable, tt)

capability_selection_returns_example :
    (a : Answer floats) × (capability_selection floats
        (bare ∷ [])
        "role-secretary"
        chat
        Tier.automatic
      ≡ ok a)
capability_selection_returns_example =
    capability_selection_returns floats (bare ∷ []) "role-secretary" chat Tier.automatic bare_listed
