-- ===== src/Capability.antt =====
-- virtizai_core/capability_routing.py: what a role requires of a model, and the evidence for a capability. A
-- JSON column is the value that `json.loads` makes of it, `none` where it refuses the text, and the default of
-- the code's `or` where the column is NULL or empty.
pub mod Proven
use virtiz_ai.Common.{
  String, Bool, true, false, Option, none, some, List, [], ◌∷◌, if◌then◌else◌, mem, otherwise,
  Result, ok, raised, ◌==◌,
}
use virtiz_ai.Common.Json.{
  Value, null, str, arr, obj, end, elements, get_value, text_in, truthy, no_more,
}

pub record TaskRequirements : Type 0 where
  pub required_capabilities : List String
  pub preferred_capabilities : List String
  pub prefer_local : Bool
  pub latency_preference : String
  pub cost_preference : String
  pub execution_capabilities : List String

abbrev needs : List String → List String → Bool → List String → TaskRequirements
needs required preferred prefer_local execution = record {
  required_capabilities = required;
  preferred_capabilities = preferred;
  prefer_local = prefer_local;
  latency_preference = "balanced";
  cost_preference = "balanced";
  execution_capabilities = execution;
}

unfoldable pub requirements_for : String → TaskRequirements
requirements_for role_id =
    if role_id == "role-secretary"
    then needs ("chat" ∷ []) [] false []
    else if role_id == "role-coding"
    then needs ("coding" ∷ []) ("local" ∷ []) true
        ("native_tool_calls" ∷ "managed_coding_worker" ∷ [])
    else if role_id == "role-infrastructure"
    then needs ("chat" ∷ "native_tool_calls" ∷ []) [] false []
    else if role_id == "role-project-lead"
    then needs ("chat" ∷ "structured_output" ∷ []) ("reasoning" ∷ []) false
        ("native_tool_calls" ∷ "managed_planning_worker" ∷ [])
    else needs ("chat" ∷ []) [] false []

-- the two columns of a row that hold evidence
pub record Evidence : Type 0 where
  pub capabilities : Option Value
  pub user_overrides : Option Value

abbrev pub known_states : List String
known_states = "advertised" ∷ "configured" ∷ "probed" ∷ "verified" ∷ "failed" ∷ "unsupported" ∷ []

abbrev advertises : Value → String → Bool
advertises (arr es) capability = text_in capability (elements es)
advertises (obj fs) capability = elim (get_value (obj fs) capability) [
  | none ↦ false
  | some v ↦ truthy v
]
advertises _ capability = false

-- the last three lines of `capability_state`
abbrev advertised_state : Option Value → String → String
advertised_state column capability =
    if advertises (otherwise column (arr no_more)) capability then "advertised" else "unsupported"

-- `overrides.get("capability_evidence", {}).get(capability)`, with `None` where either is no dict
abbrev pub evidence_for : Option Value → String → Option Value
evidence_for none capability = none
evidence_for (some overrides) capability = elim (get_value overrides "capability_evidence") [
  | none ↦ none
  | some evidence ↦ get_value evidence capability
]

pub data Unhashable : Type 0 where
  unhashable : Unhashable

-- A recorded state that is a list or a dict cannot be looked up in the set of known states: TypeError.
abbrev state_or_advertised : Option Value → String → Result Unhashable String
state_or_advertised (some (arr es)) fallback = raised unhashable
state_or_advertised (some (obj fs)) fallback = raised unhashable
state_or_advertised (some (str s)) fallback = ok (if mem s known_states then s else fallback)
state_or_advertised _ fallback = ok fallback

unfoldable pub capability_state : Evidence → String → Result Unhashable String
capability_state row capability =
    state_or_advertised (evidence_for row.user_overrides capability)
      (advertised_state row.capabilities capability)
