-- ===== src/InfraPolicy.antt =====
-- virtizai_core/infra_policy.py: the deterministic authorization of typed infrastructure operations. A
-- configuration is the dict that `json.loads` made of the environment's `config_json`.
pub mod Permitted
pub mod Scope
use Prim.Native.String.{count}
use virtiz_ai.Common.{
  ℕ, String, Bool, true, false, not, ◌&&◌, ◌||◌, Option, none, some, List, [], ◌∷◌, if◌then◌else◌,
  ltb, leb, first, mem, take, is_empty, match_some, otherwise, ◌==◌,
}
use virtiz_ai.Common.Json.{
  Value, null, str, arr, obj, Members, end, elements, Elements, no_more, get_field, get_value,
  text_in, is_text,
}

pub data Risk : Type 0 where
  read mutating_reversible mutating_disruptive destructive : Risk

-- the value of the enumeration, as configurations write it
abbrev pub risk_value : Risk → String
risk_value read = "READ"
risk_value mutating_reversible = "MUTATING_REVERSIBLE"
risk_value mutating_disruptive = "MUTATING_DISRUPTIVE"
risk_value destructive = "DESTRUCTIVE"

pub record OperationPolicy : Type 0 where
  pub operation : String
  pub risk : Risk
  pub agent_allowed : Bool

abbrev permit : String → Risk → OperationPolicy
permit operation risk = record { operation = operation; risk = risk; agent_allowed = true }

unfoldable pub operations : List OperationPolicy
operations =
    permit "inspect_host" read
    ∷ permit "list_vms" read
    ∷ permit "inspect_vm" read
    ∷ permit "inspect_service" read
    ∷ permit "start_vm" mutating_reversible
    ∷ permit "restart_vm" mutating_disruptive
    ∷ record { operation = "delete_vm"; risk = destructive; agent_allowed = false }
    ∷ []

pub record Decision : Type 0 where
  pub allowed : Bool
  pub code : Option String
  pub risk : Option Risk
  pub source : Option String

unfoldable pub operation_policy : String → Option OperationPolicy
unfolding operations
operation_policy operation = first (λ p. p.operation == operation) operations

-- `config.get("operation_resource_ids", {})`, its list for the operation, else
-- `config.get("allowed_resource_ids", [])`
abbrev scope_values : Members → String → Value
scope_values config operation =
    elim (get_value (otherwise (get_field config "operation_resource_ids") (obj end)) operation) [
      | none ↦ otherwise (get_field config "allowed_resource_ids") (arr no_more)
      | some null ↦ otherwise (get_field config "allowed_resource_ids") (arr no_more)
      | some v ↦ v
    ]

-- `isinstance(value, str) and 0 < len(value) <= 120`
abbrev scope_texts : List Value → List String
scope_texts [] = []
scope_texts (str s ∷ vs) =
    let rest = scope_texts vs in if ltb 0 (count s) && leb (count s) 120 then s ∷ rest else rest
scope_texts (_ ∷ vs) = scope_texts vs

abbrev scope_of : Value → List String
scope_of (arr es) = scope_texts (take 50 (elements es))
scope_of _ = []

unfoldable pub resource_scope : Members → String → List String
resource_scope config operation = scope_of (scope_values config operation)

abbrev is_read : Risk → Bool
is_read read = true
is_read _ = false

-- `config.get(key) == text`
abbrev pub has_text : Members → String → String → Bool
has_text config key text = elim (get_field config key) [ none ↦ false | some v ↦ is_text v text ]

unfoldable pub cluster_read_authorized : Members → String → Bool
unfolding operation_policy
cluster_read_authorized config operation = elim (operation_policy operation) [
  | none ↦ false
  | some policy ↦ is_read policy.risk && has_text config "read_scope" "cluster"
]

abbrev denied : String → Option Risk → Decision
denied code risk = record { allowed = false; code = some code; risk = risk; source = none }

abbrev pub granted : Risk → String → Decision
granted risk source = record { allowed = true; code = none; risk = some risk; source = some source }

-- `isinstance(x, list) and text in x` for `x = config.get(key, [])`
abbrev pub lists : Members → String → String → Bool
lists config key text = elim (otherwise (get_field config key) (arr no_more)) [
  | arr es ↦ text_in text (elements es)
  | _ ↦ false
]

-- the last test, and the grant
abbrev authorize_disruption : String → Members → Risk → Decision
authorize_disruption operation config mutating_disruptive =
    if not (lists config "preauthorized_operations" operation)
    then denied "risk_not_authorized" (some mutating_disruptive)
    else granted mutating_disruptive "environment_preauthorization"
authorize_disruption operation config risk = granted risk "environment_preauthorization"

-- the part below the capability test
abbrev authorize_risk : String → Members → Risk → Decision
authorize_risk operation config destructive =
    denied "destructive_operation_disabled" (some destructive)
authorize_risk operation config read =
    if cluster_read_authorized config operation
    then granted read "cluster_read_policy"
    else if is_empty (resource_scope config operation)
    then denied "resource_scope_unconfigured" (some read)
    else granted read "read_policy"
authorize_risk operation config risk =
    if is_empty (resource_scope config operation)
    then denied "resource_scope_unconfigured" (some risk)
    else if not (lists config "allowed_risk_classes" (risk_value risk))
    then denied "risk_not_authorized" (some risk)
    else authorize_disruption operation config risk

abbrev authorize_policy : String → List String → List String → Members → OperationPolicy → Decision
authorize_policy operation worker environment config policy =
    if not policy.agent_allowed
    then denied "destructive_operation_disabled" (some policy.risk)
    else if not (mem operation worker) || not (mem operation environment)
    then denied "capability_missing" (some policy.risk)
    else authorize_risk operation config policy.risk

-- the capabilities are sets of texts
unfoldable pub authorize : String → List String → List String → Members → Decision
authorize operation worker environment config =
    match_some (operation_policy operation) (denied "operation_not_allowed" none)
      (authorize_policy operation worker environment config)
