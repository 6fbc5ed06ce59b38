-- ===== src/Tests/InfraPolicy.antt =====
-- The authorization of operations at concrete inputs.
use virtiz_ai.Common.{String, ◌≡◌, ◌≢◌, refl, ◌⊎◌, true, false, none, some, List, [], ◌∷◌, is_empty}
use virtiz_ai.Common.Json.{Members, end, field, str, arr, no_more, element}
use virtiz_ai.InfraPolicy.{
  mutating_disruptive, destructive, OperationPolicy, operation_policy, operations, resource_scope,
  authorize, granted,
}
use virtiz_ai.InfraPolicy.Permitted.{
  by_name, Permitted, authorize_sound, authorize_complete, authorize_coherent,
}
use virtiz_ai.InfraPolicy.Scope.{IsBoundedScope, resource_scope_bounded, resource_scope_absent}

abbrev config : Members
config = field "allowed_resource_ids" (arr (element (str "vm-100") (element (str "") no_more))) (
    field "allowed_risk_classes" (arr (element (str "MUTATING_DISRUPTIVE") no_more))
      (field "preauthorized_operations" (arr (element (str "restart_vm") no_more)) end))

abbrev offered : List String
offered = "inspect_vm" ∷ "restart_vm" ∷ []

abbrev restart_policy : OperationPolicy
restart_policy = record {
  operation = "restart_vm";
  risk = mutating_disruptive;
  agent_allowed = true;
}

scope : resource_scope config "restart_vm" ≡ "vm-100" ∷ []
unfolding resource_scope
scope = refl

restart_allowed : (authorize "restart_vm" offered offered config).allowed ≡ true
unfolding authorize operation_policy resource_scope operations
restart_allowed = refl

start_denied :
    (authorize "start_vm" ("start_vm" ∷ []) ("start_vm" ∷ []) config).code
    ≡ some "risk_not_authorized"
unfolding authorize operation_policy resource_scope operations
start_denied = refl

restart_known : operation_policy "restart_vm" ≡ some restart_policy
unfolding operation_policy operations
restart_known = refl

restart_scoped : is_empty (resource_scope config "restart_vm") ≡ false
unfolding resource_scope
restart_scoped = refl

abbrev restart_permitted :
    Permitted "restart_vm" offered offered config "environment_preauthorization"
restart_permitted = record {
  policy = restart_policy;
  known = restart_known;
  for_agents = refl;
  offered_by_worker = refl;
  offered_by_environment = refl;
  configured = by_name restart_scoped refl refl;
}

authorize_sound_example :
    (source : String) × ((authorize "restart_vm" offered offered config).source ≡ some source)
    × Permitted "restart_vm" offered offered config source
authorize_sound_example = authorize_sound "restart_vm" offered offered config restart_allowed

authorize_complete_example :
    authorize "restart_vm" offered offered config
    ≡ granted mutating_disruptive "environment_preauthorization"
authorize_complete_example =
    authorize_complete "restart_vm" offered offered config "environment_preauthorization"
      restart_permitted

authorize_coherent_instance :
    let d = authorize "start_vm" offered offered config in
    ((d.allowed ≡ false) × (d.code ≢ none) × (d.source ≡ none))
    ⊎ ((d.allowed ≡ true) × (d.code ≡ none) × (d.source ≢ none) × (d.risk ≢ some destructive))
authorize_coherent_instance = authorize_coherent "start_vm" offered offered config

resource_scope_bounded_instance : IsBoundedScope (resource_scope config "restart_vm")
resource_scope_bounded_instance = resource_scope_bounded config "restart_vm"

resource_scope_absent_instance :
    resource_scope (field "read_scope" (str "cluster") end) "list_vms" ≡ []
resource_scope_absent_instance =
    resource_scope_absent (field "read_scope" (str "cluster") end) "list_vms" refl refl
