-- ===== src/InfraTools.antt =====
-- virtizai_core/infra_tools.py: `InfrastructureToolsExecutor.execute` up to where it turns to an adapter. The sets of
-- capabilities hold texts.
pub mod Scoped
use virtiz_ai.Common.{
  String, Bool, true, false, not, ◌&&◌, ◌||◌, Option, none, some, List, [], ◌∷◌, if◌then◌else◌, mem,
  is_some, otherwise, ◌==◌,
}
use virtiz_ai.Common.Json.{Value, str, obj, Members, get_field}
use virtiz_ai.InfraPolicy.{
  operation_policy, authorize, resource_scope, cluster_read_authorized, has_text,
}

pub data Admission : Type 0 where
  refused : String → Admission
  to_proxmox : Admission
  to_inventory : Members → Admission

abbrev pub served : List String
served =
    "inspect_host" ∷ "list_vms" ∷ "inspect_vm" ∷ "inspect_service" ∷ "start_vm" ∷ "restart_vm" ∷ []

abbrev pub vm_operations : List String
vm_operations = "inspect_vm" ∷ "start_vm" ∷ "restart_vm" ∷ []

-- `request.payload.get("vm_id") in allowed`
abbrev pub in_scope : Option Value → List String → Bool
in_scope (some (str s)) allowed = mem s allowed
in_scope _ allowed = false

abbrev pub leaves_scope : String → Members → Option Value → Bool
leaves_scope operation config vm_id =
    (mem operation vm_operations && not (in_scope vm_id (resource_scope config operation)))
    && not (operation == "inspect_vm" && cluster_read_authorized config operation)

-- the choice of the adapter
abbrev pub adapter_of : String → Members → Admission
adapter_of operation config =
    if has_text config "adapter" "proxmox"
    then to_proxmox
    else if cluster_read_authorized config operation
    then refused "adapter_not_configured"
    else elim (get_field config "inventory") [
      | some (obj fs) ↦ to_inventory fs
      | _ ↦ refused "adapter_not_configured"
    ]

unfoldable pub admit : String → List String → List String → Members → Option Value → Admission
admit operation worker environment config vm_id =
    let decision = authorize operation worker environment config in
    if not (mem operation served)
    then refused (
        if is_some (operation_policy operation)
        then "destructive_operation_disabled"
        else "operation_not_allowed")
    else if not (mem "read_infrastructure" worker) || not (mem "read_infrastructure" environment)
    then refused "capability_missing"
    else if not decision.allowed
    then refused (otherwise decision.code "operation_not_allowed")
    else if leaves_scope operation config vm_id
    then refused "resource_out_of_scope"
    else adapter_of operation config
