-- ===== src/Tests/InfraTools.antt =====
-- A restart through `execute` and the adapter.
use virtiz_ai.Common.{String, ◌≡◌, refl, ◌⊎◌, inr, true, some, none, List, [], ◌∷◌, mem}
use virtiz_ai.Common.Json.{Members, end, field, str, arr, no_more, element}
use virtiz_ai.InfraPolicy.{
  authorize, resource_scope, cluster_read_authorized, operation_policy, operations,
}
use virtiz_ai.InfraTools.{to_proxmox, admit, refused}
use virtiz_ai.InfraTools.Scoped.{mutation_scoped}
use virtiz_ai.Proxmox.{Vm, act, action_of, run, restart_vm}
use virtiz_ai.Proxmox.Requests.{acts}
use virtiz_ai.Tests.Proxmox.{backend, shown}

abbrev config : Members
config = field "adapter" (str "proxmox") (
    field "allowed_resource_ids" (arr (element (str "100") no_more)) (
      field "allowed_risk_classes" (arr (element (str "MUTATING_DISRUPTIVE") no_more))
        (field "preauthorized_operations" (arr (element (str "restart_vm") no_more)) end)))

abbrev offered : List String
offered = "read_infrastructure" ∷ "restart_vm" ∷ []

restart_admitted : admit "restart_vm" offered offered config (some (str "100")) ≡ to_proxmox
unfolding admit authorize operation_policy operations resource_scope cluster_read_authorized
restart_admitted = refl

other_refused :
    admit "restart_vm" offered offered config (some (str "101")) ≡ refused "resource_out_of_scope"
unfolding admit authorize operation_policy operations resource_scope cluster_read_authorized
other_refused = refl

mutation_scoped_example :
    let scope = resource_scope config "restart_vm" in
    let calls =
      acts
        (run backend shown restart_vm none scope
          (cluster_read_authorized config "restart_vm")
          (str "100")).0 in
    ((authorize "restart_vm" offered offered config).allowed ≡ true)
    × ((calls ≡ [])
        ⊎ ((vm : Vm) × (mem vm.id scope ≡ true)
            × (calls ≡ act (action_of restart_vm) (shown vm.host) vm.id ∷ [])))
mutation_scoped_example =
    mutation_scoped backend shown none restart_vm "restart_vm" offered offered config
      (some (str "100")) (inr refl) restart_admitted
