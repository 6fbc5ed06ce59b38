-- ===== src/Tests/Proxmox.antt =====
-- Operations against a backend with one stopped machine that runs once something acted on it.
use virtiz_ai.Common.{
  ◌+◌, ◌≤◌, String, ◌≡◌, refl, ◌⊎◌, false, Option, none, some, List, [], ◌∷◌, length, is_empty,
  if◌then◌else◌,
}
use virtiz_ai.Common.Json.{Value, str, arr, obj, Members, end, field, no_more, element}
use virtiz_ai.Proxmox.{
  Call, Vm, start_vm, inspect_service, reboot, act, cluster_resources, task_status, vm_with,
  action_of, proxmox_vms, run, verified, poll_task, poll_running, act_on, task_poll_attempts,
}
use virtiz_ai.Proxmox.Requests.{acts, Acts, run-acts, service_inspection_reboots}
use virtiz_ai.Proxmox.Bounded.{listing_requests, run_bounded}

abbrev machine : String → Members
machine state = field "vmid" (str "100") (field "status" (str state) (field "node" (str "n1") end))

abbrev answer : String → Call → Option Value
answer state cluster_resources = some (arr (element (obj (machine state)) no_more))
answer state (act a host vm) = some (str "UPID:1")
answer state (task_status host task) =
    some (obj (field "status" (str "stopped") (field "exitstatus" (str "OK") end)))
answer state _ = none

abbrev pub backend : List Call → Call → Option Value
backend trace call = answer (if is_empty (acts trace) then "stopped" else "running") call

abbrev pub shown : Option Value → String
shown (some (str s)) = s
shown _ = "None"

abbrev vm : String → Vm
vm state = record {
  id = "100";
  state = some (str state);
  host = some (str "n1");
  item = machine state;
}

started :
    (run backend shown start_vm none ("100" ∷ []) false (str "100")).1
    ≡ verified "UPID:1" (vm "running")
unfolding run proxmox_vms act_on poll_task poll_running task_poll_attempts
started = refl

listing : (proxmox_vms backend shown none ("100" ∷ []) false []).result ≡ some (vm "stopped" ∷ [])
unfolding proxmox_vms
listing = refl

run-acts_example :
    let listed = proxmox_vms backend shown none ("100" ∷ []) false [] in
    let calls = acts (run backend shown start_vm none ("100" ∷ []) false (str "100")).0 in
    (calls ≡ [])
    ⊎ ((vms : List Vm) × (found : Vm) × (listed.result ≡ some vms)
        × (vm_with (str "100") vms ≡ some found)
        × Acts backend shown start_vm found
        × (calls ≡ act (action_of start_vm) (shown found.host) found.id ∷ []))
run-acts_example = run-acts backend shown none (str "100") ("100" ∷ []) false start_vm

service_inspection_reboots_example :
    acts (run backend shown inspect_service none ("100" ∷ []) false (str "100")).0
    ≡ act reboot "n1" "100" ∷ []
service_inspection_reboots_example =
    service_inspection_reboots backend shown none (str "100") ("100" ∷ []) false (vm "stopped" ∷ [])
      (vm "stopped") listing refl

run_bounded_example :
    length (run backend shown start_vm none ("100" ∷ []) false (str "100")).0
    ≤ listing_requests none ("100" ∷ []) + 25
run_bounded_example = run_bounded backend shown start_vm none ("100" ∷ []) false (str "100")
