-- ===== src/Proxmox.antt =====
-- virtizai_core/infra_tools.py: `InfrastructureToolsExecutor._proxmox` and the requests that it sends. The backend
-- is a parameter: given the requests before, newest first, and the next one, it answers the `data` of
-- the response or, with `none`, makes `_request` raise. A request is named by the parts of its path,
-- which the code quotes. `str` of a JSON value is a parameter too.
pub mod Requests
pub mod Bounded
use virtiz_ai.Common.{
  ℕ, zero, suc, String, Bool, true, false, not, ◌&&◌, ◌||◌, Option, none, some, List, [], ◌∷◌,
  if◌then◌else◌, first, where_, take, mem, is_some, match_some, opt_is, ◌==◌,
}
use virtiz_ai.Common.Orders.{codes, is_prefix}
use virtiz_ai.Common.Json.{Value, str, arr, obj, Members, elements, get_field, get_value, is_text}

pub data Operation : Type 0 where
  inspect_host list_vms inspect_vm inspect_service start_vm restart_vm : Operation

pub data Action : Type 0 where
  start reboot : Action

pub data Call : Type 0 where
  vm_status : String → String → Call
  cluster_resources : Call
  host_status : String → Call
  act : Action → String → String → Call
  task_status : String → String → Call

-- `_normalize_vm`, the fields that the flow reads; the rest is that of the item
pub record Vm : Type 0 where
  pub id : String
  pub state : Option Value
  pub host : Option Value
  pub item : Members

pub data Outcome : Type 0 where
  failed : String → Outcome
  host_online : Bool → Outcome
  listed : List Vm → Outcome
  inspected : Option Vm → Outcome
  already_running : Outcome
  verified : String → Vm → Outcome

-- the requests sent, newest first, and what was computed, `none` where something raised
pub record Ran (A : Type 0) : Type 0 where
  pub trace : List Call
  pub result : Option A

pub data TaskEnd : Type 0 where
  completed task_failed pending : TaskEnd

unfoldable pub task_poll_attempts : ℕ
task_poll_attempts = 12

abbrev pub is_running : Vm → Bool
is_running vm = elim vm.state [ none ↦ false | some v ↦ is_text v "running" ]

-- `next((item for item in vms if item["id"] == vm_id), None)`
abbrev pub vm_with : Value → List Vm → Option Vm
vm_with vm_id vms = first (λ (vm : Vm). is_text vm_id vm.id) vms

-- the end of a stopped task
abbrev pub ended : Value → TaskEnd
ended v = elim (get_value v "exitstatus") [
  | none ↦ task_failed
  | some s ↦ if is_text s "OK" then completed else task_failed
]

abbrev is_stopped : Value → Bool
is_stopped v = elim (get_value v "status") [ none ↦ false | some s ↦ is_text s "stopped" ]

abbrev pub action_of : Operation → Action
action_of start_vm = start
action_of _ = reboot

abbrev is_start : Operation → Bool
is_start start_vm = true
is_start _ = false

abbrev is_restart : Operation → Bool
is_restart restart_vm = true
is_restart _ = false

module _ (backend : List Call → Call → Option Value) (shown : Option Value → String) where
  -- `{**data, "vmid": vm_id, "node": node}`, normalized
  abbrev vm_on : String → String → Members → Vm
  vm_on node id fs = record {
    id = id;
    state = get_field fs "status";
    host = some (str node);
    item = fs;
  }

  abbrev vm_of : Members → Vm
  vm_of fs = record {
    id = shown (get_field fs "vmid");
    state = get_field fs "status";
    host = get_field fs "node";
    item = fs;
  }

  abbrev with_status : String → String → Value → List Vm → List Vm
  with_status node id (obj fs) vms = vm_on node id fs ∷ vms
  with_status node id _ vms = vms

  abbrev prepend : String → String → Value → Ran (List Vm) → Ran (List Vm)
  prepend node id v r = record {
    trace = r.trace;
    result = match_some r.result none (λ vms. some (with_status node id v vms));
  }

  -- the loop over `allowed` on a configured node
  unfoldable pub vms_on_node : String → List String → List Call → Ran (List Vm)
  vms_on_node node [] trace = record { trace = trace; result = some [] }
  vms_on_node node (id ∷ ids) trace =
      let rest = vms_on_node node ids (vm_status node id ∷ trace) in
      match_some (backend trace (vm_status node id))
        (record { trace = vm_status node id ∷ trace; result = none }) (λ v. prepend node id v rest)

  abbrev in_cluster : List String → Bool → List Value → List Vm
  in_cluster allowed cluster_read [] = []
  in_cluster allowed cluster_read (obj fs ∷ vs) =
      let rest = in_cluster allowed cluster_read vs in
      if cluster_read || mem (shown (get_field fs "vmid")) allowed then vm_of fs ∷ rest else rest
  in_cluster allowed cluster_read (_ ∷ vs) = in_cluster allowed cluster_read vs

  abbrev items_of : Value → List Value
  items_of (arr es) = elements es
  items_of _ = []

  -- `_proxmox_vms`; `node` is the configured one, if it is a text that is not empty
  unfoldable pub proxmox_vms : Option String → List String → Bool → List Call → Ran (List Vm)
  unfolding vms_on_node
  proxmox_vms (some node) allowed cluster_read trace = vms_on_node node allowed trace
  proxmox_vms none allowed cluster_read trace = record {
    trace = cluster_resources ∷ trace;
    result =
        match_some (backend trace cluster_resources) none
          (λ v. some (take 50 (in_cluster allowed cluster_read (items_of v))));
  }

  -- the first loop of `range(self.task_poll_attempts)`
  unfoldable pub poll_task : ℕ → String → String → List Call → Ran TaskEnd
  poll_task zero node task trace = record { trace = trace; result = some pending }
  poll_task (suc n) node task trace =
      let rest = poll_task n node task (task_status node task ∷ trace) in
      match_some (backend trace (task_status node task))
        (record { trace = task_status node task ∷ trace; result = none })
        (λ v.
          if is_stopped v
          then record { trace = task_status node task ∷ trace; result = some (ended v) }
          else rest)

  -- the second loop, with the last `check`
  unfoldable pub poll_running : ℕ → Option String → String → Option Vm → List Call → Ran (Option Vm)
  unfolding proxmox_vms
  poll_running zero configured vm_id last trace = record { trace = trace; result = some last }
  poll_running (suc n) configured vm_id last trace =
      let vms = proxmox_vms configured (vm_id ∷ []) false trace in
      match_some vms.result (record { trace = vms.trace; result = none })
        (λ found.
          let check = vm_with (str vm_id) found in
          if match_some check false is_running
          then record { trace = vms.trace; result = some check }
          else poll_running n configured vm_id check vms.trace)

  abbrev at_end : Ran (Option Vm) → String → Outcome
  at_end r task = elim r.result [
    | none ↦ failed "backend_operation_failed"
    | some none ↦ failed "postcondition_timeout"
    | some (some vm) ↦ if is_running vm then verified task vm else failed "postcondition_timeout"
  ]

  -- from the first poll on
  abbrev pub after_task : Option String → Vm → String → Ran TaskEnd → List Call × Outcome
  after_task configured vm task r = elim r.result [
    | none ↦ (r.trace, failed "backend_operation_failed")
    | some task_failed ↦ (r.trace, failed "backend_operation_failed")
    | some pending ↦ (r.trace, failed "postcondition_timeout")
    | some completed ↦
        let checked = poll_running task_poll_attempts configured vm.id none r.trace in
        (checked.trace, at_end checked task)
  ]

  -- with the `data` of the POST, which is the identifier of the task
  abbrev pub after_post : Option String → Vm → List Call → Value → List Call × Outcome
  after_post configured vm trace (str task) =
      if task == ""
      then (trace, failed "backend_operation_failed")
      else after_task configured vm task (poll_task task_poll_attempts (shown vm.host) task trace)
  after_post configured vm trace _ = (trace, failed "backend_operation_failed")

  -- the POST and what follows; the text of `vm_id` is the identifier of what was found
  unfoldable pub act_on : Operation → Option String → Vm → List Call → List Call × Outcome
  unfolding poll_task poll_running
  act_on operation configured vm trace =
      let call = act (action_of operation) (shown vm.host) vm.id in
      match_some (backend trace call) (call ∷ trace, failed "backend_operation_failed")
        (after_post configured vm (call ∷ trace))

  -- from `if found is None` on
  abbrev pub on_found : Operation → Option String → Option Vm → List Call → List Call × Outcome
  on_found operation configured none trace = (trace, failed "resource_not_found")
  on_found operation configured (some vm) trace =
      if is_start operation && is_running vm
      then (trace, already_running)
      else if is_restart operation && not (is_running vm)
      then (trace, failed "invalid_resource_state")
      else act_on operation configured vm trace

  abbrev host_reply : Value → Outcome
  host_reply (obj fs) = host_online true
  host_reply _ = host_online false

  -- from the listing on; `target` is the `host_id` or the `vm_id` of the payload
  abbrev pub on_listed :
      Operation → Option String → Value → List Vm → List Call → List Call × Outcome
  on_listed inspect_host configured target vms trace =
      let call = host_status (shown (some target)) in
      (call ∷ trace, match_some (backend trace call) (failed "backend_operation_failed") host_reply)
  on_listed list_vms configured target vms trace = (trace, listed vms)
  on_listed inspect_vm configured target vms trace = (trace, inspected (vm_with target vms))
  on_listed operation configured target vms trace =
      on_found operation configured (vm_with target vms) trace

  unfoldable pub run : Operation → Option String → List String → Bool → Value → List Call × Outcome
  unfolding proxmox_vms act_on
  run operation configured allowed cluster_read target =
      let vms = proxmox_vms configured allowed cluster_read [] in
      match_some vms.result (vms.trace, failed "backend_operation_failed")
        (λ found. on_listed operation configured target found vms.trace)
