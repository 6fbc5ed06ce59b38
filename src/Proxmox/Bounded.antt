-- ===== src/Proxmox/Bounded.antt =====
-- How many requests an operation sends.
use virtiz_ai.Common.{
  ℕ, zero, suc, ◌+◌, ◌≤◌, String, ◌≡◌, refl, Bool, false, Option, none, some, List, [], ◌∷◌, arith,
  if_ind, match_some, match_some_cases, length, ◌==◌,
}
use virtiz_ai.Common.Json.{Value, str}
use virtiz_ai.Proxmox.{
  Operation, Call, Vm, Outcome, Ran, TaskEnd, inspect_service, start_vm, restart_vm, vm_status,
  task_status, act, failed, is_running, is_stopped, ended, vm_with, task_poll_attempts, proxmox_vms,
  vms_on_node, poll_task, poll_running, after_task, after_post, action_of, act_on, on_found,
  on_listed, run,
}

-- the requests of a listing: one for a cluster, one for each allowed identifier of a configured node
abbrev pub listing_requests : Option String → List String → ℕ
listing_requests none allowed = 1
listing_requests (some node) allowed = length allowed

one_listed :
    (configured : Option String) (vm_id : String) → listing_requests configured (vm_id ∷ []) ≡ 1
one_listed none vm_id = refl
one_listed (some node) vm_id = refl

module _ (backend : List Call → Call → Option Value) (shown : Option Value → String) where
  vms_on_node-le :
      (node : String) (ids : List String) (trace : List Call)
      → length (vms_on_node backend shown node ids trace).trace ≤ length trace + length ids
  unfolding vms_on_node
  vms_on_node-le node [] trace = omega arith
  vms_on_node-le node (id ∷ ids) trace =
      match_some_cases (λ (r : Ran (List Vm)). length r.trace ≤ length trace + suc (length ids))
        (backend trace (vm_status node id)) _ _ (λ _. omega arith)
        (λ v _. omega (arith, vms_on_node-le node ids (vm_status node id ∷ trace)))

  proxmox_vms-le :
      (configured : Option String) (allowed : List String) (cluster_read : Bool) (trace : List Call)
      → length (proxmox_vms backend shown configured allowed cluster_read trace).trace
        ≤ length trace + listing_requests configured allowed
  unfolding proxmox_vms
  proxmox_vms-le none allowed cluster_read trace = omega arith
  proxmox_vms-le (some node) allowed cluster_read trace =
      omega (arith, vms_on_node-le node allowed trace)

  poll_task-le :
      (n : ℕ) (host task : String) (trace : List Call)
      → length (poll_task backend shown n host task trace).trace ≤ length trace + n
  unfolding poll_task
  poll_task-le zero host task trace = omega arith
  poll_task-le (suc n) host task trace =
      let P : Ran TaskEnd → Type 0 = λ r. length r.trace ≤ length trace + suc n in
      match_some_cases P (backend trace (task_status host task)) _ _ (λ _. omega arith)
        (λ v _.
          if_ind P (is_stopped v)
            (record { trace = task_status host task ∷ trace; result = some (ended v) })
            (poll_task backend shown n host task (task_status host task ∷ trace)) (λ _. omega arith)
            (λ _. omega (arith, poll_task-le n host task (task_status host task ∷ trace))))

  poll_running-le :
      (n : ℕ) (configured : Option String) (vm_id : String) (last : Option Vm) (trace : List Call)
      → length (poll_running backend shown n configured vm_id last trace).trace ≤ length trace + n
  unfolding poll_running
  poll_running-le zero configured vm_id last trace = omega arith
  poll_running-le (suc n) configured vm_id last trace =
      let P : Ran (Option Vm) → Type 0 = λ r. length r.trace ≤ length trace + suc n in
      let vms = proxmox_vms backend shown configured (vm_id ∷ []) false trace in
      let one = proxmox_vms-le configured (vm_id ∷ []) false trace in
      let single = one_listed configured vm_id in
      match_some_cases P vms.result _ _ (λ _. omega (arith, one, single))
        (λ found _.
          if_ind P (match_some (vm_with (str vm_id) found) false is_running)
            (record { trace = vms.trace; result = some (vm_with (str vm_id) found) })
            (poll_running backend shown n configured vm_id (vm_with (str vm_id) found) vms.trace)
            (λ _. omega (arith, one, single))
            (λ _. omega (
              arith,
              one,
              single,
              poll_running-le n configured vm_id (vm_with (str vm_id) found) vms.trace,
            )))

  after_task-le :
      (configured : Option String) (vm : Vm) (task : String) (r : Ran TaskEnd)
      → length (after_task backend shown configured vm task r).0
        ≤ length r.trace + task_poll_attempts
  after_task-le configured vm task r = by_result r.result refl
    where
      by_result :
          (o : Option TaskEnd)
          → r.result ≡ o
          → length (after_task backend shown configured vm task r).0
            ≤ length r.trace + task_poll_attempts
      by_result none e = rw e (omega arith)
      by_result (some TaskEnd.task_failed) e = rw e (omega arith)
      by_result (some TaskEnd.pending) e = rw e (omega arith)
      by_result (some TaskEnd.completed) e =
          rw e (poll_running-le task_poll_attempts configured vm.id none r.trace)

  after_post-le :
      (configured : Option String) (vm : Vm) (trace : List Call) (v : Value)
      → length (after_post backend shown configured vm trace v).0
        ≤ length trace + (task_poll_attempts + task_poll_attempts)
  after_post-le configured vm trace (str task) =
      let polled = poll_task backend shown task_poll_attempts (shown vm.host) task trace in
      if_ind
        (λ (s : List Call × Outcome).
          length s.0 ≤ length trace + (task_poll_attempts + task_poll_attempts))
        (task == "") (trace, failed "backend_operation_failed")
        (after_task backend shown configured vm task polled) (λ _. omega arith)
        (λ _. omega (
          arith,
          after_task-le configured vm task polled,
          poll_task-le task_poll_attempts (shown vm.host) task trace,
        ))
  after_post-le configured vm trace _ = omega arith

  act_on-le :
      (operation : Operation) (configured : Option String) (vm : Vm) (trace : List Call)
      → length (act_on backend shown operation configured vm trace).0 ≤ length trace + 25
  unfolding act_on task_poll_attempts
  act_on-le operation configured vm trace =
      let call = act (action_of operation) (shown vm.host) vm.id in
      match_some_cases (λ (s : List Call × Outcome). length s.0 ≤ length trace + 25)
        (backend trace call) _ _ (λ _. omega arith)
        (λ v _. omega (arith, after_post-le configured vm (call ∷ trace) v))

  on_found-le :
      (operation : Operation) (configured : Option String) (o : Option Vm) (trace : List Call)
      → length (on_found backend shown operation configured o trace).0 ≤ length trace + 25
  on_found-le operation configured none trace = omega arith
  on_found-le operation configured (some vm) trace =
      ground (arith, act_on-le operation configured vm trace)

  on_listed-le :
      (operation : Operation) (configured : Option String) (target : Value) (vms : List Vm)
      (trace : List Call)
      → length (on_listed backend shown operation configured target vms trace).0 ≤ length trace + 25
  on_listed-le Operation.inspect_host configured target vms trace = omega arith
  on_listed-le Operation.list_vms configured target vms trace = omega arith
  on_listed-le Operation.inspect_vm configured target vms trace = omega arith
  on_listed-le inspect_service configured target vms trace =
      on_found-le inspect_service configured (vm_with target vms) trace
  on_listed-le start_vm configured target vms trace =
      on_found-le start_vm configured (vm_with target vms) trace
  on_listed-le restart_vm configured target vms trace =
      on_found-le restart_vm configured (vm_with target vms) trace

  -- An operation ends after at most 25 requests beyond those of its listing, which are one where no node is
  -- configured, and otherwise one for each allowed identifier, whatever the backend answers.
  pub run_bounded :
      (operation : Operation) (configured : Option String) (allowed : List String)
      (cluster_read : Bool) (target : Value)
      → length (run backend shown operation configured allowed cluster_read target).0
        ≤ listing_requests configured allowed + 25
  unfolding run
  run_bounded operation configured allowed cluster_read target =
      let listing = proxmox_vms backend shown configured allowed cluster_read [] in
      let some_ = proxmox_vms-le configured allowed cluster_read [] in
      match_some_cases
        (λ (s : List Call × Outcome). length s.0 ≤ listing_requests configured allowed + 25)
        listing.result _ _ (λ _. omega (arith, some_))
        (λ vms _. omega (arith, some_, on_listed-le operation configured target vms listing.trace))
