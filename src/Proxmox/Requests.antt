-- ===== src/Proxmox/Requests.antt =====
-- Which requests change a virtual machine.
use virtiz_ai.Common.{
  ℕ, zero, suc, String, ◌≡◌, refl, ap, ◌∙◌, ◌⊎◌, inl, inr, Bool, true, false, not, Option, none,
  some, List, [], ◌∷◌, if_ind, match_some, if◌then◌else◌, ◌==◌, ◌&&◌, match_some_cases,
}
use virtiz_ai.Common.Json.{Value, str}
use virtiz_ai.Proxmox.{
  Operation, Call, Vm, Outcome, Ran, TaskEnd, inspect_service, start_vm, restart_vm, reboot,
  vm_status, act, already_running, failed, is_running, is_stopped, ended, vm_with, is_start,
  is_restart, task_poll_attempts, proxmox_vms, vms_on_node, poll_task, poll_running, after_task,
  after_post, action_of, act_on, on_found, on_listed, run,
}

-- the POST requests of a trace, newest first
abbrev pub acts : List Call → List Call
acts [] = []
acts (act a host vm ∷ cs) = act a host vm ∷ acts cs
acts (_ ∷ cs) = acts cs

module _ (backend : List Call → Call → Option Value) (shown : Option Value → String) where
  acts-vms_on_node :
      (node : String) (ids : List String) (trace : List Call)
      → acts (vms_on_node backend shown node ids trace).trace ≡ acts trace
  unfolding vms_on_node
  acts-vms_on_node node [] trace = refl
  acts-vms_on_node node (id ∷ ids) trace =
      match_some_cases (λ (r : Ran (List Vm)). acts r.trace ≡ acts trace)
        (backend trace (vm_status node id)) _ _ (λ _. refl)
        (λ v _. acts-vms_on_node node ids (vm_status node id ∷ trace))

  acts-proxmox_vms :
      (configured : Option String) (allowed : List String) (cluster_read : Bool) (trace : List Call)
      → acts (proxmox_vms backend shown configured allowed cluster_read trace).trace ≡ acts trace
  unfolding proxmox_vms
  acts-proxmox_vms none allowed cluster_read trace = refl
  acts-proxmox_vms (some node) allowed cluster_read trace = acts-vms_on_node node allowed trace

  acts-poll_task :
      (n : ℕ) (host task : String) (trace : List Call)
      → acts (poll_task backend shown n host task trace).trace ≡ acts trace
  unfolding poll_task
  acts-poll_task zero host task trace = refl
  acts-poll_task (suc n) host task trace =
      let P : Ran TaskEnd → Type 0 = λ r. acts r.trace ≡ acts trace in
      match_some_cases P (backend trace (Call.task_status host task)) _ _ (λ _. refl)
        (λ v _.
          if_ind P (is_stopped v)
            (record { trace = Call.task_status host task ∷ trace; result = some (ended v) })
            (poll_task backend shown n host task (Call.task_status host task ∷ trace)) (λ _. refl)
            (λ _. acts-poll_task n host task (Call.task_status host task ∷ trace)))

  acts-poll_running :
      (n : ℕ) (configured : Option String) (vm_id : String) (last : Option Vm) (trace : List Call)
      → acts (poll_running backend shown n configured vm_id last trace).trace ≡ acts trace
  unfolding poll_running
  acts-poll_running zero configured vm_id last trace = refl
  acts-poll_running (suc n) configured vm_id last trace =
      let P : Ran (Option Vm) → Type 0 = λ r. acts r.trace ≡ acts trace in
      let vms = proxmox_vms backend shown configured (vm_id ∷ []) false trace in
      let same = acts-proxmox_vms configured (vm_id ∷ []) false trace in
      match_some_cases P vms.result _ _ (λ _. same)
        (λ found _.
          if_ind P (match_some (vm_with (str vm_id) found) false is_running)
            (record { trace = vms.trace; result = some (vm_with (str vm_id) found) })
            (poll_running backend shown n configured vm_id (vm_with (str vm_id) found) vms.trace)
            (λ _. same)
            (λ _.
              acts-poll_running n configured vm_id (vm_with (str vm_id) found) vms.trace ∙ same))

  acts-after_task :
      (configured : Option String) (vm : Vm) (task : String) (r : Ran TaskEnd)
      → acts (after_task backend shown configured vm task r).0 ≡ acts r.trace
  acts-after_task configured vm task r = by_result r.result refl
    where
      by_result :
          (o : Option TaskEnd)
          → r.result ≡ o
          → acts (after_task backend shown configured vm task r).0 ≡ acts r.trace
      by_result none e = rw e refl
      by_result (some TaskEnd.task_failed) e = rw e refl
      by_result (some TaskEnd.pending) e = rw e refl
      by_result (some TaskEnd.completed) e =
          rw e (acts-poll_running _ configured vm.id none r.trace)

  acts-after_post :
      (configured : Option String) (vm : Vm) (trace : List Call) (v : Value)
      → acts (after_post backend shown configured vm trace v).0 ≡ acts trace
  acts-after_post configured vm trace (str task) =
      let polled = poll_task backend shown task_poll_attempts (shown vm.host) task trace in
      if_ind (λ (s : List Call × Outcome). acts s.0 ≡ acts trace) (task == "")
        (trace, failed "backend_operation_failed")
        (after_task backend shown configured vm task polled) (λ _. refl)
        (λ _.
          acts-after_task configured vm task polled
          ∙ acts-poll_task task_poll_attempts (shown vm.host) task trace)
  acts-after_post configured vm trace _ = refl

  acts-act_on :
      (operation : Operation) (configured : Option String) (vm : Vm) (trace : List Call)
      → acts (act_on backend shown operation configured vm trace).0
        ≡ act (action_of operation) (shown vm.host) vm.id ∷ acts trace
  unfolding act_on
  acts-act_on operation configured vm trace =
      let call = act (action_of operation) (shown vm.host) vm.id in
      match_some_cases (λ (s : List Call × Outcome). acts s.0 ≡ call ∷ acts trace)
        (backend trace call) _ _ (λ _. refl) (λ v _. acts-after_post configured vm (call ∷ trace) v)

  -- The state in which an operation acts on a machine: a start on one that does not run, a restart on one that
  -- runs. The inspection of a service, which shares their code, acts in any state.
  abbrev pub Acts : Operation → Vm → Type 0
  Acts start_vm vm = is_running vm ≡ false
  Acts restart_vm vm = is_running vm ≡ true
  Acts inspect_service vm = Unit
  Acts _ vm = ⊥

  module _ (configured : Option String) (target : Value) where
    -- no request that acts, or the one for the machine that was found
    abbrev pub ActsOnce : Operation → List Vm → List Call → List Call → Type 0
    ActsOnce operation vms before after =
        (acts after ≡ acts before)
        ⊎ ((vm : Vm) × (vm_with target vms ≡ some vm)
            × Acts operation vm
            × (acts after ≡ act (action_of operation) (shown vm.host) vm.id ∷ acts before))

    on_found-ActsOnce :
        (operation : Operation) (vms : List Vm) (vm : Vm) (trace : List Call)
        → vm_with target vms ≡ some vm
        → (is_start operation ≡ true → is_running vm ≡ false → Acts operation vm)
        → (is_restart operation ≡ true → is_running vm ≡ true → Acts operation vm)
        → ((is_start operation ≡ false) → (is_restart operation ≡ false) → Acts operation vm)
        → ActsOnce operation vms trace
            (on_found backend shown operation configured (some vm) trace).0
    on_found-ActsOnce operation vms vm trace e starts restarts otherwise_ =
        let P : List Call × Outcome → Type 0 = λ s. ActsOnce operation vms trace s.0 in
        let sent = act_on backend shown operation configured vm trace in
        if_ind P (is_start operation && is_running vm) (trace, already_running)
          (if is_restart operation && not (is_running vm)
            then (trace, failed "invalid_resource_state")
            else sent)
          (λ _. inl refl)
          (λ h.
            if_ind P (is_restart operation && not (is_running vm))
              (trace, failed "invalid_resource_state") sent (λ _. inl refl)
              (λ k. inr (
                vm,
                e,
                in_state (is_start operation) (is_restart operation) (is_running vm) h k starts
                    restarts otherwise_,
                acts-act_on operation configured vm trace,
              )))
      where
        in_state :
            {A : Type 0} (s r on : Bool)
            → (s && on) ≡ false
            → (r && not on) ≡ false
            → (s ≡ true → on ≡ false → A)
            → (r ≡ true → on ≡ true → A)
            → (s ≡ false → r ≡ false → A)
            → A
        in_state true r false h k f g o = f refl refl
        in_state true r true h k f g o = absurd (cc)
        in_state false true true h k f g o = g refl refl
        in_state false true false h k f g o = absurd (cc)
        in_state false false on h k f g o = o refl refl

    on_option-ActsOnce :
        (operation : Operation) (vms : List Vm) (o : Option Vm) (trace : List Call)
        → vm_with target vms ≡ o
        → ((vm : Vm)
            → o ≡ some vm
            → ActsOnce operation vms trace
                (on_found backend shown operation configured (some vm) trace).0)
        → ActsOnce operation vms trace (on_found backend shown operation configured o trace).0
    on_option-ActsOnce operation vms none trace e f = inl refl
    on_option-ActsOnce operation vms (some vm) trace e f = f vm refl

    on_listed-ActsOnce :
        (operation : Operation) (vms : List Vm) (trace : List Call)
        → ActsOnce operation vms trace
            (on_listed backend shown operation configured target vms trace).0
    on_listed-ActsOnce Operation.inspect_host vms trace = inl refl
    on_listed-ActsOnce Operation.list_vms vms trace = inl refl
    on_listed-ActsOnce Operation.inspect_vm vms trace = inl refl
    on_listed-ActsOnce inspect_service vms trace =
        on_option-ActsOnce inspect_service vms (vm_with target vms) trace refl (λ vm e.
          on_found-ActsOnce inspect_service vms vm trace e (λ _ _. tt) (λ _ _. tt) (λ _ _. tt))
    on_listed-ActsOnce start_vm vms trace =
        on_option-ActsOnce start_vm vms (vm_with target vms) trace refl (λ vm e.
          on_found-ActsOnce start_vm vms vm trace e (λ _ off. off) (λ h _. absurd (cc))
            (λ h _. absurd (cc)))
    on_listed-ActsOnce restart_vm vms trace =
        on_option-ActsOnce restart_vm vms (vm_with target vms) trace refl (λ vm e.
          on_found-ActsOnce restart_vm vms vm trace e (λ h _. absurd (cc)) (λ _ on. on)
            (λ _ h. absurd (cc)))

    module _ (allowed : List String) (cluster_read : Bool) where
      -- An operation sends at most one request that acts, whatever the backend answers: one start or reboot of the
      -- machine that the listing has for the target, a start of one that does not run, for a restart
      -- of one that runs. The other inspections send none; that of a service sends a reboot.
      pub run-acts :
          (operation : Operation)
          → let listing = proxmox_vms backend shown configured allowed cluster_read [] in
            let calls =
              acts (run backend shown operation configured allowed cluster_read target).0 in
            (calls ≡ [])
            ⊎ ((vms : List Vm) × (vm : Vm) × (listing.result ≡ some vms)
                × (vm_with target vms ≡ some vm)
                × Acts operation vm
                × (calls ≡ act (action_of operation) (shown vm.host) vm.id ∷ []))
      unfolding run
      run-acts operation =
          let listing = proxmox_vms backend shown configured allowed cluster_read [] in
          let none_yet = acts-proxmox_vms configured allowed cluster_read [] in
          match_some_cases
            (λ (s : List Call × Outcome).
              (acts s.0 ≡ [])
              ⊎ ((vms : List Vm) × (vm : Vm) × (listing.result ≡ some vms)
                  × (vm_with target vms ≡ some vm)
                  × Acts operation vm
                  × (acts s.0 ≡ act (action_of operation) (shown vm.host) vm.id ∷ [])))
            listing.result _ _ (λ _. inl none_yet)
            (λ vms e. elim (on_listed-ActsOnce operation vms listing.trace) [
              | inl same ↦ inl (same ∙ none_yet)
              | inr (vm, found, acts_here, same) ↦ inr (
                vms,
                vm,
                e,
                found,
                acts_here,
                same ∙ ap (◌∷◌ (act (action_of operation) (shown vm.host) vm.id)) none_yet,
              )
            ])

      -- An inspection of a service whose target is the identifier of a listed machine sends a reboot of that machine.
      pub service_inspection_reboots :
          (vms : List Vm) (vm : Vm)
          → (proxmox_vms backend shown configured allowed cluster_read []).result ≡ some vms
          → vm_with target vms ≡ some vm
          → acts (run backend shown inspect_service configured allowed cluster_read target).0
            ≡ act reboot (shown vm.host) vm.id ∷ []
      unfolding run
      service_inspection_reboots vms vm e found =
          let none_yet = acts-proxmox_vms configured allowed cluster_read [] in
          rw (e, found)
            (acts-act_on inspect_service configured vm _
              ∙ ap (◌∷◌ (act reboot (shown vm.host) vm.id)) none_yet)
