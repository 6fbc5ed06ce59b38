-- ===== src/InfraTools/Scoped.antt =====
-- A machine that an authorized operation acts on lies in the configured scope.
use mathlib.Core.Path.{subst}
use virtiz_ai.Common.{
  String, ◌≡◌, refl, sym, ◌⊎◌, inl, inr, Bool, true, false, not, ◌&&◌, ◌||◌, Option, none, some,
  List, [], ◌∷◌, if_ind, mem, first-Among, eq_iff, otherwise,
}
use virtiz_ai.Common.Json.{Value, null, str, Members, is_text}
use virtiz_ai.InfraPolicy.{authorize, resource_scope, cluster_read_authorized}
use virtiz_ai.InfraTools.{Admission, to_proxmox, served, in_scope, leaves_scope, admit}
use virtiz_ai.Proxmox.{Operation, Call, Vm, act, vm_with, action_of, run}
use virtiz_ai.Proxmox.Requests.{acts, run-acts}

module _ (operation : String) (worker environment : List String) (config : Members)
    (vm_id : Option Value) where
  -- What reaches the adapter is authorized, and stays in the scope.
  admitted :
      admit operation worker environment config vm_id ≡ to_proxmox
      → ((authorize operation worker environment config).allowed ≡ true)
        × (leaves_scope operation config vm_id ≡ false)
  unfolding admit
  admitted h =
      let P : Admission → Type 0 = λ a.
        a ≡ to_proxmox
        → ((authorize operation worker environment config).allowed ≡ true)
          × (leaves_scope operation config vm_id ≡ false) in
      if_ind P (not (mem operation served)) _ _ (λ _ k. absurd (cc))
        (λ _.
          if_ind P
            (not (mem "read_infrastructure" worker) || not (mem "read_infrastructure" environment))
            _ _ (λ _ k. absurd (cc))
            (λ _.
              if_ind P (not (authorize operation worker environment config).allowed) _ _
                (λ _ k. absurd (cc))
                (λ on.
                  if_ind P (leaves_scope operation config vm_id) _ _ (λ _ k. absurd (cc))
                    (λ inside k. (not_false _ on, inside)))))
        h
    where
      not_false : (b : Bool) → not b ≡ false → b ≡ true
      not_false true e = refl
      not_false false e = absurd (cc)

in_scope-found :
    (vm_id : Option Value) (allowed : List String) (vms : List Vm) (vm : Vm)
    → in_scope vm_id allowed ≡ true
    → vm_with (otherwise vm_id null) vms ≡ some vm
    → mem vm.id allowed ≡ true
in_scope-found none allowed vms vm h e = absurd (cc)
in_scope-found (some (str s)) allowed vms vm h e =
    let (_, same) = first-Among (λ (v : Vm). is_text (str s) v.id) vm vms e in
    subst (λ k. mem k allowed ≡ true) ((eq_iff s vm.id).0 same) h
in_scope-found (some _) allowed vms vm h e = absurd (cc)

-- Whatever the backend answers, a start or restart that `execute` lets through to the adapter is authorized, and
-- sends either no request that acts or a single one, for a machine whose identifier is in the scope
-- configured for the operation.
pub mutation_scoped :
    (backend : List Call → Call → Option Value) (shown : Option Value → String)
    (configured : Option String) (named : Operation) (operation : String)
    (worker environment : List String) (config : Members) (vm_id : Option Value)
    → (operation ≡ "start_vm") ⊎ (operation ≡ "restart_vm")
    → admit operation worker environment config vm_id ≡ to_proxmox
    → let scope = resource_scope config operation in
      let calls =
        acts
          (run backend shown named configured scope
            (cluster_read_authorized config operation)
            (otherwise vm_id null)).0 in
      ((authorize operation worker environment config).allowed ≡ true)
      × ((calls ≡ [])
          ⊎ ((vm : Vm) × (mem vm.id scope ≡ true)
              × (calls ≡ act (action_of named) (shown vm.host) vm.id ∷ [])))
mutation_scoped backend shown configured named operation worker environment config vm_id names h =
    let scope = resource_scope config operation in
    let (on, inside) = admitted operation worker environment config vm_id h in
    let within : in_scope vm_id scope ≡ true = stays names inside in
    (
      on,
      elim (run-acts backend shown configured (otherwise vm_id null) scope
          (cluster_read_authorized config operation) named) [
            | inl e ↦ inl e
            | inr (vms, vm, _, found, _, sent) ↦
                inr (vm, in_scope-found vm_id scope vms vm within found, sent)
          ],
    )
  where
    Stays : String → Type 0
    Stays o = leaves_scope o config vm_id ≡ false → in_scope vm_id (resource_scope config o) ≡ true

    inside_scope : (s : Bool) → ((true && not s) && not false) ≡ false → s ≡ true
    inside_scope true e = refl
    inside_scope false e = absurd (cc)

    stays :
        (operation ≡ "start_vm") ⊎ (operation ≡ "restart_vm")
        → leaves_scope operation config vm_id ≡ false
        → in_scope vm_id (resource_scope config operation) ≡ true
    stays (inl e) k = subst Stays (sym e) (inside_scope _) k
    stays (inr e) k = subst Stays (sym e) (inside_scope _) k
