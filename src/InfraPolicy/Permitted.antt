-- ===== src/InfraPolicy/Permitted.antt =====
-- What an operation needs to be authorized, as rules, and that `authorize` decides exactly them.
use virtiz_ai.Common.{
  String, ◌≡◌, ◌≢◌, ◌⊎◌, inl, inr, true, false, none, some, List, arith, mem, is_empty,
  Option-cases, Bool-cases,
}
use virtiz_ai.Common.Json.{Members}
use virtiz_ai.InfraPolicy.{
  Risk, read, mutating_reversible, mutating_disruptive, destructive, OperationPolicy,
  operation_policy, resource_scope, cluster_read_authorized, lists, authorize, authorize_policy,
  authorize_risk, granted,
}

-- What the configuration must say for an operation of this risk.
pub data Configured (operation : String) (config : Members) : Risk → String → Type 0 where
  by_cluster :
      cluster_read_authorized config operation ≡ true
      → Configured operation config read "cluster_read_policy"
  by_scope :
      cluster_read_authorized config operation ≡ false
      → is_empty (resource_scope config operation) ≡ false
      → Configured operation config read "read_policy"
  by_risk :
      is_empty (resource_scope config operation) ≡ false
      → lists config "allowed_risk_classes" "MUTATING_REVERSIBLE" ≡ true
      → Configured operation config mutating_reversible "environment_preauthorization"
  by_name :
      is_empty (resource_scope config operation) ≡ false
      → lists config "allowed_risk_classes" "MUTATING_DISRUPTIVE" ≡ true
      → lists config "preauthorized_operations" operation ≡ true
      → Configured operation config mutating_disruptive "environment_preauthorization"

module _ (operation : String) (worker environment : List String) (config : Members) where
  -- A known operation that agents may use, which worker and environment both offer, and which the
  -- configuration permits at its risk.
  pub record Permitted (source : String) : Type 0 where
    pub policy : OperationPolicy
    pub known : operation_policy operation ≡ some policy
    pub for_agents : policy.agent_allowed ≡ true
    pub offered_by_worker : mem operation worker ≡ true
    pub offered_by_environment : mem operation environment ≡ true
    pub configured : Configured operation config policy.risk source

  permits_risk :
      (risk : Risk) (source : String)
      → Configured operation config risk source
      → authorize_risk operation config risk ≡ granted risk source
  permits_risk risk source (by_cluster e) = ground arith
  permits_risk risk source (by_scope e s) = ground arith
  permits_risk risk source (by_risk s l) = ground arith
  permits_risk risk source (by_name s l n) = ground arith

  risk_permitted :
      (risk : Risk)
      → (authorize_risk operation config risk).allowed ≡ true
      → (source : String) × ((authorize_risk operation config risk).source ≡ some source)
        × Configured operation config risk source
  risk_permitted destructive h = cc
  risk_permitted read h = elim (Bool-cases (cluster_read_authorized config operation)) [
    | inl e ↦ ("cluster_read_policy", ground arith, by_cluster e)
    | inr e ↦ ("read_policy", ground arith, by_scope e (ground arith))
  ]
  risk_permitted mutating_reversible h =
      ("environment_preauthorization", ground arith, by_risk (ground arith) (ground arith))
  risk_permitted mutating_disruptive h = (
    "environment_preauthorization",
    ground arith,
    by_name (ground arith) (ground arith) (ground arith),
  )

  policy_permitted :
      (policy : OperationPolicy)
      → operation_policy operation ≡ some policy
      → (authorize_policy operation worker environment config policy).allowed ≡ true
      → (source : String) × ((authorize_policy operation worker environment config policy).source
          ≡ some source)
        × Permitted source
  policy_permitted policy known h =
      let agents : policy.agent_allowed ≡ true = ground arith in
      let w : mem operation worker ≡ true = ground arith in
      let e : mem operation environment ≡ true = ground arith in
      let same : authorize_policy operation worker environment config policy
          ≡ authorize_risk operation config policy.risk =
        ground arith in
      let (source, p, c) = risk_permitted policy.risk (rw same at h) in
      (
        source,
        rw same p,
        record {
          policy = policy;
          known = known;
          for_agents = agents;
          offered_by_worker = w;
          offered_by_environment = e;
          configured = c;
        },
      )

  -- Whatever `authorize` allows is permitted by the rules, under the authorization source that it names.
  pub authorize_sound :
      (authorize operation worker environment config).allowed ≡ true
      → (source : String) × ((authorize operation worker environment config).source ≡ some source)
        × Permitted source
  unfolding authorize
  authorize_sound h = elim (Option-cases (operation_policy operation)) [
    | inl e ↦ absurd (ground arith)
    | inr (policy, e) ↦
        let same : authorize operation worker environment config
            ≡ authorize_policy operation worker environment config policy =
          ground arith in
        rw same (policy_permitted policy e (rw same at h))
  ]

  -- Whatever the rules permit, `authorize` allows, with the risk of the operation and that source.
  pub authorize_complete :
      (source : String) (p : Permitted source)
      → authorize operation worker environment config ≡ granted p.policy.risk source
  unfolding authorize
  authorize_complete source p = ground (arith, permits_risk p.policy.risk source p.configured)

-- A decision that denies names a reason and no source; one that allows names no reason, and a risk other
-- than the destructive one.
pub authorize_coherent :
    (operation : String) (worker environment : List String) (config : Members)
    → let d = authorize operation worker environment config in
      ((d.allowed ≡ false) × (d.code ≢ none) × (d.source ≡ none))
      ⊎ ((d.allowed ≡ true) × (d.code ≡ none) × (d.source ≢ none) × (d.risk ≢ some destructive))
unfolding authorize
authorize_coherent operation worker environment config = ground arith
