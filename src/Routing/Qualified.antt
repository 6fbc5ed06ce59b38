-- ===== src/Routing/Qualified.antt =====
-- Why `reason` stays None in `capability_selection`: what an eligible target has.
use virtiz_ai.Common.{
  ap, sym, ◌∙◌, bind-ok, String, ◌≡◌, refl, ◌⊎◌, inl, inr, Bool, true, false, Option, none, some,
  List, [], ◌∷◌, arith, if◌then◌else◌, mem, All, Result, ok, raised, ◌>>=◌, Bool-cases,
}
use virtiz_ai.Capability.{TaskRequirements, Evidence, Unhashable, capability_state}
use virtiz_ai.Capability.Proven.{is_proven}
use virtiz_ai.Routing.{Row, effective_locality, known_locality, or_none}
use virtiz_ai.Routing.Strategy.{live_providers, live_models}
use virtiz_ai.Routing.Selection.{
  Tier, Reason, enforces, required_reason, any_proven, capability_reason, enforced_reason,
  execution_reason, tier_mismatch, reason_for, reason_in, evidence_of,
}

-- the capability is proven by the evidence of the row
abbrev pub IsProven : Evidence → String → Type 0
IsProven row c = (state : String) × (capability_state row c ≡ ok state) × (is_proven state ≡ true)

-- some capability of the list is proven
abbrev pub AnyProven : Evidence → List String → Type 0
AnyProven row [] = ⊥
AnyProven row (c ∷ cs) = IsProven row c ⊎ AnyProven row cs

-- every required capability is proven, and one of the execution capabilities, if there are any
abbrev pub Meets : Evidence → TaskRequirements → Type 0
Meets row q =
    All (IsProven row) q.required_capabilities
    × ((q.execution_capabilities ≡ []) ⊎ AnyProven row q.execution_capabilities)

Result-cases :
    (r : Result Unhashable String)
    → (r ≡ raised Unhashable.unhashable) ⊎ ((s : String) × (r ≡ ok s))
Result-cases (ok s) = inr (s, refl)
Result-cases (raised Unhashable.unhashable) = inl refl

required-met :
    (row : Evidence) (cs : List String) → required_reason row cs ≡ ok none → All (IsProven row) cs
unfolding required_reason
required-met row [] h = tt
required-met row (c ∷ cs) h = elim (Result-cases (capability_state row c)) [
  | inl e ↦ absurd (ground arith)
  | inr (s, e) ↦ elim (Bool-cases (is_proven s)) [
    | inl p ↦ ((s, e, p), required-met row cs (ground arith))
    | inr p ↦ absurd (ground arith)
  ]
]

any-met : (row : Evidence) (cs : List String) → any_proven row cs ≡ ok true → AnyProven row cs
unfolding any_proven
any-met row [] h = absurd (ground arith)
any-met row (c ∷ cs) h = elim (Result-cases (capability_state row c)) [
  | inl e ↦ absurd (ground arith)
  | inr (s, e) ↦ elim (Bool-cases (is_proven s)) [
    | inl p ↦ inl (s, e, p)
    | inr p ↦ inr (any-met row cs (ground arith))
  ]
]

execution-met :
    (row : Evidence) (cs : List String)
    → execution_reason row cs ≡ ok none
    → (cs ≡ []) ⊎ AnyProven row cs
execution-met row [] h = inl refl
execution-met row (c ∷ cs) h = inr (any-met row (c ∷ cs) (found (any_proven row (c ∷ cs)) h))
  where
    found :
        (b : Result Unhashable Bool)
        → (b >>= λ f. ok (if f then none else some Reason.capability_missing)) ≡ ok none
        → b ≡ ok true
    found (ok true) e = refl
    found (ok false) e = absurd (ground arith)
    found (raised u) e = absurd (ground arith)

capability-met :
    (row : Evidence) (q : TaskRequirements) → capability_reason row q ≡ ok none → Meets row q
capability-met row q h = met (required_reason row q.required_capabilities) refl h
  where
    met :
        (r : Result Unhashable (Option Reason))
        → required_reason row q.required_capabilities ≡ r
        → (r >>= λ reason. elim reason [
          | none ↦ execution_reason row q.execution_capabilities
          | some x ↦ ok (some x)
        ])
          ≡ ok none
        → Meets row q
    met (ok none) e k =
        (required-met row q.required_capabilities e, execution-met row q.execution_capabilities k)
    met (ok (some x)) e k = absurd (ground arith)
    met (raised u) e k = absurd (ground arith)

-- What an eligible target has: the locality of the tier, a target and a provider that are enabled, and, where
-- the route enforces capabilities, a live provider and model whose evidence meets the requirements.
pub record Qualifies {F : Type 0} (tier : Tier) (q : TaskRequirements) (r : Row F) : Type 0 where
  pub located : effective_locality r ≡ ok (known_locality r)
  pub in_tier : tier_mismatch tier (known_locality r) ≡ false
  pub target_on : r.target_enabled ≡ true
  pub provider_on : r.provider_enabled ≡ true
  pub proven :
      (enforces r.policy ≡ false)
      ⊎ ((mem r.health_status live_providers ≡ true)
          × (mem r.model_status live_models ≡ true)
          × Meets (evidence_of r) q)

module _ {F : Type 0} (tier : Tier) (q : TaskRequirements) (r : Row F) where
  enforced-met :
      enforced_reason q r ≡ ok none
      → (mem r.health_status live_providers ≡ true)
        × (mem r.model_status live_models ≡ true)
        × Meets (evidence_of r) q
  enforced-met h = elim (Bool-cases (mem r.health_status live_providers)) [
    | inr e ↦ absurd (ground arith)
    | inl e ↦ elim (Bool-cases (mem r.model_status live_models)) [
      | inr d ↦ absurd (ground arith)
      | inl d ↦ (e, d, capability-met (evidence_of r) q (rw (e, d) at h))
    ]
  ]

  proven_by :
      (if enforces r.policy then enforced_reason q r else ok none) ≡ ok none
      → (enforces r.policy ≡ false)
        ⊎ ((mem r.health_status live_providers ≡ true)
            × (mem r.model_status live_models ≡ true)
            × Meets (evidence_of r) q)
  proven_by h = elim (Bool-cases (enforces r.policy)) [
    | inr e ↦ inl e
    | inl e ↦ inr (enforced-met (rw e at h))
  ]

  tested :
      (locality : Option String)
      → effective_locality r ≡ ok (known_locality r)
      → locality ≡ known_locality r
      → reason_in tier q r locality ≡ ok none
      → Qualifies tier q r
  tested locality l k h = elim (Bool-cases (tier_mismatch tier locality)) [
    | inl e ↦ absurd (ground arith)
    | inr e ↦ elim (Bool-cases r.target_enabled) [
      | inr t ↦ absurd (ground arith)
      | inl t ↦ elim (Bool-cases r.provider_enabled) [
        | inr p ↦ absurd (ground arith)
        | inl p ↦ record {
          located = l;
          in_tier = ap (tier_mismatch tier) (sym k) ∙ e;
          target_on = t;
          provider_on = p;
          proven = proven_by (rw (e, t, p) at h);
        }
      ]
    ]
  ]

  pub reason_for-Qualifies : reason_for tier q r ≡ ok none → Qualifies tier q r
  unfolding reason_for
  reason_for-Qualifies h =
      let (locality, l, h1) = bind-ok (effective_locality r) (reason_in tier q r) none h in
      let k : known_locality r ≡ locality = ap or_none l in
      tested locality (l ∙ ap ok (sym k)) (sym k) h1
