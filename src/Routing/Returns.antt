-- ===== src/Routing/Returns.antt =====
-- Where `capability_selection` returns: the exceptions of its loop are a locality or a state that cannot be hashed.
use virtiz_ai.Common.{
  String, ◌≡◌, refl, Bool, true, false, not, Option, none, some, List, [], ◌∷◌, if◌then◌else◌,
  if_ind, mem, All, Result, ok, ◌>>=◌,
}
use virtiz_ai.Capability.{TaskRequirements, Evidence, Unhashable, capability_state}
use virtiz_ai.Capability.Proven.{is_proven}
use virtiz_ai.Routing.{Floats, Row, effective_locality}
use virtiz_ai.Routing.Strategy.{live_providers, live_models}
use virtiz_ai.Routing.Selection.{
  Tier, Reason, Answer, for_tier, enforces, required_reason, any_proven, execution_reason,
  capability_reason, tier_mismatch, reason_for, reason_in, evidence_of, sort_out, candidates,
  capability_selection,
}

abbrev Returns : {A : Type 0} → Result Unhashable A → Type 0
Returns {A} m = (a : A) × (m ≡ ok a)

-- the evidence of a row gives a state, hashable, for every capability
abbrev pub IsReadable : Evidence → Type 0
IsReadable row = (c : String) → (s : String) × (capability_state row c ≡ ok s)

bind-Returns :
    {A B : Type 0} (m : Result Unhashable A) (f : A → Result Unhashable B)
    → Returns m
    → ((a : A) → Returns (f a))
    → Returns (m >>= f)
bind-Returns (ok a) f h k = k a
bind-Returns (Result.raised e) f h k = absurd (cc (h.1))

if-Returns :
    {A : Type 0} (b : Bool) (x y : Result Unhashable A)
    → Returns x
    → Returns y
    → Returns (if b then x else y)
if-Returns {A} b x y h k = if_ind Returns b x y (λ _. h) (λ _. k)

module _ (row : Evidence) (readable : IsReadable row) where
  required_reason-Returns : (cs : List String) → Returns (required_reason row cs)
  unfolding required_reason
  required_reason-Returns [] = (none, refl)
  required_reason-Returns (c ∷ cs) =
      bind-Returns (capability_state row c) _ (readable c)
        (λ s. if-Returns (is_proven s) _ _ (required_reason-Returns cs) (_, refl))

  any_proven-Returns : (cs : List String) → Returns (any_proven row cs)
  unfolding any_proven
  any_proven-Returns [] = (false, refl)
  any_proven-Returns (c ∷ cs) =
      bind-Returns (capability_state row c) _ (readable c)
        (λ s. if-Returns (is_proven s) _ _ (true, refl) (any_proven-Returns cs))

  execution_reason-Returns : (cs : List String) → Returns (execution_reason row cs)
  execution_reason-Returns [] = (none, refl)
  execution_reason-Returns (c ∷ cs) =
      bind-Returns (any_proven row (c ∷ cs)) _ (any_proven-Returns (c ∷ cs)) (λ found. (_, refl))

  after_required :
      (q : TaskRequirements) (reason : Option Reason)
      → Returns (elim reason as (λ _. Result Unhashable (Option Reason)) [
        | none ↦ execution_reason row q.execution_capabilities
        | some x ↦ ok (some x)
      ])
  after_required q none = execution_reason-Returns q.execution_capabilities
  after_required q (some x) = (some x, refl)

  capability_reason-Returns : (q : TaskRequirements) → Returns (capability_reason row q)
  capability_reason-Returns q =
      bind-Returns (required_reason row q.required_capabilities) _
        (required_reason-Returns q.required_capabilities) (after_required q)

module _ {F : Type 0} (tier : Tier) (q : TaskRequirements) (r : Row F) where
  reason_in-Returns :
      (locality : Option String)
      → IsReadable (evidence_of r)
      → Returns (reason_in tier q r locality)
  reason_in-Returns locality readable =
      if-Returns (tier_mismatch tier locality) _ _ (_, refl)
        (if-Returns (not r.target_enabled) _ _ (_, refl)
          (if-Returns (not r.provider_enabled) _ _ (_, refl)
            (if-Returns (enforces r.policy) _ _
              (if-Returns (not (mem r.health_status live_providers)) _ _ (_, refl)
                (if-Returns (not (mem r.model_status live_models)) _ _ (_, refl)
                  (capability_reason-Returns (evidence_of r) readable q)))
              (_, refl))))

  reason_for-Returns :
      Returns (effective_locality r) → IsReadable (evidence_of r) → Returns (reason_for tier q r)
  unfolding reason_for
  reason_for-Returns located readable =
      bind-Returns (effective_locality r) (reason_in tier q r) located
        (λ locality. reason_in-Returns locality readable)

module _ (floats : Floats) where
  abbrev pub IsReadableRow : Row floats.Float → Type 0
  IsReadableRow r =
      ((locality : Option String) × (effective_locality r ≡ ok locality))
      × IsReadable (evidence_of r)

  sort_out-Returns :
      (tier : Tier) (q : TaskRequirements) (rows : List (Row floats.Float))
      → All IsReadableRow rows
      → Returns (sort_out floats tier q rows)
  unfolding sort_out
  sort_out-Returns tier q [] h = (([], []), refl)
  sort_out-Returns tier q (r ∷ rs) h =
      bind-Returns (reason_for tier q r) _ (reason_for-Returns tier q r h.0.0 h.0.1) (λ reason.
        bind-Returns (sort_out floats tier q rs) _ (sort_out-Returns tier q rs h.1)
          (λ lists. (_, refl)))

  -- A selection returns an answer whenever each of the rows it looks at has a locality, none included, that is not
  -- an exception, and evidence that gives a state for every capability.
  pub capability_selection_returns :
      (table : List (Row floats.Float)) (role_id : String) (requirements : TaskRequirements)
      (tier : Tier)
      → All IsReadableRow (candidates floats table role_id)
      → (a : Answer floats) × (capability_selection floats table role_id requirements tier ≡ ok a)
  unfolding capability_selection
  capability_selection_returns table role_id requirements tier h =
      bind-Returns
        (sort_out floats tier (for_tier tier requirements) (candidates floats table role_id)) _
        (sort_out-Returns tier (for_tier tier requirements) (candidates floats table role_id) h)
        (λ lists. (_, refl))
