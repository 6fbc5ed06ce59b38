-- ===== src/Capability/Proven.antt =====
-- Configured evidence decides before what a model advertises.
use virtiz_ai.Common.{
  String, ◌≡◌, refl, inl, inr, Bool, true, false, ◌||◌, Option, some, arith, if_ind, otherwise,
  Bool-cases, mem, ok, ◌==◌,
}
use virtiz_ai.Common.Json.{Value, str, arr, obj, no_more}
use virtiz_ai.Capability.{
  Evidence, state_or_advertised, advertises, known_states, evidence_for, advertised_state,
  capability_state,
}

-- the two states that routing accepts
abbrev pub is_proven : String → Bool
is_proven state = state == "verified" || state == "probed"

advertised_state-unproven :
    (column : Option Value) (capability : String)
    → is_proven (advertised_state column capability) ≡ false
advertised_state-unproven column capability =
    if_ind (λ s. is_proven s ≡ false) (advertises (otherwise column (arr no_more)) capability) _ _
      (λ _. refl) (λ _. refl)

-- recorded evidence, or else what is advertised
from_evidence :
    (v : Option Value) (fallback state : String)
    → is_proven fallback ≡ false
    → state_or_advertised v fallback ≡ ok state
    → is_proven state ≡ true
    → v ≡ some (str state)
from_evidence (some (str s)) fallback state u h p = elim (Bool-cases (mem s known_states)) [
  | inl e ↦ ground arith
  | inr e ↦ absurd (ground arith)
]
from_evidence (some (arr es)) fallback state u h p = cc
from_evidence (some (obj fs)) fallback state u h p = cc
from_evidence _ fallback state u h p = absurd (ground arith)

-- A capability is verified or probed only by recorded evidence that says so: no advertised list or dict and no
-- name of a model can make it so.
pub capability_state_proven :
    (row : Evidence) (capability state : String)
    → capability_state row capability ≡ ok state
    → is_proven state ≡ true
    → evidence_for row.user_overrides capability ≡ some (str state)
unfolding capability_state
capability_state_proven row capability state h p =
    from_evidence (evidence_for row.user_overrides capability)
      (advertised_state row.capabilities capability) state
      (advertised_state-unproven row.capabilities capability) h p
