-- ===== src/Tests/Capability.antt =====
-- The evidence for a capability at concrete inputs.
use virtiz_ai.Common.{◌≡◌, refl, some, ok}
use virtiz_ai.Common.Json.{str, arr, obj, end, field, no_more, element}
use virtiz_ai.Capability.{Evidence, capability_state, evidence_for}
use virtiz_ai.Capability.Proven.{capability_state_proven}

abbrev row : Evidence
row = record {
  capabilities = some (arr (element (str "chat") no_more));
  user_overrides =
      some (obj (field "capability_evidence" (obj (field "coding" (str "verified") end)) end));
}

chat_advertised : capability_state row "chat" ≡ ok "advertised"
unfolding capability_state
chat_advertised = refl

coding_verified : capability_state row "coding" ≡ ok "verified"
unfolding capability_state
coding_verified = refl

capability_state_proven_example : evidence_for row.user_overrides "coding" ≡ some (str "verified")
capability_state_proven_example =
    capability_state_proven row "coding" "verified" coding_verified refl
