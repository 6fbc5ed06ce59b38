-- ===== src/Tests/Communication.antt =====
-- Communication policies at concrete settings.
use virtiz_ai.Common.{ℕ, ◌≤◌, ◌≡◌, refl, true, none, some, ok}
use virtiz_ai.Communication.{default_policy, normalize_policy, output_token_budget, should_surface}
use virtiz_ai.Communication.Normalized.{IsKnown, normalize_policy-IsKnown}

shown_while_running : should_surface default_policy "needs_input" ≡ true
unfolding should_surface
shown_while_running = refl

normalize_policy-IsKnown_example :
    let p = normalize_policy (some "concise") (some "loud") none none in
    IsKnown p × ((n : ℕ) × (output_token_budget 8192 p ≡ ok n) × (n ≤ 8192))
normalize_policy-IsKnown_example =
    normalize_policy-IsKnown (some "concise") (some "loud") none none 8192 (refl, refl, refl)
