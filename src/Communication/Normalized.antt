-- ===== src/Communication/Normalized.antt =====
-- A normalized policy has known settings only, so its budget is defined.
use virtiz_ai.Common.{
  ℕ, ◌≤◌, String, ◌≡◌, refl, true, Option, none, some, List, arith, mem, otherwise, ok, Result,
  if_ind, ◌==◌,
}
use virtiz_ai.Communication.{
  verbosities, execution_updates, tool_details, CommunicationPolicy, default_policy,
  output_token_budget, known_or, KeyError, normalize_policy,
}

abbrev pub IsKnown : CommunicationPolicy → Type 0
IsKnown p =
    (mem p.response_verbosity verbosities ≡ true)
    × (mem p.updates execution_updates ≡ true)
    × (mem p.details tool_details ≡ true)

known_or-mem :
    (known : List String) (x : Option String) (current : String)
    → mem current known ≡ true
    → mem (known_or known x current) known ≡ true
known_or-mem known none current h = h
known_or-mem known (some x) current h =
    if_ind (λ s. mem s known ≡ true) (mem x known) x current (λ e. e) (λ _. h)

budget_of :
    (limit : ℕ) (p : CommunicationPolicy)
    → mem p.response_verbosity verbosities ≡ true
    → (n : ℕ) × (output_token_budget limit p ≡ ok n) × (n ≤ limit)
unfolding output_token_budget
budget_of limit p h =
    let v = p.response_verbosity in
    let P : Result KeyError ℕ → Type 0 = λ r. (n : ℕ) × (r ≡ ok n) × (n ≤ limit) in
    if_ind P ("minimal" == v) _ _ (λ _. (_, refl, omega arith))
      (λ a.
        if_ind P ("concise" == v) _ _ (λ _. (_, refl, omega arith))
          (λ b.
            if_ind P ("normal" == v) _ _ (λ _. (_, refl, omega arith))
              (λ c.
                if_ind P ("detailed" == v) _ _ (λ _. (_, refl, omega arith))
                  (λ d.
                    if_ind P ("expert" == v) _ _ (λ _. (_, refl, omega arith))
                      (λ e. absurd (cc (rw (a, b, c, d, e) at h)))))))

-- From a base with known settings, or none, and whatever is asked for, a normalized policy has known settings, and
-- its output budget is defined and at most the given limit.
pub normalize_policy-IsKnown :
    (response updates tools : Option String) (base : Option CommunicationPolicy) (limit : ℕ)
    → IsKnown (otherwise base default_policy)
    → let p = normalize_policy response updates tools base in
      IsKnown p × ((n : ℕ) × (output_token_budget limit p ≡ ok n) × (n ≤ limit))
unfolding normalize_policy
normalize_policy-IsKnown response updates tools base limit h =
    let current = otherwise base default_policy in
    let v = known_or-mem verbosities response current.response_verbosity h.0 in
    (
      (
        v,
        known_or-mem execution_updates updates current.updates h.1,
        known_or-mem tool_details tools current.details h.2,
      ),
      budget_of limit (normalize_policy response updates tools base) v,
    )
