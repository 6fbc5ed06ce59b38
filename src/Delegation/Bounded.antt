-- ===== src/Delegation/Bounded.antt =====
-- Which decisions `decide` can return.
use virtiz_ai.Common.{
  ℕ, zero, suc, String, ◌≡◌, refl, ap, inl, inr, Bool, true, false, not, ◌||◌, Option, none, some,
  List, [], ◌∷◌, ◌<◌, arith, if◌then◌else◌, Bool-cases, Option-cases, length, mem, All, match_some,
  ◌==◌,
}
use mathlib.Core.Option.{some-injective}
use mathlib.Core.Path.{subst}
use virtiz_ai.Common.Json.{
  Value, null, bool, int, float, str, arr, obj, Members, get_field, get_value,
}
use virtiz_ai.Common.Orders.{codes}
use virtiz_ai.Delegation.{
  Engine, Decision, certain, given, direct, first_rule, rules, tier_of, objective_of, with_tier,
  override, deterministic, roles, low, delegation, chosen, validated, classified, settled, decide,
  text_in, has_four, is_named, arguments_of, reasons,
}

-- directly answered, or delegated to a known role: by a rule, or by a model whose confidence is high and whose role
-- is enabled
pub data IsAllowed (g : Engine) : Decision → Type 0 where
  directly : {d : Decision} → d.decision ≡ "direct" → d.role_id ≡ none → IsAllowed g d
  by_rule :
      {d : Decision}
      → (role : String) → d.decision ≡ "delegate"
      → d.role_id ≡ some role
      → mem role roles ≡ true
      → d.confidence ≡ some certain
      → IsAllowed g d
  by_model :
      {d : Decision}
      → (role : String) → (c : Value) → d.decision ≡ "delegate"
      → d.role_id ≡ some role
      → mem role roles ≡ true
      → d.confidence ≡ some (given c)
      → g.is_confidence c ≡ true
      → g.is_low c ≡ false
      → g.is_enabled role ≡ true
      → IsAllowed g d

module _ (g : Engine) where
  -- what may come of an optional decision
  abbrev Allows : Option Decision → Type 0
  Allows o = (d : Decision) → o ≡ some d → IsAllowed g d

  none-Allows : Allows none
  none-Allows d h = absurd (cc)

  some-Allows : (x : Decision) → IsAllowed g x → Allows (some x)
  some-Allows x a d h = subst (IsAllowed g) (some-injective x d h) a

  first_rule-Allows :
      (rs : List (Bool × Decision)) → All (λ r. IsAllowed g r.1) rs → Allows (first_rule rs)
  first_rule-Allows [] a = none-Allows
  first_rule-Allows ((true, d) ∷ rs) a = some-Allows d a.0
  first_rule-Allows ((false, d) ∷ rs) a = first_rule-Allows rs a.1

  rules-IsAllowed : (text : String) → All (λ r. IsAllowed g r.1) (rules g text)
  rules-IsAllowed text = (
    by_rule "role-project-lead" refl refl refl refl,
    (
      by_rule "role-coding" refl refl refl refl,
      (
        by_rule "role-infrastructure" refl refl refl refl,
        (
          by_rule "role-infrastructure" refl refl refl refl,
          (
            by_rule "role-project-lead" refl refl refl refl,
            (
              by_rule "role-project-lead" refl refl refl refl,
              (
                by_rule "role-coding" refl refl refl refl,
                (by_rule "role-coding" refl refl refl refl, tt),
              ),
            ),
          ),
        ),
      ),
    ),
  )

  tiered-IsAllowed :
      (tier : String) (d : Decision)
      → IsAllowed g d
      → IsAllowed g (record d { execution_tier = some tier })
  tiered-IsAllowed tier d (directly a b) = directly a b
  tiered-IsAllowed tier d (by_rule role a b c e) = by_rule role a b c e
  tiered-IsAllowed tier d (by_model role v a b c e f h i) = by_model role v a b c e f h i

  with_tier-IsAllowed :
      (tier objective : String) (o : Option Decision)
      → Allows o
      → IsAllowed g (with_tier tier objective o)
  with_tier-IsAllowed tier objective none a = directly refl refl
  with_tier-IsAllowed tier objective (some d) a = tiered-IsAllowed tier d (a d refl)

  size : String → ℕ
  size s = length (codes s)

  -- the text after the prefix of a tier is shorter than the text
  abbrev pub Shortens : Type 0
  Shortens =
      (content tier : String)
      → tier_of g (g.language.strip content) ≡ some tier
      → length (codes (objective_of g (g.language.strip content))) < length (codes content)

  -- how the rules end
  record Ends (fuel : ℕ) (content : String) : Type 0 where
    outcome : Option Decision
    ended : deterministic fuel g content ≡ some outcome
    allowed : Allows outcome

  deterministic-Ends :
      (fuel : ℕ) (content : String) → Shortens → length (codes content) < fuel → Ends fuel content
  unfolding deterministic
  deterministic-Ends zero content s h = absurd (omega arith)
  deterministic-Ends (suc fuel) content s h =
      let text = g.language.strip content in
      elim (Option-cases (tier_of g text)) [
        | inl e ↦ record {
          outcome = first_rule (rules g text);
          ended = rw (deterministic, e) refl;
          allowed = first_rule-Allows (rules g text) (rules-IsAllowed text);
        }
        | inr (tier, e) ↦ elim (Bool-cases (objective_of g text == "")) [
          | inl f ↦ record {
            outcome =
                some (direct none "empty_execution_tier_override" "explicit-user" "" (some tier));
            ended = rw (deterministic, e, f) refl;
            allowed = some-Allows _ (directly refl refl);
          }
          | inr f ↦
              let k = s content tier e in
              let nested = deterministic-Ends fuel (objective_of g text) s (omega arith) in
              record {
                outcome = some (with_tier tier (objective_of g text) nested.outcome);
                ended =
                    rw (deterministic, e, f)
                      (ap (override tier (objective_of g text)) nested.ended);
                allowed =
                    some-Allows _ (
                      with_tier-IsAllowed tier (objective_of g text) nested.outcome nested.allowed);
              }
        ]
      ]

  bind-Allows :
      {A : Type 0} (o : Option A) (f : A → Option Decision)
      → ((a : A) → Allows (f a))
      → Allows (match_some o none f)
  bind-Allows none f h = none-Allows
  bind-Allows (some a) f h = h a

  when-Allows : (b : Bool) (o : Option Decision) → Allows o → Allows (if b then o else none)
  when-Allows true o a = a
  when-Allows false o a = none-Allows

  delegation-Allows :
      (content : String) (c : Value) (reason : String) (role : Value)
      → g.is_confidence c ≡ true
      → Allows (delegation g content c reason role)
  delegation-Allows content c reason (str role) k =
      elim (Bool-cases (not (mem role roles) || g.is_low c)) [
        | inl e ↦ rw e (some-Allows (low c) (directly refl refl))
        | inr e ↦ elim (Bool-cases (g.is_enabled role)) [
          | inl f ↦
              rw (e, f)
                (some-Allows _
                  (by_model role c refl refl (ground (arith)) refl k (ground (arith)) f))
          | inr f ↦ rw (e, f) none-Allows
        ]
      ]
  delegation-Allows content c reason (arr es) k = none-Allows
  delegation-Allows content c reason (obj fs) k = none-Allows
  delegation-Allows content c reason null k = some-Allows (low c) (directly refl refl)
  delegation-Allows content c reason (bool b) k = some-Allows (low c) (directly refl refl)
  delegation-Allows content c reason (int n) k = some-Allows (low c) (directly refl refl)
  delegation-Allows content c reason (float m e) k = some-Allows (low c) (directly refl refl)

  direct-Allows :
      (role : Value) (d : Decision)
      → IsAllowed g d
      → Allows (elim role [ null ↦ some d | _ ↦ none ])
  direct-Allows null d a = some-Allows d a
  direct-Allows (bool b) d a = none-Allows
  direct-Allows (int n) d a = none-Allows
  direct-Allows (float m e) d a = none-Allows
  direct-Allows (str s) d a = none-Allows
  direct-Allows (arr es) d a = none-Allows
  direct-Allows (obj fs) d a = none-Allows

  chosen-Allows :
      (content choice : String) (role c : Value) (reason : String)
      → Allows (chosen g content choice role c reason)
  chosen-Allows content choice role c reason = elim (Bool-cases (g.is_confidence c)) [
    | inr e ↦ rw e none-Allows
    | inl e ↦ elim (Bool-cases (choice == "direct")) [
      | inl f ↦
          rw (e, f)
            (direct-Allows role (direct (some (given c)) reason "model" "" none)
              (directly refl refl))
      | inr f ↦ rw (e, f) (delegation-Allows content c reason role e)
    ]
  ]

  validated-Allows : (content : String) (fs : Members) → Allows (validated g content fs)
  validated-Allows content fs =
      bind-Allows (text_in (get_field fs "decision") ("direct" ∷ "delegate" ∷ [])) _ (λ choice.
        bind-Allows (get_field fs "role_id") _ (λ role.
          bind-Allows (get_field fs "confidence") _ (λ c.
            bind-Allows (text_in (get_field fs "reason_code") reasons) _ (λ reason.
              when-Allows (has_four fs) (chosen g content choice role c reason)
                (chosen-Allows content choice role c reason)))))

  classified-Allows :
      (content : String) (calls : Option (List Value)) → Allows (classified g content calls)
  classified-Allows content none = none-Allows
  classified-Allows content (some []) = none-Allows
  classified-Allows content (some (call ∷ more ∷ rest)) = none-Allows
  classified-Allows content (some (call ∷ [])) =
      bind-Allows (get_value call "function") _ (λ function. when-Allows (is_named function) _ (
        bind-Allows (arguments_of g (get_value function "arguments")) _
          (λ fs. validated-Allows content fs)))

  settled-IsAllowed : (o : Option Decision) → Allows o → IsAllowed g (settled o)
  settled-IsAllowed none a = directly refl refl
  settled-IsAllowed (some d) a = a d refl

  -- If the text after the prefix of a tier is shorter than the text, a request is always decided, whatever a model
  -- answers: it is answered directly, without a role, or delegated to one of the three known roles, by a
  -- rule with full confidence, or by a model whose confidence is a number in the bounds and not below the
  -- threshold, and whose role is enabled.
  pub decide-IsAllowed :
      (content : String) (calls : Option (List Value))
      → Shortens
      → (d : Decision) × (decide (suc (length (codes content))) g content calls ≡ some d)
        × IsAllowed g d
  unfolding decide
  decide-IsAllowed content calls s =
      let e = deterministic-Ends (suc (length (codes content))) content s (omega arith) in
      elim (Option-cases e.outcome) [
        | inl f ↦ (
          settled (classified g content calls),
          rw (decide, e.ended, f) refl,
          settled-IsAllowed _ (classified-Allows content calls),
        )
        | inr (d, f) ↦ (d, rw (decide, e.ended, f) refl, e.allowed d f)
      ]
