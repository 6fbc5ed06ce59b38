-- ===== src/Plans/Bounds.antt =====
-- How much text a plan holds that is accepted.
use Prim.Native.String.{count}
use virtiz_ai.Common.{
  ℕ, ◌+◌, ◌*◌, ◌≤◌, String, ◌≡◌, sym, inl, inr, Bool, true, Option, some, List, [], ◌∷◌, arith,
  leb→le, all_of, length, &&-left, &&-right, ok, ok-injective, Bool-cases,
}
use mathlib.Core.Path.{subst}
use virtiz_ai.Common.Json.{Value, str, obj, get_field}
use virtiz_ai.Plans.{
  items_of, is_short_list, is_bounded, is_criterion, is_milestone, is_plan, validate_plan,
}

abbrev pub text_size : Option Value → ℕ
text_size (some (str s)) = count s
text_size _ = 0

abbrev pub texts_size : List Value → ℕ
texts_size [] = 0
texts_size (v ∷ vs) = text_size (some v) + texts_size vs

abbrev pub milestone_size : Value → ℕ
milestone_size (obj fs) =
    text_size (get_field fs "title")
    + text_size (get_field fs "objective")
    + texts_size (items_of (get_field fs "acceptance_criteria"))
milestone_size _ = 0

abbrev pub milestones_size : List Value → ℕ
milestones_size [] = 0
milestones_size (v ∷ vs) = milestone_size v + milestones_size vs

-- the characters of the texts of a plan
abbrev pub plan_size : Value → ℕ
plan_size (obj fs) =
    text_size (get_field fs "summary") + milestones_size (items_of (get_field fs "milestones"))
plan_size _ = 0

short-le : (v : Option Value) → is_short_list v ≡ true → length (items_of v) ≤ 6
short-le v h = leb→le _ _ (&&-right _ _ h)

module _ (is_blank : String → Bool) where
  bounded-le :
      (limit : ℕ) (v : Option Value) → is_bounded is_blank limit v ≡ true → text_size v ≤ limit
  bounded-le limit (some (str s)) h = leb→le _ _ (&&-right _ _ h)
  bounded-le limit _ h = absurd (cc)

  criteria-le :
      (vs : List Value) → all_of (is_criterion is_blank) vs ≡ true → texts_size vs ≤ 300 * length vs
  criteria-le [] h = omega arith
  criteria-le (v ∷ vs) h =
      omega (arith, bounded-le 300 (some v) (&&-left _ _ h), criteria-le vs (&&-right _ _ h))

  milestone-le : (v : Value) → is_milestone is_blank v ≡ true → milestone_size v ≤ 3160
  milestone-le (obj fs) h =
      let h1 = &&-left _ _ h in
      let h2 = &&-left _ _ h1 in
      let h3 = &&-left _ _ h2 in
      omega (
        arith,
        bounded-le 160 (get_field fs "title") (&&-right _ _ h3),
        bounded-le 1200 (get_field fs "objective") (&&-right _ _ h2),
        criteria-le (items_of (get_field fs "acceptance_criteria")) (&&-right _ _ h),
        short-le (get_field fs "acceptance_criteria") (&&-right _ _ h1),
      )
  milestone-le _ h = absurd (cc)

  milestones-le :
      (vs : List Value)
      → all_of (is_milestone is_blank) vs ≡ true
      → milestones_size vs ≤ 3160 * length vs
  milestones-le [] h = omega arith
  milestones-le (v ∷ vs) h =
      omega (arith, milestone-le v (&&-left _ _ h), milestones-le vs (&&-right _ _ h))

  plan-le : (v : Value) → is_plan is_blank v ≡ true → plan_size v ≤ 19960
  plan-le (obj fs) h =
      let h1 = &&-left _ _ h in
      let h2 = &&-left _ _ h1 in
      omega (
        arith,
        bounded-le 1000 (get_field fs "summary") (&&-right _ _ h2),
        milestones-le (items_of (get_field fs "milestones")) (&&-right _ _ h),
        short-le (get_field fs "milestones") (&&-right _ _ h1),
      )
  plan-le _ h = absurd (cc)

  -- A plan that is accepted is returned as it is, and its texts have at most 19960 characters together: 1000 for
  -- the summary, and 160, 1200 and six times 300 for each of at most six milestones.
  pub validate_plan_bounded :
      (v p : Value) → validate_plan is_blank v ≡ ok p → (p ≡ v) × (plan_size p ≤ 19960)
  unfolding validate_plan
  validate_plan_bounded v p h = elim (Bool-cases (is_plan is_blank v)) [
    | inl e ↦
        let same : p ≡ v = sym (ok-injective v p (rw e at h)) in
        (same, subst (λ q. plan_size q ≤ 19960) (sym same) (plan-le v e))
    | inr e ↦ absurd (cc (rw e at h))
  ]
