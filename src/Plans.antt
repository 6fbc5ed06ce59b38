-- ===== src/Plans.antt =====
-- virtizai_core/workers.py: `ManagedPlanningWorkerExecutor._validate_plan`. Whether a text is empty once it is
-- stripped is a parameter, since `str.strip` removes what Unicode calls white space.
pub mod Bounds
use Prim.Native.String.{count}
use virtiz_ai.Common.{
  ℕ, ◌+◌, String, Bool, true, false, not, ◌&&◌, Option, none, some, List, [], ◌∷◌, if◌then◌else◌,
  leb, all_of, length, mem, is_some, Result, ok, raised,
}
use virtiz_ai.Common.Json.{Value, str, arr, obj, Members, end, field, elements, get_field}

pub data InvalidPlan : Type 0 where
  invalid_plan : InvalidPlan

abbrev keys_within : List String → Members → Bool
keys_within ks end = true
keys_within ks (field k v fs) = mem k ks && keys_within ks fs

-- `set(value) == {...}`
abbrev pub has_exactly : List String → Members → Bool
has_exactly ks fs = keys_within ks fs && all_of (λ k. is_some (get_field fs k)) ks

abbrev pub items_of : Option Value → List Value
items_of (some (arr es)) = elements es
items_of _ = []

-- a list of 1 to 6 items
abbrev pub is_short_list : Option Value → Bool
is_short_list v = leb 1 (length (items_of v)) && leb (length (items_of v)) 6

module _ (is_blank : String → Bool) where
  -- a text that is not blank and has at most so many characters
  abbrev pub is_bounded : ℕ → Option Value → Bool
  is_bounded limit (some (str s)) = not (is_blank s) && leb (count s) limit
  is_bounded limit _ = false

  abbrev pub is_criterion : Value → Bool
  is_criterion v = is_bounded 300 (some v)

  -- the tests on one milestone
  abbrev pub is_milestone : Value → Bool
  is_milestone (obj fs) =
      has_exactly ("title" ∷ "objective" ∷ "acceptance_criteria" ∷ []) fs
      && is_bounded 160 (get_field fs "title")
      && is_bounded 1200 (get_field fs "objective")
      && is_short_list (get_field fs "acceptance_criteria")
      && all_of is_criterion (items_of (get_field fs "acceptance_criteria"))
  is_milestone _ = false

  abbrev pub is_plan : Value → Bool
  is_plan (obj fs) =
      has_exactly ("summary" ∷ "milestones" ∷ []) fs
      && is_bounded 1000 (get_field fs "summary")
      && is_short_list (get_field fs "milestones")
      && all_of is_milestone (items_of (get_field fs "milestones"))
  is_plan _ = false

  -- every failed test raises the same error
  unfoldable pub validate_plan : Value → Result InvalidPlan Value
  validate_plan v = if is_plan v then ok v else raised invalid_plan
