-- ===== src/Tests/Workers.antt =====
-- The execution boundary and the validation of plans at concrete inputs.
use virtiz_ai.Common.{
  ◌≤◌, String, ◌≡◌, refl, Bool, true, false, some, List, [], ◌∷◌, first, Result, ok, ◌==◌,
}
use virtiz_ai.Common.Json.{Value, str, arr, obj, end, field, no_more, element, is_text}
use virtiz_ai.Workers.{
  absent, holds, Worker, Environment, ExecutionResult, ExecutorEnd, raises, BoundaryError, settled,
  execute, check_worker, check_compatible,
}
use virtiz_ai.Workers.Admitted.{Fits, execute-Fits, Fits-execute}
use virtiz_ai.Plans.{validate_plan}
use virtiz_ai.Plans.Bounds.{plan_size, validate_plan_bounded}

-- equality of texts, and of nothing else
abbrev same_text : Value → Value → Bool
same_text v (str s) = is_text v s
same_text v _ = false

abbrev coder : Worker
coder = record {
  id = "w";
  enabled = true;
  status = "online";
  worker_type = "managed_coding";
  config =
      holds
        (obj (field "required_environment_capabilities" (arr (element (str "git") no_more)) end));
}

abbrev box : Environment
box = record {
  id = "e";
  enabled = true;
  status = "unknown";
  config = absent;
  capabilities = holds (arr (element (str "shell") (element (str "git") no_more)));
}

abbrev registered : List String
registered = "managed_coding" ∷ []

abbrev attempt : ExecutorEnd → Result BoundaryError ExecutionResult
attempt ended = execute same_text registered (coder ∷ []) (box ∷ []) "w" "e" 7 ended

attempt_settles : attempt raises ≡ ok (settled 7 raises)
unfolding execute check_worker check_compatible
attempt_settles = refl

abbrev coder-Fits : Fits same_text registered coder box
coder-Fits = record {
  worker_on = refl;
  environment_on = refl;
  worker_up = refl;
  environment_up = refl;
  registered = refl;
  required = str "git" ∷ [];
  provided = str "shell" ∷ str "git" ∷ [];
  requires = refl;
  provides = refl;
  suffices = refl;
  allowed = refl;
}

Fits-execute_instance : attempt raises ≡ ok (settled 7 raises)
Fits-execute_instance =
    Fits-execute same_text registered (coder ∷ []) (box ∷ []) "w" "e" 7 raises coder box refl refl
      coder-Fits

execute-Fits_example :
    (w : Worker) × (e : Environment) × (first (λ (w : Worker). w.id == "w") (coder ∷ []) ≡ some w)
    × (first (λ (e : Environment). e.id == "e") (box ∷ []) ≡ some e)
    × Fits same_text registered w e
    × (settled 7 raises ≡ settled 7 raises)
execute-Fits_example =
    execute-Fits same_text registered (coder ∷ []) (box ∷ []) "w" "e" 7 raises (settled 7 raises)
      attempt_settles

abbrev is_empty_text : String → Bool
is_empty_text s = s == ""

abbrev milestone : Value
milestone = obj (
    field "title" (str "t") (
      field "objective" (str "o")
        (field "acceptance_criteria" (arr (element (str "c") no_more)) end)))

abbrev small_plan : Value
small_plan =
    obj (field "summary" (str "s") (field "milestones" (arr (element milestone no_more)) end))

accepted : validate_plan is_empty_text small_plan ≡ ok small_plan
unfolding validate_plan
accepted = refl

validate_plan_bounded_example : (small_plan ≡ small_plan) × (plan_size small_plan ≤ 19960)
validate_plan_bounded_example = validate_plan_bounded is_empty_text small_plan small_plan accepted
