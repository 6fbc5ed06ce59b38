-- ===== src/DevTools/Targets.antt =====
-- virtizai_core/dev_tools.py: `_run_tests`, which runs pytest on a target that it knows or on a file of the workspace.
-- The process is an argument: how it ends. A timeout is a number as `json.loads` gives it, and a float is
-- compared as the decimal that it is written as.
use virtiz_ai.Common.{
  ℕ, zero, suc, String, Bool, true, false, ◌&&◌, Option, none, some, List, [], ◌∷◌, ◌*◌,
  if◌then◌else◌, ltb, leb, length, take, map, is_some, ok, raised, ensure, ensure_some, ◌>>=◌, ◌==◌,
}
use virtiz_ai.Common.Json.{
  Value, str, int, float, bool, arr, obj, ℤ, pos, negsuc, Members, end, field, Elements, no_more,
  element, get_field,
}
use virtiz_ai.Common.Orders.{codes}
use virtiz_ai.DevTools.{
  FilePath, Text, Host, Failure, failure, type_error, Outcome, workspace_of, resolved, in_roots,
  is_parent,
}
use virtiz_ai.DevTools.Inspect.{Files, unavailable}
use virtiz_ai.DevTools.Patch.{starts}

-- the target of a run: its name, the rest of the command after `pytest -q`, and the timeout in seconds
pub record TestTarget : Type 0 where
  pub name : String
  pub arguments : List String
  pub default_timeout : ℕ

-- `test_targets` and `test_timeouts`
abbrev pub known_target : String → Option TestTarget
known_target name =
    if name == "pytest"
    then some (record { name = name; arguments = []; default_timeout = 90 })
    else if name == "packet5"
    then some (record {
      name = name;
      arguments = "tests/test_job_orchestration.py" ∷ [];
      default_timeout = 30;
    })
    else none

-- `target.partition("::")[0]`
abbrev pub before_colons : Text → Text
before_colons [] = []
before_colons (c ∷ cs) =
    let rest = before_colons cs in if starts "::" (c ∷ cs) then [] else c ∷ rest

abbrev text_roots : Elements → List String
text_roots no_more = []
text_roots (element (str s) vs) = s ∷ text_roots vs
text_roots (element _ vs) = text_roots vs

abbrev characters : String → List String
characters String.[] = []
characters (String.◌∷◌ c s) = String.◌∷◌ c String.[] ∷ characters s

abbrev keys : Members → List String
keys end = []
keys (field k v fs) = k ∷ keys fs

-- `[root for root in config.get("allowed_roots", ["."]) if isinstance(root, str)]`, none where it raises TypeError
abbrev pub roots_of : Members → Option (List String)
roots_of config = elim (get_field config "allowed_roots") [
  | none ↦ some ("." ∷ [])
  | some (arr es) ↦ some (text_roots es)
  | some (str s) ↦ some (characters s)
  | some (obj fs) ↦ some (keys fs)
  | some _ ↦ none
]

-- a test file of the workspace, under an allowed root
abbrev pub file_target : Host → Files → FilePath → List String → String → Option TestTarget
file_target host files workspace roots name =
    let candidate = host.resolve workspace (before_colons (codes name)) in
    if is_parent workspace candidate
      && is_some (files candidate)
      && in_roots (map (resolved host workspace) roots) candidate
    then some (record { name = name; arguments = name ∷ []; default_timeout = 45 })
    else none

abbrev pub unsupported : Failure
unsupported = failure "Unsupported test target"

abbrev pub text_target : Host → Files → FilePath → Members → String → Outcome TestTarget
text_target host files workspace config name = elim (known_target name) [
  | some t ↦ ok t
  | none ↦
      if starts "tests/" (codes name)
      then ensure_some (roots_of config) type_error (λ roots.
        ensure_some (file_target host files workspace roots name) unsupported (λ t. ok t))
      else raised unsupported
]

-- the target of a payload: a list or a dict cannot be looked up in a dict
abbrev pub target_of : Host → Files → FilePath → Members → Option Value → Outcome TestTarget
target_of host files workspace config (some (str name)) =
    text_target host files workspace config name
target_of host files workspace config (some (arr es)) = raised type_error
target_of host files workspace config (some (obj fs)) = raised type_error
target_of host files workspace config _ = raised unsupported

abbrev power : ℕ → ℕ
power zero = 1
power (suc n) = 10 * power n

-- `0 < x <= 120` for a number
abbrev pub is_timeout : Value → Bool
is_timeout (int (pos n)) = ltb 0 n && leb n 120
is_timeout (float (pos m) (pos e)) = ltb 0 m && leb (m * power e) 120
is_timeout (float (pos m) (negsuc e)) = ltb 0 m && leb m (120 * power (suc e))
is_timeout (bool b) = b
is_timeout _ = false

pub record TestRun : Type 0 where
  pub target : TestTarget
  pub timeout : Value

abbrev pub seconds : Option Value → TestTarget → Value
seconds none t = int (pos t.default_timeout)
seconds (some v) t = v

-- everything before the process is started
unfoldable pub plan_run : Host → Files → Members → Members → Option Value → Outcome TestRun
plan_run host files payload config timeout =
    ensure_some (workspace_of host config) unavailable (λ workspace.
      target_of host files workspace config (get_field payload "target") >>= λ target.
      ensure (is_timeout (seconds timeout target)) (failure "Invalid test timeout")
        (ok (record { target = target; timeout = seconds timeout target })))

-- how the process ends
pub data ProcessEnd : Type 0 where
  timed_out : ProcessEnd
  exited : ℤ → List ℕ → List ℕ → ProcessEnd

abbrev pub max_output_bytes : ℕ
max_output_bytes = 4000

pub record TestReport : Type 0 where
  pub succeeded : Bool
  pub target : String
  pub exit_code : ℤ
  pub stdout : List ℕ
  pub stderr : List ℕ
  pub stdout_truncated : Bool
  pub stderr_truncated : Bool

abbrev is_zero : ℤ → Bool
is_zero (pos zero) = true
is_zero _ = false

-- the report, with the bytes of the two outputs
abbrev pub report_of : TestTarget → ProcessEnd → Outcome TestReport
report_of target timed_out = raised (failure "Test execution timed out")
report_of target (exited code out err) = ok (record {
  succeeded = is_zero code;
  target = target.name;
  exit_code = code;
  stdout = take max_output_bytes out;
  stderr = take max_output_bytes err;
  stdout_truncated = ltb max_output_bytes (length out);
  stderr_truncated = ltb max_output_bytes (length err);
})

unfoldable pub run_tests :
    Host → (TestRun → ProcessEnd) → Files → Members → Members → Option Value → Outcome TestReport
unfolding plan_run
run_tests host process files payload config timeout =
    plan_run host files payload config timeout >>= λ run. report_of run.target (process run)
