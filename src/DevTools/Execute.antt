-- ===== src/DevTools/Execute.antt =====
-- virtizai_core/dev_tools.py: `execute`, the dispatch of a request by its operation.
use virtiz_ai.Common.{
  ℕ, String, Bool, true, false, Option, none, some, List, Result, ok, raised, if◌then◌else◌, ◌==◌,
}
use virtiz_ai.Common.Json.{Value, Members}
use virtiz_ai.DevTools.{Host, Failure, failure, Outcome}
use virtiz_ai.DevTools.Discover.{list_files}
use virtiz_ai.DevTools.Inspect.{Files, Inspection, inspect_file}
use virtiz_ai.DevTools.Replace.{Store, System, Replacement, replace_text}
use virtiz_ai.DevTools.Apply.{Writer, Patching, apply_patch}
use virtiz_ai.DevTools.Targets.{TestRun, ProcessEnd, TestReport, plan_run, run_tests}

pub record Request : Type 0 where
  pub operation : String
  pub payload : Members
  pub timeout_seconds : Option Value

-- the result of a request, by its operation
pub data Answer : Type 0 where
  listing : Outcome (List String × Bool) → Answer
  inspection : Outcome Inspection → Answer
  tests : Outcome TestReport → Answer
  patching : Outcome Patching → Answer
  replacement : Outcome Replacement → Answer
  unsupported : Failure → Answer

-- what the operating system does during a request
pub record Machine : Type 0 where
  pub host : Host
  pub system : System
  pub writer : Writer
  pub process : TestRun → ProcessEnd
  -- what the tests of a run leave of the files, of which nothing is known
  pub effects : TestRun → Store → Store

abbrev pub is_stored : Store → virtiz_ai.DevTools.FilePath → Bool
is_stored s p = virtiz_ai.Common.is_some (s.files p)

abbrev pub listed : Store → Option (Outcome (List String × Bool)) → Option (Store × Answer)
listed s none = none
listed s (some r) = some (s, listing r)

abbrev pub patched : Store → Option (Files × Outcome Patching) → Option (Store × Answer)
patched s none = none
patched s (some (files, r)) = some (record s { files = files }, patching r)

abbrev pub replaced : Store × Outcome Replacement → Store × Answer
replaced (s, r) = (s, replacement r)

-- what the files are after a test run, if its process is started
abbrev pub after_run : Machine → Store → Outcome TestRun → Store
after_run m s (raised e) = s
after_run m s (ok run) = m.effects run s

-- none where a handler does not end; an answer that carries `type_error` or `os_error` is an exception instead
unfoldable pub execute : Machine → Members → Request → Store → Option (Store × Answer)
execute m config request s =
    if request.operation == "list_files"
    then listed s (list_files m.host (is_stored s) request.payload config)
    else if request.operation == "inspect_file"
    then some (s, inspection (inspect_file m.host s.files request.payload config))
    else if request.operation == "run_tests"
    then some (
      after_run m s (plan_run m.host s.files request.payload config request.timeout_seconds),
      tests (run_tests m.host m.process s.files request.payload config request.timeout_seconds),
    )
    else if request.operation == "apply_patch"
    then patched s (apply_patch m.host m.writer request.payload config s.files)
    else if request.operation == "replace_text"
    then some (replaced (replace_text m.host m.system request.payload config s))
    else some (s, unsupported (failure "Unsupported development operation"))
