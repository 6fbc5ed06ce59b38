-- ===== src/Tests/DevTools.antt =====
-- Requests to the development worker at concrete inputs.
use virtiz_ai.Common.{
  ℕ, ◌≡◌, refl, ◌⊎◌, inl, inr, Bool, true, false, none, some, Option, List, [], ◌∷◌, ◌++◌, Result,
  ok, raised, if◌then◌else◌, nat_eq, leb, ◌-◌, ◌&&◌,
}
use virtiz_ai.Common.Json.{str, int, pos, Members, end, field}
use virtiz_ai.Common.Orders.{codes}
use virtiz_ai.Common.Sort.{sort, insert}
use virtiz_ai.DevTools.{FilePath, Text, Host, Failure, same}
use virtiz_ai.DevTools.Discover.{discover_files, escapes, fair, sampled, round, skip, distinct}
use virtiz_ai.DevTools.Inspect.{
  Files, Inspection, inspect_file, bounds_of, split_lines, join_lines, lines_after,
}
use virtiz_ai.DevTools.Inspected.{Reaches, IsSlice, inspect_file-IsSlice}
use virtiz_ai.DevTools.Replace.{
  Store, System, Replacement, replace_text, planned_edit, matches_after, replace_first,
}
use virtiz_ai.DevTools.Replaced.{Replaces, replace_text-Replaces}
use virtiz_ai.DevTools.Patch.{Walk, begun, hunks, hunk_lines, sections, texts_eq}
use virtiz_ai.DevTools.Patched.{Rewrites, hunks-Rewrites}
use virtiz_ai.DevTools.Apply.{Writer, Patching, apply_patch, write_plan, swaps, rollback}
use virtiz_ai.DevTools.Applied.{IsAtomic, apply_patch-IsAtomic}
use virtiz_ai.DevTools.Targets.{TestRun, TestReport, ProcessEnd, exited, plan_run, run_tests}
use virtiz_ai.DevTools.TestRuns.{IsBounded, run_tests-IsBounded}
use virtiz_ai.DevTools.Execute.{Machine, Request}
use virtiz_ai.DevTools.Confined.{IsConfined, execute-IsConfined}

abbrev root : FilePath
root = "w" ∷ []

abbrev resolve : FilePath → Text → FilePath
resolve p t =
    if texts_eq t (codes ".")
    then p
    else if texts_eq t (codes "a")
    then p ++ ("a" ∷ [])
    else "etc" ∷ []

abbrev digit : ℕ → Option ℕ
digit c = if leb 48 c && leb c 57 then some (c - 48) else none

abbrev host : Host
host = record {
  home = λ s. some root;
  resolve = resolve;
  decimal = digit;
  is_dir = λ p. same p root;
  listing = λ p. ("w" ∷ "b" ∷ []) ∷ ("w" ∷ "a" ∷ []) ∷ ("w" ∷ ".git" ∷ "a" ∷ []) ∷ [];
  digest = λ t. if nat_eq (virtiz_ai.Common.length t) 8 then "old" else "new";
  decode = λ content. content;
  encode = λ t. t;
}

-- one, two
abbrev content : Text
content = codes "one" ++ (10 ∷ codes "two") ++ (10 ∷ [])

abbrev files : Files
files p = if same p ("w" ∷ "a" ∷ []) then some content else none

abbrev is_file : FilePath → Bool
is_file p = virtiz_ai.Common.not (same p root)

abbrev config : Members
config = field "workspace_path" (str "/w") end

-- the listing, with room for one file of two
listing_cut : discover_files host is_file root ("." ∷ []) 1 ≡ some (ok ("a" ∷ [], true))
unfolding discover_files fair sampled round skip distinct sort insert
listing_cut = refl

-- a root outside of the workspace
listing_escapes : discover_files host is_file root ("/etc" ∷ []) 1 ≡ some (raised escapes)
unfolding discover_files
listing_escapes = refl

abbrev second_line : Members
second_line = field "path" (str "a") (field "start_line" (int (pos 2)) end)

abbrev second : Inspection
second = record {
  path = "a";
  start_line = 2;
  lines = codes "two" ∷ [];
  content = codes "two";
  truncated = false;
  revision = "old";
}

inspect_second : inspect_file host files second_line config ≡ ok second
unfolding inspect_file lines_after
inspect_second = refl

inspect_file-IsSlice_example :
    (workspace : FilePath) × (target : FilePath) × (text : Text)
    × (b : virtiz_ai.DevTools.Inspect.Bounds) × Reaches host files second_line config workspace
        target text
    × (bounds_of second_line ≡ some b)
    × IsSlice b (split_lines text) (codes "two" ∷ [])
    × (2 ≡ b.start)
    × (codes "two" ≡ join_lines (codes "two" ∷ []))
    × ("old" ≡ host.digest text)
inspect_file-IsSlice_example =
    inspect_file-IsSlice host files second_line config second inspect_second

abbrev store : Store
store = record { files = files; temporaries = [] }

abbrev working : System
working = record { makes = true; writes = true; replaces = true; unlinks = true }

abbrev replacing : Members
replacing = field "path" (str "a") (
    field "old_text" (str "two")
      (field "new_text" (str "three") (field "expected_revision" (str "old") end)))

replaced :
    (replace_text host working replacing config store).1
    ≡ ok (record { path = "a"; current_revision = "old"; result_revision = "new" })
unfolding replace_text planned_edit matches_after replace_first
replaced = refl

replace_text-Replaces_example :
    (let (t, r) = replace_text host working replacing config store in
      ((f : Failure) × (r ≡ raised f) × (t.files ≡ files))
      ⊎ ((report : Replacement) × (r ≡ ok report) × Replaces host replacing config store t report))
replace_text-Replaces_example = replace_text-Replaces host replacing config working store

-- the second line becomes three
abbrev hunk_of_two : List Text
hunk_of_two = codes "@@ -1,2 +1,2 @@" ∷ codes " one" ∷ codes "-two" ∷ codes "+three" ∷ []

abbrev patched_walk : Walk
patched_walk = record {
  ahead = [];
  cursor = 2;
  output = codes "one" ∷ codes "three" ∷ [];
  old_seen = 2;
  new_seen = 2;
}

hunk_applies : hunks digit 5 hunk_of_two (begun content) 0 ≡ some (ok ((patched_walk, 1), []))
unfolding hunks hunk_lines lines_after
hunk_applies = refl

hunks-Rewrites_example : Rewrites digit hunk_of_two [] (begun content) patched_walk 0 1
unfolding lines_after
hunks-Rewrites_example =
    hunks-Rewrites digit 5 hunk_of_two (begun content) patched_walk 0 1 [] hunk_applies

abbrev patching : Members
patching = field "patch" (str "--- a/a\n+++ b/a\n@@ -1,2 +1,2 @@\n one\n-two\n+three\n") end

abbrev careful : Writer
careful = record {
  stages = λ p. true;
  replaces = λ p. true;
  restores = λ p. true;
  rereads = true;
  unlinks = λ p. true;
}

abbrev failing : Writer
failing = record {
  stages = λ p. true;
  replaces = λ p. false;
  restores = λ p. true;
  rereads = true;
  unlinks = λ p. true;
}

patched : Option Text
patched = elim (apply_patch host careful patching config files) [
  | none ↦ none
  | some (t, r) ↦ t ("w" ∷ "a" ∷ [])
]

patched_text : patched ≡ some (codes "one" ++ (10 ∷ codes "three") ++ (10 ∷ []))
unfolding patched apply_patch write_plan swaps rollback sections hunks hunk_lines lines_after
patched_text = refl

apply_patch-IsAtomic_example :
    (after : Files) × (r : Result Failure Patching) × (apply_patch host failing patching config
        files
      ≡ some (after, r))
    × IsAtomic host failing patching config files after r
apply_patch-IsAtomic_example = apply_patch-IsAtomic host failing patching config files (λ p. refl)

abbrev process : TestRun → ProcessEnd
process run = exited (pos 1) (codes "F") []

abbrev one_file : Members
one_file = field "target" (str "tests/a") end

abbrev test_host : Host
test_host = record host {
  resolve = λ p t. if texts_eq t (codes "tests/a") then p ++ ("a" ∷ []) else p;
}

abbrev failed : TestReport
failed = record {
  succeeded = false;
  target = "tests/a";
  exit_code = pos 1;
  stdout = codes "F";
  stderr = [];
  stdout_truncated = false;
  stderr_truncated = false;
}

tests_fail : run_tests test_host process files one_file config (some (int (pos 120))) ≡ ok failed
unfolding run_tests plan_run
tests_fail = refl

run_tests-IsBounded_example :
    IsBounded test_host process files one_file config (some (int (pos 120))) failed
run_tests-IsBounded_example =
    run_tests-IsBounded test_host process files one_file config (some (int (pos 120))) failed
      tests_fail

abbrev machine : Machine
machine = record {
  host = host;
  system = working;
  writer = careful;
  process = process;
  effects = λ run s. s;
}

abbrev patch_request : Request
patch_request = record { operation = "apply_patch"; payload = patching; timeout_seconds = none }

execute-IsConfined_example : IsConfined machine config patch_request store
execute-IsConfined_example = execute-IsConfined machine config patch_request store (λ p. refl)
