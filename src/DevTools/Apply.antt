-- ===== src/DevTools/Apply.antt =====
-- virtizai_core/dev_tools.py: the writing of `_apply_patch`, with its rollback. Which calls to the operating
-- system succeed is an argument. Temporary files are not followed here.
use virtiz_ai.Common.{
  ℕ, Bool, true, false, not, all_of, ◌&&◌, Option, none, some, List, [], ◌∷◌, ◌++◌, if◌then◌else◌,
  leb, length, map, match_some, ok, raised, ensure, ensure_some,
}
use virtiz_ai.Common.Json.{Members, get_field, truthy}
use virtiz_ai.Common.Orders.{codes}
use virtiz_ai.DevTools.{
  FilePath, Text, Host, Failure, failure, os_error, Outcome, workspace_of, allowed_roots, resolved,
  nonempty_text,
}
use virtiz_ai.DevTools.Inspect.{Files, unavailable, invalid_roots}
use virtiz_ai.DevTools.Replace.{put_file, byte_length}
use virtiz_ai.DevTools.Patch.{Plan, plan_of, malformed}

-- which targets can be staged, replaced and, in a rollback, restored; whether the originals can be read; which
-- temporary files can be removed
pub record Writer : Type 0 where
  pub stages : FilePath → Bool
  pub replaces : FilePath → Bool
  pub restores : FilePath → Bool
  pub rereads : Bool
  pub unlinks : FilePath → Bool

abbrev pub all_staged : Writer → Plan → Bool
all_staged os [] = true
all_staged os ((p, t) ∷ plan) = os.stages p && all_staged os plan

-- `staged` where the loop ends at the first target that cannot be staged
abbrev pub staged : Writer → Plan → List FilePath
staged os [] = []
staged os ((p, t) ∷ plan) = let rest = staged os plan in if os.stages p then p ∷ rest else []

abbrev pub planned_targets : Plan → List FilePath
planned_targets plan = map (λ e. e.0) plan

-- the files after the loop of `os.replace`, the targets replaced, those that are left, and whether all were replaced
pub record Swaps : Type 0 where
  pub files : Files
  pub applied : List FilePath
  pub left : List FilePath
  pub complete : Bool

unfoldable pub swaps : Host → Writer → Plan → List FilePath → Files → Swaps
swaps host os [] applied files = record {
  files = files;
  applied = applied;
  left = [];
  complete = true;
}
swaps host os ((p, t) ∷ plan) applied files = elim (os.replaces p) [
  | true ↦ swaps host os plan (applied ++ (p ∷ [])) (put_file p (host.encode t) files)
  | false ↦ record {
    files = files;
    applied = applied;
    left = p ∷ planned_targets plan;
    complete = false;
  }
]

-- the text that was read from the original is written again
abbrev pub restored : Host → Files → FilePath → Files → Files
restored host originals p files =
    match_some (originals p) files (λ raw. put_file p (host.encode (host.decode raw)) files)

-- the rollback, which ends at the first call that fails
unfoldable pub rollback : Host → Writer → Files → List FilePath → Files → Files
rollback host os originals [] files = files
rollback host os originals (p ∷ ps) files = elim (os.restores p) [
  | true ↦ rollback host os originals ps (restored host originals p files)
  | false ↦ files
]

pub record Patching : Type 0 where
  pub files_changed : ℕ
  pub check_first : Bool

abbrev pub not_applied : Failure
not_applied = failure "Patch application failed"

-- the outer `except OSError`, which removes the temporary files that are left
abbrev pub failure_after : Writer → List FilePath → Failure
failure_after os left = if all_of os.unlinks left then not_applied else os_error

abbrev pub after_swaps : Host → Writer → Plan → Bool → Files → Swaps → Files × Outcome Patching
after_swaps host os plan check_first originals s =
    if s.complete
    then (s.files, ok (record { files_changed = length plan; check_first = check_first }))
    else (rollback host os originals s.applied s.files, raised (failure_after os s.left))

unfoldable pub write_plan : Host → Writer → Plan → Bool → Files → Files × Outcome Patching
unfolding swaps rollback
write_plan host os plan check_first files =
    if not (all_staged os plan)
    then (files, raised (failure_after os (staged os plan)))
    else if os.rereads
    then after_swaps host os plan check_first files (swaps host os plan [] files)
    else (files, raised (failure_after os (planned_targets plan)))

-- `bool(request.payload.get("check_first", True))`
abbrev pub check_first_of : Members → Bool
check_first_of payload = match_some (get_field payload "check_first") true (λ v. truthy v)

-- the tests before the planning: the workspace, the roots and the patch
pub record Job : Type 0 where
  pub workspace : FilePath
  pub roots : List FilePath
  pub patch : Text

abbrev pub job_of : Host → Members → Members → Outcome Job
job_of host payload config = ensure_some (workspace_of host config) unavailable (λ workspace.
    ensure_some (nonempty_text (get_field payload "patch")) malformed (λ patch.
      ensure (leb (byte_length (codes patch)) 200000) malformed (
        ensure_some (allowed_roots config) invalid_roots (λ allowed. ok (record {
          workspace = workspace;
          roots = map (resolved host workspace) allowed;
          patch = codes patch;
        })))))

abbrev pub planned_job : Host → Files → Job → Option (Outcome Plan)
planned_job host files job = plan_of host files job.workspace job.roots job.patch

abbrev pub written :
    Host → Writer → Members → Files → Option (Outcome Plan) → Option (Files × Outcome Patching)
written host os payload files none = none
written host os payload files (some (raised e)) = some (files, raised e)
written host os payload files (some (ok plan)) =
    some (write_plan host os plan (check_first_of payload) files)

-- none where the planning does not end
unfoldable pub apply_patch :
    Host → Writer → Members → Members → Files → Option (Files × Outcome Patching)
unfolding write_plan
apply_patch host os payload config files = elim (job_of host payload config) [
  | raised e ↦ some (files, raised e)
  | ok job ↦ written host os payload files (planned_job host files job)
]
