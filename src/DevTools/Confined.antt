-- ===== src/DevTools/Confined.antt =====
-- virtizai_core/dev_tools.py: the files that a request to the development worker changes.
use virtiz_ai.Common.{
  String, ◌≡◌, refl, sym, ap, ◌∙◌, Bool, true, some, List, [], ◌∷◌, map, All, Among, ok, raised,
  ◌⊎◌, inl, inr, Bool-cases, Option-cases, Result-cases, arith, eq_iff, leb, ensure-ok,
  ensure_some-ok, ok-injective, ◌==◌,
}
use mathlib.Core.Path.{subst}
use virtiz_ai.Common.Json.{Members, end, field, get_field}
use virtiz_ai.Common.Orders.{codes}
use virtiz_ai.DevTools.Listed.{discover_files-IsSample}
use virtiz_ai.DevTools.Apply.{Patching, Job, job_of}
use virtiz_ai.DevTools.{
  nonempty_text, resolved, FilePath, Host, failure, Outcome, Below, same, workspace_of,
  allowed_roots,
}
use virtiz_ai.DevTools.Discover.{list_files, escapes}
use virtiz_ai.DevTools.Inspect.{Files, unavailable, inspect_file}
use virtiz_ai.DevTools.Replace.{Store, put_file, replace_text, byte_length}
use virtiz_ai.DevTools.Replaced.{replace_text-Replaces}
use virtiz_ai.DevTools.Patch.{Plan}
use virtiz_ai.DevTools.Planned.{IsTarget}
use virtiz_ai.DevTools.Applied.{put_all, IsAtomic, apply_patch-IsAtomic, same-≡}
use virtiz_ai.DevTools.Targets.{TestRun, plan_run, run_tests}
use virtiz_ai.DevTools.Execute.{
  Machine, Request, Answer, listing, patching, inspection, tests, replacement, unsupported, listed,
  patched, is_stored, after_run, execute,
}

-- a path that the configuration grants: below the workspace and below one of its allowed roots
pub record IsGranted (host : Host) (config : Members) (q : FilePath) : Type 0 where
  pub workspace : FilePath
  pub configured : workspace_of host config ≡ some workspace
  pub inside : Below workspace q
  pub allowed : List String
  pub roots : allowed_roots config ≡ some allowed
  pub root : FilePath
  pub granted : Among root (map (resolved host workspace) allowed)
  pub under : Below root q

-- every file that differs is one that the configuration grants
abbrev pub ChangesGranted : Host → Members → Files → Files → Type 0
ChangesGranted host config files after =
    (q : FilePath) → (after q ≡ files q) ⊎ IsGranted host config q

put_all-changes :
    (host : Host) (P : FilePath → Type 0) (plan : Plan) (files : Files)
    → All (λ e. P e.0) plan
    → (q : FilePath) → (put_all host plan files q ≡ files q) ⊎ P q
put_all-changes host P [] files h q = inl refl
put_all-changes host P ((p, t) ∷ plan) files h q =
    elim (put_all-changes host P plan (put_file p (host.encode t) files) h.1 q) [
      | inr k ↦ inr k
      | inl e ↦ elim (Bool-cases (same q p)) [
        | inl s ↦ inr (subst P (sym (same-≡ q p s)) h.0)
        | inr s ↦ inl (e ∙ rw s refl)
      ]
    ]

list_files-returns :
    (host : Host) (is_file : FilePath → Bool) (payload config : Members)
    → (r : Outcome (List String × Bool)) × (list_files host is_file payload config ≡ some r)
unfolding list_files
list_files-returns host is_file (field k v fs) config = (_, refl)
list_files-returns host is_file end config = elim (Option-cases (workspace_of host config)) [
  | inl e ↦ (raised unavailable, rw (list_files, e) refl)
  | inr (w, e) ↦ elim (Option-cases (allowed_roots config)) [
    | inl f ↦ (raised escapes, rw (list_files, e, f) refl)
    | inr (roots, f) ↦ elim (discover_files-IsSample host is_file w roots 80) [
      | inl (g, _) ↦ (raised escapes, rw (list_files, e, f) g)
      | inr (_, (queues, files, truncated, _, g, _)) ↦
          (ok (files, truncated), rw (list_files, e, f) g)
    ]
  ]
]

job_of-IsGranted :
    (host : Host) (payload config : Members) (files : Files) (job : Job) (q : FilePath)
    → job_of host payload config ≡ ok job
    → IsTarget files job.workspace job.roots q
    → IsGranted host config q
job_of-IsGranted host payload config files job q h t =
    let (workspace, w, h1) = ensure_some-ok (workspace_of host config) _ _ job h in
    let (patch, p, h2) = ensure_some-ok (nonempty_text (get_field payload "patch")) _ _ job h1 in
    let (_, h3) = ensure-ok (leb (byte_length (codes patch)) 200000) _ _ job h2 in
    let (allowed, a, h4) = ensure_some-ok (allowed_roots config) _ _ job h3 in
    let j = sym (ok-injective _ job h4) in
    record {
      workspace = workspace;
      configured = w;
      allowed = allowed;
      roots = a;
      root = t.root;
      under = t.under;
      inside = subst (λ z. Below z q) (ap (λ z. z.workspace) j) t.inside;
      granted = subst (λ z. Among t.root z) (ap (λ z. z.roots) j) t.granted;
    }

-- how a request ends
pub record IsConfined (m : Machine) (config : Members) (request : Request) (s : Store)
    : Type 0 where
  pub after : Store
  pub answer : Answer
  pub answered : execute m config request s ≡ some (after, answer)
  pub changes :
      ChangesGranted m.host config s.files after.files
      ⊎ ((run : TestRun) × (request.operation ≡ "run_tests")
          × (plan_run m.host s.files request.payload config request.timeout_seconds ≡ ok run)
          × (after ≡ m.effects run s))

module _ (m : Machine) (config : Members) (request : Request) (s : Store) where
  replace_confined :
      (let (t, r) = replace_text m.host m.system request.payload config s in
        ChangesGranted m.host config s.files t.files)
  replace_confined q = elim (replace_text-Replaces m.host request.payload config m.system s) [
    | inl (f, e, u) ↦ inl (ap (λ z. z q) u)
    | inr (report, e, r) ↦ elim (Bool-cases (same q r.target)) [
      | inr n ↦ inl (ap (λ z. z q) r.written ∙ rw n refl)
      | inl y ↦
          let g = r.reached in
          inr (
            subst (IsGranted m.host config) (sym (same-≡ q r.target y)) (record {
              workspace = r.workspace;
              configured = g.configured;
              inside = g.inside;
              allowed = g.allowed;
              roots = g.roots;
              root = g.root;
              granted = g.granted;
              under = g.under;
            }))
    ]
  ]

  patch_confined :
      (after : Files) (r : Outcome Patching)
      → IsAtomic m.host m.writer request.payload config s.files after r
      → ChangesGranted m.host config s.files after
  patch_confined after r a q = elim a.all_or_nothing [
    | inl (f, e, u) ↦ elim (u q) [
      | inl x ↦ inl x
      | inr g ↦
          inr (job_of-IsGranted m.host request.payload config s.files g.job q g.checked g.target)
    ]
    | inr (job, plan, j, e, t, w, _) ↦
        elim (put_all-changes m.host (IsTarget s.files job.workspace job.roots) plan s.files t q) [
          | inl x ↦ inl (ap (λ z. z q) w ∙ x)
          | inr i ↦ inr (job_of-IsGranted m.host request.payload config s.files job q j i)
        ]
  ]

  run_changes :
      request.operation ≡ "run_tests"
      → (let after =
            after_run m s
              (plan_run m.host s.files request.payload config request.timeout_seconds) in
          ChangesGranted m.host config s.files after.files
          ⊎ ((run : TestRun) × (request.operation ≡ "run_tests")
              × (plan_run m.host s.files request.payload config request.timeout_seconds ≡ ok run)
              × (after ≡ m.effects run s)))
  run_changes o =
      elim (Result-cases (plan_run m.host s.files request.payload config request.timeout_seconds)) [
        | inl (run, e) ↦ inr (run, o, e, rw e refl)
        | inr (f, e) ↦ inl (λ q. inl (rw e refl))
      ]

  -- The handling of a request always ends, with a result or an exception, whatever its operation, its payload and
  -- the configuration. If every restoration of a rollback succeeds, a file differs afterwards only if
  -- its path lies below the workspace and below one of the allowed roots, unless the request ran tests
  -- that were planned for it, and then the files are what these tests leave.
  pub execute-IsConfined :
      ((p : FilePath) → m.writer.restores p ≡ true) → IsConfined m config request s
  unfolding execute
  execute-IsConfined restores = elim (Bool-cases (request.operation == "list_files")) [
    | inl e ↦
        let (r, f) = list_files-returns m.host (is_stored s) request.payload config in
        record {
          after = s;
          answer = listing r;
          answered = rw (execute, e) (ap (listed s) f);
          changes = inl (λ q. inl refl);
        }
    | inr a ↦ elim (Bool-cases (request.operation == "inspect_file")) [
      | inl e ↦ record {
        after = s;
        answer = inspection (inspect_file m.host s.files request.payload config);
        answered = rw (execute, a, e) refl;
        changes = inl (λ q. inl refl);
      }
      | inr b ↦ elim (Bool-cases (request.operation == "run_tests")) [
        | inl e ↦
            let p = plan_run m.host s.files request.payload config request.timeout_seconds in
            record {
              after = after_run m s p;
              answer = tests (
                  run_tests m.host m.process s.files request.payload config
                    request.timeout_seconds);
              answered = rw (execute, a, b, e) refl;
              changes = run_changes (ground (arith, eq_iff request.operation "run_tests"));
            }
        | inr c ↦ elim (Bool-cases (request.operation == "apply_patch")) [
          | inl e ↦
              let (files, r, f, atomic) =
                apply_patch-IsAtomic m.host m.writer request.payload config s.files restores in
              record {
                after = record s { files = files };
                answer = patching r;
                answered = rw (execute, a, b, c, e) (ap (patched s) f);
                changes = inl (patch_confined files r atomic);
              }
          | inr d ↦ elim (Bool-cases (request.operation == "replace_text")) [
            | inl e ↦ record {
              after = (replace_text m.host m.system request.payload config s).0;
              answer = replacement (replace_text m.host m.system request.payload config s).1;
              answered = rw (execute, a, b, c, d, e) refl;
              changes = inl replace_confined;
            }
            | inr e ↦ record {
              after = s;
              answer = unsupported (failure "Unsupported development operation");
              answered = rw (execute, a, b, c, d, e) refl;
              changes = inl (λ q. inl refl);
            }
          ]
        ]
      ]
    ]
  ]
