-- ===== src/DevTools/TestRuns.antt =====
-- What `_run_tests` runs and reports.
use virtiz_ai.Common.{
  ℕ, String, ◌≡◌, refl, sym, ap, ◌∙◌, true, ◌&&◌, &&-left, &&-right, Option, none, some, List, ◌≤◌,
  arith, map, take, length, length-take-le, ok, bind-ok, ensure-ok, ensure_some-ok, ok-injective,
  ◌==◌, ◌⊎◌, inl, inr, Bool-cases, Option-cases, is_some,
}
use mathlib.Core.Option.{some-injective}
use mathlib.Core.Path.{subst}
use virtiz_ai.Common.Json.{Value, null, bool, int, float, str, arr, obj, Members, get_field}
use virtiz_ai.Common.Orders.{codes}
use virtiz_ai.DevTools.{
  resolved, FilePath, Host, workspace_of, is_parent, is_parent-Below, in_roots, in_roots-Below,
}
use virtiz_ai.DevTools.Inspect.{Files, unavailable}
use virtiz_ai.DevTools.Planned.{IsTarget}
use virtiz_ai.DevTools.Patch.{starts}
use virtiz_ai.DevTools.Targets.{
  TestTarget, TestRun, TestReport, ProcessEnd, known_target, before_colons, roots_of, file_target,
  unsupported, text_target, target_of, is_timeout, plan_run, report_of, run_tests, max_output_bytes,
  timed_out, exited, seconds,
}

-- a target that is known by its name, or a file of the workspace under an allowed root
abbrev pub IsRunnable : Host → Files → FilePath → Members → TestTarget → Type 0
IsRunnable host files workspace config t =
    (known_target t.name ≡ some t)
    ⊎ ((roots : List String) × (roots_of config ≡ some roots)
        × IsTarget files workspace (map (resolved host workspace) roots)
            (host.resolve workspace (before_colons (codes t.name))))

own_name : (name : String) (t : TestTarget) → known_target name ≡ some t → t.name ≡ name
own_name name t h = elim (Bool-cases (name == "pytest")) [
  | inl e ↦ sym (ap (λ z. z.name) (some-injective _ t (rw (known_target, e) at h)))
  | inr e ↦ elim (Bool-cases (name == "packet5")) [
    | inl f ↦ sym (ap (λ z. z.name) (some-injective _ t (rw (known_target, e, f) at h)))
    | inr f ↦ absurd (cc (rw (known_target, e, f) at h))
  ]
]

is_some-lem : {A : Type 0} (o : Option A) → is_some o ≡ true → (a : A) × (o ≡ some a)
is_some-lem none h = absurd (cc)
is_some-lem (some a) h = (a, refl)

known_name :
    (name : String) (t : TestTarget) → known_target name ≡ some t → known_target t.name ≡ some t
known_name name t h = ap known_target (own_name name t h) ∙ h

file_target-IsTarget :
    (host : Host) (files : Files) (workspace : FilePath) (roots : List String) (name : String)
    (t : TestTarget)
    → file_target host files workspace roots name ≡ some t
    → (t.name ≡ name)
      × IsTarget files workspace
          (map (resolved host workspace) roots)
          (host.resolve workspace (before_colons (codes name)))
file_target-IsTarget host files workspace roots name t h =
    let p = host.resolve workspace (before_colons (codes name)) in
    elim (Bool-cases (
      is_parent workspace p
      && is_some (files p)
      && in_roots (map (resolved host workspace) roots) p)) [
        | inr e ↦ absurd (cc (rw e at h))
        | inl e ↦
            let rs = map (resolved host workspace) roots in
            let first_two =
              &&-left (is_parent workspace p && is_some (files p)) (in_roots rs p) e in
            let (text, stored) =
              is_some-lem (files p)
                (&&-right (is_parent workspace p) (is_some (files p)) first_two) in
            let (root, i, under) =
              in_roots-Below rs p
                (&&-right (is_parent workspace p && is_some (files p)) (in_roots rs p) e) in
            (
              sym (ap (λ z. z.name) (some-injective _ t (rw (file_target, e) at h))),
              record {
                inside =
                    is_parent-Below workspace p
                      (&&-left (is_parent workspace p) (is_some (files p)) first_two);
                root = root;
                granted = i;
                under = under;
                text = text;
                stored = stored;
              },
            )
      ]

module _ (host : Host) (files : Files) (workspace : FilePath) (config : Members) where
  text_target-IsRunnable :
      (name : String) (t : TestTarget)
      → text_target host files workspace config name ≡ ok t
      → IsRunnable host files workspace config t
  text_target-IsRunnable name t h = elim (Option-cases (known_target name)) [
    | inr (k, e) ↦
        let q = ok-injective k t (rw (text_target, e) at h) in
        inl (known_name name t (e ∙ ap some q))
    | inl e ↦ elim (Bool-cases (starts "tests/" (codes name))) [
      | inr f ↦ absurd (cc (rw (text_target, e, f) at h))
      | inl f ↦
          let (roots, r, h1) =
            ensure_some-ok (roots_of config) _ _ t (rw (text_target, e, f) at h) in
          let (u, k, h2) =
            ensure_some-ok (file_target host files workspace roots name) unsupported _ t h1 in
          let (n, i) =
            file_target-IsTarget host files workspace roots name t
              (k ∙ ap some (ok-injective u t h2)) in
          inr (
            roots,
            r,
            subst
                (λ z.
                  IsTarget files workspace (map (resolved host workspace) roots)
                    (host.resolve workspace (before_colons (codes z))))
                (sym n) i,
          )
    ]
  ]

  target_of-IsRunnable :
      (v : Option Value) (t : TestTarget)
      → target_of host files workspace config v ≡ ok t
      → IsRunnable host files workspace config t
  target_of-IsRunnable none t h = absurd (cc)
  target_of-IsRunnable (some null) t h = absurd (cc)
  target_of-IsRunnable (some (bool b)) t h = absurd (cc)
  target_of-IsRunnable (some (int n)) t h = absurd (cc)
  target_of-IsRunnable (some (float m e)) t h = absurd (cc)
  target_of-IsRunnable (some (str name)) t h = text_target-IsRunnable name t h
  target_of-IsRunnable (some (arr es)) t h = absurd (cc)
  target_of-IsRunnable (some (obj fs)) t h = absurd (cc)

-- a report of a bounded run
pub record IsBounded (host : Host) (process : TestRun → ProcessEnd) (files : Files)
    (payload config : Members) (timeout : Option Value) (r : TestReport) : Type 0 where
  pub run : TestRun
  pub planned : plan_run host files payload config timeout ≡ ok run
  pub workspace : FilePath
  pub configured : workspace_of host config ≡ some workspace
  pub runnable : IsRunnable host files workspace config run.target
  pub limited : is_timeout run.timeout ≡ true
  pub out : List ℕ
  pub err : List ℕ
  pub ended : process run ≡ exited r.exit_code out err
  pub outputs : (r.stdout ≡ take max_output_bytes out) × (r.stderr ≡ take max_output_bytes err)
  pub few : (length r.stdout ≤ max_output_bytes) × (length r.stderr ≤ max_output_bytes)

report_of-ok :
    (t : TestTarget) (p : ProcessEnd) (r : TestReport)
    → report_of t p ≡ ok r
    → (out err : List ℕ) × (p ≡ exited r.exit_code out err)
      × (r.stdout ≡ take max_output_bytes out)
      × (r.stderr ≡ take max_output_bytes err)
report_of-ok t timed_out r h = absurd (cc)
report_of-ok t (exited c out err) r h =
    let q = ok-injective _ r h in
    (
      out,
      err,
      ap (λ z. exited z.exit_code out err) q,
      sym (ap (λ z. z.stdout) q),
      sym (ap (λ z. z.stderr) q),
    )

-- A test run that reports was planned for a target that is known by its name or names a file below the workspace
-- and an allowed root, with a timeout above 0 and of at most 120 seconds; the process ended with the
-- exit code reported, and each output is the beginning of what it wrote, at most 4000 bytes.
pub run_tests-IsBounded :
    (host : Host) (process : TestRun → ProcessEnd) (files : Files) (payload config : Members)
    (timeout : Option Value) (r : TestReport)
    → run_tests host process files payload config timeout ≡ ok r
    → IsBounded host process files payload config timeout r
unfolding run_tests plan_run
run_tests-IsBounded host process files payload config timeout r h =
    let (run, p, h1) = bind-ok (plan_run host files payload config timeout) _ r h in
    let (workspace, w, p1) = ensure_some-ok (workspace_of host config) unavailable _ run p in
    let (target, t, p2) =
      bind-ok (target_of host files workspace config (get_field payload "target")) _ run p1 in
    let (limit, p3) = ensure-ok (is_timeout (seconds timeout target)) _ _ run p2 in
    let q = ok-injective (record { target = target; timeout = seconds timeout target }) run p3 in
    let (out, err, e, o1, o2) = report_of-ok run.target (process run) r h1 in
    record {
      run = run;
      planned = p;
      workspace = workspace;
      configured = w;
      runnable =
          subst (λ z. IsRunnable host files workspace config z.target) q
            (target_of-IsRunnable host files workspace config (get_field payload "target") target
              t);
      limited = subst (λ z. is_timeout z.timeout ≡ true) q limit;
      out = out;
      err = err;
      ended = e;
      outputs = (o1, o2);
      few = (
        (let l = length-take-le max_output_bytes out in let k = ap length o1 in omega arith),
        (let l = length-take-le max_output_bytes err in let k = ap length o2 in omega arith),
      );
    }
