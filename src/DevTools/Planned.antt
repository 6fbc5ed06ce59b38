-- ===== src/DevTools/Planned.antt =====
-- virtizai_core/dev_tools.py: the end of the planning of `_apply_patch`, and the targets that it plans for.
use virtiz_ai.Common.{
  ℕ, zero, suc, ◌≡◌, refl, sym, ap, ◌∙◌, Bool, true, false, ◌||◌, ◌&&◌, Option, none, some, List,
  [], ◌∷◌, ◌++◌, ◌≤◌, ◌<◌, arith, if◌then◌else◌, length, length-append, All, Among, ok, raised,
  ensure-ok, ensure_some-ok, ok-injective, ◌⊎◌, inl, inr, Bool-cases, Result-cases, is_empty,
  &&-left, &&-right,
}
use mathlib.Core.Path.{subst}
use mathlib.Core.Option.{some-injective}
use virtiz_ai.Common.Orders.{codes}
use virtiz_ai.DevTools.{
  FilePath, Text, Host, Outcome, Below, in_roots-Below, in_roots, is_parent, same, is_absolute,
  climbs,
}
use virtiz_ai.DevTools.Inspect.{Files, drop}
use virtiz_ai.DevTools.Inspected.{parent_or_same-Below}
use virtiz_ai.DevTools.Patch.{
  Walk, Plan, hunks, header_and_hunk, starts, sections, target_of, patch_target, put_plan, begun,
  patched, malformed, texts_eq, without_side, up_to_tab,
}
use virtiz_ai.DevTools.Patched.{header_and_hunk-Hunk, hunks-Rewrites, written, Rewrites}

length-tail : (xs ys zs : List Text) → xs ≡ ys ++ zs → length zs ≤ length xs
length-tail xs ys zs e = let l = ap length e ∙ length-append ys zs in omega arith

hunks-returns :
    (decimal : ℕ → Option ℕ) (fuel : ℕ) (ls : List Text) (w : Walk) (n : ℕ)
    → length ls < fuel
    → (r : Outcome ((Walk × ℕ) × List Text)) × (hunks decimal fuel ls w n ≡ some r)
unfolding hunks
hunks-returns decimal zero ls w n h = absurd (omega arith)
hunks-returns decimal (suc fuel) [] w n h = (ok ((w, n), []), refl)
hunks-returns decimal (suc fuel) (l ∷ ls) w n h = elim (Bool-cases (starts "--- " l)) [
  | inl e ↦ (ok ((w, n), l ∷ ls), rw (hunks, e) refl)
  | inr e ↦ elim (Result-cases (header_and_hunk decimal l ls w)) [
    | inr (x, f) ↦ (raised x, rw (hunks, e, f) refl)
    | inl (x, f) ↦
        let k = header_and_hunk-Hunk decimal l ls w x.0 x.1 f in
        let shorter = length-tail ls k.segment.body x.1 k.lines in
        let (r, q) = hunks-returns decimal fuel x.1 x.0 (suc n) (omega arith) in
        (r, rw (hunks, e, f) q)
  ]
]

guarded :
    (b c : Bool) (t p : FilePath)
    → (if b then none else if c then some t else none) ≡ some p
    → (c ≡ true) × (t ≡ p)
guarded true c t p h = absurd (cc)
guarded false true t p h = (refl, some-injective t p h)
guarded false false t p h = absurd (cc)

-- a file that a patch may change
pub record IsTarget (files : Files) (workspace : FilePath) (roots : List FilePath)
    (target : FilePath) : Type 0 where
  pub inside : Below workspace target
  pub root : FilePath
  pub granted : Among root roots
  pub under : Below root target
  pub text : Text
  pub stored : files target ≡ some text

module _ (host : Host) (files : Files) (workspace : FilePath) (roots : List FilePath) where
  abbrev pub Targets : Plan → Type 0
  Targets plan = All (λ e. IsTarget files workspace roots e.0) plan

  put_plan-Targets :
      (p : FilePath) (t : Text) (plan : Plan)
      → IsTarget files workspace roots p
      → Targets plan
      → Targets (put_plan p t plan)
  put_plan-Targets p t [] i h = (i, tt)
  put_plan-Targets p t ((q, u) ∷ plan) i h = elim (Bool-cases (same q p)) [
    | inl e ↦ rw e h
    | inr e ↦ rw e (h.0, put_plan-Targets p t plan i h.1)
  ]

  patch_target-IsTarget :
      (raw : Text) (target : FilePath) (text : Text)
      → patch_target host workspace roots raw ≡ some target
      → files target ≡ some text
      → IsTarget files workspace roots target
  patch_target-IsTarget raw target text h s =
      let name = without_side (up_to_tab raw) in
      let t = host.resolve workspace name in
      let (c, q) =
        guarded
          (is_empty name || texts_eq name (codes "/dev/null") || is_absolute name || climbs name)
          ((is_parent workspace t || same t workspace) && in_roots roots t) t target h in
      let (root, i, under) =
        in_roots-Below roots t (&&-right (is_parent workspace t || same t workspace) _ c) in
      subst (λ z. Below workspace z → Below root z → IsTarget files workspace roots target) (sym q)
        (λ inside under. record {
          inside = inside;
          root = root;
          granted = i;
          under = under;
          text = text;
          stored = s;
        })
        (parent_or_same-Below workspace t (&&-left _ (in_roots roots t) c)) under

  target_of-IsTarget :
      (old new : Text) (plan : Plan) (target : FilePath) (source : Text)
      → target_of host files workspace roots old new plan ≡ ok (target, source)
      → IsTarget files workspace roots target
  target_of-IsTarget old new plan target source h =
      let (_, h1) =
        ensure-ok (starts "--- " old && starts "+++ " new) malformed _ (target, source) h in
      let (p, e, h2) =
        ensure_some-ok (patch_target host workspace roots (drop 4 old)) _ _ (target, source) h1 in
      let (q, f, h3) =
        ensure_some-ok (patch_target host workspace roots (drop 4 new)) _ _ (target, source) h2 in
      let (_, h4) = ensure-ok (same p q) _ _ (target, source) h3 in
      let (text, s, h5) = ensure_some-ok (files p) _ _ (target, source) h4 in
      subst (IsTarget files workspace roots) (ap (λ z. z.0) (ok-injective _ (target, source) h5))
        (patch_target-IsTarget (drop 4 old) p text e s)

  length-rest :
      (ls rest : List Text) (w v : Walk) (n m : ℕ)
      → Rewrites host.decimal ls rest w v n m
      → length rest ≤ length ls
  length-rest ls rest w v n m r = length-tail ls (written r.segments) rest r.lines

  ℕ-cases : (n : ℕ) → (n ≡ 0) ⊎ ((m : ℕ) × (n ≡ suc m))
  ℕ-cases zero = inl refl
  ℕ-cases (suc m) = inr (m, refl)

  -- what a planning ends with: a reason, or a plan for targets
  pub record Ends (fuel : ℕ) (ls : List Text) (plan : Plan) : Type 0 where
    pub outcome : Outcome Plan
    pub returns : sections host files workspace roots fuel ls plan ≡ some outcome
    pub targets : (new : Plan) → outcome ≡ ok new → Targets new

  pub sections-Ends :
      (fuel : ℕ) (ls : List Text) (plan : Plan)
      → length ls < fuel
      → Targets plan
      → Ends fuel ls plan
  unfolding sections
  sections-Ends zero ls plan h t = absurd (omega arith)
  sections-Ends (suc fuel) [] plan h t = record {
    outcome = ok plan;
    returns = refl;
    targets = λ new e. subst Targets (ok-injective plan new e) t;
  }
  sections-Ends (suc fuel) (old ∷ []) plan h t = record {
    outcome = raised malformed;
    returns = refl;
    targets = λ new e. absurd (cc);
  }
  sections-Ends (suc fuel) (old ∷ new ∷ []) plan h t = record {
    outcome = raised malformed;
    returns = refl;
    targets = λ new e. absurd (cc);
  }
  sections-Ends (suc fuel) (old ∷ new ∷ l ∷ ls) plan h t =
      elim (Result-cases (target_of host files workspace roots old new plan)) [
        | inr (x, e) ↦ record {
          outcome = raised x;
          returns = rw (sections, e) refl;
          targets = λ new e. absurd (cc);
        }
        | inl ((target, source), e) ↦
            let (r, f) = hunks-returns host.decimal fuel (l ∷ ls) (begun source) 0 (omega arith) in
            elim (Result-cases r) [
              | inr (x, g) ↦ record {
                outcome = raised x;
                returns = rw (sections, e, f, g) refl;
                targets = λ new e. absurd (cc);
              }
              | inl (((w, n), rest), g) ↦ elim (ℕ-cases n) [
                | inl z ↦
                    let p = f ∙ ap some (g ∙ ap (λ k. ok ((w, k), rest)) z) in
                    record {
                      outcome = raised malformed;
                      returns = rw (sections, e, p) refl;
                      targets = λ new e. absurd (cc);
                    }
                | inr (m, z) ↦
                    let p = f ∙ ap some (g ∙ ap (λ k. ok ((w, k), rest)) z) in
                    let shorter = length-rest (l ∷ ls) rest (begun source) w 0 (suc m) (
                      hunks-Rewrites host.decimal fuel (l ∷ ls) (begun source) w 0 (suc m) rest
                        p) in
                    let next =
                      sections-Ends fuel rest (put_plan target (patched source w) plan)
                        (omega arith)
                        (put_plan-Targets target (patched source w) plan
                          (target_of-IsTarget old new plan target source e) t) in
                    record {
                      outcome = next.outcome;
                      returns = rw (sections, e, p) next.returns;
                      targets = next.targets;
                    }
              ]
            ]
      ]
