-- ===== src/DevTools/Applied.antt =====
-- virtizai_core/dev_tools.py: the files that `_apply_patch` leaves, after its rollback included.
use virtiz_ai.Common.{
  suc, ◌≡◌, refl, sym, ap, ◌∙◌, true, false, some, List, [], ◌∷◌, ◌++◌, arith, length, All, Among,
  ok, raised, All-weaken, eq_iff, eq_refl, ◌⊎◌, inl, inr, Bool-cases, Result-cases,
}
use mathlib.Core.Path.{subst}
use virtiz_ai.Common.Json.{Members}
use virtiz_ai.DevTools.{FilePath, Bytes, Host, Failure, Outcome, same}
use virtiz_ai.DevTools.Inspect.{Files, split_lines}
use virtiz_ai.DevTools.Replace.{put_file}
use virtiz_ai.DevTools.Patch.{Plan}
use virtiz_ai.DevTools.Planned.{IsTarget, Targets, sections-Ends}
use virtiz_ai.DevTools.Apply.{
  Writer, Swaps, Patching, Job, all_staged, swaps, restored, staged, planned_targets, failure_after,
  after_swaps, rollback, write_plan, check_first_of, job_of, planned_job, written, apply_patch,
}

-- the files after every entry of a plan is written
abbrev pub put_all : Host → Plan → Files → Files
put_all host [] files = files
put_all host ((p, t) ∷ plan) files = put_all host plan (put_file p (host.encode t) files)

-- a file that a rollback has written again: its content is what writing leaves of the text that was read from it
abbrev pub IsRewritten : Host → Files → Files → FilePath → Type 0
IsRewritten host originals files q =
    (raw : Bytes) × (originals q ≡ some raw) × (files q ≡ some (host.encode (host.decode raw)))

pub same-≡ : (q p : FilePath) → same q p ≡ true → q ≡ p
same-≡ [] [] h = refl
same-≡ [] (y ∷ ys) h = absurd (cc)
same-≡ (x ∷ xs) [] h = absurd (cc)
same-≡ (x ∷ xs) (y ∷ ys) h = ground (arith, eq_iff x y, same-≡ xs ys)

same_refl : (p : FilePath) → same p p ≡ true
same_refl [] = refl
same_refl (x ∷ xs) = ground (arith, eq_refl x, same_refl xs)

Among-snoc : (q p : FilePath) (ps : List FilePath) → Among q ps → Among q (ps ++ (p ∷ []))
Among-snoc q p [] i = absurd i
Among-snoc q p (x ∷ xs) (inl e) = inl e
Among-snoc q p (x ∷ xs) (inr i) = inr (Among-snoc q p xs i)

Among-new : (p : FilePath) (ps : List FilePath) → Among p (ps ++ (p ∷ []))
Among-new p [] = inl refl
Among-new p (x ∷ xs) = inr (Among-new p xs)

module _ (host : Host) (os : Writer) (originals : Files) (P : FilePath → Type 0) where
  -- a file is as it was, a target written again, or among those still to be restored
  abbrev AsBefore : Files → List FilePath → Type 0
  AsBefore files ps =
      (q : FilePath)
      → ((files q ≡ originals q) ⊎ (P q × IsRewritten host originals files q)) ⊎ Among q ps

  abbrev Stored : List FilePath → Type 0
  Stored ps = All (λ p. P p × ((raw : Bytes) × (originals p ≡ some raw))) ps

  Stored-snoc :
      (p : FilePath) (ps : List FilePath)
      → Stored ps
      → P p × ((raw : Bytes) × (originals p ≡ some raw))
      → Stored (ps ++ (p ∷ []))
  Stored-snoc p [] h e = (e, tt)
  Stored-snoc p (x ∷ xs) h e = (h.0, Stored-snoc p xs h.1 e)

  written_one :
      (p : FilePath) (content : Bytes) (applied : List FilePath) (files : Files)
      → AsBefore files applied
      → AsBefore (put_file p content files) (applied ++ (p ∷ []))
  written_one p content applied files b q = elim (Bool-cases (same q p)) [
    | inl s ↦
        inr (subst (λ z. Among z (applied ++ (p ∷ []))) (sym (same-≡ q p s)) (Among-new p applied))
    | inr s ↦ elim (b q) [
      | inl (inl x) ↦ inl (inl (rw s x))
      | inl (inr (g, (raw, o, x))) ↦ inl (inr (g, (raw, o, rw s x)))
      | inr i ↦ inr (Among-snoc q p applied i)
    ]
  ]

  restored_here :
      (p q : FilePath) (files : Files) (raw : Bytes)
      → originals p ≡ some raw
      → same q p ≡ true
      → restored host originals p files q ≡ some (host.encode (host.decode raw))
  restored_here p q files raw o s = rw (o, s) refl

  restored_there :
      (p q : FilePath) (files : Files) (raw : Bytes)
      → originals p ≡ some raw
      → same q p ≡ false
      → restored host originals p files q ≡ files q
  restored_there p q files raw o s = rw (o, s) refl

  restored_one :
      (p : FilePath) (ps : List FilePath) (files : Files)
      → P p × ((raw : Bytes) × (originals p ≡ some raw))
      → AsBefore files (p ∷ ps)
      → AsBefore (restored host originals p files) ps
  restored_one p ps files (g, (raw, o)) b q = elim (Bool-cases (same q p)) [
    | inl s ↦
        let z = same-≡ q p s in
        inl (inr (subst P (sym z) g, (raw, ap originals z ∙ o, restored_here p q files raw o s)))
    | inr s ↦ elim (b q) [
      | inl (inl x) ↦ inl (inl (restored_there p q files raw o s ∙ x))
      | inl (inr (h, (old, i, x))) ↦ inl (inr (h, (old, i, restored_there p q files raw o s ∙ x)))
      | inr (inl e) ↦ absurd (cc (sym s ∙ ap (same q) e ∙ same_refl q))
      | inr (inr i) ↦ inr i
    ]
  ]

  -- what the loop leaves
  record Swapped (plan : Plan) (files : Files) (s : Swaps) : Type 0 where
    before : AsBefore s.files s.applied
    stored : Stored s.applied
    whole : s.complete ≡ true → s.files ≡ put_all host plan files

  swaps-Swapped :
      (plan : Plan) (applied : List FilePath) (files : Files)
      → All (λ e. P e.0 × ((raw : Bytes) × (originals e.0 ≡ some raw))) plan
      → AsBefore files applied
      → Stored applied
      → Swapped plan files (swaps host os plan applied files)
  unfolding swaps
  swaps-Swapped [] applied files h b k = record { before = b; stored = k; whole = λ _. refl }
  swaps-Swapped ((p, t) ∷ plan) applied files h b k = elim (Bool-cases (os.replaces p)) [
    | inr e ↦ rw (swaps, e) (record { before = b; stored = k; whole = λ x. absurd (cc) })
    | inl e ↦
        let next =
          swaps-Swapped plan (applied ++ (p ∷ [])) (put_file p (host.encode t) files) h.1
            (written_one p (host.encode t) applied files b) (Stored-snoc p applied k h.0) in
        rw (swaps, e) (record { before = next.before; stored = next.stored; whole = next.whole })
  ]

  rollback_step :
      (p : FilePath) (ps : List FilePath) (files : Files)
      → os.restores p ≡ true
      → rollback host os originals (p ∷ ps) files
        ≡ rollback host os originals ps (restored host originals p files)
  unfolding rollback
  rollback_step p ps files r = rw (rollback, r) refl

  rollback-restores :
      (ps : List FilePath) (files : Files)
      → ((p : FilePath) → os.restores p ≡ true)
      → AsBefore files ps
      → Stored ps
      → (q : FilePath)
      → (rollback host os originals ps files q ≡ originals q)
        ⊎ (P q × IsRewritten host originals (rollback host os originals ps files) q)
  unfolding rollback
  rollback-restores [] files r b k q = elim (b q) [ inl e ↦ e | inr i ↦ absurd i ]
  rollback-restores (p ∷ ps) files r b k q =
      subst (λ z. (z q ≡ originals q) ⊎ (P q × IsRewritten host originals z q))
        (sym (rollback_step p ps files (r p)))
        (rollback-restores ps (restored host originals p files) r (restored_one p ps files k.0 b)
          k.1 q)

module _ (host : Host) (os : Writer) (payload config : Members) (files : Files) where
  -- a file that a failing patch may have written again: a target that the plan had
  pub record IsReverted (after : Files) (q : FilePath) : Type 0 where
    pub job : Job
    pub checked : job_of host payload config ≡ ok job
    pub target : IsTarget files job.workspace job.roots q
    pub rewritten : IsRewritten host files after q

  -- either nothing is changed, up to the rewriting of planned_targets, or everything that the patch plans is written
  pub record IsAtomic (after : Files) (r : Outcome Patching) : Type 0 where
    pub all_or_nothing :
        ((f : Failure) × (r ≡ raised f)
          × ((q : FilePath) → (after q ≡ files q) ⊎ IsReverted after q))
        ⊎ ((job : Job) × (plan : Plan) × (job_of host payload config ≡ ok job)
            × (planned_job host files job ≡ some (ok plan))
            × Targets host files job.workspace job.roots plan
            × (after ≡ put_all host plan files)
            × (r
                ≡ ok
                    (record { files_changed = length plan; check_first = check_first_of payload })))

  from_written :
      (plan : Plan) (x : Files × Outcome Patching)
      → write_plan host os plan (check_first_of payload) files ≡ x
      → IsAtomic x.0 x.1
      → IsAtomic
          (write_plan host os plan (check_first_of payload) files).0
          (write_plan host os plan (check_first_of payload) files).1
  from_written plan x e a = subst (λ z. IsAtomic z.0 z.1) (sym e) a

  ends_unstaged :
      (plan : Plan)
      → all_staged os plan ≡ false
      → write_plan host os plan (check_first_of payload) files
        ≡ (files, raised (failure_after os (staged os plan)))
  unfolding write_plan
  ends_unstaged plan f = rw (write_plan, f) refl

  ends_unread :
      (plan : Plan)
      → all_staged os plan ≡ true
      → os.rereads ≡ false
      → write_plan host os plan (check_first_of payload) files
        ≡ (files, raised (failure_after os (planned_targets plan)))
  unfolding write_plan
  ends_unread plan f g = rw (write_plan, f) (rw g refl)

  goes_on :
      (plan : Plan)
      → all_staged os plan ≡ true
      → os.rereads ≡ true
      → write_plan host os plan (check_first_of payload) files
        ≡ after_swaps host os plan (check_first_of payload) files (swaps host os plan [] files)
  unfolding write_plan
  goes_on plan f g = rw (write_plan, f) (rw g refl)

  write_plan_cases :
      (job : Job) (plan : Plan)
      → ((p : FilePath) → os.restores p ≡ true)
      → job_of host payload config ≡ ok job
      → planned_job host files job ≡ some (ok plan)
      → Targets host files job.workspace job.roots plan
      → IsAtomic
          (write_plan host os plan (check_first_of payload) files).0
          (write_plan host os plan (check_first_of payload) files).1
  unfolding write_plan
  write_plan_cases job plan r j e t = elim (Bool-cases (all_staged os plan)) [
    | inr f ↦
        from_written plan _ (ends_unstaged plan f)
          (record { all_or_nothing = inl (failure_after os (staged os plan), refl, λ q. inl refl) })
    | inl f ↦ elim (Bool-cases os.rereads) [
      | inr g ↦ from_written plan _ (ends_unread plan f g) (record {
        all_or_nothing = inl (failure_after os (planned_targets plan), refl, λ q. inl refl);
      })
      | inl g ↦
          let P : FilePath → Type 0 = λ q. IsTarget files job.workspace job.roots q in
          let s = swaps host os plan [] files in
          let l =
            swaps-Swapped host os files P plan [] files
              (All-weaken _ _ plan (λ p i. (i, (i.text, i.stored))) t) (λ q. inl (inl refl)) tt in
          elim (Bool-cases (swaps host os plan [] files).complete) [
            | inl c ↦
                from_written plan _ (goes_on plan f g)
                  (rw c (record { all_or_nothing = inr (job, plan, j, e, t, l.whole c, refl) }))
            | inr c ↦ from_written plan _ (goes_on plan f g) (
                rw c (record {
                  all_or_nothing = inl (
                    failure_after os s.left,
                    refl,
                    λ q.
                        elim (rollback-restores host os files P s.applied s.files r l.before
                          l.stored q) [
                            | inl x ↦ inl x
                            | inr (i, w) ↦
                                inr (record { job = job; checked = j; target = i; rewritten = w })
                          ],
                  );
                }))
          ]
    ]
  ]

  -- The handling of a patch always ends, with a result, a failure or an uncaught error of the system. If every
  -- restoration of the rollback succeeds, then it either does not succeed, and every file is as before or
  -- is a target, below the workspace and an allowed root, that was written again with the text read
  -- from it; or it has written its whole plan and nothing else: the plan that reading the patch against
  -- the files gives, every target of which is a file below the workspace and an allowed root.
  pub apply_patch-IsAtomic :
      ((p : FilePath) → os.restores p ≡ true)
      → (after : Files) × (r : Outcome Patching) × (apply_patch host os payload config files
          ≡ some (after, r))
        × IsAtomic after r
  unfolding apply_patch
  apply_patch-IsAtomic r = elim (Result-cases (job_of host payload config)) [
    | inr (f, e) ↦ (
      files,
      raised f,
      rw (apply_patch, e) refl,
      record { all_or_nothing = inl (f, refl, λ q. inl refl) },
    )
    | inl (job, e) ↦
        let ls = split_lines job.patch in
        let ends =
          sections-Ends host files job.workspace job.roots (suc (length ls)) ls [] (omega arith)
            tt in
        elim (Result-cases ends.outcome) [
          | inr (f, g) ↦ (
            files,
            raised f,
            rw (apply_patch, e) (ap (written host os payload files) (ends.returns ∙ ap some g)),
            record { all_or_nothing = inl (f, refl, λ q. inl refl) },
          )
          | inl (plan, g) ↦ (
            (write_plan host os plan (check_first_of payload) files).0,
            (write_plan host os plan (check_first_of payload) files).1,
            rw (apply_patch, e) (ap (written host os payload files) (ends.returns ∙ ap some g)),
            write_plan_cases job plan r e (ends.returns ∙ ap some g) (ends.targets plan g),
          )
        ]
  ]
