-- ===== src/Assignments/Chosen.antt =====
-- Which project manager is assigned.
use virtiz_ai.Common.{
  ◌≤◌, String, ◌≡◌, refl, sym, ap, ◌∙◌, ◌⊎◌, inl, inr, true, false, Option, none, some, List, arith,
  All, Among, first-Among, Among-where, All-where-back, All-weaken, Bool-cases, leb→le, Result, ok,
  raised, is_some, where_, eq_refl, ◌==◌, ◌&&◌, if_ind, match_some_cases, &&-right, &&-left,
  ok-injective,
}
use virtiz_ai.Common.Sort.{head-sort}
use virtiz_ai.Assignments.{
  Manager, Tables, Assigned, AssignRequest, AssignError, manager_with, assignment_of, result,
  existing, by_load, least_loaded, is_given, choose, new_assignment, record_assignment, assign,
  assign_chosen, active_assignments, is_enabled, enabled_with, or_raise, has_project,
}

or_raise-ok :
    (o : Option Manager) (e : AssignError) (m : Manager) → or_raise o e ≡ ok m → o ≡ some m
or_raise-ok none e m h = cc
or_raise-ok (some n) e m h = ap some (ok-injective n m h)

enabled_with-Among :
    (preferred : Option String) (managers : List Manager) (m : Manager)
    → enabled_with preferred managers ≡ some m
    → Among m managers × (m.enabled ≡ true)
enabled_with-Among none managers m h = cc
enabled_with-Among (some id) managers m h =
    let (i, t) = first-Among (λ (m : Manager). m.id == id && m.enabled) m managers h in
    (i, &&-right _ _ t)

-- an enabled manager with at most as many active assignments as any other
abbrev pub IsLeastLoaded : Manager → Tables → Type 0
IsLeastLoaded m t =
    All
      (λ n.
        n.enabled ≡ true → active_assignments t.assignments m ≤ active_assignments t.assignments n)
      t.managers

least_loaded-IsLeastLoaded :
    (t : Tables) (m : Manager)
    → least_loaded t ≡ some m
    → Among m t.managers × (m.enabled ≡ true) × IsLeastLoaded m t
unfolding least_loaded
least_loaded-IsLeastLoaded t m h =
    let o = by_load t.assignments in
    let (i, least) = head-sort o (where_ is_enabled t.managers) m h in
    let (j, on) = Among-where is_enabled m t.managers i in
    (
      j,
      on,
      All-weaken (λ n. is_enabled n ≡ true → o.le m n ≡ true)
          (λ n.
            n.enabled ≡ true
            → active_assignments t.assignments m ≤ active_assignments t.assignments n)
          t.managers (λ n f e. leb→le _ _ (&&-left _ _ (f e)))
          (All-where-back (λ n. o.le m n ≡ true) is_enabled t.managers least),
    )

-- Whom `choose` returns is an enabled manager of the table, and the least loaded one unless a preferred one
-- is given.
pub choose-IsLeastLoaded :
    (preferred : Option String) (t : Tables) (m : Manager)
    → choose preferred t ≡ ok m
    → Among m t.managers × (m.enabled ≡ true) × ((is_given preferred ≡ true) ⊎ IsLeastLoaded m t)
unfolding choose
choose-IsLeastLoaded preferred t m h = elim (Bool-cases (is_given preferred)) [
  | inl e ↦
      let (i, on) = enabled_with-Among preferred t.managers m (or_raise-ok _ _ m (rw e at h)) in
      (i, on, inl e)
  | inr e ↦
      let (i, on, least) = least_loaded-IsLeastLoaded t m (or_raise-ok _ _ m (rw e at h)) in
      (i, on, inr least)
]

-- `id` is the key of the managers
abbrev pub IsKeyed : List Manager → Type 0
IsKeyed managers = All (λ m. manager_with m.id managers ≡ some m) managers

-- the pair of new tables and the answer, where the call returns
abbrev Returned : Type 0
Returned = Tables × Result AssignError Assigned

module _ (r : AssignRequest) (t : Tables) where
  -- the answer was there, or a manager is chosen and recorded
  abbrev pub Outcome : Returned → Assigned → Type 0
  Outcome s a =
      ((existing r.project_id t ≡ some a) × (s.0 ≡ t))
      ⊎ ((m : Manager) × (existing r.project_id t ≡ none)
          × (is_some (assignment_of r.project_id t.assignments) ≡ false)
          × (has_project r.project_id t.projects ≡ true)
          × (choose r.preferred t ≡ ok m)
          × (s.0 ≡ record_assignment r m t)
          × (a ≡ result (new_assignment r m) m))

  chosen-Outcome :
      (c : Result AssignError Manager) (a : Assigned)
      → existing r.project_id t ≡ none
      → has_project r.project_id t.projects ≡ true
      → choose r.preferred t ≡ c
      → (assign_chosen r t c).1 ≡ ok a
      → Outcome (assign_chosen r t c) a
  chosen-Outcome (raised e) a none_yet p q h = absurd (cc)
  chosen-Outcome (ok m) a none_yet p q h =
      if_ind (λ (s : Returned). s.1 ≡ ok a → Outcome s a)
        (is_some (assignment_of r.project_id t.assignments)) _ _ (λ _ k. absurd (cc))
        (λ free k. inr (m, none_yet, free, p, q, refl, sym (ok-injective _ _ k))) h

  pub assign-Outcome : (a : Assigned) → (assign r t).1 ≡ ok a → Outcome (assign r t) a
  unfolding assign
  assign-Outcome a h =
      match_some_cases (λ (s : Returned). s.1 ≡ ok a → Outcome s a) (existing r.project_id t) _ _
        (λ none_yet.
          if_ind (λ (s : Returned). s.1 ≡ ok a → Outcome s a) (has_project r.project_id t.projects)
            _ _ (λ p. chosen-Outcome (choose r.preferred t) a none_yet p refl) (λ _ k. absurd (cc)))
        (λ found e k. inl (e ∙ ap some (ok-injective _ _ k), refl)) h

-- A call that returns answers either the assignment that the project had,
-- and then no table changes, or one that it records with a manager that is enabled and, unless a
-- preferred one is given, has at most as many active assignments as any other enabled manager.
pub assign-IsLeastLoaded :
    (r : AssignRequest) (t : Tables) (a : Assigned)
    → (assign r t).1 ≡ ok a
    → ((existing r.project_id t ≡ some a) × ((assign r t).0 ≡ t))
      ⊎ ((m : Manager) × Among m t.managers
          × (m.enabled ≡ true)
          × ((is_given r.preferred ≡ true) ⊎ IsLeastLoaded m t)
          × ((assign r t).0 ≡ record_assignment r m t)
          × (a ≡ result (new_assignment r m) m))
assign-IsLeastLoaded r t a h = elim (assign-Outcome r t a h) [
  | inl found ↦ inl found
  | inr (m, _, _, _, chosen, tables, answer) ↦
      let (i, on, least) = choose-IsLeastLoaded r.preferred t m chosen in
      inr (m, i, on, least, tables, answer)
]

pub existing-recorded :
    (r : AssignRequest) (m : Manager) (t : Tables)
    → manager_with m.id t.managers ≡ some m
    → existing r.project_id (record_assignment r m t) ≡ some (result (new_assignment r m) m)
unfolding existing record_assignment
existing-recorded r m t k = ground (arith, eq_refl r.project_id, k)

pub assign-existing :
    (r : AssignRequest) (t : Tables) (a : Assigned)
    → existing r.project_id t ≡ some a
    → assign r t ≡ (t, ok a)
unfolding assign
assign-existing r t a h = rw h refl
