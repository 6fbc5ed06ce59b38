-- ===== src/Assignments/Agreement.antt =====
-- The two places that name the manager of a project agree.
use virtiz_ai.Common.{
  String, ◌≡◌, Option, none, some, List, [], ◌∷◌, arith, All, Result, ok, raised, is_some, eq_iff,
  ◌==◌, if_ind, match_some_cases, update_where, match_some,
}
use virtiz_ai.Assignments.{
  Manager, Tables, Project, Assignment, Assigned, AssignRequest, AssignError, assignment_of,
  existing, choose, new_assignment, record_assignment, assign, assign_chosen, has_project,
}

abbrev pub manager_of : String → List Assignment → Option String
manager_of project_id assignments =
    match_some (assignment_of project_id assignments) none (λ a. some a.project_manager_id)

-- every project names the manager of its assignment, and none where it has none
abbrev pub IsAgreed : Tables → Type 0
IsAgreed t = All (λ p. p.assigned_project_manager_id ≡ manager_of p.id t.assignments) t.projects

agreed_after :
    (r : AssignRequest) (m : Manager) (assignments : List Assignment) (ps : List Project)
    → All (λ p. p.assigned_project_manager_id ≡ manager_of p.id assignments) ps
    → All
        (λ p. p.assigned_project_manager_id ≡ manager_of p.id (new_assignment r m ∷ assignments))
        (update_where
          (λ p. p.id == r.project_id)
          (λ p. record p {
            assigned_project_manager_id = some m.id;
            project_manager_assigned_at = some r.now;
            updated_at = r.now;
          })
          ps)
agreed_after r m assignments [] h = tt
agreed_after r m assignments (p ∷ ps) h = (
  ground (arith, h.0, eq_iff p.id r.project_id, eq_iff r.project_id p.id),
  agreed_after r m assignments ps h.1,
)

-- `assign`, whatever it returns or raises, keeps the manager that each project names the one of its row in
-- the assignments.
pub assign-IsAgreed : (r : AssignRequest) (t : Tables) → IsAgreed t → IsAgreed (assign r t).0
unfolding assign record_assignment
assign-IsAgreed r t h =
    match_some_cases P (existing r.project_id t) _ _
      (λ _.
        if_ind P (has_project r.project_id t.projects) _ _ (λ _. chosen (choose r.preferred t))
          (λ _. h))
      (λ found _. h)
  where
    P : Tables × Result AssignError Assigned → Type 0
    P s = IsAgreed s.0

    chosen : (c : Result AssignError Manager) → IsAgreed (assign_chosen r t c).0
    chosen (raised e) = h
    chosen (ok m) =
        if_ind (λ (s : Tables × Result AssignError Assigned). IsAgreed s.0)
          (is_some (assignment_of r.project_id t.assignments)) _ _ (λ _. h)
          (λ _. agreed_after r m t.assignments t.projects h)
