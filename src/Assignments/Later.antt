-- ===== src/Assignments/Later.antt =====
-- What becomes of an assignment: later calls of `assign`, and the plans that `ProjectLead` of
-- virtizai_core/project_lead.py records, which set the status of an assignment.
use virtiz_ai.Common.{String, ◌≡◌, ◌⊎◌, some, List, [], ◌∷◌, ◌==◌, update_where}
use virtiz_ai.Assignments.{
  Manager, Assignment, Tables, Assigned, AssignRequest, manager_with, assignment_of, assign,
}

-- UPDATE project_assignments SET status='planned' WHERE id=?
abbrev pub plan_proposed : String → Tables → Tables
plan_proposed id t = record t {
  assignments = update_where (λ a. a.id == id) (λ a. record a { status = "planned" }) t.assignments;
}

pub data Change : Type 0 where
  asked : AssignRequest → Change
  proposed : String → Change

abbrev pub changed : Change → Tables → Tables
changed (asked r) t = (assign r t).0
changed (proposed id) t = plan_proposed id t

abbrev pub changed_by : List Change → Tables → Tables
changed_by [] t = t
changed_by (c ∷ cs) t = changed_by cs (changed c t)

-- the row of an assignment, up to a plan
record Keeps (a : Assigned) (x : Assignment) : Type 0 where
  id : x.id ≡ a.id
  project : x.project_id ≡ a.project_id
  manager : x.project_manager_id ≡ a.project_manager_id
  status : (x.status ≡ a.status) ⊎ (x.status ≡ "planned")

record Holds (project_id : String) (a : Assigned) (t : Tables) : Type 0 where
  row : Assignment
  found : assignment_of project_id t.assignments ≡ some row
  keeps : Keeps a row
  m : Manager
  managed : manager_with row.project_manager_id t.managers ≡ some m
  name : m.name ≡ a.project_manager_name

-- a row that a plan may have set the status of
record Follows (x y : Assignment) : Type 0 where
  id : y.id ≡ x.id
  project : y.project_id ≡ x.project_id
  manager : y.project_manager_id ≡ x.project_manager_id
  status : (y.status ≡ x.status) ⊎ (y.status ≡ "planned")

-- the same assignment, whose status may have become that of a proposed plan
pub record IsSame (a b : Assigned) : Type 0 where
  pub id : b.id ≡ a.id
  pub project : b.project_id ≡ a.project_id
  pub manager : b.project_manager_id ≡ a.project_manager_id
  pub name : b.project_manager_name ≡ a.project_manager_name
  pub status : (b.status ≡ a.status) ⊎ (b.status ≡ "planned")
