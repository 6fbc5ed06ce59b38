-- ===== src/Assignments.antt =====
-- virtizai_core/project_assignments.py: `ProjectAssignmentService`, with the four tables of migration 20 that it
-- reads and writes. A table is the list of its rows, the newest first where a row is inserted.
pub mod Chosen
pub mod Agreement
pub mod Later
use virtiz_ai.Common.{
  ℕ, String, Bool, true, false, ◌&&◌, ◌||◌, Option, none, some, List, [], ◌∷◌, if◌then◌else◌, first,
  where_, any_of, length, update_where, head_or_none, match_some, is_some, mem, Result, ok, raised,
  ◌==◌,
}
use virtiz_ai.Common.Sort.{Order, by_key, lex, sort, nat_order}
use virtiz_ai.Common.Orders.{text_order}

pub record Manager : Type 0 where
  pub id : String
  pub name : String
  pub enabled : Bool

-- a row of `project_assignments`
pub record Assignment : Type 0 where
  pub id : String
  pub project_id : String
  pub project_manager_id : String
  pub assigned_by_user_id : Option String
  pub source_interface : String
  pub status : String

-- the columns of `projects` that the service touches
pub record Project : Type 0 where
  pub id : String
  pub assigned_project_manager_id : Option String
  pub project_manager_assigned_at : Option ℕ
  pub updated_at : ℕ

pub record Audit : Type 0 where
  pub id : String
  pub assignment_id : String
  pub action : String
  pub actor_user_id : Option String
  pub source_interface : String

pub record Tables : Type 0 where
  pub managers : List Manager
  pub projects : List Project
  pub assignments : List Assignment
  pub audits : List Audit

-- `ProjectAssignment`
pub record Assigned : Type 0 where
  pub id : String
  pub project_id : String
  pub project_manager_id : String
  pub project_manager_name : String
  pub status : String

pub data AssignError : Type 0 where
  project_not_found manager_unavailable no_manager_available integrity_error : AssignError

-- the arguments of `assign`, with the two fresh `uuid4` and CURRENT_TIMESTAMP
pub record AssignRequest : Type 0 where
  pub project_id : String
  pub actor_user_id : Option String
  pub source_interface : String
  pub preferred : Option String
  pub assignment_id : String
  pub audit_id : String
  pub now : ℕ

abbrev pub manager_with : String → List Manager → Option Manager
manager_with id managers = first (λ m. m.id == id) managers

abbrev pub assignment_of : String → List Assignment → Option Assignment
assignment_of project_id assignments = first (λ a. a.project_id == project_id) assignments

-- `_result`
abbrev pub result : Assignment → Manager → Assigned
result a m = record {
  id = a.id;
  project_id = a.project_id;
  project_manager_id = a.project_manager_id;
  project_manager_name = m.name;
  status = a.status;
}

-- the first query: `project_id` is UNIQUE in project_assignments, and `id` in project_managers
unfoldable pub existing : String → Tables → Option Assigned
existing project_id t =
    match_some (assignment_of project_id t.assignments) none
      (λ a. match_some (manager_with a.project_manager_id t.managers) none (λ m. some (result a m)))

abbrev pub active_statuses : List String
active_statuses = "assigned" ∷ "planned" ∷ []

-- COUNT(a.id) of the LEFT JOIN
abbrev pub active_assignments : List Assignment → Manager → ℕ
active_assignments assignments m =
    length (where_ (λ a. a.project_manager_id == m.id && mem a.status active_statuses) assignments)

-- ORDER BY active_assignments ASC, pm.id ASC
abbrev pub by_load : List Assignment → Order Manager
by_load assignments =
    lex (by_key (active_assignments assignments) nat_order)
      (by_key (λ (m : Manager). m.id) text_order)

abbrev pub is_enabled : Manager → Bool
is_enabled m = m.enabled

unfoldable pub least_loaded : Tables → Option Manager
least_loaded t = head_or_none (sort (by_load t.assignments) (where_ is_enabled t.managers))

-- an empty preferred identifier counts as none
abbrev pub is_given : Option String → Bool
is_given none = false
is_given (some id) = if id == "" then false else true

abbrev enabled_with : Option String → List Manager → Option Manager
enabled_with none managers = none
enabled_with (some id) managers = first (λ m. m.id == id && m.enabled) managers

abbrev or_raise : Option Manager → AssignError → Result AssignError Manager
or_raise none e = raised e
or_raise (some m) e = ok m

unfoldable pub choose : Option String → Tables → Result AssignError Manager
unfolding least_loaded
choose preferred t =
    if is_given preferred
    then or_raise (enabled_with preferred t.managers) manager_unavailable
    else or_raise (least_loaded t) no_manager_available

abbrev pub new_assignment : AssignRequest → Manager → Assignment
new_assignment r m = record {
  id = r.assignment_id;
  project_id = r.project_id;
  project_manager_id = m.id;
  assigned_by_user_id = r.actor_user_id;
  source_interface = r.source_interface;
  status = "assigned";
}

-- the INSERT, the UPDATE and the INSERT of the audit
unfoldable pub record_assignment : AssignRequest → Manager → Tables → Tables
record_assignment r m t = record t {
  assignments = new_assignment r m ∷ t.assignments;
  projects =
      update_where (λ p. p.id == r.project_id)
        (λ p. record p {
          assigned_project_manager_id = some m.id;
          project_manager_assigned_at = some r.now;
          updated_at = r.now;
        })
        t.projects;
  audits =
      record {
        id = r.audit_id;
        assignment_id = r.assignment_id;
        action = "assigned";
        actor_user_id = r.actor_user_id;
        source_interface = r.source_interface;
      }
      ∷ t.audits;
}

-- The INSERT raises where a row of the project is there whose manager is not, since `project_id` is UNIQUE.
abbrev assign_chosen :
    AssignRequest → Tables → Result AssignError Manager → Tables × Result AssignError Assigned
assign_chosen r t (raised e) = (t, raised e)
assign_chosen r t (ok m) =
    if is_some (assignment_of r.project_id t.assignments)
    then (t, raised integrity_error)
    else (record_assignment r m t, ok (result (new_assignment r m) m))

abbrev has_project : String → List Project → Bool
has_project id projects = any_of (λ p. p.id == id) projects

unfoldable pub assign : AssignRequest → Tables → Tables × Result AssignError Assigned
unfolding existing choose record_assignment
assign r t =
    match_some (existing r.project_id t)
      (if has_project r.project_id t.projects
        then assign_chosen r t (choose r.preferred t)
        else (t, raised project_not_found))
      (λ found. (t, ok found))
