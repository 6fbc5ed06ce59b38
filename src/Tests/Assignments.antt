-- ===== src/Tests/Assignments.antt =====
-- The assignment of project managers at concrete tables.
use virtiz_ai.Common.{List, [], ◌∷◌, String, ◌≡◌, refl, ◌⊎◌, true, none, some, [], ◌∷◌, Among, ok}
use virtiz_ai.Common.Sort.{sort, insert}
use virtiz_ai.Assignments.{
  Manager, Project, Tables, Assigned, AssignRequest, existing, result, is_given, new_assignment,
  record_assignment, assign, choose, least_loaded,
}
use virtiz_ai.Assignments.Chosen.{IsLeastLoaded, assign-IsLeastLoaded}
use virtiz_ai.Assignments.Later.{Change, asked, proposed}
use virtiz_ai.Assignments.Agreement.{IsAgreed, assign-IsAgreed}

abbrev sarah : Manager
sarah = record { id = "pm-sarah"; name = "Sarah"; enabled = true }

abbrev daniel : Manager
daniel = record { id = "pm-daniel"; name = "Daniel"; enabled = true }

abbrev unassigned : String → Project
unassigned id = record {
  id = id;
  assigned_project_manager_id = none;
  project_manager_assigned_at = none;
  updated_at = 0;
}

abbrev tables : Tables
tables = record {
  managers = sarah ∷ daniel ∷ [];
  projects = unassigned "p" ∷ unassigned "q" ∷ [];
  assignments = [];
  audits = [];
}

abbrev ask : String → String → AssignRequest
ask project_id fresh = record {
  project_id = project_id;
  actor_user_id = none;
  source_interface = "web";
  preferred = none;
  assignment_id = fresh;
  audit_id = fresh;
  now = 4;
}

abbrev given : Assigned
given = result (new_assignment (ask "p" "a") daniel) daniel

first_given : (assign (ask "p" "a") tables).1 ≡ ok given
unfolding assign existing choose least_loaded sort insert
first_given = refl

second_given :
    (assign (ask "q" "b") (assign (ask "p" "a") tables).0).1
    ≡ ok (result (new_assignment (ask "q" "b") sarah) sarah)
unfolding assign existing choose least_loaded sort insert record_assignment
second_given = refl

assign-IsLeastLoaded_example :
    ((existing "p" tables ≡ some given) × ((assign (ask "p" "a") tables).0 ≡ tables))
    ⊎ ((m : Manager) × Among m tables.managers
        × (m.enabled ≡ true)
        × ((is_given none ≡ true) ⊎ IsLeastLoaded m tables)
        × ((assign (ask "p" "a") tables).0 ≡ record_assignment (ask "p" "a") m tables)
        × (given ≡ result (new_assignment (ask "p" "a") m) m))
assign-IsLeastLoaded_example = assign-IsLeastLoaded (ask "p" "a") tables given first_given

-- another project is assigned, and a plan is proposed
abbrev meanwhile : List Change
meanwhile = asked (ask "q" "b") ∷ proposed "a" ∷ []

assign-IsAgreed_instance : IsAgreed (assign (ask "p" "a") tables).0
assign-IsAgreed_instance = assign-IsAgreed (ask "p" "a") tables (refl, (refl, tt))
