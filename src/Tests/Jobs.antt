-- ===== src/Tests/Jobs.antt =====
-- The jobs table at concrete inputs.
use virtiz_ai.Common.{
  ◌+◌, ◌≤◌, String, ◌≡◌, refl, ◌⊎◌, false, none, some, List, [], ◌∷◌, arith, if◌then◌else◌, ok,
  raised, ◌==◌,
}
use virtiz_ai.Common.Dict
use virtiz_ai.Common.Dict.{Dict}
use virtiz_ai.Common.Json.{null}
use virtiz_ai.Jobs.{
  queued, running, succeeded, cancelled, Job, Request, Delegation, cannot_transition, stamped,
  transition, transitions, create_delegated,
}
use virtiz_ai.Jobs.Machine.{◌⟶◌, is_terminal, IsTimedTable, transition-refines}
use virtiz_ai.Jobs.Trace.{transitions-IsTimedTable, transitions_bounded, moves, moves_left}

abbrev order : Delegation
order = record {
  kind = "coding";
  payload = null;
  user_id = some "u";
  session_id = none;
  project_id = none;
  role_id = none;
  provider_id = none;
  model_id = none;
  worker_id = none;
  environment_target_id = none;
  objective = some "fix";
}

abbrev waiting : Job
waiting = record {
  user_id = some "u";
  session_id = none;
  project_id = none;
  role_id = none;
  provider_id = none;
  model_id = none;
  worker_id = none;
  environment_target_id = none;
  kind = "coding";
  status = queued;
  objective = some "fix";
  payload = null;
  result = none;
  started_at = none;
  finished_at = none;
}

abbrev table : Dict Job
table = record { entries = ("j", waiting) ∷ [] }

created : create_delegated "j" order Dict.empty ≡ (table, ok "j")
unfolding create_delegated Dict.empty Dict.get Dict.put
created = refl

abbrev lifetime : List Request
lifetime =
    record { now = 5; job_id = "j"; status = running }
    ∷ record { now = 6; job_id = "j"; status = queued }
    ∷ record { now = 9; job_id = "j"; status = succeeded }
    ∷ record { now = 10; job_id = "j"; status = cancelled }
    ∷ []

lifetime_end :
    Dict.get (transitions table lifetime) "j"
    ≡ some (record waiting { status = succeeded; started_at = some 5; finished_at = some 9 })
unfolding transitions transition Dict.get Dict.put
lifetime_end = refl

found : Dict.get table "j" ≡ some waiting
unfolding Dict.get
found = refl

table_IsTimed : IsTimedTable table
unfolding Dict.get
table_IsTimed k job h = ground arith

transition-refines_example :
    ((queued ⟶ running)
      × ((transition 5 "j" running table).1 ≡ ok (some (stamped 5 running waiting)))
      × ((k : String)
          → Dict.get (transition 5 "j" running table).0 k
            ≡ (if "j" == k then some (stamped 5 running waiting) else Dict.get table k)))
    ⊎ ((¬ (queued ⟶ running))
        × (transition 5 "j" running table ≡ (table, raised (cannot_transition queued running))))
transition-refines_example = transition-refines 5 "j" running table waiting found

transitions-IsTimedTable_example : IsTimedTable (transitions table lifetime)
transitions-IsTimedTable_example = transitions-IsTimedTable table lifetime table_IsTimed

transitions_bounded_example :
    (job' : Job) × (Dict.get (transitions table lifetime) "j" ≡ some job')
    × (moves "j" table lifetime + moves_left job'.status ≤ moves_left waiting.status)
    × ((is_terminal waiting.status ≡ false) ⊎ (job' ≡ waiting))
transitions_bounded_example = transitions_bounded "j" table lifetime waiting found
