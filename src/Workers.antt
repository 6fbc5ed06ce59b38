-- ===== src/Workers.antt =====
-- virtizai_core/workers.py: `WorkerExecutionBoundary.execute`, which admits a request to a registered executor. The
-- executor is known by how it ends. Python's `==` between JSON values is a parameter.
pub mod Admitted
use virtiz_ai.Common.{
  ℕ, String, Bool, true, false, not, ◌||◌, Option, none, some, List, [], ◌∷◌, if◌then◌else◌, first,
  any_of, all_of, mem, match_some, otherwise, Result, ok, raised, ◌>>=◌, ensure, ensure_some, ◌==◌,
}
use virtiz_ai.Common.Json.{
  Value, null, str, arr, obj, Members, end, field, elements, no_more, get_field, text_in,
}

-- a JSON column: NULL or empty, a text that `json.loads` refuses, or the value it makes
pub data Column : Type 0 where
  absent refused : Column
  holds : Value → Column

-- a row of `workers`
pub record Worker : Type 0 where
  pub id : String
  pub enabled : Bool
  pub status : String
  pub worker_type : String
  pub config : Column

-- a row of `environment_targets`
pub record Environment : Type 0 where
  pub id : String
  pub enabled : Bool
  pub status : String
  pub config : Column
  pub capabilities : Column

pub record ExecutionResult : Type 0 where
  pub status : String
  pub output : Members
  pub error_summary : Option String
  pub duration_ms : Option ℕ

-- the executor raises, returns something else, or returns a result
pub data ExecutorEnd : Type 0 where
  raises returns_other : ExecutorEnd
  returns : ExecutionResult → ExecutorEnd

pub data BoundaryError : Type 0 where
  worker_not_found environment_not_found worker_disabled environment_disabled worker_unavailable
        environment_unavailable unknown_worker_type incompatible type_not_allowed :
      BoundaryError
  decode_error type_error : BoundaryError

abbrev pub unavailable_states : List String
unavailable_states = "disabled" ∷ "unavailable" ∷ "offline" ∷ "error" ∷ "failed" ∷ []

-- `_json`
abbrev pub object_of : Column → Members
object_of (holds (obj fs)) = fs
object_of _ = end

abbrev is_hashable : Value → Bool
is_hashable (arr es) = false
is_hashable (obj fs) = false
is_hashable _ = true

abbrev letters : String → List Value
letters String.[] = []
letters (String.◌∷◌ c s) = str (String.◌∷◌ c String.[]) ∷ letters s

abbrev keys_of : Members → List Value
keys_of end = []
keys_of (field k v fs) = str k ∷ keys_of fs

-- `set(x)` of a JSON value
abbrev pub set_of : Value → Result BoundaryError (List Value)
set_of (arr es) = if all_of is_hashable (elements es) then ok (elements es) else raised type_error
set_of (str s) = ok (letters s)
set_of (obj fs) = ok (keys_of fs)
set_of _ = raised type_error

-- `json.loads(environment["capabilities_json"] or "[]")`
abbrev pub loaded : Column → Result BoundaryError Value
loaded absent = ok (arr no_more)
loaded refused = raised decode_error
loaded (holds v) = ok v

abbrev pub required_of : Worker → Result BoundaryError (List Value)
required_of w =
    set_of
      (otherwise (get_field (object_of w.config) "required_environment_capabilities") (arr no_more))

abbrev pub provided_of : Environment → Result BoundaryError (List Value)
provided_of e = loaded e.capabilities >>= λ v. set_of v

-- `not isinstance(allowed_types, list) or worker_type in allowed_types`
abbrev pub allows_type : Environment → String → Bool
allows_type e worker_type = elim (get_field (object_of e.config) "allowed_worker_types") [
  | some (arr es) ↦ text_in worker_type (elements es)
  | _ ↦ true
]

abbrev failure : String → ℕ → ExecutionResult
failure summary elapsed = record {
  status = "failed";
  output = end;
  error_summary = some summary;
  duration_ms = some elapsed;
}

-- what the boundary returns when the executor has ended
abbrev pub settled : ℕ → ExecutorEnd → ExecutionResult
settled elapsed raises = failure "Worker executor failed" elapsed
settled elapsed returns_other = failure "Worker executor returned an invalid result" elapsed
settled elapsed (returns r) = record r { duration_ms = some (otherwise r.duration_ms elapsed) }

module _ (equal : Value → Value → Bool) where
  -- `required.issubset(provided)`
  abbrev pub within : List Value → List Value → Bool
  within required provided = all_of (λ v. any_of (equal v) provided) required

  -- the tests on capabilities and types, before the executor is called
  unfoldable pub check_compatible :
      Worker
      → Environment
      → Result BoundaryError ExecutionResult
      → Result BoundaryError ExecutionResult
  check_compatible w e rest = required_of w >>= λ required. provided_of e >>= λ provided.
      ensure (within required provided) incompatible
        (ensure (allows_type e w.worker_type) type_not_allowed rest)

  unfoldable pub check_worker :
      List String
      → Worker
      → Environment
      → Result BoundaryError ExecutionResult
      → Result BoundaryError ExecutionResult
  unfolding check_compatible
  check_worker executors w e rest = ensure w.enabled worker_disabled (
      ensure e.enabled environment_disabled (
        ensure (not (mem w.status unavailable_states)) worker_unavailable (
          ensure (not (mem e.status unavailable_states)) environment_unavailable (
            ensure (mem w.worker_type executors) unknown_worker_type (check_compatible w e rest)))))

  -- `executors` are the worker types that are registered
  unfoldable pub execute :
      List String
      → List Worker
      → List Environment
      → String
      → String
      → ℕ
      → ExecutorEnd
      → Result BoundaryError ExecutionResult
  unfolding check_worker
  execute executors workers environments worker_id environment_id elapsed end_ =
      ensure_some (first (λ (w : Worker). w.id == worker_id) workers) worker_not_found (λ w.
        ensure_some (first (λ (e : Environment). e.id == environment_id) environments)
          environment_not_found (λ e. check_worker executors w e (ok (settled elapsed end_))))
