-- ===== src/Workers/Admitted.antt =====
-- Which requests reach an executor.
use virtiz_ai.Common.{
  ℕ, String, ◌≡◌, refl, Bool, true, not, some, List, first, mem, Result, ok, bind-ok, ok-injective,
  ensure-ok, ensure_some-ok, sym, ◌==◌,
}
use virtiz_ai.Common.Json.{Value}
use virtiz_ai.Workers.{
  Worker, Environment, ExecutionResult, ExecutorEnd, BoundaryError, unavailable_states, required_of,
  provided_of, allows_type, within, settled, check_compatible, check_worker, execute,
}

module _ (equal : Value → Value → Bool) (executors : List String) where
  -- A worker and an environment that are enabled and not known to be down, of a registered type that the
  -- environment allows, with capabilities that can be read and suffice.
  pub record Fits (w : Worker) (e : Environment) : Type 0 where
    pub worker_on : w.enabled ≡ true
    pub environment_on : e.enabled ≡ true
    pub worker_up : not (mem w.status unavailable_states) ≡ true
    pub environment_up : not (mem e.status unavailable_states) ≡ true
    pub registered : mem w.worker_type executors ≡ true
    pub required : List Value
    pub provided : List Value
    pub requires : required_of w ≡ ok required
    pub provides : provided_of e ≡ ok provided
    pub suffices : within equal required provided ≡ true
    pub allowed : allows_type e w.worker_type ≡ true

  checked-Fits :
      (w : Worker) (e : Environment) (rest : Result BoundaryError ExecutionResult)
      (r : ExecutionResult)
      → check_worker equal executors w e rest ≡ ok r
      → Fits w e × (rest ≡ ok r)
  unfolding check_worker check_compatible
  checked-Fits w e rest r h =
      let (a, h1) = ensure-ok _ _ _ r h in
      let (b, h2) = ensure-ok _ _ _ r h1 in
      let (c, h3) = ensure-ok _ _ _ r h2 in
      let (d, h4) = ensure-ok _ _ _ r h3 in
      let (i, h5) = ensure-ok _ _ _ r h4 in
      let (required, j, h6) = bind-ok (required_of w) _ r h5 in
      let (provided, k, h7) = bind-ok (provided_of e) _ r h6 in
      let (l, h8) = ensure-ok _ _ _ r h7 in
      let (m, h9) = ensure-ok _ _ _ r h8 in
      (
        record {
          worker_on = a;
          environment_on = b;
          worker_up = c;
          environment_up = d;
          registered = i;
          required = required;
          provided = provided;
          requires = j;
          provides = k;
          suffices = l;
          allowed = m;
        },
        h9,
      )

  Fits-checked :
      (w : Worker) (e : Environment) (rest : Result BoundaryError ExecutionResult)
      → Fits w e
      → check_worker equal executors w e rest ≡ rest
  unfolding check_worker check_compatible
  Fits-checked w e rest f =
      rw
        (
          f.worker_on, f.environment_on, f.worker_up, f.environment_up, f.registered, f.requires,
          f.provides, f.suffices, f.allowed,
        )
        refl

  module _ (workers : List Worker) (environments : List Environment)
      (worker_id environment_id : String) (elapsed : ℕ) (end_ : ExecutorEnd) where
    -- A request that returns at all returns what the end of the executor calls for, and its worker and
    -- environment are in the tables and fit together.
    pub execute-Fits :
        (r : ExecutionResult)
        → execute equal executors workers environments worker_id environment_id elapsed end_ ≡ ok r
        → (w : Worker) × (e : Environment) × (first (λ (w : Worker). w.id == worker_id) workers
            ≡ some w)
          × (first (λ (e : Environment). e.id == environment_id) environments ≡ some e)
          × Fits w e
          × (r ≡ settled elapsed end_)
    unfolding execute
    execute-Fits r h =
        let (w, found_w, h1) =
          ensure_some-ok (first (λ (w : Worker). w.id == worker_id) workers) _ _ r h in
        let (e, found_e, h2) =
          ensure_some-ok (first (λ (e : Environment). e.id == environment_id) environments) _ _ r
            h1 in
        let (fits, h3) = checked-Fits w e (ok (settled elapsed end_)) r h2 in
        (w, e, found_w, found_e, fits, sym (ok-injective (settled elapsed end_) r h3))

    -- A request whose worker and environment are in the tables and fit together returns, whether the executor
    -- raises, returns something else, or a result.
    pub Fits-execute :
        (w : Worker) (e : Environment)
        → first (λ (w : Worker). w.id == worker_id) workers ≡ some w
        → first (λ (e : Environment). e.id == environment_id) environments ≡ some e
        → Fits w e
        → execute equal executors workers environments worker_id environment_id elapsed end_
          ≡ ok (settled elapsed end_)
    unfolding execute
    Fits-execute w e found_w found_e fits =
        rw (found_w, found_e) (Fits-checked w e (ok (settled elapsed end_)) fits)
