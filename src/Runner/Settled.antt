-- ===== src/Runner/Settled.antt =====
-- virtizai_core/jobs.py: how a task that nobody cancels ends, among the events of other jobs.
use mathlib.Core.Path.{subst}
use virtiz_ai.Common.{
  ℕ, String, ◌≡◌, refl, sym, ◌⊎◌, ◌∙◌, ap, true, false, Option, none, some, List, [], ◌∷◌, ◌++◌,
  All, mem, Bool-cases, inl, inr, ◌==◌, arith, eq_iff,
}
use mathlib.Core.Option.{some-injective}
use virtiz_ai.Common.Dict
use virtiz_ai.Common.Json.{
  Value, null, bool, int, float, str, arr, obj, Members, Elements, field, end, get_field,
}
use virtiz_ai.Jobs.{Status, succeeded, failed, cancelled, Job}
use virtiz_ai.Runner.{
  scheduled, in_handler, notifying, Task, Manager, Event, first_slice, handler_ended, notice_ended,
  HandlerEnd, ListenerEnd, returned, raised_error, was_cancelled, started, finished, final_status,
  status_of, notify, step, run,
}
use virtiz_ai.Runner.Elsewhere.{SameSlot, Spares, run_elsewhere, run-append}
use virtiz_ai.Runner.Outcome.{
  HasSlot, verdict, verdict_of, notice_of, first_slice-HasSlot, handler_ended-HasSlot,
  notice_ended_pops,
}

-- the status in a result says that it succeeded: absent, null or the text
abbrev pub SaysSuccess : Option Value → Type 0
SaysSuccess v = (v ≡ none) ⊎ (v ≡ some null) ⊎ (v ≡ some (str "succeeded"))

-- the status in a result is a list or a dict
abbrev pub IsUnhashable : Option Value → Type 0
IsUnhashable v = ((es : Elements) × (v ≡ some (arr es))) ⊎ ((fs : Members) × (v ≡ some (obj fs)))

abbrev pub error_named : String → Value
error_named name = obj (field "error" (str name) end)

-- what the row of a job says after the end of its handler
pub data Concludes (kind : String) : HandlerEnd → Status → Value → Type 0 where
  success :
      {fs : Members}
      → SaysSuccess (get_field fs "status")
      → Concludes kind (returned (obj fs)) succeeded (obj fs)
  no_success :
      {fs : Members}
      → (SaysSuccess (get_field fs "status") → ⊥)
      → (IsUnhashable (get_field fs "status") → ⊥)
      → Concludes kind (returned (obj fs)) failed (obj fs)
  unhashable_status :
      {fs : Members}
      → IsUnhashable (get_field fs "status")
      → Concludes kind (returned (obj fs)) failed (error_named "TypeError")
  no_dict :
      {v : Value}
      → ((fs : Members) → v ≡ obj fs → ⊥)
      → Concludes kind (returned v) failed (error_named "AttributeError")
  error : {name : String} → Concludes kind (raised_error name) failed (error_named name)
  cancellation :
      Concludes kind was_cancelled cancelled
        (obj (field "worker" (str kind) (field "status" (str "cancelled") end)))

abbrev text_in : Value → String
text_in (str s) = s
text_in _ = ""

str-injective : (a b : String) → str a ≡ str b → a ≡ b
str-injective a b q = ap text_in q

module _ (kind : String) (fs : Members) where
  plain_failure :
      (v : Value)
      → get_field fs "status" ≡ some v
      → (v ≡ null → ⊥)
      → (v ≡ str "succeeded" → ⊥)
      → ((es : Elements) → v ≡ arr es → ⊥)
      → ((gs : Members) → v ≡ obj gs → ⊥)
      → Concludes kind (returned (obj fs)) failed (obj fs)
  plain_failure v e a b c d =
      no_success {fs = fs}
        (λ s. elim s [
          | inl q ↦ absurd (cc (sym e ∙ q))
          | inr (inl q) ↦ a (some-injective v null (sym e ∙ q))
          | inr (inr q) ↦ b (some-injective v (str "succeeded") (sym e ∙ q))
        ])
        (λ s. elim s [
          | inl (es, q) ↦ c es (some-injective v (arr es) (sym e ∙ q))
          | inr (gs, q) ↦ d gs (some-injective v (obj gs) (sym e ∙ q))
        ])

  status-Concludes :
      (v : Option Value)
      → get_field fs "status" ≡ v
      → Concludes kind
          (returned (obj fs))
          (verdict_of (obj fs) (status_of v)).0
          (verdict_of (obj fs) (status_of v)).1
  unfolding status_of
  status-Concludes none e = success (inl e)
  status-Concludes (some null) e = success (inr (inl e))
  status-Concludes (some (str s)) e = elim (Bool-cases (s == "succeeded")) [
    | inl f ↦
        let q : s ≡ "succeeded" = ground (arith, eq_iff s "succeeded") in
        rw f (success (inr (inr (e ∙ ap (λ z. some (str z)) q))))
    | inr f ↦ rw f (
        plain_failure (str s) e (λ q. absurd (cc))
          (λ q. ground (arith, eq_iff s "succeeded", str-injective s "succeeded" q))
          (λ es q. absurd (cc)) (λ gs q. absurd (cc)))
  ]
  status-Concludes (some (bool b)) e =
      plain_failure (bool b) e (λ q. absurd (cc)) (λ q. absurd (cc)) (λ es q. absurd (cc))
        (λ gs q. absurd (cc))
  status-Concludes (some (int n)) e =
      plain_failure (int n) e (λ q. absurd (cc)) (λ q. absurd (cc)) (λ es q. absurd (cc))
        (λ gs q. absurd (cc))
  status-Concludes (some (float x y)) e =
      plain_failure (float x y) e (λ q. absurd (cc)) (λ q. absurd (cc)) (λ es q. absurd (cc))
        (λ gs q. absurd (cc))
  status-Concludes (some (arr es)) e = unhashable_status (inl (es, e))
  status-Concludes (some (obj gs)) e = unhashable_status (inr (gs, e))

verdict-Concludes :
    (kind : String) (e : HandlerEnd) → Concludes kind e (verdict kind e).0 (verdict kind e).1
unfolding verdict final_status
verdict-Concludes kind (returned (obj fs)) = status-Concludes kind fs (get_field fs "status") refl
verdict-Concludes kind (returned null) = no_dict (λ fs q. absurd (cc))
verdict-Concludes kind (returned (bool b)) = no_dict (λ fs q. absurd (cc))
verdict-Concludes kind (returned (int n)) = no_dict (λ fs q. absurd (cc))
verdict-Concludes kind (returned (float x y)) = no_dict (λ fs q. absurd (cc))
verdict-Concludes kind (returned (str s)) = no_dict (λ fs q. absurd (cc))
verdict-Concludes kind (returned (arr es)) = no_dict (λ fs q. absurd (cc))
verdict-Concludes kind (raised_error name) = error
verdict-Concludes kind was_cancelled = cancellation

-- what the run of a task leaves: its row with what the handler's end calls for, and no task
pub record EndsAsCalled (id : String) (job : Job) (kind : String) (begun ended : ℕ) (e : HandlerEnd)
    (m : Manager) : Type 0 where
  pub status : Status
  pub value : Value
  pub concludes : Concludes kind e status value
  pub row :
      Dict.get m.jobs id
      ≡ some (record job {
        status = status;
        result = some value;
        started_at = some begun;
        finished_at = some ended;
      })
  pub dropped : Dict.get m.tasks id ≡ none

-- among the events of other jobs, a slot stays
spared :
    (id : String) (job : Job) (t : Task) (m : Manager) (es : List Event)
    → All (Spares id) es
    → HasSlot id m job t
    → HasSlot id (run m es) job t
unfolding SameSlot
spared id job t m es n h = let (a, b) = run_elsewhere id m es n in (a ∙ h.0, b ∙ h.1)

-- The task of a job that is scheduled and of a registered kind, and that nobody cancels: once its first slice is
-- run, its handler has ended and its listeners have been told, whatever happens to other jobs in between,
-- and whichever listeners raise, the manager has dropped the task, and the row of the job has the times of
-- these slices and the status and the result that the end of the handler calls for: succeeded with a
-- dict whose status is absent, null or `succeeded`, failed with any other result or error, and
-- cancelled where the handler ended in a cancellation. The rest of the row is as before.
pub run_settles :
    (m : Manager) (id : String) (job : Job) (t : Task) (begun ended noticed : ℕ) (e : HandlerEnd)
    (ends : List ListenerEnd) (between later : List Event)
    → HasSlot id m job t
    → t.phase ≡ scheduled
    → t.cancel_requested ≡ false
    → mem t.kind m.handlers ≡ true
    → notify ends ≡ false
    → All (Spares id) between
    → All (Spares id) later
    → EndsAsCalled id job t.kind begun ended e (
        run m (
          first_slice begun id
          ∷ (between
              ++ (handler_ended ended id e ∷ (later ++ (notice_ended noticed id ends ∷ []))))))
unfolding run started finished
run_settles m id job t begun ended noticed e ends between later h p c b q n1 n2 =
    let m1 = step m (first_slice begun id) in
    let t1 : Task = record t { phase = in_handler } in
    let h1 =
      spared id (started begun job) t1 m1 between n1
        (first_slice-HasSlot id job t m begun h p c b) in
    let m2 = step (run m1 between) (handler_ended ended id e) in
    let done = finished ended (verdict t.kind e).0 (verdict t.kind e).1 (started begun job) in
    let t2 : Task = record t { phase = notifying (notice_of e) } in
    let h2 =
      spared id done t2 m2 later n2
        (handler_ended-HasSlot id (started begun job) t1 (run m1 between) ended h1 e refl) in
    let last = notice_ended_pops id done t2 (run m2 later) noticed h2 (notice_of e) ends refl q in
    subst (EndsAsCalled id job t.kind begun ended e)
      (sym (
        run-append m1 between
          (handler_ended ended id e ∷ (later ++ (notice_ended noticed id ends ∷ [])))
        ∙ run-append m2 later (notice_ended noticed id ends ∷ [])))
      (record {
        status = (verdict t.kind e).0;
        value = (verdict t.kind e).1;
        concludes = verdict-Concludes t.kind e;
        row = last.0;
        dropped = last.1;
      })
