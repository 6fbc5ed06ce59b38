-- ===== src/Alerts/Chain.antt =====
-- The events of one component form a chain of real changes.
use virtiz_ai.Common.{
  String, ◌≡◌, refl, inl, inr, true, false, not, ◌&&◌, Option, none, some, List, [], ◌∷◌, arith,
  if◌then◌else◌, where_, opt_is, is_some, if_ind, &&-left, &&-right, ◌∙◌, Bool-cases, ◌==◌, eq_iff,
}
use virtiz_ai.Alerts.{
  Event, Report, suppressed, concerns, state_of, latest, event_of, transition, reports, delivered,
}

-- Newest first: each event starts from the state of the one before it and changes it; the oldest has no
-- previous state and was not announced.
abbrev pub IsChain : List Event → Type 0
IsChain [] = Unit
IsChain (e ∷ []) = (e.previous_state ≡ none) × (e.notification_status ≡ suppressed)
IsChain (e ∷ f ∷ es) =
    (e.previous_state ≡ some f.new_state)
    × ((e.new_state == f.new_state) ≡ false)
    × IsChain (f ∷ es)

-- the rows of one component
abbrev pub of_component : String → String → List Event → List Event
of_component type id events = where_ (concerns type id) events

head_state : List Event → Option String
head_state [] = none
head_state (e ∷ es) = some e.new_state

latest-head :
    (type id : String) (events : List Event)
    → state_of (latest events type id) ≡ head_state (of_component type id events)
unfolding latest head_state
latest-head type id [] = refl
latest-head type id (e ∷ es) = elim (Bool-cases (concerns type id e)) [
  | inl h ↦ rw h
  | inr h ↦ rw h (latest-head type id es)
]

-- an event that starts at the head's state and changes it prolongs the chain
prolonged :
    (r : Report) (es : List Event)
    → opt_is (head_state es) r.new_state ≡ false
    → IsChain es
    → IsChain (event_of r (head_state es) ∷ es)
unfolding head_state
prolonged r [] ne c = ground arith
prolonged r (f ∷ es) ne c =
    (refl, ground (arith, eq_iff f.new_state r.new_state, eq_iff r.new_state f.new_state), c)

-- the event of a report prolongs the chain of its own component
recorded :
    (r : Report) (events : List Event) (previous : Option String)
    → previous ≡ state_of (latest events r.component_type r.component_id)
    → opt_is previous r.new_state ≡ false
    → (type id : String) → (r.component_type == type && r.component_id == id) ≡ true
    → IsChain (of_component type id events)
    → IsChain (event_of r previous ∷ of_component type id events)
recorded r events previous p ne type id h c =
    let same_type : r.component_type ≡ type = (eq_iff r.component_type type).0 (&&-left _ _ h) in
    let same_id : r.component_id ≡ id = (eq_iff r.component_id id).0 (&&-right _ _ h) in
    let q : previous ≡ head_state (of_component type id events) =
      p ∙ rw (same_type, same_id) (latest-head type id events) in
    rw q (prolonged r (of_component type id events) (rw q at ne) c)

module _ (type id : String) (r : Report) (events : List Event) where
  transition-IsChain :
      IsChain (of_component type id events) → IsChain (of_component type id (transition r events).0)
  unfolding transition
  transition-IsChain c =
      let previous = state_of (latest events r.component_type r.component_id) in
      if_ind (λ (s : List Event × Option Event). IsChain (of_component type id s.0))
        (opt_is previous r.new_state) _ _ (λ _. c)
        (λ ne. elim (Bool-cases (r.component_type == type && r.component_id == id)) [
          | inl h ↦ rw h (recorded r events previous refl ne type id h c)
          | inr h ↦ rw h c
        ])

-- Whatever is reported, in whatever order, the recorded events of every component stay a chain: each starts
-- from the state that the one before it reached and changes it, and the first one is not announced.
pub reports-IsChain :
    (type id : String) (rs : List Report) (events : List Event)
    → IsChain (of_component type id events)
    → IsChain (of_component type id (reports rs events))
unfolding reports
reports-IsChain type id [] events c = c
reports-IsChain type id (r ∷ rs) events c =
    reports-IsChain type id rs (transition r events).0 (transition-IsChain type id r events c)

-- A report is recorded exactly if it changes the latest state of its component, and the listeners hear of it
-- exactly if it is also not marked as initial and not the first of its component. Otherwise the table
-- stays as it was.
pub transition_delivers :
    (r : Report) (events : List Event)
    → let previous = state_of (latest events r.component_type r.component_id) in
      let (events', event) = transition r events in
      (is_some event ≡ not (opt_is previous r.new_state))
      × (delivered event ≡ (is_some event && not r.initial && is_some previous))
      × (events' ≡ (if is_some event then event_of r previous ∷ events else events))
unfolding transition
transition_delivers r events = ground arith
