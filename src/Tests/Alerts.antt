-- ===== src/Tests/Alerts.antt =====
-- Operational events at concrete inputs.
use virtiz_ai.Common.{
  ℕ, String, ◌≡◌, refl, true, false, not, ◌&&◌, none, List, [], ◌∷◌, if◌then◌else◌, opt_is, is_some,
  map,
}
use virtiz_ai.Alerts.{Event, Report, latest, state_of, event_of, transition, reports, delivered}
use virtiz_ai.Alerts.Chain.{IsChain, of_component, reports-IsChain, transition_delivers}

abbrev says : String → String → ℕ → Report
says id state now = record {
  component_type = "worker";
  component_id = id;
  component_name = id;
  new_state = state;
  reason = none;
  severity = "info";
  initial = false;
  event_id = "e";
  now = now;
}

abbrev told : List Report
told = says "w" "up" 1 ∷ says "v" "up" 2 ∷ says "w" "up" 3 ∷ says "w" "down" 4 ∷ []

recorded_states :
    map {B = String × String} (λ (e : Event). (e.component_id, e.new_state)) (reports told [])
    ≡ ("w", "down") ∷ ("v", "up") ∷ ("w", "up") ∷ []
unfolding reports transition latest
recorded_states = refl

reports-IsChain_example : IsChain (of_component "worker" "w" (reports told []))
reports-IsChain_example = reports-IsChain "worker" "w" told [] tt

abbrev before : List Event
before = event_of (says "w" "up" 1) none ∷ []

transition_delivers_instance :
    let r = says "w" "down" 4 in
    let previous = state_of (latest before "worker" "w") in
    let (events', event) = transition r before in
    (is_some event ≡ not (opt_is previous "down"))
    × (delivered event ≡ (is_some event && true && is_some previous))
    × (events' ≡ (if is_some event then event_of r previous ∷ before else before))
transition_delivers_instance = transition_delivers (says "w" "down" 4) before
