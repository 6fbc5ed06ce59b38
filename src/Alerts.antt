-- ===== src/Alerts.antt =====
-- virtizai_core/alerts.py: `OperationalEventService`, the persisted state transitions of components and their
-- fan-out. The table is the list of its rows, newest first: `created_at` is taken to grow with each INSERT,
-- so `ORDER BY created_at DESC LIMIT 1` is the first row that fits.
pub mod Chain
use virtiz_ai.Common.{
  ℕ, String, Bool, true, false, ◌&&◌, ◌||◌, not, Option, none, some, List, [], ◌∷◌, if◌then◌else◌,
  first, where_, opt_is, is_some, take, min, ◌==◌,
}

pub data Notification : Type 0 where
  suppressed pending : Notification

pub record Event : Type 0 where
  pub id : String
  pub component_type : String
  pub component_id : String
  pub component_name : String
  pub previous_state : Option String
  pub new_state : String
  pub reason : Option String
  pub severity : String
  pub initial_state : Bool
  pub notification_status : Notification
  pub created_at : ℕ

-- the arguments of `transition`, with the fresh `uuid4` and `now_iso()`
pub record Report : Type 0 where
  pub component_type : String
  pub component_id : String
  pub component_name : String
  pub new_state : String
  pub reason : Option String
  pub severity : String
  pub initial : Bool
  pub event_id : String
  pub now : ℕ

-- WHERE component_type=? AND component_id=?
abbrev pub concerns : String → String → Event → Bool
concerns type id e = e.component_type == type && e.component_id == id

abbrev pub state_of : Option Event → Option String
state_of none = none
state_of (some e) = some e.new_state

unfoldable pub latest : List Event → String → String → Option Event
latest events type id = first (concerns type id) events

abbrev pub event_of : Report → Option String → Event
event_of r previous = record {
  id = r.event_id;
  component_type = r.component_type;
  component_id = r.component_id;
  component_name = r.component_name;
  previous_state = previous;
  new_state = r.new_state;
  reason = r.reason;
  severity = r.severity;
  initial_state = r.initial || not (is_some previous);
  notification_status = if r.initial || not (is_some previous) then suppressed else pending;
  created_at = r.now;
}

-- The table afterwards, and the event that was recorded. The listeners hear of an event exactly if
-- it is `pending`; what they raise is swallowed.
unfoldable pub transition : Report → List Event → List Event × Option Event
unfolding latest
transition r events =
    let previous = state_of (latest events r.component_type r.component_id) in
    if opt_is previous r.new_state
    then (events, none)
    else (event_of r previous ∷ events, some (event_of r previous))

-- the events that the listeners hear of
abbrev pub is_pending : Notification → Bool
is_pending pending = true
is_pending suppressed = false

abbrev pub delivered : Option Event → Bool
delivered none = false
delivered (some e) = is_pending e.notification_status

unfoldable pub reports : List Report → List Event → List Event
reports [] events = events
reports (r ∷ rs) events = reports rs (transition r events).0

-- `history`
pub history : ℕ → List Event → List Event
history limit events = take (min limit 500) events
