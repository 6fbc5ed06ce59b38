-- ===== src/Routing/Ordering.antt =====
-- What the four strategies do to the routes of a role.
use virtiz_ai.Common.{false, List}
use mathlib.Core.List.{Perm}
use mathlib.Core.List.Perm
use virtiz_ai.Routing.{Row}
use virtiz_ai.Routing.Strategy.{EligibleRoute, route_of}

module _ {F : Type 0} where
  -- a route without its mark of a provider seen before
  abbrev pub unmarked : EligibleRoute F → EligibleRoute F
  unmarked r = record r { same_provider_fallback = false }

  abbrev pub route_of_row : Row F → EligibleRoute F
  route_of_row r = route_of r false
