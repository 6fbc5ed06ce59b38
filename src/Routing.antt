-- ===== src/Routing.antt =====
-- virtizai_core/routing.py: the rows that the routing queries join, and the locality of a model. The REAL
-- columns are Python floats, which stay a parameter: SQLite stores no NaN, so `<=` orders them totally.
pub mod Strategy
pub mod Selection
pub mod Ordering
pub mod Qualified
pub mod Selected
pub mod Returns
use virtiz_ai.Common.{
  ℕ, String, Bool, true, false, ◌&&◌, ◌||◌, Option, none, some, List, [], ◌∷◌, if◌then◌else◌, mem,
  where_, take, match_some, Result, ok, raised, ◌==◌,
}
use virtiz_ai.Common.Sort.{Order, by_key, lex, sort}
use virtiz_ai.Common.Orders.{int_order}
use virtiz_ai.Common.Json.{ℤ, Value, str, arr, obj, get_value}
use virtiz_ai.Capability.{Evidence, Unhashable, unhashable}

pub record Floats : Type 1 where
  pub Float : Type 0
  pub order : Order Float
  pub is_zero : Float → Bool
  pub add : Float → Float → Float
  pub thousandth : Float → Float
  pub from_int : ℤ → Float
  pub one : Float
  pub thousand : Float
  pub huge : Float  -- 1e12

-- One row of routes JOIN route_targets JOIN providers JOIN models.
pub record Row (F : Type 0) : Type 0 where
  pub role_id : String
  pub route_id : String
  pub route_enabled : Bool
  pub policy : Option Value
  pub priority : ℤ
  pub ordinal : ℤ
  pub target_enabled : Bool
  pub conditions : Option Value
  pub provider_id : String
  pub provider_name : String
  pub provider_enabled : Bool
  pub health_status : String
  pub model_id : String
  pub model_name : String
  pub model_status : String
  pub capabilities : Option Value
  pub user_overrides : Option Value
  pub expected_latency_ms : Option F
  pub first_token_latency_ms : Option F
  pub relative_cost : Option F
  pub locality : Option String

abbrev is_locality : String → Bool
is_locality s = s == "local" || s == "remote"

-- a list or a dict cannot be looked up in a set
abbrev valid_locality : Option Value → Result Unhashable (Option String)
valid_locality (some (arr es)) = raised unhashable
valid_locality (some (obj fs)) = raised unhashable
valid_locality (some (str s)) = ok (if is_locality s then some s else none)
valid_locality _ = ok none

abbrev overridden_locality : Option Value → Result Unhashable (Option String)
overridden_locality none = ok none
overridden_locality (some overrides) = valid_locality (get_value overrides "locality")

-- the override counts where the column holds neither of the two texts
unfoldable pub effective_locality : {F : Type 0} → Row F → Result Unhashable (Option String)
effective_locality row = elim row.locality [
  | none ↦ overridden_locality row.user_overrides
  | some s ↦ if is_locality s then ok (some s) else overridden_locality row.user_overrides
]

abbrev pub or_none : Result Unhashable (Option String) → Option String
or_none (ok l) = l
or_none (raised e) = none

-- the locality of a row, where it is not an exception
abbrev pub known_locality : {F : Type 0} → Row F → Option String
known_locality row = or_none (effective_locality row)

abbrev pub has_locality : {F : Type 0} → Row F → Bool
has_locality row = elim (effective_locality row) [ ok l ↦ true | raised e ↦ false ]
