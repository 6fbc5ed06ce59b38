-- ===== src/InfraPolicy/Scope.antt =====
-- The bounds of the configured resource scope.
use Prim.Native.String.{count}
use virtiz_ai.Common.{
  inl, inr, ◌≤◌, ◌<◌, String, ◌≡◌, none, List, [], ◌∷◌, arith, ltb, leb, length, take, All,
  length-take-le, Bool-cases, ltb→lt, leb→le, &&-left, &&-right, ◌&&◌,
}
use virtiz_ai.Common.Json.{Value, str, arr, Members, elements, get_field}
use virtiz_ai.InfraPolicy.{resource_scope, scope_of, scope_texts, scope_values}

abbrev pub IsBoundedScope : List String → Type 0
IsBoundedScope ids = (length ids ≤ 50) × All (λ s. (0 < count s) × (count s ≤ 120)) ids

scope_texts_shorter : (vs : List Value) → length (scope_texts vs) ≤ length vs
scope_texts_shorter [] = omega arith
scope_texts_shorter (str s ∷ vs) = ground (arith, scope_texts_shorter vs)
scope_texts_shorter (_ ∷ vs) = omega (arith, scope_texts_shorter vs)

scope_texts_sized : (vs : List Value) → All (λ s. (0 < count s) × (count s ≤ 120)) (scope_texts vs)
scope_texts_sized [] = tt
scope_texts_sized (str s ∷ vs) = elim (Bool-cases (ltb 0 (count s) && leb (count s) 120)) [
  | inl e ↦ rw e (
    (ltb→lt 0 (count s) (&&-left _ _ e), leb→le (count s) 120 (&&-right _ _ e)),
    scope_texts_sized vs,
  )
  | inr e ↦ rw e (scope_texts_sized vs)
]
scope_texts_sized (_ ∷ vs) = scope_texts_sized vs

scope_of-IsBoundedScope : (v : Value) → IsBoundedScope (scope_of v)
scope_of-IsBoundedScope (arr es) = (
  omega (arith, scope_texts_shorter (take 50 (elements es)), length-take-le 50 (elements es)),
  scope_texts_sized (take 50 (elements es)),
)
scope_of-IsBoundedScope _ = (omega arith, tt)

-- The scope of any operation under any configuration has at most 50 identifiers, each of 1 to 120 characters.
pub resource_scope_bounded :
    (config : Members) (operation : String) → IsBoundedScope (resource_scope config operation)
unfolding resource_scope
resource_scope_bounded config operation = scope_of-IsBoundedScope (scope_values config operation)

-- A configuration that names neither of the two scope fields gives the empty scope, never a wildcard.
pub resource_scope_absent :
    (config : Members) (operation : String)
    → get_field config "operation_resource_ids" ≡ none
    → get_field config "allowed_resource_ids" ≡ none
    → resource_scope config operation ≡ []
unfolding resource_scope
resource_scope_absent config operation h k = ground arith
