-- ===== src/Common/Json.antt =====
-- The values that `json.loads` returns. A number written with a fraction or an exponent keeps its decimal
-- mantissa and its power of ten. The keys of an object are distinct, as in the dict it becomes.
use virtiz_ai.Common.{
  ℕ, zero, String, Bool, true, false, Option, none, some, List, [], ◌∷◌, ◌==◌, if◌then◌else◌,
}

pub data ℤ : Type 0 where
  pos : ℕ → ℤ
  negsuc : ℕ → ℤ

mutual
  pub data Value : Type 0 where
    null : Value
    bool : Bool → Value
    int : ℤ → Value
    float : ℤ → ℤ → Value
    str : String → Value
    arr : Elements → Value
    obj : Members → Value

  pub data Elements : Type 0 where
    no_more : Elements
    element : Value → Elements → Elements

  pub data Members : Type 0 where
    end : Members
    field : String → Value → Members → Members

abbrev pub elements : Elements → List Value
elements no_more = []
elements (element v vs) = v ∷ elements vs

-- `o.get(k)` of a dict
abbrev pub get_field : Members → String → Option Value
get_field end k = none
get_field (field j v fs) k = if j == k then some v else get_field fs k

-- `x.get(k)`, or `None` where `x` is no dict
abbrev pub get_value : Value → String → Option Value
get_value (obj fs) k = get_field fs k
get_value _ k = none

abbrev pub is_obj : Value → Bool
is_obj (obj fs) = true
is_obj _ = false

abbrev is_zero : ℤ → Bool
is_zero (pos zero) = true
is_zero _ = false

-- `bool(x)`
abbrev pub truthy : Value → Bool
truthy null = false
truthy (bool b) = b
truthy (int n) = if is_zero n then false else true
truthy (float m e) = if is_zero m then false else true
truthy (str s) = if s == "" then false else true
truthy (arr no_more) = false
truthy (arr (element v vs)) = true
truthy (obj end) = false
truthy (obj (field k v fs)) = true

-- `x == k` for a text `k`
abbrev pub is_text : Value → String → Bool
is_text (str s) k = s == k
is_text _ k = false

-- `k in x` for a list `x`
abbrev pub text_in : String → List Value → Bool
text_in k [] = false
text_in k (v ∷ vs) = if is_text v k then true else text_in k vs
