-- ===== src/Common/Orders.antt =====
-- The orders of the keys that the program sorts by: integers, and texts by their code points.
use Prim.Native.Char.{code}
use virtiz_ai.Common.{
  ℕ, String, ◌≡◌, refl, ◌⊎◌, inl, inr, Bool, true, false, List, [], ◌∷◌, arith, if◌then◌else◌, ltb,
  nat_eq, ◌&&◌, leb,
}
use virtiz_ai.Common.Json.{ℤ, pos, negsuc}
use virtiz_ai.Common.Sort.{Order, by_key}

abbrev pub int_le : ℤ → ℤ → Bool
int_le (pos m) (pos n) = leb m n
int_le (pos m) (negsuc n) = false
int_le (negsuc m) (pos n) = true
int_le (negsuc m) (negsuc n) = leb n m

pub int_le_total : (a b : ℤ) → (int_le a b ≡ true) ⊎ (int_le b a ≡ true)
int_le_total a b = ground arith

pub int_le_trans : (a b c : ℤ) → int_le a b ≡ true → int_le b c ≡ true → int_le a c ≡ true
int_le_trans a b c h k = ground arith

abbrev pub int_order : Order ℤ
int_order = record { le = int_le; total = int_le_total; trans = int_le_trans }

abbrev pub codes : String → List ℕ
codes String.[] = []
codes (String.◌∷◌ c s) = code c ∷ codes s

abbrev pub codes_le : List ℕ → List ℕ → Bool
codes_le [] ys = true
codes_le (x ∷ xs) [] = false
codes_le (x ∷ xs) (y ∷ ys) =
    let rest = codes_le xs ys in if ltb x y then true else if ltb y x then false else rest

pub codes_le_total : (xs ys : List ℕ) → (codes_le xs ys ≡ true) ⊎ (codes_le ys xs ≡ true)
codes_le_total [] ys = inl refl
codes_le_total (x ∷ xs) [] = inr refl
codes_le_total (x ∷ xs) (y ∷ ys) = ground (arith, codes_le_total xs ys)

pub codes_le_trans :
    (xs ys zs : List ℕ) → codes_le xs ys ≡ true → codes_le ys zs ≡ true → codes_le xs zs ≡ true
codes_le_trans [] ys zs h k = refl
codes_le_trans (x ∷ xs) [] zs h k = cc
codes_le_trans (x ∷ xs) (y ∷ ys) [] h k = cc
codes_le_trans (x ∷ xs) (y ∷ ys) (z ∷ zs) h k = ground (arith, codes_le_trans xs ys zs)

abbrev pub codes_order : Order (List ℕ)
codes_order = record { le = codes_le; total = codes_le_total; trans = codes_le_trans }

abbrev pub text_order : Order String
text_order = by_key codes codes_order

-- `str.startswith`, on code points
abbrev pub is_prefix : List ℕ → List ℕ → Bool
is_prefix [] cs = true
is_prefix (p ∷ ps) [] = false
is_prefix (p ∷ ps) (c ∷ cs) = nat_eq p c && is_prefix ps cs
