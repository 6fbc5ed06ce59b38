-- ===== src/Common/Codes.antt =====
-- Antisymmetry of the order of texts by their code points.
use Prim.Native.Char.{Char, char, code, IsScalar}
use Prim.Native.Nat.{Ordering, compare}
use mathlib.Core.Path.{subst}
use virtiz_ai.Common.{ℕ, String, ◌≡◌, refl, ap, ◌∙◌, true, List, [], ◌∷◌, arith}
use virtiz_ai.Common.Sort.{Order, lex}
use virtiz_ai.Common.Orders.{codes, codes_le, text_order}

abbrev IsBelow : Ordering → Type 0
IsBelow Ordering.lt = Unit
IsBelow Ordering.eq = ⊥
IsBelow Ordering.gt = ⊥

abbrev AreBelow : Ordering → Ordering → Type 0
AreBelow Ordering.lt o = IsBelow o
AreBelow Ordering.eq o = ⊥
AreBelow Ordering.gt o = ⊥

abbrev ScalarAt : Ordering → Ordering → Ordering → Type 0
ScalarAt Ordering.lt _ _ = Unit
ScalarAt Ordering.eq o p = AreBelow o p
ScalarAt Ordering.gt o p = AreBelow o p

IsBelow-unique : (o : Ordering) (p q : IsBelow o) → p ≡ q
IsBelow-unique Ordering.lt p q = refl
IsBelow-unique Ordering.eq p q = absurd p
IsBelow-unique Ordering.gt p q = absurd p

AreBelow-unique : (o p : Ordering) (x y : AreBelow o p) → x ≡ y
AreBelow-unique Ordering.lt p x y = IsBelow-unique p x y
AreBelow-unique Ordering.eq p x y = absurd x
AreBelow-unique Ordering.gt p x y = absurd x

ScalarAt-unique : (o p r : Ordering) (x y : ScalarAt o p r) → x ≡ y
ScalarAt-unique Ordering.lt p r x y = refl
ScalarAt-unique Ordering.eq p r x y = AreBelow-unique p r x y
ScalarAt-unique Ordering.gt p r x y = AreBelow-unique p r x y

IsScalar-unique : (n : ℕ) (p q : IsScalar n) → p ≡ q
IsScalar-unique n p q = ScalarAt-unique (compare n 55296) (compare 57343 n) (compare n 1114112) p q

code_injective : (c d : Char) → code c ≡ code d → c ≡ d
code_injective (char n p) (char m q) e =
    subst (λ k. (r : IsScalar k) → ◌≡◌ {A = Char} (char n p) (char k r)) e
      (λ r. ap (char n) (IsScalar-unique n p r)) q

codes_injective : (s t : String) → codes s ≡ codes t → s ≡ t
codes_injective String.[] String.[] h = refl
codes_injective String.[] (String.◌∷◌ d t) h = absurd (cc)
codes_injective (String.◌∷◌ c s) String.[] h = absurd (cc)
codes_injective (String.◌∷◌ c s) (String.◌∷◌ d t) h =
    let tails : codes s ≡ codes t = cc in
    let heads : code c ≡ code d = cc in
    ap (λ z. String.◌∷◌ z s) (code_injective c d heads)
    ∙ ap (λ z. String.◌∷◌ d z) (codes_injective s t tails)

codes_le_antisym : (xs ys : List ℕ) → codes_le xs ys ≡ true → codes_le ys xs ≡ true → xs ≡ ys
codes_le_antisym [] [] h k = refl
codes_le_antisym [] (y ∷ ys) h k = absurd (cc)
codes_le_antisym (x ∷ xs) [] h k = absurd (cc)
codes_le_antisym (x ∷ xs) (y ∷ ys) h k =
    let heads : x ≡ y = ground arith in
    let tails : xs ≡ ys = codes_le_antisym xs ys (ground arith) (ground arith) in cc

pub text_order_antisym :
    (s t : String) → text_order.le s t ≡ true → text_order.le t s ≡ true → s ≡ t
text_order_antisym s t h k = codes_injective s t (codes_le_antisym (codes s) (codes t) h k)

-- so is an order that decides by texts in the end
pub lex_text_antisym :
    (o : Order String) (s t : String)
    → (lex o text_order).le s t ≡ true
    → (lex o text_order).le t s ≡ true
    → s ≡ t
lex_text_antisym o s t h k = text_order_antisym s t (ground arith) (ground arith)
