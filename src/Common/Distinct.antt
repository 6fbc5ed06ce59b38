-- ===== src/Common/Distinct.antt =====
-- Lists of texts without duplicates, and how many elements such a list has.
use virtiz_ai.Common.{
  String, ◌≡◌, refl, sym, inl, inr, true, false, not, ◌||◌, List, [], ◌∷◌, ◌++◌, ◌≤◌, ◌<◌, arith,
  length, mem, where_, ◌==◌, eq_iff, eq_refl, Bool-cases, ap, ◌∙◌,
}

abbrev pub Distinct : List String → Type 0
Distinct [] = Unit
Distinct (x ∷ xs) = (mem x xs ≡ false) × Distinct xs

abbrev pub Subset : List String → List String → Type 0
Subset xs ys = (k : String) → mem k xs ≡ true → mem k ys ≡ true

pub mem-append : (k : String) (xs ys : List String) → mem k (xs ++ ys) ≡ (mem k xs || mem k ys)
mem-append k [] ys = refl
mem-append k (x ∷ xs) ys = ground (arith, mem-append k xs ys)

pub Distinct-snoc :
    (xs : List String) (c : String) → Distinct xs → mem c xs ≡ false → Distinct (xs ++ (c ∷ []))
Distinct-snoc [] c d h = (refl, tt)
Distinct-snoc (x ∷ xs) c d h = (
  ground (arith, mem-append x xs (c ∷ []), eq_iff x c, eq_iff c x),
  Distinct-snoc xs c d.1 (ground (arith)),
)

abbrev without : String → List String → List String
without x ys = where_ (λ y. not (y == x)) ys

mem-without :
    (x k : String) (ys : List String) → (k ≡ x → ⊥) → mem k ys ≡ true → mem k (without x ys) ≡ true
mem-without x k [] n h = h
mem-without x k (y ∷ ys) n h = ground (arith, mem-without x k ys n, eq_iff y x, eq_iff y k)

length-without : (x : String) (ys : List String) → length (without x ys) ≤ length ys
length-without x [] = omega arith
length-without x (y ∷ ys) = ground (arith, length-without x ys)

length-without-mem :
    (x : String) (ys : List String) → mem x ys ≡ true → length (without x ys) < length ys
length-without-mem x [] h = absurd (cc)
length-without-mem x (y ∷ ys) h = ground (arith, length-without x ys, length-without-mem x ys)

-- a list without duplicates is no longer than one that has all its elements
pub length-Subset : (xs ys : List String) → Distinct xs → Subset xs ys → length xs ≤ length ys
length-Subset [] ys d h = omega arith
length-Subset (x ∷ xs) ys d h =
    let smaller = length-without-mem x ys (h x (ground (arith, eq_refl x))) in
    let rest = length-Subset xs (without x ys) d.1 (λ k i.
      mem-without x k ys (λ e. absurd (cc (sym (ap (λ z. mem z xs) e) ∙ i, d.0)))
        (h k (ground (arith)))) in
    omega arith

pub Subset-cons :
    (x : String) (xs ys : List String) → mem x ys ≡ true → Subset xs ys → Subset (x ∷ xs) ys
Subset-cons x xs ys i h k j = ground (arith, eq_iff x k, h k)

-- then, if it is as long, it has all the elements of the other
pub Subset-back :
    (xs ys : List String) → Distinct xs → Subset xs ys → length ys ≤ length xs → Subset ys xs
Subset-back xs ys d h l k i = elim (Bool-cases (mem k xs)) [
  | inl e ↦ e
  | inr e ↦
      let longer = length-Subset (k ∷ xs) ys (e, d) (Subset-cons k xs ys i h) in
      absurd (omega arith)
]
