-- ===== src/Common/Lists.antt =====
-- Lists measured by native numbers, Boolean quantifiers, membership of texts, and `All`.
use Prim.Native.Nat.{ℕ, zero, suc, ◌+◌, ◌≤◌}
use Prim.Native.String.{String}
use mathlib.Core.Path.{◌≡◌, refl, sym, ap, ◌∙◌, subst}
use mathlib.Core.Bool.{Bool, true, false, ◌&&◌, ◌||◌}
use mathlib.Core.List.{List, [], ◌∷◌, ◌++◌}
use mathlib.Core.Option.{Option, none, some, some-injective}
use native.Mathlib.Omega.{arith}
use text.Mathlib.Text.{◌==◌}
use virtiz_ai.Common.Tests.{if◌then◌else◌, Bool-cases}
use mathlib.Core.Logic.{◌⊎◌, inl, inr}

module _ {ℓ} {A : Type ℓ} where
  abbrev pub length : List A → ℕ
  length [] = 0
  length (x ∷ xs) = suc (length xs)

  -- `xs[:n]`
  abbrev pub take : ℕ → List A → List A
  take zero xs = []
  take (suc n) [] = []
  take (suc n) (x ∷ xs) = x ∷ take n xs

  -- `[x for x in xs if p(x)]`, and the WHERE of a query
  abbrev pub where_ : (A → Bool) → List A → List A
  where_ p [] = []
  where_ p (x ∷ xs) = let rest = where_ p xs in if p x then x ∷ rest else rest

  -- the first row of a query, `next((x for x in xs if p(x)), None)`
  abbrev pub first : (A → Bool) → List A → Option A
  first p [] = none
  first p (x ∷ xs) = if p x then some x else first p xs

  abbrev pub any_of : (A → Bool) → List A → Bool
  any_of p [] = false
  any_of p (x ∷ xs) = p x || any_of p xs

  abbrev pub all_of : (A → Bool) → List A → Bool
  all_of p [] = true
  all_of p (x ∷ xs) = p x && all_of p xs

  abbrev pub is_empty : List A → Bool
  is_empty [] = true
  is_empty (x ∷ xs) = false

  abbrev pub head_or_none : List A → Option A
  head_or_none [] = none
  head_or_none (x ∷ xs) = some x

  -- UPDATE: the rows that satisfy the test are rewritten
  abbrev pub update_where : (A → Bool) → (A → A) → List A → List A
  update_where p f [] = []
  update_where p f (x ∷ xs) = (if p x then f x else x) ∷ update_where p f xs

  pub length-append : (xs ys : List A) → length (xs ++ ys) ≡ length xs + length ys
  length-append [] ys = omega arith
  length-append (x ∷ xs) ys = omega (arith, length-append xs ys)

  pub length-take-le : (n : ℕ) (xs : List A) → length (take n xs) ≤ n
  length-take-le zero xs = omega arith
  length-take-le (suc n) [] = omega arith
  length-take-le (suc n) (x ∷ xs) = omega (arith, length-take-le n xs)

  pub length-where-le : (p : A → Bool) (xs : List A) → length (where_ p xs) ≤ length xs
  length-where-le p [] = omega arith
  length-where-le p (x ∷ xs) = ground (arith, length-where-le p xs)

-- `k in texts`
abbrev pub mem : String → List String → Bool
mem k [] = false
mem k (j ∷ js) = j == k || mem k js

-- `set(xs) <= set(ys)`
abbrev pub subset : List String → List String → Bool
subset [] ys = true
subset (x ∷ xs) ys = mem x ys && subset xs ys

abbrev pub All {ℓ κ} : {A : Type ℓ} → (A → Type κ) → List A → Type κ
All P [] = Unit
All P (x ∷ xs) = P x × All P xs

module _ {ℓ κ} {A : Type ℓ} (P : A → Type κ) where
  pub All-append : (xs ys : List A) → All P xs → All P ys → All P (xs ++ ys)
  All-append [] ys h k = k
  All-append (x ∷ xs) ys h k = (h.0, All-append xs ys h.1 k)

  pub All-take : (n : ℕ) (xs : List A) → All P xs → All P (take n xs)
  All-take zero xs h = tt
  All-take (suc n) [] h = tt
  All-take (suc n) (x ∷ xs) h = (h.0, All-take n xs h.1)

module _ {ℓ} {A : Type ℓ} where
  pub All-where : (p : A → Bool) (xs : List A) → All (λ x. p x ≡ true) (where_ p xs)
  All-where p [] = tt
  All-where p (x ∷ xs) = elim (Bool-cases (p x)) [
    | inl e ↦ rw e (e, All-where p xs)
    | inr e ↦ rw e (All-where p xs)
  ]

-- `a` is an element of the list
abbrev pub Among : {A : Type 0} → A → List A → Type 0
Among a [] = ⊥
Among a (x ∷ xs) = (x ≡ a) ⊎ Among a xs

module _ {ℓ κ μ} {A : Type ℓ} (P : A → Type κ) (Q : A → Type μ) where
  pub All-weaken : (xs : List A) → ((x : A) → P x → Q x) → All P xs → All Q xs
  All-weaken [] f h = tt
  All-weaken (x ∷ xs) f h = (f x h.0, All-weaken xs f h.1)

module _ {ℓ κ} {A : Type ℓ} (P : A → Type κ) where
  -- what holds of the rows that a query selects
  pub All-where-back :
      (p : A → Bool) (xs : List A) → All P (where_ p xs) → All (λ x. p x ≡ true → P x) xs
  All-where-back p [] h = tt
  All-where-back p (x ∷ xs) h = elim (Bool-cases (p x)) [
    | inl e ↦ let k = rw e at h in (λ _. k.0, All-where-back p xs k.1)
    | inr e ↦ (λ d. absurd (cc (d, e)), All-where-back p xs (rw e at h))
  ]

pub All-Among : {A : Type 0} (xs : List A) → All (λ x. Among x xs) xs
All-Among [] = tt
All-Among (x ∷ xs) = (
  inl refl,
  All-weaken (λ y. Among y xs) (λ y. Among y (x ∷ xs)) xs (λ y h. inr h) (All-Among xs),
)

-- a row that a query selects is a row of the table that passes the test
pub Among-where :
    {A : Type 0} (p : A → Bool) (a : A) (xs : List A)
    → Among a (where_ p xs)
    → Among a xs × (p a ≡ true)
Among-where p a [] h = absurd h
Among-where p a (x ∷ xs) h = elim (Bool-cases (p x)) [
  | inl e ↦ elim (rw e at h) [
    | inl q ↦ (inl q, ap p (sym q) ∙ e)
    | inr k ↦ let (i, t) = Among-where p a xs k in (inr i, t)
  ]
  | inr e ↦ let (i, t) = Among-where p a xs (rw e at h) in (inr i, t)
]

pub first-Among :
    {A : Type 0} (p : A → Bool) (a : A) (xs : List A)
    → first p xs ≡ some a
    → Among a xs × (p a ≡ true)
first-Among p a [] h = absurd (cc)
first-Among p a (x ∷ xs) h = elim (Bool-cases (p x)) [
  | inl e ↦ let q : x ≡ a = some-injective x a (rw e at h) in (inl q, ap p (sym q) ∙ e)
  | inr e ↦ let (i, t) = first-Among p a xs (rw e at h) in (inr i, t)
]

-- what holds of every row holds of one of them
pub Among-All {κ} :
    {A : Type 0} (P : A → Type κ) (a : A) (xs : List A) → All P xs → Among a xs → P a
Among-All P a [] h i = absurd i
Among-All P a (x ∷ xs) h (inl q) = subst P q h.0
Among-All P a (x ∷ xs) h (inr i) = Among-All P a xs h.1 i

-- a row that passes the test is selected
pub Among-kept :
    {A : Type 0} (p : A → Bool) (a : A) (xs : List A)
    → Among a xs
    → p a ≡ true
    → Among a (where_ p xs)
Among-kept p a [] i h = absurd i
Among-kept p a (x ∷ xs) (inl q) h = rw (ap p q ∙ h) (inl q)
Among-kept p a (x ∷ xs) (inr i) h = elim (Bool-cases (p x)) [
  | inl e ↦ rw e (inr (Among-kept p a xs i h))
  | inr e ↦ rw e (Among-kept p a xs i h)
]

pub first-none :
    {A : Type 0} (p : A → Bool) (a : A) (xs : List A)
    → first p xs ≡ none
    → Among a xs
    → p a ≡ true
    → ⊥
first-none p a [] h i k = i
first-none p a (x ∷ xs) h (inl q) k = absurd (cc (rw (ap p q ∙ k) at h))
first-none p a (x ∷ xs) h (inr i) k = elim (Bool-cases (p x)) [
  | inl e ↦ absurd (cc (rw e at h))
  | inr e ↦ first-none p a xs (rw e at h) i k
]

pub List-cases : {A : Type 0} (xs : List A) → (xs ≡ []) ⊎ ((y : A) × (ys : List A) × (xs ≡ y ∷ ys))
List-cases [] = inl refl
List-cases (x ∷ xs) = inr (x, xs, refl)
