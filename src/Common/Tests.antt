-- ===== src/Common/Tests.antt =====
-- Boolean tests on native numbers, the conditional, and splits that keep their equation.
use Prim.Native.Nat.{ℕ, ◌≤◌, ◌<◌, compare, Ordering}
use Prim.Native.String.{String}
use mathlib.Core.Path.{◌≡◌, refl}
use mathlib.Core.Logic.{◌⊎◌, inl, inr}
use mathlib.Core.Bool.{Bool, true, false, ◌&&◌}
use mathlib.Core.Option.{Option, none, some}
use native.Mathlib.Omega.{arith}
use text.Mathlib.Text.{◌==◌}

abbrev pub ltb : ℕ → ℕ → Bool
ltb a b = elim (compare a b) [ Ordering.lt ↦ true | _ ↦ false ]

abbrev pub leb : ℕ → ℕ → Bool
leb a b = elim (compare a b) [ Ordering.gt ↦ false | _ ↦ true ]

abbrev pub nat_eq : ℕ → ℕ → Bool
nat_eq a b = elim (compare a b) [ Ordering.eq ↦ true | _ ↦ false ]

infix 1 if◌then◌else◌
abbrev pub if◌then◌else◌ {ℓ} : {A : Type ℓ} → Bool → A → A → A
if true then x else y = x
if false then x else y = y

pub ltb→lt : (a b : ℕ) → ltb a b ≡ true → a < b
ltb→lt a b h = ground arith

pub leb→le : (a b : ℕ) → leb a b ≡ true → a ≤ b
leb→le a b h = ground arith

pub Bool-cases : (b : Bool) → (b ≡ true) ⊎ (b ≡ false)
Bool-cases true = inl refl
Bool-cases false = inr refl

pub Option-cases {ℓ} : {A : Type ℓ} (o : Option A) → (o ≡ none) ⊎ ((a : A) × (o ≡ some a))
Option-cases none = inl refl
Option-cases (some a) = inr (a, refl)

pub &&-left : (a b : Bool) → (a && b) ≡ true → a ≡ true
&&-left a b h = ground arith

pub &&-right : (a b : Bool) → (a && b) ≡ true → b ≡ true
&&-right a b h = ground arith

-- `x == k` where `x` may be `None`
abbrev pub opt_is : Option String → String → Bool
opt_is none k = false
opt_is (some j) k = j == k

-- `x is not None`
abbrev pub is_some {ℓ} : {A : Type ℓ} → Option A → Bool
is_some none = false
is_some (some _) = true

abbrev pub otherwise {ℓ} : {A : Type ℓ} → Option A → A → A
otherwise none d = d
otherwise (some a) d = a

-- A property of both branches holds of the conditional.
pub if_ind {ℓ κ} :
    {A : Type ℓ} (P : A → Type κ) (b : Bool) (x y : A)
    → (b ≡ true → P x)
    → (b ≡ false → P y)
    → P (if b then x else y)
if_ind P true x y h k = h refl
if_ind P false x y h k = k refl

-- `if x is None: ... else: ...`
abbrev pub match_some {ℓ κ} : {A : Type ℓ} {B : Type κ} → Option A → B → (A → B) → B
match_some none d f = d
match_some (some a) d f = f a

pub match_some_ind {ℓ κ μ} :
    {A : Type ℓ} {B : Type κ} (P : B → Type μ) (o : Option A) (d : B) (f : A → B)
    → P d
    → ((a : A) → o ≡ some a → P (f a))
    → P (match_some o d f)
match_some_ind P none d f h k = h
match_some_ind P (some a) d f h k = k a refl

-- the same, with the equation in both cases
pub match_some_cases {ℓ κ μ} :
    {A : Type ℓ} {B : Type κ} (P : B → Type μ) (o : Option A) (d : B) (f : A → B)
    → (o ≡ none → P d)
    → ((a : A) → o ≡ some a → P (f a))
    → P (match_some o d f)
match_some_cases P none d f h k = h refl
match_some_cases P (some a) d f h k = k a refl
