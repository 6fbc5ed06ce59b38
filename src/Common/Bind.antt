-- ===== src/Common/Bind.antt =====
-- Code that may raise: a result is a value or an exception of type `E`.
use mathlib.Core.Path.{◌≡◌, refl, ap}
use mathlib.Core.Logic.{◌⊎◌, inl, inr}
use mathlib.Core.Bool.{Bool, true, false}
use mathlib.Core.Option.{Option, none, some}

pub data Result {ℓ} (E : Type ℓ) (A : Type ℓ) : Type ℓ where
  ok : A → Result E A
  raised : E → Result E A

module _ {ℓ} {E A B : Type ℓ} where
  infixl 5 ◌>>=◌
  abbrev pub ◌>>=◌ : Result E A → (A → Result E B) → Result E B
  ok a >>= f = f a
  raised e >>= f = raised e

module _ {ℓ} {E B : Type ℓ} where
  -- `if not test: raise e`, and then the rest
  abbrev pub ensure : Bool → E → Result E B → Result E B
  ensure true e rest = rest
  ensure false e rest = raised e

  -- `if found is None: raise e`, and then the rest with what was found
  abbrev pub ensure_some : {A : Type ℓ} → Option A → E → (A → Result E B) → Result E B
  ensure_some none e rest = raised e
  ensure_some (some a) e rest = rest a

module _ {ℓ} {E A : Type ℓ} where
  pub ok-injective : (a b : A) → ◌≡◌ {A = Result E A} (ok a) (ok b) → a ≡ b
  ok-injective a b h = cc

module _ {ℓ} {E A B : Type ℓ} where
  pub bind-ok :
      (m : Result E A) (f : A → Result E B) (b : B)
      → (m >>= f) ≡ ok b
      → (a : A) × (m ≡ ok a) × (f a ≡ ok b)
  bind-ok (ok a) f b h = (a, refl, h)
  bind-ok (raised e) f b h = absurd (cc)

-- two steps that both return, and what they return together
module _ {ℓ} {E A B C : Type ℓ} (f : A → B → C) where
  pub both_ok :
      (m : Result E A) (n : Result E B) (c : C)
      → (m >>= λ a. n >>= λ b. ok (f a b)) ≡ ok c
      → (a : A) × (b : B) × (m ≡ ok a) × (n ≡ ok b) × (f a b ≡ c)
  both_ok (ok a) (ok b) c h = (a, b, refl, refl, ok-injective (f a b) c h)
  both_ok (ok a) (raised e) c h = absurd (cc)
  both_ok (raised e) n c h = absurd (cc)

module _ {ℓ} {E A : Type ℓ} where
  pub ensure-ok :
      (b : Bool) (e : E) (rest : Result E A) (a : A)
      → ensure b e rest ≡ ok a
      → (b ≡ true) × (rest ≡ ok a)
  ensure-ok true e rest a h = (refl, h)
  ensure-ok false e rest a h = absurd (cc)

module _ {ℓ} {E A B : Type ℓ} where
  pub ensure_some-ok :
      (o : Option B) (e : E) (f : B → Result E A) (a : A)
      → ensure_some o e f ≡ ok a
      → (b : B) × (o ≡ some b) × (f b ≡ ok a)
  ensure_some-ok none e f a h = absurd (cc)
  ensure_some-ok (some b) e f a h = (b, refl, h)

module _ {ℓ} {E A : Type ℓ} where
  pub Result-cases : (m : Result E A) → ((a : A) × (m ≡ ok a)) ⊎ ((e : E) × (m ≡ raised e))
  Result-cases (ok a) = inl (a, refl)
  Result-cases (raised e) = inr (e, refl)

  pub raised-injective : (d e : E) → ◌≡◌ {A = Result E A} (raised d) (raised e) → d ≡ e
  raised-injective d e h = cc

module _ {ℓ} {E A B : Type ℓ} where
  -- an exception of a sequence is the exception of its first step, or of the rest
  pub bind-raised :
      (m : Result E A) (f : A → Result E B) (e : E)
      → (m >>= f) ≡ raised e
      → (m ≡ raised e) ⊎ ((a : A) × (m ≡ ok a) × (f a ≡ raised e))
  bind-raised (ok a) f e h = inr (a, refl, h)
  bind-raised (raised d) f e h = inl (ap raised (raised-injective {A = B} d e h))
