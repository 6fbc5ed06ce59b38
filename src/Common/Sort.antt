-- ===== src/Common/Sort.antt =====
-- Python's `sorted` and `list.sort`: a stable sort by a total preorder, as insertion sort. Keys that are
-- tuples are compared by `lex`.
use mathlib.Core.Path.{◌≡◌, refl}
use mathlib.Core.Logic.{◌⊎◌, inl, inr}
use mathlib.Core.Bool.{Bool, true, false, not, ◌&&◌, ◌||◌}
use mathlib.Core.List.{List, [], ◌∷◌, Perm}
use mathlib.Core.List.Perm
use native.Mathlib.Omega.{arith}
use Prim.Native.Nat.{ℕ, suc}
use virtiz_ai.Common.Tests.{if◌then◌else◌, leb, Bool-cases}
use virtiz_ai.Common.Lists.{All, Among, All-Among, Among-All, head_or_none, length}
use mathlib.Core.Option.{some, some-injective}
use mathlib.Core.Path.{subst}

pub record Order {ℓ} (A : Type ℓ) : Type ℓ where
  pub le : A → A → Bool
  pub total : (a b : A) → (le a b ≡ true) ⊎ (le b a ≡ true)
  pub trans : (a b c : A) → le a b ≡ true → le b c ≡ true → le a c ≡ true

pub leb_total : (a b : ℕ) → (leb a b ≡ true) ⊎ (leb b a ≡ true)
leb_total a b = ground arith

pub leb_trans : (a b c : ℕ) → leb a b ≡ true → leb b c ≡ true → leb a c ≡ true
leb_trans a b c p q = ground arith

abbrev pub nat_order : Order ℕ
nat_order = record { le = leb; total = leb_total; trans = leb_trans }

module _ {ℓ} {A : Type ℓ} where
  -- a key of type `B`
  abbrev pub by_key : {B : Type ℓ} → (A → B) → Order B → Order A
  by_key f o = record {
    le = λ a b. o.le (f a) (f b);
    total = λ a b. o.total (f a) (f b);
    trans = λ a b c. o.trans (f a) (f b) (f c);
  }

  -- the second order decides where the first holds both ways
  abbrev pub lex_le : Order A → Order A → A → A → Bool
  lex_le o p a b = o.le a b && (not (o.le b a) || p.le a b)

  pub lex_total : (o p : Order A) (a b : A) → (lex_le o p a b ≡ true) ⊎ (lex_le o p b a ≡ true)
  lex_total o p a b = ground (arith, o.total a b, p.total a b)

  pub lex_trans :
      (o p : Order A) (a b c : A)
      → lex_le o p a b ≡ true
      → lex_le o p b c ≡ true
      → lex_le o p a c ≡ true
  lex_trans o p a b c h k =
      ground (arith, o.trans a b c, o.trans b c a, o.trans c a b, p.trans a b c)

  abbrev pub lex : Order A → Order A → Order A
  lex o p = record { le = lex_le o p; total = lex_total o p; trans = lex_trans o p }

module _ {ℓ} {A : Type ℓ} (o : Order A) where
  unfoldable pub insert : A → List A → List A
  insert x [] = x ∷ []
  insert x (y ∷ ys) = let rest = insert x ys in if o.le x y then x ∷ y ∷ ys else y ∷ rest

  unfoldable pub sort : List A → List A
  unfolding insert
  sort [] = []
  sort (x ∷ xs) = insert x (sort xs)

  abbrev pub IsSorted : List A → Type ℓ
  IsSorted [] = Unit
  IsSorted (x ∷ xs) = All (λ y. o.le x y ≡ true) xs × IsSorted xs

module _ {ℓ} {A : Type ℓ} (o : Order A) where
  insert-perm : (x : A) (xs : List A) → Perm (insert o x xs) (x ∷ xs)
  unfolding insert
  insert-perm x [] = Perm.refl (x ∷ [])
  insert-perm x (y ∷ ys) = elim (Bool-cases (o.le x y)) [
    | inl e ↦ rw e (Perm.refl (x ∷ y ∷ ys))
    | inr e ↦ rw e (Perm.trans (Perm.cons y (insert-perm x ys)) (Perm.swap x y ys))
  ]

  pub sort-perm : (xs : List A) → Perm (sort o xs) xs
  unfolding sort
  sort-perm [] = Perm.refl []
  sort-perm (x ∷ xs) = Perm.trans (insert-perm x (sort o xs)) (Perm.cons x (sort-perm xs))

  All-insert {κ} : (P : A → Type κ) (x : A) (xs : List A) → P x → All P xs → All P (insert o x xs)
  unfolding insert
  All-insert P x [] h k = (h, tt)
  All-insert P x (y ∷ ys) h k = elim (Bool-cases (o.le x y)) [
    | inl e ↦ rw e (h, k)
    | inr e ↦ rw e (k.0, All-insert P x ys h k.1)
  ]

  pub All-sort {κ} : (P : A → Type κ) (xs : List A) → All P xs → All P (sort o xs)
  unfolding sort
  All-sort P [] h = tt
  All-sort P (x ∷ xs) h = All-insert P x (sort o xs) h.0 (All-sort P xs h.1)

  below-All :
      (x y : A) (ys : List A)
      → o.le x y ≡ true
      → All (λ z. o.le y z ≡ true) ys
      → All (λ z. o.le x z ≡ true) ys
  below-All x y [] e h = tt
  below-All x y (z ∷ zs) e h = (o.trans x y z e h.0, below-All x y zs e h.1)

  other_way : (x y : A) → o.le x y ≡ false → o.le y x ≡ true
  other_way x y e = ground (arith, o.total x y)

  insert-IsSorted : (x : A) (xs : List A) → IsSorted o xs → IsSorted o (insert o x xs)
  unfolding insert
  insert-IsSorted x [] h = (tt, tt)
  insert-IsSorted x (y ∷ ys) h = elim (Bool-cases (o.le x y)) [
    | inl e ↦ rw e ((e, below-All x y ys e h.0), h)
    | inr e ↦
        rw e
          (All-insert (λ z. o.le y z ≡ true) x ys (other_way x y e) h.0, insert-IsSorted x ys h.1)
  ]

  pub sort-IsSorted : (xs : List A) → IsSorted o (sort o xs)
  unfolding sort
  sort-IsSorted [] = tt
  sort-IsSorted (x ∷ xs) = insert-IsSorted x (sort o xs) (sort-IsSorted xs)

  length-insert : (x : A) (xs : List A) → length (insert o x xs) ≡ suc (length xs)
  unfolding insert
  length-insert x [] = refl
  length-insert x (y ∷ ys) = ground (arith, length-insert x ys)

  pub length-sort : (xs : List A) → length (sort o xs) ≡ length xs
  unfolding sort
  length-sort [] = refl
  length-sort (x ∷ xs) = omega (arith, length-insert x (sort o xs), length-sort xs)

module _ {A : Type 0} (o : Order A) where
  All-insert-back {κ} :
      (P : A → Type κ) (x : A) (xs : List A) → All P (insert o x xs) → P x × All P xs
  unfolding insert
  All-insert-back P x [] h = h
  All-insert-back P x (y ∷ ys) h = elim (Bool-cases (o.le x y)) [
    | inl e ↦ rw e at h
    | inr e ↦ let k = rw e at h in let (p, ps) = All-insert-back P x ys k.1 in (p, (k.0, ps))
  ]

  All-sort-back {κ} : (P : A → Type κ) (xs : List A) → All P (sort o xs) → All P xs
  unfolding sort
  All-sort-back P [] h = tt
  All-sort-back P (x ∷ xs) h =
      let (p, ps) = All-insert-back P x (sort o xs) h in (p, All-sort-back P xs ps)

  -- an element of the list that is at most every one
  abbrev pub IsLeast : A → List A → Type 0
  IsLeast m xs = Among m xs × All (λ x. o.le m x ≡ true) xs

  least_of :
      (xs ys : List A)
      → IsSorted o ys
      → All (λ x. Among x xs) ys
      → (All (λ x. o.le x x ≡ true) ys)
      → (m : A) → head_or_none ys ≡ some m
      → Among m xs × All (λ x. o.le m x ≡ true) ys
  least_of xs [] s h r m e = absurd (cc)
  least_of xs (y ∷ ys) s h r m e =
      subst (λ z. Among z xs × All (λ x. o.le z x ≡ true) (y ∷ ys)) (some-injective y m e)
        (h.0, (r.0, s.0))

  reflexive : (ys : List A) → All (λ x. o.le x x ≡ true) ys
  reflexive [] = tt
  reflexive (y ∷ ys) = (ground (arith, o.total y y), reflexive ys)

  -- ORDER BY ... LIMIT 1
  pub head-sort : (xs : List A) (m : A) → head_or_none (sort o xs) ≡ some m → IsLeast m xs
  head-sort xs m e =
      let (among, le) =
        least_of xs (sort o xs) (sort-IsSorted o xs)
          (All-sort o (λ x. Among x xs) xs (All-Among xs)) (reflexive (sort o xs)) m e in
      (among, All-sort-back (λ x. o.le m x ≡ true) xs le)

  pub Among-sort : (a : A) (xs : List A) → Among a xs → Among a (sort o xs)
  Among-sort a xs i =
      Among-All (λ x. Among x (sort o xs)) a xs
        (All-sort-back (λ x. Among x (sort o xs)) xs (All-Among (sort o xs))) i

  pub Among-sort-back : (a : A) (xs : List A) → Among a (sort o xs) → Among a xs
  Among-sort-back a xs i =
      Among-All (λ x. Among x xs) a (sort o xs) (All-sort o (λ x. Among x xs) xs (All-Among xs)) i
