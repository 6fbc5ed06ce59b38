-- ===== src/Homelab/Forest.antt =====
-- The invariant of the parents in `_coalesced_entities` (virtizai_core/homelab.py): every heading has a root, parents
-- fall in the order of the texts, and a relation holds along the parents; `find` on such parents.
use virtiz_ai.Common.{
  ℕ, zero, suc, String, ◌≡◌, refl, sym, ap, ◌∙◌, ◌⊎◌, inl, inr, Bool, true, false, not, some, List,
  [], ◌∷◌, ◌≤◌, ◌<◌, arith, Bool-cases, Among, where_, length, ◌==◌, eq_refl,
}
use mathlib.Core.Path.{subst}
use virtiz_ai.Common.Sort.{Order}
use virtiz_ai.Homelab.Coalesce.{Parents, find}
use virtiz_ai.Homelab.Roots.{
  Root, top, Root-unique, halved, halved-Root, Root-parent, redirect-here, redirect-there, equal,
}

where-le :
    {A : Type 0} (f g : A → Bool) (xs : List A)
    → ((x : A) → f x ≡ true → g x ≡ true)
    → length (where_ f xs) ≤ length (where_ g xs)
where-le f g [] h = omega arith
where-le f g (x ∷ xs) h = ground (arith, h x, where-le f g xs h)

where-lt :
    {A : Type 0} (f g : A → Bool) (xs : List A) (a : A)
    → ((x : A) → f x ≡ true → g x ≡ true)
    → Among a xs
    → f a ≡ false
    → g a ≡ true
    → length (where_ f xs) < length (where_ g xs)
where-lt f g [] a h i x y = absurd i
where-lt f g (z ∷ zs) a h (inl e) x y =
    let u = ap f e ∙ x in let v = ap g e ∙ y in let l = where-le f g zs h in rw (u, v) (omega arith)
where-lt f g (z ∷ zs) a h (inr i) x y = let l = where-lt f g zs a h i x y in ground (arith, h z)

module _ (o : Order String) (E : String → String → Type 0)
    (E_trans : (a b c : String) → E a b → E b c → E a c) (u : List String) where
  -- the first comes strictly before the second
  abbrev pub Before : String → String → Type 0
  Before a b = o.le b a ≡ false

  Before-trans : (a b c : String) → Before a b → Before b c → Before a c
  Before-trans a b c h k = ground (arith, o.total a b, o.trans c a b)

  pub record Forest (p : Parents) : Type 0 where
    pub rooted : (h : String) → (r : String) × Root p h r
    pub inside : (h : String) → Among h u → Among (p h) u
    pub falls : (h : String) → (p h ≡ h) ⊎ Before (p h) h
    pub along : (h : String) → E h (p h)

  rank : String → ℕ
  rank h = length (where_ (λ x. not (o.le h x)) u)

  rank-lt :
      (a h : String)
      → Among a u
      → Before a h
      → length (where_ (λ x. not (o.le a x)) u) < length (where_ (λ x. not (o.le h x)) u)
  rank-lt a h i b =
      where-lt (λ x. not (o.le a x)) (λ x. not (o.le h x)) u a
        (λ x e. ground (arith, Before-trans x a h)) i (ground (arith, o.total a a)) (ground (arith))

  -- how a heading comes before another through two parents
  falls_twice : (p : Parents) → Forest p → (h : String) → (p h == h) ≡ false → Before (p (p h)) h
  falls_twice p f h n = elim (f.falls h) [
    | inl e ↦ absurd (cc (sym n ∙ ap (λ z. z == h) e ∙ eq_refl h))
    | inr b ↦ elim (f.falls (p h)) [
      | inl e ↦ subst (λ z. Before z h) (sym e) b
      | inr c ↦ Before-trans (p (p h)) (p h) h c b
    ]
  ]

  halved-Forest :
      (p : Parents) (h : String) (n : (p h == h) ≡ false)
      → Among h u
      → Forest p
      → Forest (halved p h n)
  halved-Forest p h n i f = record {
    rooted = λ x. let (r, d) = f.rooted x in (r, halved-Root p h n x r d);
    inside = λ x j. elim (Bool-cases (x == h)) [
      | inl t ↦
          subst (λ z. Among z u) (sym (redirect-here p h (p (p h)) x (equal x h t)))
            (f.inside (p h) (f.inside h i))
      | inr t ↦ subst (λ z. Among z u) (sym (redirect-there p h (p (p h)) x t)) (f.inside x j)
    ];
    falls = λ x. elim (Bool-cases (x == h)) [
      | inl t ↦ inr (
          subst (λ z. Before z x) (sym (redirect-here p h (p (p h)) x (equal x h t)))
            (subst (λ z. Before (p (p h)) z) (sym (equal x h t)) (falls_twice p f h n)))
      | inr t ↦
          subst (λ z. (z ≡ x) ⊎ Before z x) (sym (redirect-there p h (p (p h)) x t)) (f.falls x)
    ];
    along = λ x. elim (Bool-cases (x == h)) [
      | inl t ↦
          subst (λ z. E x z) (sym (redirect-here p h (p (p h)) x (equal x h t)))
            (subst (λ z. E z (p (p h))) (sym (equal x h t))
              (E_trans h (p h) (p (p h)) (f.along h) (f.along (p h))))
      | inr t ↦ subst (λ z. E x z) (sym (redirect-there p h (p (p h)) x t)) (f.along x)
    ];
  }

  -- one forest keeps the roots of another
  abbrev pub Keeps : Parents → Parents → Type 0
  Keeps p q = (x s : String) → Root p x s → Root q x s

  pub record Finds (fuel : ℕ) (p : Parents) (h : String) : Type 0 where
    pub after : Parents
    pub root : String
    pub returns : find fuel p h ≡ some (after, root)
    pub forest : Forest after
    pub keeps : Keeps p after
    pub rooted_at : Root after h root
    pub inside_root : Among root u

  pub find-Finds :
      (fuel : ℕ) (p : Parents) (h : String)
      → length (where_ (λ x. not (o.le h x)) u) < fuel
      → Among h u
      → Forest p
      → Finds fuel p h
  unfolding find
  find-Finds zero p h l i f = absurd (omega arith)
  find-Finds (suc fuel) p h l i f = elim (Bool-cases (p h == h)) [
    | inl e ↦ record {
      after = p;
      root = h;
      returns = rw (find, e) refl;
      forest = f;
      keeps = λ x s d. d;
      rooted_at = top (equal (p h) h e) refl;
      inside_root = i;
    }
    | inr n ↦
        let j = f.inside (p h) (f.inside h i) in
        let shorter = rank-lt (p (p h)) h j (falls_twice p f h n) in
        let next =
          find-Finds fuel (halved p h n) (p (p h)) (omega arith) j (halved-Forest p h n i f) in
        let (s, d) = f.rooted h in
        let far = halved-Root p h n (p (p h)) s (Root-parent p (p h) s (Root-parent p h s d)) in
        let q =
          Root-unique next.after (p (p h)) s next.root (next.keeps (p (p h)) s far)
            next.rooted_at in
        record {
          after = next.after;
          root = next.root;
          returns = rw (find, n) next.returns;
          forest = next.forest;
          keeps = λ x t c. next.keeps x t (halved-Root p h n x t c);
          rooted_at = subst (λ z. Root next.after h z) q (next.keeps h s (halved-Root p h n h s d));
          inside_root = next.inside_root;
        }
  ]
