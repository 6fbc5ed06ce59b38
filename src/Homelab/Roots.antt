-- ===== src/Homelab/Roots.antt =====
-- The roots of the headings in the union-find of `_coalesced_entities` (virtizai_core/homelab.py).
use virtiz_ai.Common.{
  String, ◌≡◌, refl, sym, ap, ◌∙◌, inl, inr, true, false, arith, Bool-cases, ◌==◌, eq_iff, eq_refl,
}
use mathlib.Core.Path.{subst}
use virtiz_ai.Homelab.Coalesce.{Parents, redirect}

-- following the parents of a heading ends at a root
pub data Root (p : Parents) : String → String → Type 0 where
  top : {h r : String} → p h ≡ h → h ≡ r → Root p h r
  up : {h r : String} → (k : String) → p h ≡ k → Root p k r → Root p h r

pub Root-fixed : (p : Parents) (h r : String) → Root p h r → p r ≡ r
Root-fixed p h r (top e f) = subst (λ z. p z ≡ z) f e
Root-fixed p h r (up k e d) = Root-fixed p k r d

-- a root has no other root
pub Root-own : (p : Parents) (h r : String) → p h ≡ h → Root p h r → h ≡ r
Root-own p h r e (top f g) = g
Root-own p h r e (up k f d) =
    let q = sym f ∙ e in sym q ∙ Root-own p k r (subst (λ z. p z ≡ z) (sym q) e) d

pub Root-unique : (p : Parents) (h r s : String) → Root p h r → Root p h s → r ≡ s
Root-unique p h r s (top e f) d = sym f ∙ Root-own p h s e d
Root-unique p h r s (up k e d) (top f g) =
    let q = sym e ∙ f in sym (Root-own p k r (subst (λ z. p z ≡ z) (sym q) f) d) ∙ q ∙ g
Root-unique p h r s (up k e d) (up m f c) =
    Root-unique p k r s d (subst (λ z. Root p z s) (sym f ∙ e) c)

pub redirect-here : (p : Parents) (h v q : String) → q ≡ h → redirect p h v q ≡ v
redirect-here p h v q e = ground (arith, eq_iff q h)

pub redirect-there : (p : Parents) (h v q : String) → (q == h) ≡ false → redirect p h v q ≡ p q
redirect-there p h v q e = rw e refl

pub equal : (x y : String) → (x == y) ≡ true → x ≡ y
equal x y h = ground (arith, eq_iff x y)

module _ (p : Parents) (h : String) (n : (p h == h) ≡ false) where
  abbrev pub halved : Parents
  halved = redirect p h (p (p h))

  not-fixed : p h ≡ h → ⊥
  not-fixed e = absurd (cc (sym n ∙ ap (λ z. z == h) e ∙ eq_refl h))

  -- a heading whose parent is itself is not the one that is moved
  other-fixed : (x : String) → p x ≡ x → halved x ≡ x
  other-fixed x e = elim (Bool-cases (x == h)) [
    | inl s ↦ absurd (not-fixed (subst (λ z. p z ≡ z) (equal x h s) e))
    | inr s ↦ redirect-there p h (p (p h)) x s ∙ e
  ]

  -- path halving keeps the root of every heading
  pub halved-Root : (x s : String) → Root p x s → Root halved x s
  halved-Root x s (top e f) = top (other-fixed x e) f
  halved-Root x s (up k e (top g f)) = elim (Bool-cases (x == h)) [
    | inl t ↦
        up k (redirect-here p h (p (p h)) x (equal x h t) ∙ ap p (ap p (sym (equal x h t)) ∙ e) ∙ g)
          (top (other-fixed k g) f)
    | inr t ↦ up k (redirect-there p h (p (p h)) x t ∙ e) (top (other-fixed k g) f)
  ]
  halved-Root x s (up k e (up m g c)) = elim (Bool-cases (x == h)) [
    | inl t ↦
        up m (redirect-here p h (p (p h)) x (equal x h t) ∙ ap p (ap p (sym (equal x h t)) ∙ e) ∙ g)
          (halved-Root m s c)
    | inr t ↦ up k (redirect-there p h (p (p h)) x t ∙ e) (halved-Root k s (up m g c))
  ]

  pub halved-here : halved h ≡ p (p h)
  halved-here = redirect-here p h (p (p h)) h refl

-- the root of a parent
pub Root-parent : (p : Parents) (h s : String) → Root p h s → Root p (p h) s
Root-parent p h s (top e f) = top (ap p e) (e ∙ f)
Root-parent p h s (up k e d) = subst (λ z. Root p z s) (sym e) d

-- two roots a and b of which b is linked below a: the headings of b get the root a, the others keep theirs
module _ (p : Parents) (a b : String) (fixed : p a ≡ a) (differ : (a == b) ≡ false) where
  linked-a : redirect p b a a ≡ a
  linked-a = redirect-there p b a a differ ∙ fixed

  pub below-Root : (x s : String) → Root p x s → s ≡ b → Root (redirect p b a) x a
  below-Root x s (top e f) q = up a (redirect-here p b a x (f ∙ q)) (top linked-a refl)
  below-Root x s (up k e d) q = elim (Bool-cases (x == b)) [
    | inl t ↦ up a (redirect-here p b a x (equal x b t)) (top linked-a refl)
    | inr t ↦ up k (redirect-there p b a x t ∙ e) (below-Root k s d q)
  ]

  pub beside-Root :
      p b ≡ b → (x s : String) → Root p x s → (s == b) ≡ false → Root (redirect p b a) x s
  beside-Root g x s (top e f) q = top (redirect-there p b a x (ap (λ z. z == b) f ∙ q) ∙ e) f
  beside-Root g x s (up k e d) q = elim (Bool-cases (x == b)) [
    | inl t ↦
        let w : p x ≡ x = subst (λ z. p z ≡ z) (sym (equal x b t)) g in
        let y = Root-own p x s w (up k e d) in absurd (cc (sym q ∙ ap (λ z. z == b) (sym y) ∙ t))
    | inr t ↦ up k (redirect-there p b a x t ∙ e) (beside-Root g k s d q)
  ]
