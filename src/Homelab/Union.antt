-- ===== src/Homelab/Union.antt =====
-- The linking of two roots and `union` in the union-find of `_coalesced_entities` (virtizai_core/homelab.py).
use virtiz_ai.Common.{
  suc, String, ◌≡◌, refl, sym, ap, ◌∙◌, ◌⊎◌, inl, inr, true, false, not, some, List, arith,
  if◌then◌else◌, Bool-cases, Among, length, length-where-le, ◌==◌, eq_refl,
}
use mathlib.Core.Path.{subst}
use virtiz_ai.Common.Sort.{Order}
use virtiz_ai.Homelab.Coalesce.{Parents, redirect, linked, union}
use virtiz_ai.Homelab.Roots.{
  Root, top, up, Root-fixed, redirect-here, redirect-there, below-Root, beside-Root, equal,
}
use virtiz_ai.Homelab.Forest.{Forest, Finds, find-Finds}

-- an equivalence of headings
pub record Equivalence (E : String → String → Type 0) : Type 0 where
  pub same : (a : String) → E a a
  pub flip : (a b : String) → E a b → E b a
  pub chain : (a b c : String) → E a b → E b c → E a c

module _ (o : Order String) (antisym : (a b : String) → o.le a b ≡ true → o.le b a ≡ true → a ≡ b)
    (E : String → String → Type 0) (eqv : Equivalence E) (u : List String) where
  abbrev pub IsForest : Parents → Type 0
  IsForest p = Forest o E eqv.chain u p

  pub root-along : (p : Parents) (h r : String) → IsForest p → Root p h r → E h r
  root-along p h r f (top e q) = subst (E h) q (eqv.same h)
  root-along p h r f (up k e d) = eqv.chain h k r (subst (E h) e (f.along h)) (root-along p k r f d)

  -- what the linking of two roots gives: a forest in which each root has a new name, the same for the two
  record Links (p : Parents) (a b : String) (q : Parents) : Type 0 where
    forest : IsForest q
    rename : String → String
    moved : (x s : String) → Root p x s → Root q x (rename s)
    joins : rename a ≡ rename b

  renamed : String → String → String → String
  renamed a b s = if s == b then a else s

  redirect-Links :
      (p : Parents) (a b : String)
      → IsForest p
      → p a ≡ a
      → p b ≡ b
      → (a == b) ≡ false
      → o.le b a ≡ false
      → E b a
      → Among a u
      → Links p a b (redirect p b a)
  unfolding renamed
  redirect-Links p a b f fa fb n before e i = record {
    forest = record {
      rooted = λ x. let (r, d) = f.rooted x in (renamed a b r, move x r d);
      inside = λ x j. elim (Bool-cases (x == b)) [
        | inl t ↦ subst (λ z. Among z u) (sym (redirect-here p b a x (equal x b t))) i
        | inr t ↦ subst (λ z. Among z u) (sym (redirect-there p b a x t)) (f.inside x j)
      ];
      falls = λ x. elim (Bool-cases (x == b)) [
        | inl t ↦ inr (
            subst (λ z. o.le x z ≡ false) (sym (redirect-here p b a x (equal x b t)))
              (subst (λ z. o.le z a ≡ false) (sym (equal x b t)) before))
        | inr t ↦
            subst (λ z. (z ≡ x) ⊎ (o.le x z ≡ false)) (sym (redirect-there p b a x t)) (f.falls x)
      ];
      along = λ x. elim (Bool-cases (x == b)) [
        | inl t ↦
            subst (λ z. E x z) (sym (redirect-here p b a x (equal x b t)))
              (subst (λ z. E z a) (sym (equal x b t)) e)
        | inr t ↦ subst (λ z. E x z) (sym (redirect-there p b a x t)) (f.along x)
      ];
    };
    rename = renamed a b;
    moved = move;
    joins = rw n (rw (eq_refl b) refl);
  }
    where
      move : (x s : String) → Root p x s → Root (redirect p b a) x (if s == b then a else s)
      move x s d = elim (Bool-cases (s == b)) [
        | inl t ↦ rw t (below-Root p a b fa n x s d (equal s b t))
        | inr t ↦ rw t (beside-Root p a b fa n fb x s d t)
      ]

  linked-Links :
      (p : Parents) (a b : String)
      → IsForest p
      → p a ≡ a
      → p b ≡ b
      → E a b
      → Among a u
      → Among b u
      → Links p a b (linked o p a b)
  linked-Links p a b f fa fb e i j = elim (Bool-cases (a == b)) [
    | inl t ↦ rw t (record { forest = f; rename = λ s. s; moved = λ x s d. d; joins = equal a b t })
    | inr t ↦ elim (Bool-cases (o.le a b)) [
      | inl l ↦
          let before : o.le b a ≡ false = elim (Bool-cases (o.le b a)) [
            | inl w ↦ absurd (cc (sym t ∙ ap (λ z. a == z) (sym (antisym a b l w)) ∙ eq_refl a))
            | inr w ↦ w
          ] in
          rw (t, l) (redirect-Links p a b f fa fb t before (eqv.flip a b e) i)
      | inr l ↦
          let n : (b == a) ≡ false = elim (Bool-cases (b == a)) [
            | inl w ↦ absurd (cc (sym t ∙ ap (λ z. a == z) (equal b a w) ∙ eq_refl a))
            | inr w ↦ w
          ] in
          let k = redirect-Links p b a f fb fa n l e j in
          rw (t, l)
            (record { forest = k.forest; rename = k.rename; moved = k.moved; joins = sym k.joins })
    ]
  ]

  pub record Unites (p : Parents) (left right : String) : Type 0 where
    pub after : Parents
    pub returns : union o (suc (length u)) p left right ≡ some after
    pub forest : IsForest after
    pub rename : String → String
    pub moved : (x s : String) → Root p x s → Root after x (rename s)
    pub root : String
    pub left_root : Root after left root
    pub right_root : Root after right root

  pub finds :
      (p : Parents) (h : String)
      → Among h u
      → IsForest p
      → Finds o E eqv.chain u (suc (length u)) p h
  finds p h i f =
      let l = length-where-le (λ x. not (o.le h x)) u in
      find-Finds o E eqv.chain u (suc (length u)) p h (omega arith) i f

  pub union-Unites :
      (p : Parents) (left right : String)
      → IsForest p
      → Among left u
      → Among right u
      → E left right
      → Unites p left right
  unfolding union
  union-Unites p left right f i j e =
      let x = finds p left i f in
      let y = finds x.after right j x.forest in
      let d = y.keeps left x.root x.rooted_at in
      let along =
        eqv.chain x.root left y.root
          (eqv.flip left x.root (root-along y.after left x.root y.forest d))
          (eqv.chain left right y.root e (root-along y.after right y.root y.forest y.rooted_at)) in
      let k =
        linked-Links y.after x.root y.root y.forest (Root-fixed y.after left x.root d)
          (Root-fixed y.after right y.root y.rooted_at) along x.inside_root y.inside_root in
      record {
        after = linked o y.after x.root y.root;
        returns = rw (union, x.returns, y.returns) refl;
        forest = k.forest;
        rename = k.rename;
        moved = λ z s c. k.moved z s (y.keeps z s (x.keeps z s c));
        root = k.rename x.root;
        left_root = k.moved left x.root d;
        right_root =
            subst (λ z. Root (linked o y.after x.root y.root) right z) (sym k.joins)
              (k.moved right y.root y.rooted_at);
      }
