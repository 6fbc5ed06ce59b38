-- ===== src/Homelab/Partition.antt =====
-- The loops of `_coalesced_entities` (virtizai_core/homelab.py) over the identities and over the headings, with the
-- relation of headings that share identities.
use virtiz_ai.Common.{
  suc, String, ◌≡◌, refl, sym, ap, ◌∙◌, ◌⊎◌, inl, inr, true, none, some, List, [], ◌∷◌, ◌++◌, map,
  Bool-cases, Option-cases, All, Among, Among-All, All-append, All-weaken, length, ◌==◌, eq_refl,
}
use mathlib.Core.Path.{subst}
use mathlib.Core.List.{append_assoc, append-nil}
use mathlib.Core.Option.{some-injective}
use virtiz_ai.Common.Sort.{Order}
use virtiz_ai.Homelab.Coalesce.{Parents, union, owner_of, owner_or, connect, all_roots}
use virtiz_ai.Homelab.Roots.{Root, Root-unique, equal}
use virtiz_ai.Homelab.Union.{Equivalence, IsForest, union-Unites, finds}

-- connected by identities: the same heading, or a chain of headings each of which shares one with the next
pub data Connected (links : List (String × String)) : String → String → Type 0 where
  itself : {a b : String} → a ≡ b → Connected links a b
  shares :
      {a b : String} → (i : String) → Among (i, a) links → Among (i, b) links → Connected links a b
  back : {a b : String} → Connected links b a → Connected links a b
  via :
      {a b : String}
      → (c : String) → Connected links a c
      → Connected links c b
      → Connected links a b

abbrev pub connected : (links : List (String × String)) → Equivalence (Connected links)
connected links = record {
  same = λ a. itself refl;
  flip = λ a b d. back d;
  chain = λ a b c d e. via b d e;
}

owner_of-append :
    (owners more : List (String × String)) (i h : String)
    → owner_of owners i ≡ some h
    → owner_of (owners ++ more) i ≡ some h
owner_of-append [] more i h e = absurd (cc)
owner_of-append ((j, k) ∷ owners) more i h e = elim (Bool-cases (j == i)) [
  | inl t ↦ rw t (rw t at e)
  | inr t ↦ rw t (owner_of-append owners more i h (rw t at e))
]

owner_of-new :
    (owners : List (String × String)) (i h : String)
    → owner_of owners i ≡ none
    → owner_of (owners ++ ((i, h) ∷ [])) i ≡ some h
owner_of-new [] i h e = rw (eq_refl i) refl
owner_of-new ((j, k) ∷ owners) i h e = elim (Bool-cases (j == i)) [
  | inl t ↦ absurd (cc (rw t at e))
  | inr t ↦ rw t (owner_of-new owners i h (rw t at e))
]

owner_of-Among :
    (owners : List (String × String)) (i h : String)
    → owner_of owners i ≡ some h
    → Among (i, h) owners
owner_of-Among [] i h e = absurd (cc)
owner_of-Among ((j, k) ∷ owners) i h e = elim (Bool-cases (j == i)) [
  | inl t ↦
      let q : k ≡ h = some-injective k h (rw t at e) in
      inl (ap (λ z. (z, k)) (equal j i t) ∙ ap (λ z. (i, z)) q)
  | inr t ↦ inr (owner_of-Among owners i h (rw t at e))
]

-- two headings have one root
abbrev pub Joined : Parents → String → String → Type 0
Joined p a b = (r : String) × Root p a r × Root p b r

-- every heading has the root of the owner of its identity
abbrev pub Owned : List (String × String) → Parents → Type 0
Owned owners p =
    (i h : String)
    → Among (i, h) owners
    → (w : String) × (owner_of owners i ≡ some w) × Joined p h w

Among-split :
    (x : String × String) (xs ys : List (String × String))
    → Among x (xs ++ ys)
    → Among x xs ⊎ Among x ys
Among-split x [] ys i = inr i
Among-split x (z ∷ zs) ys (inl e) = inl (inl e)
Among-split x (z ∷ zs) ys (inr i) = elim (Among-split x zs ys i) [
  | inl a ↦ inl (inr a)
  | inr b ↦ inr b
]

module _ (o : Order String) (antisym : (a b : String) → o.le a b ≡ true → o.le b a ≡ true → a ≡ b)
    (links : List (String × String)) (u : List String) where
  abbrev pub Trees : Parents → Type 0
  Trees p = IsForest o antisym (Connected links) (connected links) u p

  -- the state after the loop over the identities
  pub record Connects (owners rest : List (String × String)) (p : Parents) : Type 0 where
    pub after : Parents
    pub returns : connect o (suc (length u)) rest owners p ≡ some after
    pub forest : Trees after
    pub owned : Owned (owners ++ rest) after

  next-Owned :
      (owners : List (String × String)) (i h w : String) (p q : Parents) (rename : String → String)
      (r : String)
      → ((x s : String) → Root p x s → Root q x (rename s))
      → Owned owners p
      → owner_of (owners ++ ((i, h) ∷ [])) i ≡ some w
      → Root q w r
      → Root q h r
      → Owned (owners ++ ((i, h) ∷ [])) q
  next-Owned owners i h w p q rename r moved owned e a b j k n =
      elim (Among-split (j, k) owners ((i, h) ∷ []) n) [
        | inl m ↦
            let (v, f, (s, c, d)) = owned j k m in
            (v, owner_of-append owners ((i, h) ∷ []) j v f, (rename s, moved k s c, moved v s d))
        | inr (inl z) ↦ (
          w,
          ap (owner_of (owners ++ ((i, h) ∷ []))) (sym (ap (λ x. x.0) z)) ∙ e,
          (r, subst (λ x. Root q x r) (ap (λ x. x.1) z) b, a),
        )
        | inr (inr m) ↦ absurd m
      ]

  -- the owner of an identity once it is set, which is connected to the heading
  the_owner :
      (owners : List (String × String)) (i h : String)
      → All (λ l. Among l links × Among l.1 u) owners
      → Among (i, h) links × Among h u
      → (w : String) × (owner_or owners i h ≡ w)
        × (owner_of (owners ++ ((i, h) ∷ [])) i ≡ some w)
        × Among w u
        × Connected links w h
  the_owner owners i h b (m, n) = elim (Option-cases (owner_of owners i)) [
    | inl e ↦ (h, rw e refl, owner_of-new owners i h e, n, itself refl)
    | inr (w, e) ↦
        let (k, j) =
          Among-All (λ l. Among l links × Among l.1 u) (i, w) owners b
            (owner_of-Among owners i w e) in
        (w, rw e refl, owner_of-append owners ((i, h) ∷ []) i w e, j, shares i k m)
  ]

  connect_nil :
      (owners : List (String × String)) (p : Parents)
      → connect o (suc (length u)) [] owners p ≡ some p
  unfolding connect
  connect_nil owners p = refl

  connect_step :
      (i h : String) (rest owners : List (String × String)) (p q : Parents)
      → union o (suc (length u)) p (owner_or owners i h) h ≡ some q
      → connect o (suc (length u)) ((i, h) ∷ rest) owners p
        ≡ connect o (suc (length u)) rest (owners ++ ((i, h) ∷ [])) q
  unfolding connect
  connect_step i h rest owners p q e = rw (connect, e) refl

  pub connect-Connects :
      (rest owners : List (String × String)) (p : Parents)
      → All (λ l. Among l links × Among l.1 u) rest
      → All (λ l. Among l links × Among l.1 u) owners
      → Trees p
      → Owned owners p
      → Connects owners rest p
  connect-Connects [] owners p a b f owned = record {
    after = p;
    returns = connect_nil owners p;
    forest = f;
    owned = subst (λ z. Owned z p) (sym (append-nil owners)) owned;
  }
  connect-Connects ((i, h) ∷ rest) owners p a b f owned =
      let (w, e1, e2, iw, c) = the_owner owners i h b a.0 in
      let s = union-Unites o antisym (Connected links) (connected links) u p w h f iw a.0.1 c in
      let next =
        connect-Connects rest (owners ++ ((i, h) ∷ [])) s.after a.1
          (All-append (λ l. Among l links × Among l.1 u) owners ((i, h) ∷ []) b (a.0, tt)) s.forest
          (next-Owned owners i h w p s.after s.rename s.root s.moved owned e2 s.left_root
            s.right_root) in
      record {
        after = next.after;
        returns =
            connect_step i h rest owners p s.after
              (ap (λ z. union o (suc (length u)) p z h) e1 ∙ s.returns)
            ∙ next.returns;
        forest = next.forest;
        owned = subst (λ z. Owned z next.after) (append_assoc owners ((i, h) ∷ []) rest) next.owned;
      }

  -- headings that are connected have one root
  pub connected-Joined :
      (p : Parents) → Trees p → Owned links p → (a b : String) → Connected links a b → Joined p a b
  connected-Joined p f w a b (itself e) =
      let (r, d) = f.rooted a in (r, d, subst (λ z. Root p z r) e d)
  connected-Joined p f w a b (shares i m n) =
      let (x, e, (r, c, d)) = w i a m in
      let (y, k, (s, c2, d2)) = w i b n in
      let q : x ≡ y = some-injective x y (sym e ∙ k) in
      let same_root : r ≡ s = Root-unique p y r s (subst (λ z. Root p z r) q d) d2 in
      (r, c, subst (λ z. Root p b z) (sym same_root) c2)
  connected-Joined p f w a b (back d) = let (r, x, y) = connected-Joined p f w b a d in (r, y, x)
  connected-Joined p f w a b (via c d e) =
      let (r, x, y) = connected-Joined p f w a c d in
      let (s, z, v) = connected-Joined p f w c b e in
      (r, x, subst (λ t. Root p b t) (Root-unique p c s r z y) v)

  -- the canonical heading of every heading, in the forest that the loop leaves
  pub record MapsRoots (p : Parents) (hs : List String) : Type 0 where
    pub mapping : List (String × String)
    pub returns : all_roots (suc (length u)) p hs ≡ some mapping
    pub all_mapped : map (λ e. e.0) mapping ≡ hs
    pub rooted : All (λ e. Root p e.0 e.1) mapping

  pub all_roots-MapsRoots :
      (hs : List String) (p : Parents) → All (λ h. Among h u) hs → Trees p → MapsRoots p hs
  unfolding all_roots
  all_roots-MapsRoots [] p a f = record {
    mapping = [];
    returns = refl;
    all_mapped = refl;
    rooted = tt;
  }
  all_roots-MapsRoots (h ∷ hs) p a f =
      let x = finds o antisym (Connected links) (connected links) u p h a.0 f in
      let next = all_roots-MapsRoots hs x.after a.1 x.forest in
      let old : (k r : String) → Root x.after k r → Root p k r = λ k r d.
        let (s, c) = f.rooted k in
        subst (Root p k) (Root-unique x.after k s r (x.keeps k s c) d) c in
      record {
        mapping = (h, x.root) ∷ next.mapping;
        returns = rw (all_roots, x.returns, next.returns) refl;
        all_mapped = ap (λ z. h ∷ z) next.all_mapped;
        rooted = (
          old h x.root x.rooted_at,
          All-weaken _ _ next.mapping (λ e d. old e.0 e.1 d) next.rooted,
        );
      }
