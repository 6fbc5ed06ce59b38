-- ===== src/Homelab/Canonical.antt =====
-- The canonical headings of a homelab file, `_coalesced_entities` of virtizai_core/homelab.py.
use virtiz_ai.Common.{
  suc, String, ◌≡◌, refl, sym, ap, ◌∙◌, inl, inr, true, false, some, List, [], ◌∷◌, arith, map,
  Bool-cases, All, All-append, All-weaken, All-Among, Among, Among-All, mem, length, ◌==◌, eq_iff,
  ◌↔◌,
}
use mathlib.Core.Path.{subst}
use virtiz_ai.Common.Codes.{lex_text_antisym}
use virtiz_ai.Common.Sort.{Order, by_key, Among-sort}
use virtiz_ai.Common.Orders.{text_order}
use virtiz_ai.Homelab.{Grammar, Fact}
use virtiz_ai.Homelab.Lookup.{distinct, folded_order}
use virtiz_ai.Homelab.Coalesce.{
  Parents, connect, all_roots, identities_of, links_of, headings_of, canonicals_of, coalesced,
}
use virtiz_ai.Homelab.Roots.{Root, top, up, Root-unique}
use virtiz_ai.Homelab.Union.{root-along}
use virtiz_ai.Homelab.Partition.{
  Connected, connected, itself, back, via, Trees, connect-Connects, connected-Joined,
  all_roots-MapsRoots,
}

mem-Among : (k : String) (xs : List String) → mem k xs ≡ true → Among k xs
mem-Among k [] h = absurd (cc)
mem-Among k (x ∷ xs) h = elim (Bool-cases (x == k)) [
  | inl e ↦ inl (ground (arith, eq_iff x k))
  | inr e ↦ inr (mem-Among k xs (ground arith))
]

Among-distinct : (k : String) (xs : List String) → Among k xs → Among k (distinct xs)
unfolding distinct
Among-distinct k [] i = i
Among-distinct k (x ∷ xs) (inr i) = elim (Bool-cases (mem x xs)) [
  | inl e ↦ rw e (Among-distinct k xs i)
  | inr e ↦ rw e (inr (Among-distinct k xs i))
]
Among-distinct k (x ∷ xs) (inl q) = elim (Bool-cases (mem x xs)) [
  | inl e ↦ rw e (subst (λ z. Among z (distinct xs)) q (Among-distinct x xs (mem-Among x xs e)))
  | inr e ↦ rw e (inl q)
]

module _ (g : Grammar) (aliases : String → String → List String) where
  headings_from :
      (u : List String) (is : List String) (f : Fact)
      → Among f.heading u
      → All {A = String × String} (λ l. Among l.1 u) (map (λ i. (g.casefold i, f.heading)) is)
  headings_from u [] f h = tt
  headings_from u (i ∷ is) f h = (h, headings_from u is f h)

  links_inside :
      (u : List String) (fs : List Fact)
      → All (λ f. Among f.heading u) fs
      → All {A = String × String} (λ l. Among l.1 u) (links_of g aliases fs)
  links_inside u [] h = tt
  links_inside u (f ∷ fs) h =
      All-append {A = String × String} (λ l. Among l.1 u) (identities_of g aliases f)
        (links_of g aliases fs) (headings_from u (aliases f.name f.value) f h.0)
        (links_inside u fs h.1)

  record_headings : (fs : List Fact) → All (λ f. Among f.heading (map (λ r. r.heading) fs)) fs
  record_headings [] = tt
  record_headings (f ∷ fs) = (inl refl, All-weaken _ _ fs (λ x i. inr i) (record_headings fs))

  antisym : (a b : String) → (folded_order g).le a b ≡ true → (folded_order g).le b a ≡ true → a ≡ b
  antisym a b h k = lex_text_antisym (by_key g.casefold text_order) a b h k

  -- the mapping of the headings of the records
  pub record IsPartition (records : List Fact) : Type 0 where
    pub mapping : List (String × String)
    pub returns : coalesced g aliases records ≡ some (canonicals_of g mapping, mapping)
    pub all_mapped : map (λ e. e.0) mapping ≡ headings_of g records
    pub agree :
        (a r b s : String)
        → Among (a, r) mapping
        → Among (b, s) mapping
        → (r ≡ s) ↔ Connected (links_of g aliases records) a b
    pub chosen :
        (a r : String)
        → Among (a, r) mapping
        → Among r (headings_of g records) × Connected (links_of g aliases records) a r
    pub least :
        (a r b s : String)
        → Among (a, r) mapping
        → Among (b, s) mapping
        → Connected (links_of g aliases records) a b
        → (folded_order g).le r b ≡ true

  module _ (records : List Fact) where
    abbrev u : List String
    u = headings_of g records

    abbrev links : List (String × String)
    links = links_of g aliases records

    abbrev o : Order String
    o = folded_order g

    heading_kept : All (λ f. Among f.heading u) records
    heading_kept =
        All-weaken _ _ records
          (λ f i.
            Among-sort o f.heading (distinct (map (λ r. r.heading) records))
              (Among-distinct f.heading (map (λ r. r.heading) records) i))
          (record_headings records)

    root-le :
        (p : Parents) (h r : String) → Trees o antisym links u p → Root p h r → o.le r h ≡ true
    root-le p h r f (top e q) = subst (λ z. o.le z h ≡ true) q (ground (arith, o.total h h))
    root-le p h r f (up k e d) = elim (f.falls h) [
      | inl q ↦ subst (λ z. o.le r z ≡ true) (sym e ∙ q) (root-le p k r f d)
      | inr b ↦
          let c = root-le p k r f d in
          let b2 = subst (λ z. o.le h z ≡ false) e b in ground (arith, o.total h k, o.trans r k h)
    ]

    root-Among :
        (p : Parents) (h r : String)
        → Trees o antisym links u p
        → Among h u
        → Root p h r
        → Among r u
    root-Among p h r f i (top e q) = subst (λ z. Among z u) q i
    root-Among p h r f i (up k e d) = root-Among p k r f (subst (λ z. Among z u) e (f.inside h i)) d

    start : Trees o antisym links u (λ h. h)
    start = record {
      rooted = λ h. (h, top refl refl);
      inside = λ h i. i;
      falls = λ h. inl refl;
      along = λ h. itself refl;
    }

    both :
        (ls all : List (String × String))
        → All {A = String × String} (λ l. Among l all) ls
        → All {A = String × String} (λ l. Among l.1 u) ls
        → All {A = String × String} (λ l. Among l all × Among l.1 u) ls
    both [] all a b = tt
    both (l ∷ ls) all a b = ((a.0, b.0), both ls all a.1 b.1)

    entry_heading :
        (m : List (String × String)) (a r : String) → Among (a, r) m → Among a (map (λ e. e.0) m)
    entry_heading [] a r i = absurd i
    entry_heading (e ∷ m) a r (inl q) = inl (ap (λ z. z.0) q)
    entry_heading (e ∷ m) a r (inr i) = inr (entry_heading m a r i)

    coalesced-some :
        (p : Parents) (m : List (String × String))
        → connect o (suc (length u)) links [] (λ h. h) ≡ some p
        → all_roots (suc (length u)) p u ≡ some m
        → coalesced g aliases records ≡ some (canonicals_of g m, m)
    unfolding coalesced
    coalesced-some p m e f = rw (coalesced, e, f) refl

    -- Coalescing always ends, and maps every heading of the records; two headings have the same canonical heading
    -- exactly if a chain of shared identities connects them; and the canonical heading is one of the headings so
    -- connected, and the least of them in the order of the folded texts.
    pub coalesced-IsPartition : IsPartition records
    coalesced-IsPartition =
        let c =
          connect-Connects o antisym links u links [] (λ h. h)
            (both links links (All-Among links) (links_inside u records heading_kept)) tt start
            (λ i h m. absurd m) in
        let p = c.after in
        let m = all_roots-MapsRoots o antisym links u u p (All-Among u) c.forest in
        let root : (a r : String) → Among (a, r) m.mapping → Root p a r =
          λ a r i. Among-All (λ e. Root p e.0 e.1) (a, r) m.mapping m.rooted i in
        let along : (a r : String) → Root p a r → Connected links a r =
          λ a r d. root-along o antisym (Connected links) (connected links) u p a r c.forest d in
        let one : (a b r s : String) → Root p a r → Root p b s → Connected links a b → r ≡ s =
          λ a b r s d e k.
            let (t, x, y) = connected-Joined o antisym links u p c.forest c.owned a b k in
            Root-unique p a r t d x ∙ Root-unique p b t s y e in
        record {
          mapping = m.mapping;
          returns = coalesced-some p m.mapping c.returns m.returns;
          all_mapped = m.all_mapped;
          agree = λ a r b s i j. (
            λ q.
                via r (along a r (root a r i))
                  (back (subst (λ z. Connected links b z) (sym q) (along b s (root b s j)))),
            λ k. one a b r s (root a r i) (root b s j) k,
          );
          chosen = λ a r i. (
            root-Among p a r c.forest
                (subst (λ z. Among a z) m.all_mapped (entry_heading m.mapping a r i)) (root a r i),
            along a r (root a r i),
          );
          least = λ a r b s i j k.
              subst (λ z. o.le z b ≡ true) (sym (one a b r s (root a r i) (root b s j) k))
                (root-le p b s c.forest (root b s j));
        }
