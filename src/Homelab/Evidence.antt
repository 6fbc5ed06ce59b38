-- ===== src/Homelab/Evidence.antt =====
-- What a lookup of homelab facts may return.
use virtiz_ai.Common.{
  suc, String, ◌≡◌, refl, ap, inl, inr, Bool, true, false, ◌||◌, Option, none, some, List, [], ◌∷◌,
  ◌≤◌, arith, Bool-cases, List-cases, All, All-take, All-Among, All-weaken, Among, Among-where,
  where_, length, length-take-le, Result, ok, raised, bind-ok, ok-injective, ◌==◌, eq_iff,
}
use mathlib.Core.Option.{some-injective}
use mathlib.Core.Path.{subst}
use virtiz_ai.Common.Sort.{sort, by_key, Among-sort-back}
use virtiz_ai.Common.Orders.{text_order}
use virtiz_ai.Homelab.{Grammar}
use virtiz_ai.Homelab.Lookup.{
  Resolution, found, ambiguous, not_found, resolve_property, Entity, Row, Tables, nocase, Found,
  Lookup,
}
use virtiz_ai.Homelab.Facts.{
  has_alias, named, latest, is_fact_of, has_property, facts_of, properties_of, resolved_facts,
  found_of, all_found, status_of, term_of, secret_property, answer_of, lookup_term, lookup, nothing,
  nonempty,
}

module _ (g : Grammar) (t : Tables) (property : Option String) where
  -- a fact that may be shown for an entity: one of its own, of the property that is asked for
  pub record IsEvidence (e : Entity) (f : Row) : Type 0 where
    pub stored : Among f t.facts
    pub own : is_fact_of e f ≡ true
    pub asked :
        (p : String)
        → property ≡ some p
        → (c : String) × (resolve_property g p (properties_of t e) ≡ found c)
          × (nocase f.property c ≡ true)

  -- an entity that may be shown for a term
  pub record IsShown (term : String) (f : Found) : Type 0 where
    pub known : Among f.entity t.entities
    pub named_so : has_alias t term f.entity ≡ true
    pub evidence : All (IsEvidence f.entity) f.facts
    pub few : length f.facts ≤ 50

  facts_of-Among :
      (e : Entity) (p : Option String)
      → All
          (λ f. Among f t.facts × (is_fact_of e f ≡ true) × (has_property p f ≡ true))
          (facts_of t e p)
  unfolding facts_of
  facts_of-Among e p =
      let rows = where_ (has_property p) (where_ (is_fact_of e) t.facts) in
      All-take _ 50 (sort latest rows) (
        All-weaken (λ f. Among f (sort latest rows)) _ (sort latest rows)
          (λ f i.
            let (j, asked) =
              Among-where (has_property p) f (where_ (is_fact_of e) t.facts)
                (Among-sort-back latest f rows i) in
            let (k, own) = Among-where (is_fact_of e) f t.facts j in (k, own, asked))
          (All-Among (sort latest rows)))

  facts_of-few : (e : Entity) (p : Option String) → length (facts_of t e p) ≤ 50
  unfolding facts_of
  facts_of-few e p = length-take-le 50 _

  named-Among :
      (term : String) → All (λ e. Among e t.entities × (has_alias t term e ≡ true)) (named t term)
  unfolding named
  named-Among term =
      let o = by_key (λ e. e.canonical_name) text_order in
      let rows = where_ (has_alias t term) t.entities in
      All-take _ 8 (sort o rows) (
        All-weaken (λ e. Among e (sort o rows)) _ (sort o rows)
          (λ e i. Among-where (has_alias t term) e t.entities (Among-sort-back o e rows i))
          (All-Among (sort o rows)))

  named-few : (term : String) → length (named t term) ≤ 8
  unfolding named
  named-few term = length-take-le 8 _

module _ (g : Grammar) (t : Tables) where
  resolved_facts-IsShown :
      (p term : String) (e : Entity) (r : Resolution) (f : Found)
      → resolve_property g p (properties_of t e) ≡ r
      → Among e t.entities
      → has_alias t term e ≡ true
      → resolved_facts t e r ≡ ok f
      → IsShown g t (some p) term f
  resolved_facts-IsShown p term e (found c) f q k a h =
      subst (IsShown g t (some p) term) (ok-injective _ f h) (record {
        known = k;
        named_so = a;
        evidence =
            All-weaken _ _ (facts_of t e (some c))
              (λ x (s, o, n). record {
                stored = s;
                own = o;
                asked = λ p' i. (
                  c,
                  subst (λ z. resolve_property g z (properties_of t e) ≡ found c)
                      (some-injective p p' i) q,
                  n,
                );
              })
              (facts_of-Among g t (some p) e (some c));
        few = facts_of-few g t (some p) e (some c);
      })
  resolved_facts-IsShown p term e (ambiguous ms) f q k a h = absurd (cc)
  resolved_facts-IsShown p term e not_found f q k a h =
      subst (IsShown g t (some p) term) (ok-injective (record { entity = e; facts = [] }) f h)
        (record { known = k; named_so = a; evidence = tt; few = omega arith })

  found_of-IsShown :
      (property : Option String) (term : String) (e : Entity) (f : Found)
      → Among e t.entities
      → has_alias t term e ≡ true
      → found_of g t property e ≡ ok f
      → IsShown g t property term f
  unfolding found_of
  found_of-IsShown none term e f k a h =
      subst (IsShown g t none term)
        (ok-injective (record { entity = e; facts = facts_of t e none }) f h)
        (record {
          known = k;
          named_so = a;
          evidence =
              All-weaken _ _ (facts_of t e none)
                (λ x (s, o, n). record { stored = s; own = o; asked = λ p i. absurd (cc) })
                (facts_of-Among g t none e none);
          few = facts_of-few g t none e none;
        })
  found_of-IsShown (some p) term e f k a h = resolved_facts-IsShown p term e _ f refl k a h

  all_found-IsShown :
      (property : Option String) (term : String) (es : List Entity) (fs : List Found)
      → All (λ e. Among e t.entities × (has_alias t term e ≡ true)) es
      → all_found g t property es ≡ ok fs
      → All (IsShown g t property term) fs × (length fs ≡ length es)
  unfolding all_found
  all_found-IsShown property term [] fs a h =
      subst (λ z. All (IsShown g t property term) z × (length z ≡ 0)) (ok-injective [] fs h)
        (tt, refl)
  all_found-IsShown property term (e ∷ es) fs a h =
      let (f, k, h1) = bind-ok (found_of g t property e) _ fs h in
      let (rest, r, h2) = bind-ok (all_found g t property es) _ fs h1 in
      let (shown, l) = all_found-IsShown property term es rest a.1 r in
      subst (λ z. All (IsShown g t property term) z × (length z ≡ suc (length es)))
        (ok-injective (f ∷ rest) fs h2)
        ((found_of-IsShown property term e f a.0.0 a.0.1 k, shown), ap suc l)

  -- what a lookup may answer
  pub record IsAnswer (property : Option String) (l : Lookup) : Type 0 where
    pub shown : All (IsShown g t property l.query) l.entities
    pub few : length l.entities ≤ 8
    pub one : l.status ≡ "found" → (f : Found) × (l.entities ≡ f ∷ [])
    pub secret : (g.is_secret l.query || secret_property g property) ≡ true → l.entities ≡ []

  nothing-IsAnswer : (property : Option String) (term : String) → IsAnswer property (nothing term)
  nothing-IsAnswer property term = record {
    shown = tt;
    few = omega arith;
    one = λ h. absurd (ground (arith, eq_iff "not_found" "found"));
    secret = λ _. refl;
  }

  status_one :
      (property : Option String) (fs : List Found)
      → 1 ≤ length fs
      → status_of property fs ≡ "found"
      → (f : Found) × (fs ≡ f ∷ [])
  status_one property [] l h = absurd (omega arith)
  status_one property (f ∷ []) l h = (f, refl)
  status_one property (f ∷ e ∷ es) l h = absurd (ground (arith, eq_iff "ambiguous" "found"))

  answer_of-IsAnswer :
      (property : Option String) (term : String) (session : Bool) (es : List Entity)
      (r : Result (List String) (List Found))
      → (g.is_secret term || secret_property g property) ≡ false
      → 1 ≤ length es
      → length es ≤ 8
      → All (λ e. Among e t.entities × (has_alias t term e ≡ true)) es
      → all_found g t property es ≡ r
      → IsAnswer property (answer_of term property session r)
  answer_of-IsAnswer property term session es (raised ms) n l m a h = record {
    shown = tt;
    few = omega arith;
    one = λ h. absurd (ground (arith, eq_iff "ambiguous_property" "found"));
    secret = λ _. refl;
  }
  answer_of-IsAnswer property term session es (ok fs) n l m a h =
      let (shown, k) = all_found-IsShown property term es fs a h in
      record {
        shown = shown;
        few = omega arith;
        one = status_one property fs (omega arith);
        secret = λ s. absurd (cc);
      }

  lookup_term-IsAnswer :
      (property : Option String) (term : String) (session : Bool)
      → IsAnswer property (lookup_term g t property term session)
  unfolding lookup_term
  lookup_term-IsAnswer property term session =
      elim (Bool-cases (term == "" || g.is_secret term || secret_property g property)) [
        | inl e ↦ rw (lookup_term, e) (nothing-IsAnswer property term)
        | inr e ↦ elim (List-cases (named t term)) [
          | inl f ↦ rw (lookup_term, e, f) (nothing-IsAnswer property term)
          | inr (x, xs, f) ↦
              let a =
                subst (All (λ e. Among e t.entities × (has_alias t term e ≡ true))) f
                  (named-Among g t property term) in
              let m = subst (λ z. length z ≤ 8) f (named-few g t property term) in
              rw (lookup_term, e, f)
                (answer_of-IsAnswer property term session (x ∷ xs) _ (ground (arith)) (omega arith)
                  m a refl)
        ]
      ]

  -- A lookup shows at most eight entities, each of which an alias equal to the term names, with at most fifty facts
  -- of its own, all of the property that is asked for where one is; it says that it has found something
  -- only if it shows one entity; and for a term or a property that names a secret it shows none.
  pub lookup-IsAnswer :
      (alias : String) (property session : Option String)
      → IsAnswer (nonempty property) (lookup g t alias property session)
  unfolding lookup
  lookup-IsAnswer alias property session =
      lookup_term-IsAnswer (nonempty property) (term_of g t alias (nonempty session)).0
        (term_of g t alias (nonempty session)).1
