-- ===== src/Homelab/Facts.antt =====
-- virtizai_core/homelab.py: `HomelabFacts.lookup`.
use virtiz_ai.Common.{
  String, Bool, true, false, ◌&&◌, ◌||◌, Option, none, some, List, [], ◌∷◌, if◌then◌else◌, any_of,
  where_, take, map, mem, is_empty, Result, ok, raised, ◌>>=◌, ◌==◌,
}
use virtiz_ai.Common.Sort.{Order, sort, by_key, lex}
use virtiz_ai.Common.Orders.{text_order}
use virtiz_ai.Homelab.{Grammar}
use virtiz_ai.Homelab.Lookup.{
  Resolution, found, ambiguous, not_found, distinct, resolve_property, Entity, Row, Tables, nocase,
  Found, Lookup, same_session_entity,
}

abbrev pub nothing : String → Lookup
nothing term = record {
  status = "not_found";
  query = term;
  property = none;
  property_matches = [];
  same_session = false;
  entities = [];
}

-- the rows of `homelab_entities` that an alias names
abbrev pub has_alias : Tables → String → Entity → Bool
has_alias t term e = any_of (λ a. a.entity_id == e.id && nocase a.alias term) t.aliases

unfoldable pub named : Tables → String → List Entity
named t term =
    take 8 (sort (by_key (λ e. e.canonical_name) text_order) (where_ (has_alias t term) t.entities))

-- ORDER BY property, updated_at DESC
abbrev pub latest : Order Row
latest = lex (by_key (λ f. f.property) text_order) (record {
  le = λ a b. text_order.le b.updated_at a.updated_at;
  total = λ a b. text_order.total b.updated_at a.updated_at;
  trans = λ a b c h k. text_order.trans c.updated_at b.updated_at a.updated_at k h;
})

abbrev pub is_fact_of : Entity → Row → Bool
is_fact_of e f = f.entity_id == e.id

abbrev pub has_property : Option String → Row → Bool
has_property none f = true
has_property (some p) f = nocase f.property p

-- the facts of an entity, with the property that is asked for
unfoldable pub facts_of : Tables → Entity → Option String → List Row
facts_of t e property =
    take 50 (sort latest (where_ (has_property property) (where_ (is_fact_of e) t.facts)))

abbrev pub properties_of : Tables → Entity → List String
properties_of t e =
    sort text_order (distinct (map (λ f. f.property) (where_ (is_fact_of e) t.facts)))

abbrev pub resolved_facts : Tables → Entity → Resolution → Result (List String) Found
resolved_facts t e (found p) = ok (record { entity = e; facts = facts_of t e (some p) })
resolved_facts t e (ambiguous matches) = raised matches
resolved_facts t e not_found = ok (record { entity = e; facts = [] })

-- one entity of the result, or the matches of an ambiguous property
unfoldable pub found_of : Grammar → Tables → Option String → Entity → Result (List String) Found
found_of g t none e = ok (record { entity = e; facts = facts_of t e none })
found_of g t (some p) e = resolved_facts t e (resolve_property g p (properties_of t e))

-- the loop over the rows
unfoldable pub all_found :
    Grammar → Tables → Option String → List Entity → Result (List String) (List Found)
unfolding found_of
all_found g t property [] = ok []
all_found g t property (e ∷ es) =
    let rest = all_found g t property es in
    found_of g t property e >>= λ f. rest >>= λ fs. ok (f ∷ fs)

abbrev pub status_of : Option String → List Found → String
status_of property (f ∷ e ∷ es) = "ambiguous"
status_of (some p) (f ∷ []) = if is_empty f.facts then "property_not_found" else "found"
status_of _ _ = "found"

-- the term that is looked up, and whether it stands for the entity of the session
abbrev pub term_of : Grammar → Tables → String → Option String → String × Bool
term_of g t alias none = (g.clean alias, false)
term_of g t alias (some session) =
    if mem (g.casefold (g.clean alias)) ("it" ∷ "that" ∷ "this" ∷ "that one" ∷ "this one" ∷ [])
    then elim (same_session_entity t session) [
      | none ↦ (g.clean alias, false)
      | some e ↦ (e.canonical_name, true)
    ]
    else (g.clean alias, false)

abbrev pub secret_property : Grammar → Option String → Bool
secret_property g none = false
secret_property g (some p) = g.is_secret p

abbrev pub answer_of : String → Option String → Bool → Result (List String) (List Found) → Lookup
answer_of term property session (raised matches) = record {
  status = "ambiguous_property";
  query = term;
  property = property;
  property_matches = matches;
  same_session = false;
  entities = [];
}
answer_of term property session (ok fs) = record {
  status = status_of property fs;
  query = term;
  property = property;
  property_matches = [];
  same_session = session;
  entities = fs;
}

-- the lookup of a term, where an empty property or session is none
unfoldable pub lookup_term : Grammar → Tables → Option String → String → Bool → Lookup
unfolding named all_found
lookup_term g t property term session =
    if term == "" || g.is_secret term || secret_property g property
    then nothing term
    else elim (named t term) [
      | [] ↦ nothing term
      | e ∷ es ↦ answer_of term property session (all_found g t property (e ∷ es))
    ]

abbrev pub nonempty : Option String → Option String
nonempty none = none
nonempty (some s) = if s == "" then none else some s

unfoldable pub lookup : Grammar → Tables → String → Option String → Option String → Lookup
unfolding lookup_term
lookup g t alias property session =
    let (term, from_session) = term_of g t alias (nonempty session) in
    lookup_term g t (nonempty property) term from_session
