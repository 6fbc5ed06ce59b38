-- ===== src/Homelab/Coalesce.antt =====
-- virtizai_core/homelab.py: `_coalesced_entities`, which connects the headings that share an identity by a
-- union-find over a dictionary of parents. The dictionary is a function, of which only the headings are
-- asked for; the fuel of `find` is the number of headings and one.
use virtiz_ai.Common.{
  ℕ, zero, suc, String, true, false, Option, none, some, List, [], ◌∷◌, ◌++◌, if◌then◌else◌, map,
  length, match_some, ◌==◌,
}
use virtiz_ai.Common.Sort.{Order, sort}
use virtiz_ai.Homelab.{Grammar, Fact}
use virtiz_ai.Homelab.Lookup.{distinct, folded_order}

abbrev pub Parents : Type 0
Parents = String → String

-- `parent[h] = v`
abbrev pub redirect : Parents → String → String → Parents
redirect p h v q = if q == h then v else p q

-- `find` with its path halving: the parents afterwards and the root, none where the fuel runs out
unfoldable pub find : ℕ → Parents → String → Option (Parents × String)
find zero p h = none
find (suc fuel) p h = elim (p h == h) [
  | true ↦ some (p, h)
  | false ↦ find fuel (redirect p h (p (p h))) (p (p h))
]

-- `identity_owner`
abbrev pub owner_of : List (String × String) → String → Option String
owner_of [] i = none
owner_of ((j, h) ∷ owners) i = if j == i then some h else owner_of owners i

abbrev pub owner_or : List (String × String) → String → String → String
owner_or owners i h = match_some (owner_of owners i) h (λ x. x)

module _ (o : Order String) where
  -- the rest of `union` for two roots
  abbrev pub linked : Parents → String → String → Parents
  linked p a b = if a == b then p else if o.le a b then redirect p b a else redirect p a b

  unfoldable pub union : ℕ → Parents → String → String → Option Parents
  unfolding find
  union fuel p left right = elim (find fuel p left) [
    | none ↦ none
    | some (q, a) ↦ elim (find fuel q right) [ none ↦ none | some (r, b) ↦ some (linked r a b) ]
  ]

  -- the loop over the identities, each with its heading; a known owner stays when it is set again
  unfoldable pub connect :
      ℕ → List (String × String) → List (String × String) → Parents → Option Parents
  unfolding union
  connect fuel [] owners p = some p
  connect fuel ((i, h) ∷ links) owners p = elim (union fuel p (owner_or owners i h) h) [
    | none ↦ none
    | some q ↦ connect fuel links (owners ++ ((i, h) ∷ [])) q
  ]

-- `{heading: find(heading) for heading in headings}`
unfoldable pub all_roots : ℕ → Parents → List String → Option (List (String × String))
unfolding find
all_roots fuel p [] = some []
all_roots fuel p (h ∷ hs) = elim (find fuel p h) [
  | none ↦ none
  | some (q, r) ↦ elim (all_roots fuel q hs) [ none ↦ none | some rest ↦ some ((h, r) ∷ rest) ]
]

-- the identities of the records, in order, with their headings
abbrev pub identities_of : Grammar → (String → String → List String) → Fact → List (String × String)
identities_of g aliases f = map (λ i. (g.casefold i, f.heading)) (aliases f.name f.value)

abbrev pub links_of : Grammar → (String → String → List String) → List Fact → List (String × String)
links_of g aliases [] = []
links_of g aliases (f ∷ fs) = identities_of g aliases f ++ links_of g aliases fs

abbrev pub headings_of : Grammar → List Fact → List String
headings_of g records = sort (folded_order g) (distinct (map (λ f. f.heading) records))

abbrev pub canonicals_of : Grammar → List (String × String) → List String
canonicals_of g mapping = sort (folded_order g) (distinct (map (λ e. e.1) mapping))

-- the canonical headings and the mapping of the headings to them, for a function that gives the identities of a field
unfoldable pub coalesced :
    Grammar
    → (String → String → List String)
    → List Fact
    → Option (List String × List (String × String))
unfolding connect all_roots
coalesced g aliases records =
    let headings = headings_of g records in
    let fuel = suc (length headings) in
    elim (connect (folded_order g) fuel (links_of g aliases records) [] (λ h. h)) [
      | none ↦ none
      | some p ↦ elim (all_roots fuel p headings) [
        | none ↦ none
        | some m ↦ some (canonicals_of g m, m)
      ]
    ]
