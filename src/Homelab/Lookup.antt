-- ===== src/Homelab/Lookup.antt =====
-- virtizai_core/homelab.py: `resolve_property` and `HomelabFacts`, the lookup of the facts of an entity. A fact
-- carries the row of its provenance; COLLATE NOCASE folds the ASCII letters.
use virtiz_ai.Common.{
  ℕ, String, Bool, true, false, ◌&&◌, Option, none, some, List, [], ◌∷◌, ◌+◌, if◌then◌else◌, leb,
  nat_eq, where_, first, take, mem, match_some, ◌==◌,
}
use virtiz_ai.Common.Json.{Value, str, get_value, is_text}
use virtiz_ai.Common.Sort.{Order, sort, by_key, lex, nat_order}
use virtiz_ai.Common.Orders.{codes, text_order}
use virtiz_ai.Homelab.{Grammar}

-- the state of a resolution of a property, with the canonical name that is found
pub data Resolution : Type 0 where
  found : String → Resolution
  ambiguous : List String → Resolution
  not_found : Resolution

-- `set(xs)`
unfoldable pub distinct : List String → List String
distinct [] = []
distinct (x ∷ xs) = let rest = distinct xs in if mem x xs then rest else x ∷ rest

-- ordered by `(item.casefold(), item)`
abbrev pub folded_order : Grammar → Order String
folded_order g = lex (by_key g.casefold text_order) text_order

abbrev pub semantic_target : String → Option String
semantic_target word =
    if mem word ("os" ∷ "operating system" ∷ [])
    then some "underlying os"
    else if word == "version"
    then some "product version"
    else if mem word ("ip" ∷ "ip address" ∷ "hostname" ∷ "host name" ∷ [])
    then some "hostname ip"
    else if mem word ("platform" ∷ "product" ∷ [])
    then some "product platform"
    else none

-- one match, several, or what follows where there is none
abbrev pub unique : List String → Resolution → Resolution
unique [] rest = rest
unique (x ∷ []) rest = found x
unique (x ∷ y ∷ ys) rest = ambiguous (x ∷ y ∷ ys)

abbrev pub normalized_as : Grammar → String → String → Bool
normalized_as g target item = g.normalize item == target

abbrev by_meaning : Grammar → List String → Option String → Resolution
by_meaning g ordered none = not_found
by_meaning g ordered (some target) = unique (where_ (normalized_as g target) ordered) not_found

abbrev by_name : Grammar → List String → String → Resolution
by_name g ordered requested =
    unique (where_ (normalized_as g (g.normalize requested)) ordered)
      (by_meaning g ordered (semantic_target (g.normalize requested)))

unfoldable pub resolve_property : Grammar → String → List String → Resolution
unfolding distinct
resolve_property g requested properties =
    let ordered = sort (folded_order g) (distinct properties) in
    if mem (g.clean requested) ordered
    then found (g.clean requested)
    else by_name g ordered (g.clean requested)

-- rows of `homelab_entities`, `homelab_aliases`, and `homelab_facts` with their provenance
pub record Entity : Type 0 where
  pub id : String
  pub canonical_name : String
  pub entity_type : String
  pub status : String

pub record Alias : Type 0 where
  pub alias : String
  pub entity_id : String

pub record Row : Type 0 where
  pub entity_id : String
  pub property : String
  pub value : String
  pub status : String
  pub updated_at : String
  pub source_name : String
  pub source_line : ℕ
  pub source_digest : String

-- a row of `messages`, none for metadata that is not JSON
pub record Message : Type 0 where
  pub session_id : String
  pub role : String
  pub created_at : String
  pub rowid : ℕ
  pub metadata : Option Value

pub record Tables : Type 0 where
  pub entities : List Entity
  pub aliases : List Alias
  pub facts : List Row
  pub messages : List Message

abbrev lower : ℕ → ℕ
lower c = if leb 65 c && leb c 90 then c + 32 else c

abbrev codes_eq : List ℕ → List ℕ → Bool
codes_eq [] [] = true
codes_eq [] (y ∷ ys) = false
codes_eq (x ∷ xs) [] = false
codes_eq (x ∷ xs) (y ∷ ys) = nat_eq (lower x) (lower y) && codes_eq xs ys

-- `x = y COLLATE NOCASE`
abbrev pub nocase : String → String → Bool
nocase x y = codes_eq (codes x) (codes y)

-- an entity with the facts that a lookup gives
pub record Found : Type 0 where
  pub entity : Entity
  pub facts : List Row

pub record Lookup : Type 0 where
  pub status : String
  pub query : String
  pub property : Option String
  pub property_matches : List String
  pub same_session : Bool
  pub entities : List Found

-- the newest first
abbrev newest : Order Message
newest = record {
  le = λ a b. older.le b a;
  total = λ a b. older.total b a;
  trans = λ a b c h k. older.trans c b a k h;
}
  where
    older : Order Message
    older = lex (by_key (λ m. m.created_at) text_order) (by_key (λ m. m.rowid) nat_order)

abbrev marker_id : Value → Option String
marker_id marker =
    if match_some (get_value marker "status") false (λ v. is_text v "found")
    then elim (get_value marker "entity_id") [ some (str id) ↦ some id | _ ↦ none ]
    else none

-- the entity that the marker of a message names
abbrev pub marked : Message → Option String
marked m = elim m.metadata [
  | none ↦ none
  | some v ↦ elim (get_value v "homelab_lookup") [ none ↦ none | some marker ↦ marker_id marker ]
]

abbrev first_marked : List Message → Option String
first_marked [] = none
first_marked (m ∷ ms) =
    let rest = first_marked ms in elim (marked m) [ none ↦ rest | some id ↦ some id ]

abbrev pub is_answer_in : String → Message → Bool
is_answer_in session m = m.session_id == session && m.role == "assistant"

-- the last twelve answers of a session, the newest first
abbrev pub recent : Tables → String → List Message
recent t session = take 12 (sort newest (where_ (is_answer_in session) t.messages))

unfoldable pub same_session_entity : Tables → String → Option Entity
same_session_entity t session = elim (first_marked (recent t session)) [
  | none ↦ none
  | some id ↦ first (λ e. e.id == id) t.entities
]
