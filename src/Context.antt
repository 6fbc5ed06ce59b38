-- ===== src/Context.antt =====
-- virtizai_core/context.py: `ContextBroker`, which gathers the context of a request within a budget of tokens.
-- `json.dumps`, the case mapping and the order of the memory rows (importance and time, descending) are
-- parameters; the limits of a budget are not negative.
pub mod Retrieve
pub mod Within
use Prim.Native.String.{count}
use virtiz_ai.Common.{
  ℕ, zero, suc, String, ◌≡◌, Bool, true, false, not, ◌&&◌, ◌||◌, Option, none, some, List, [], ◌∷◌,
  ◌++◌, ◌+◌, ◌-◌, ◌/◌, max, if◌then◌else◌, ltb, leb, nat_eq, where_, first, take, any_of, map, mem,
  is_some, match_some, opt_is, Result, ok, raised, ◌==◌,
}
use virtiz_ai.Common.Json.{Value, null, str, int, pos, obj, Members, end, field}
use virtiz_ai.Common.Orders.{codes, is_prefix, text_order}
use virtiz_ai.Common.Sort.{Order, sort, by_key}

abbrev pub estimate_tokens : String → ℕ
estimate_tokens text = max 1 ((count text + 3) / 4)

-- rows of `context_budgets`, `memory_items` and `messages`
pub record Budget : Type 0 where
  pub name : String
  pub memory_tokens : ℕ
  pub max_tokens : ℕ

pub record MemoryItem : Type 0 where
  pub id : String
  pub user_id : Option String
  pub project_id : Option String
  pub namespace : String
  pub content : String
  pub memory_type : String
  pub source_ref : Option String
  pub token_estimate : Option ℕ
  pub superseded_by : Option String

pub record Message : Type 0 where
  pub id : String
  pub session_id : String
  pub role : String
  pub content : String
  pub created_at : String

-- a row with its key, and its columns as the object that `dict(row)` dumps
pub record Row : Type 0 where
  pub id : String
  pub columns : Members

-- a row of `context_builds`
pub record Build : Type 0 where
  pub id : String
  pub user_id : String
  pub session_id : String
  pub project_id : Option String
  pub budget_name : String
  pub selected_sources : List String
  pub omitted_sources : List String
  pub total_tokens : ℕ

pub record Tables : Type 0 where
  pub budgets : List Budget
  pub memory_items : List MemoryItem
  pub projects : List Row
  pub environments : List Row
  pub links : List (String × String)
  pub messages : List Message
  pub builds : List Build

pub record Library : Type 0 where
  pub dumps : Members → String
  pub lower : String → String
  pub by_importance : Order MemoryItem

-- `budget`: TypeError where the default is missing too
abbrev pub budget : Tables → String → Option Budget
budget t name = elim (first (λ b. b.name == name) t.budgets) [
  | some b ↦ some b
  | none ↦ first (λ b. b.name == "secretary") t.budgets
]

-- a memory in the bundle
pub record Memory : Type 0 where
  pub id : String
  pub namespace : String
  pub content : String
  pub source_ref : Option String
  pub tokens : ℕ

-- `x in y` for texts
abbrev pub contains : List ℕ → List ℕ → Bool
contains needle [] = is_prefix needle []
contains needle (c ∷ cs) = is_prefix needle (c ∷ cs) || contains needle cs

abbrev pub mentions : Library → Option String → String → Bool
mentions l none content = true
mentions l (some query) content =
    if query == "" then true else contains (codes (l.lower query)) (codes (l.lower content))

-- `item.get("token_estimate") or estimate_tokens(item["content"])`
abbrev pub tokens_of : MemoryItem → ℕ
tokens_of m = elim m.token_estimate [
  | none ↦ estimate_tokens m.content
  | some n ↦ if nat_eq n 0 then estimate_tokens m.content else n
]

abbrev pub memory_of : MemoryItem → Memory
memory_of m = record {
  id = m.id;
  namespace = m.namespace;
  content = m.content;
  source_ref = m.source_ref;
  tokens = tokens_of m;
}

-- the loop over the memory rows, from the tokens used so far
unfoldable pub selected : Library → ℕ → Option String → ℕ → List MemoryItem → List Memory
selected l limit query used [] = []
selected l limit query used (m ∷ ms) =
    elim (mentions l query m.content && leb (used + tokens_of m) limit) [
      | false ↦ selected l limit query used ms
      | true ↦ memory_of m ∷ selected l limit query (used + tokens_of m) ms
    ]

abbrev opt_matches : Option String → Option String → Bool
opt_matches none p = true
opt_matches (some q) p = opt_is p q

-- the WHERE of the memory query
abbrev is_visible : String → Option String → MemoryItem → Bool
is_visible user project m =
    (opt_is m.user_id user || not (is_some m.user_id))
    && opt_matches project m.project_id
    && m.memory_type == "durable"
    && not (is_some m.superseded_by)

abbrev pub memory_rows : Library → Tables → String → Option String → List MemoryItem
memory_rows l t user project =
    sort l.by_importance (where_ (is_visible user project) t.memory_items)

-- a project that is named and requested
abbrev pub named : Option String → String → List String → Option String
named none source requested = none
named (some p) source requested =
    if p == "" then none else if mem source requested then some p else none

abbrev pub projects_of : Tables → Option String → List Row
projects_of t none = []
projects_of t (some p) = elim (first (λ r. r.id == p) t.projects) [ none ↦ [] | some r ↦ r ∷ [] ]

abbrev pub environments_of : Tables → Option String → List Row
environments_of t none = []
environments_of t (some p) =
    where_ (λ r. any_of (λ l. l.0 == p && l.1 == r.id) t.links) t.environments

abbrev newest_first : Order Message
newest_first = record {
  le = λ a b. text_order.le b.created_at a.created_at;
  total = λ a b. text_order.total b.created_at a.created_at;
  trans = λ a b c h k. text_order.trans c.created_at b.created_at a.created_at k h;
}

abbrev reversed : {A : Type 0} → List A → List A
reversed [] = []
reversed (x ∷ xs) = reversed xs ++ (x ∷ [])

-- the last six messages of the session, the oldest first
abbrev pub conversation_of : Tables → String → List Message
conversation_of t session =
    reversed (take 6 (sort newest_first (where_ (λ m. m.session_id == session) t.messages)))

abbrev pub message_json : Message → Members
message_json m = field "id" (str m.id) (
    field "role" (str m.role)
      (field "content" (str m.content) (field "created_at" (str m.created_at) end)))

abbrev pub memory_json : Memory → Members
memory_json m = field "id" (str m.id) (
    field "namespace" (str m.namespace) (
      field "content" (str m.content) (
        field "source_ref" (match_some m.source_ref null str)
          (field "tokens" (int (pos m.tokens)) end))))

abbrev pub one_more : {A : Type 0} → A × ℕ → A × ℕ
one_more (xs, n) = (xs, suc n)

module _ {A : Type 0} (cost : A → ℕ) where
  abbrev pub sum_of : List A → ℕ
  sum_of [] = 0
  sum_of (x ∷ xs) = cost x + sum_of xs

  -- `while items and remaining < sum(...): items.pop(0)`, with the number of items dropped
  unfoldable pub trim : ℕ → List A → List A × ℕ
  trim remaining [] = ([], 0)
  trim remaining (x ∷ xs) = elim (ltb remaining (sum_of (x ∷ xs))) [
    | true ↦ one_more (trim remaining xs)
    | false ↦ (x ∷ xs, 0)
  ]
