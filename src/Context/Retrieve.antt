-- ===== src/Context/Retrieve.antt =====
-- virtizai_core/context.py: `ContextBroker.retrieve`.
use virtiz_ai.Common.{
  ℕ, zero, suc, String, not, ◌||◌, Option, none, some, List, [], ◌∷◌, ◌++◌, ◌+◌, ◌-◌, if◌then◌else◌,
  nat_eq, mem,
}
use virtiz_ai.Common.Json.{Members}
use virtiz_ai.Context.{
  estimate_tokens, Budget, Message, Memory, Row, Build, Tables, Library, budget, selected,
  memory_rows, named, projects_of, environments_of, conversation_of, message_json, memory_json,
  sum_of, trim,
}

-- the parts of a bundle
pub record Package : Type 0 where
  pub conversation : List Message
  pub memory : List Memory
  pub projects : List Row
  pub environments : List Row
  pub tools : List Members

-- the tokens of each category, as they are accounted for
pub record Usage : Type 0 where
  pub conversation : ℕ
  pub memory : ℕ
  pub projects : ℕ
  pub environments : ℕ
  pub tools : ℕ

pub record Bundle : Type 0 where
  pub budget_name : String
  pub max_tokens : ℕ
  pub used_tokens : ℕ
  pub contents : Package
  pub category_tokens : Usage
  pub omitted_sources : List String
  pub build_id : String

module _ (l : Library) where
  -- `estimate_tokens(json.dumps(item))` of the items
  abbrev pub message_cost : Message → ℕ
  message_cost m = estimate_tokens (l.dumps (message_json m))

  abbrev pub memory_cost : Memory → ℕ
  memory_cost m = estimate_tokens (l.dumps (memory_json m))

  abbrev pub row_cost : Row → ℕ
  row_cost r = estimate_tokens (l.dumps r.columns)

  abbrev pub tool_cost : Members → ℕ
  tool_cost t = estimate_tokens (l.dumps t)

  -- the tokens of a package as it is dumped
  abbrev pub package_cost : Package → ℕ
  package_cost p =
      sum_of message_cost p.conversation
      + (sum_of memory_cost p.memory
          + (sum_of row_cost p.projects
              + (sum_of row_cost p.environments + sum_of tool_cost p.tools)))

  -- what the trimming keeps, and the number of items that each category loses
  abbrev repeated : ℕ → String → List String
  repeated zero s = []
  repeated (suc n) s = s ∷ repeated n s

  -- the loop over the categories, in their order
  unfoldable pub trimmed : ℕ → Package → Package × List String
  trimmed budgeted p =
      let (conversation, a) = trim message_cost budgeted p.conversation in
      let after_conversation = budgeted - sum_of message_cost conversation in
      let (memory, b) = trim memory_cost after_conversation p.memory in
      let after_memory = after_conversation - sum_of memory_cost memory in
      let (projects, c) = trim row_cost after_memory p.projects in
      let after_projects = after_memory - sum_of row_cost projects in
      let (environments, d) = trim row_cost after_projects p.environments in
      let after_environments = after_projects - sum_of row_cost environments in
      let (tools, e) = trim tool_cost after_environments p.tools in
      (
        record {
          conversation = conversation;
          memory = memory;
          projects = projects;
          environments = environments;
          tools = tools;
        },
        repeated a "conversation"
            ++ (repeated b "memory"
                ++ (repeated c "project" ++ (repeated d "environment" ++ repeated e "tools"))),
      )

  -- `category_tokens`: a message counts by its content, a memory by its own number
  abbrev pub usage_of : Package → Usage
  usage_of p = record {
    conversation = sum_of (λ m. estimate_tokens m.content) p.conversation;
    memory = sum_of (λ m. m.tokens) p.memory;
    projects = sum_of row_cost p.projects;
    environments = sum_of row_cost p.environments;
    tools = sum_of tool_cost p.tools;
  }

abbrev pub total_of : Usage → ℕ
total_of u = u.conversation + (u.memory + (u.projects + (u.environments + u.tools)))

abbrev absent : List String → String → ℕ → List String
absent requested source n = if not (mem source requested) || nat_eq n 0 then source ∷ [] else []

-- the sources that are not requested or hold no tokens
abbrev pub omitted : List String → Usage → List String
omitted requested u =
    absent requested "conversation" u.conversation
    ++ (absent requested "memory" u.memory
        ++ (absent requested "project" u.projects
            ++ (absent requested "environment" u.environments ++ absent requested "tools" u.tools)))

-- a call, with the identifier that `uuid4` gives; no sources stands for the default ones
pub record Request : Type 0 where
  pub user_id : String
  pub session_id : String
  pub project_id : Option String
  pub query : Option String
  pub budget_name : String
  pub requested_sources : List String
  pub requested_tools : List Members
  pub build_id : String

abbrev pub sources_of : Request → List String
sources_of r = elim r.requested_sources [
  | [] ↦ "conversation" ∷ "memory" ∷ "project" ∷ "environment" ∷ []
  | s ∷ ss ↦ s ∷ ss
]

-- everything that is found, before it is trimmed
abbrev pub gathered : Library → Tables → Request → Budget → Package
gathered l t r b =
    let sources = sources_of r in
    record {
      conversation = if mem "conversation" sources then conversation_of t r.session_id else [];
      memory = selected l b.memory_tokens r.query 0 (memory_rows l t r.user_id r.project_id);
      projects = projects_of t (named r.project_id "project" sources);
      environments = environments_of t (named r.project_id "environment" sources);
      tools = r.requested_tools;
    }

abbrev pub bundle_of : Library → Request → Budget → Package × List String → Bundle
bundle_of l r b (p, dropped) = record {
  budget_name = r.budget_name;
  max_tokens = b.max_tokens;
  used_tokens = total_of (usage_of l p);
  contents = p;
  category_tokens = usage_of l p;
  omitted_sources = dropped ++ omitted (sources_of r) (usage_of l p);
  build_id = r.build_id;
}

abbrev pub build_of : Request → Bundle → Build
build_of r b = record {
  id = b.build_id;
  user_id = r.user_id;
  session_id = r.session_id;
  project_id = r.project_id;
  budget_name = r.budget_name;
  selected_sources = sources_of r;
  omitted_sources = b.omitted_sources;
  total_tokens = b.used_tokens;
}

abbrev pub recorded : Request → Tables → Bundle → Tables × Option Bundle
recorded r t b = (record t { builds = build_of r b ∷ t.builds }, some b)

-- none where no budget is found, which raises TypeError
unfoldable pub retrieve : Library → Request → Tables → Tables × Option Bundle
unfolding selected trimmed trim
retrieve l r t = elim (budget t r.budget_name) [
  | none ↦ (t, none)
  | some b ↦ recorded r t (bundle_of l r b (trimmed l b.max_tokens (gathered l t r b)))
]
