-- ===== src/Tests/Context.antt =====
-- A context gathered within a budget, at concrete inputs.
use virtiz_ai.Common.{String, ◌≡◌, refl, none, some, [], ◌∷◌}
use virtiz_ai.Common.Sort.{sort, insert, nat_order, by_key}
use virtiz_ai.Context.{MemoryItem, Memory, Tables, Library, selected, trim}
use virtiz_ai.Context.Retrieve.{Bundle, Request, retrieve, trimmed}
use virtiz_ai.Context.Within.{IsWithin, retrieve-IsWithin}

-- every object is dumped as forty characters, ten tokens
abbrev library : Library
library = record {
  dumps = λ o. "0123456789012345678901234567890123456789";
  lower = λ s. s;
  by_importance = by_key (λ m. 0) nat_order;
}

abbrev memory_item : String → String → MemoryItem
memory_item id content = record {
  id = id;
  user_id = none;
  project_id = none;
  namespace = "n";
  content = content;
  memory_type = "durable";
  source_ref = none;
  token_estimate = some 4;
  superseded_by = none;
}

abbrev tables : Tables
tables = record {
  budgets = record { name = "secretary"; memory_tokens = 10; max_tokens = 15 } ∷ [];
  memory_items = memory_item "1" "first" ∷ memory_item "2" "second" ∷ memory_item "3" "third" ∷ [];
  projects = [];
  environments = [];
  links = [];
  messages = [];
  builds = [];
}

abbrev request : Request
request = record {
  user_id = "u";
  session_id = "s";
  project_id = none;
  query = none;
  budget_name = "unknown";
  requested_sources = [];
  requested_tools = [];
  build_id = "b";
}

abbrev second : Memory
second = record { id = "2"; namespace = "n"; content = "second"; source_ref = none; tokens = 4 }

-- the first memory, the more important one, is left out
abbrev bundle : Bundle
bundle = record {
  budget_name = "unknown";
  max_tokens = 15;
  used_tokens = 4;
  contents = record {
    conversation = [];
    memory = second ∷ [];
    projects = [];
    environments = [];
    tools = [];
  };
  category_tokens = record {
    conversation = 0;
    memory = 4;
    projects = 0;
    environments = 0;
    tools = 0;
  };
  omitted_sources = "memory" ∷ "conversation" ∷ "project" ∷ "environment" ∷ "tools" ∷ [];
  build_id = "b";
}

important_first_dropped : (retrieve library request tables).1 ≡ some bundle
unfolding retrieve trimmed trim selected sort insert
important_first_dropped = refl

retrieve-IsWithin_example :
    IsWithin library tables (retrieve library request tables).0 request bundle
retrieve-IsWithin_example = retrieve-IsWithin library request tables bundle important_first_dropped
