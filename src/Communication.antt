-- ===== src/Communication.antt =====
-- virtizai_core/policy.py: how much an answer may say and which events of a run are shown.
pub mod Normalized
use virtiz_ai.Common.{
  ℕ, String, Bool, true, false, Option, none, some, List, [], ◌∷◌, if◌then◌else◌, mem, min,
  otherwise, Result, ok, raised, ◌==◌,
}

abbrev pub verbosities : List String
verbosities = "minimal" ∷ "concise" ∷ "normal" ∷ "detailed" ∷ "expert" ∷ []

abbrev pub execution_updates : List String
execution_updates = "silent" ∷ "important_milestones" ∷ "detailed" ∷ "full_trace" ∷ []

abbrev pub tool_details : List String
tool_details = "hidden" ∷ "summary" ∷ "commands_results" ∷ []

pub record CommunicationPolicy : Type 0 where
  pub response_verbosity : String
  pub updates : String
  pub details : String

abbrev pub default_policy : CommunicationPolicy
default_policy = record {
  response_verbosity = "normal";
  updates = "important_milestones";
  details = "summary";
}

pub data KeyError : Type 0 where
  key_error : String → KeyError

-- the dictionary of budgets, indexed by the verbosity
unfoldable pub output_token_budget : ℕ → CommunicationPolicy → Result KeyError ℕ
output_token_budget limit p =
    let v = p.response_verbosity in
    if "minimal" == v
    then ok (min limit 512)
    else if "concise" == v
    then ok (min limit 1024)
    else if "normal" == v
    then ok (min limit 4096)
    else if "detailed" == v
    then ok (min limit 8192)
    else if "expert" == v
    then ok limit
    else raised (key_error v)

unfoldable pub should_surface : CommunicationPolicy → String → Bool
should_surface p event =
    if p.updates == "silent"
    then false
    else if p.updates == "full_trace"
    then true
    else if p.updates == "detailed"
    then mem event (
        "started" ∷ "important_discovery" ∷ "needs_input" ∷ "fallback" ∷ "failed" ∷ "completed"
        ∷ [])
    else mem event ("started" ∷ "needs_input" ∷ "fallback" ∷ "failed" ∷ "completed" ∷ [])

-- `x if x in known else current`
abbrev pub known_or : List String → Option String → String → String
known_or known none current = current
known_or known (some x) current = if mem x known then x else current

unfoldable pub normalize_policy :
    Option String → Option String → Option String → Option CommunicationPolicy → CommunicationPolicy
normalize_policy response updates tools base =
    let current = otherwise base default_policy in
    record {
      response_verbosity = known_or verbosities response current.response_verbosity;
      updates = known_or execution_updates updates current.updates;
      details = known_or tool_details tools current.details;
    }
