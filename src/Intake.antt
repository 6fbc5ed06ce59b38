-- ===== src/Intake.antt =====
-- virtizai_core/work_intake.py: `WorkIntakeClassifier`. The string methods that map cases and split words, and the
-- two regular expressions, are a parameter, `Language`; a set of words is a list that is asked for members.
pub mod Lookups
use virtiz_ai.Common.{
  ℕ, zero, suc, String, ◌≡◌, Bool, true, false, not, ◌&&◌, ◌||◌, Option, none, some, List, [], ◌∷◌,
  ◌+◌, if◌then◌else◌, ltb, leb, nat_eq, any_of, where_, length, mem, is_empty, is_some,
  head_or_none, match_some, ◌==◌,
}
use virtiz_ai.Common.Orders.{codes, is_prefix, text_order}
use virtiz_ai.Common.Sort.{Order, sort, lex, by_key, nat_order}

-- `strip` and `lower`; `text[n:]`; `text.split(None, 1)[1]`, where there is one; `_tokens`; the search for a question
-- that relates two things
pub record Language : Type 0 where
  pub strip : String → String
  pub lower : String → String
  pub from_index : ℕ → String → String
  pub after_word : String → Option String
  pub tokens : String → List String
  pub is_relational : String → Bool

pub record WorkIntake : Type 0 where
  pub intent : String
  pub complexity : String
  pub needs_pm : Bool
  pub tier : String
  pub risk : String
  pub tools : List String
  pub followup : Bool
  pub explicit : Bool

abbrev pub starts : String → String → Bool
starts p text = is_prefix (codes p) (codes text)

-- `bool(tokens & words)`, and `len(tokens & words)`
abbrev pub meets : List String → List String → Bool
meets tokens words = any_of (λ w. mem w tokens) words

abbrev pub overlap : List String → List String → ℕ
overlap tokens words = length (where_ (λ w. mem w tokens) words)

abbrev pub actions : List String
actions =
    "create" ∷ "change" ∷ "edit" ∷ "fix" ∷ "implement" ∷ "build" ∷ "refactor" ∷ "run" ∷ "deploy"
    ∷ "restart" ∷ "start" ∷ "stop" ∷ "inspect" ∷ "list" ∷ "show" ∷ "find" ∷ "compare" ∷ "analyze"
    ∷ "research" ∷ "investigate" ∷ "plan" ∷ "manage" ∷ []

abbrev pub domains : List String
domains = "coding" ∷ "infrastructure" ∷ "operational" ∷ "research" ∷ "project" ∷ []

abbrev pub vocabulary : String → List String
vocabulary name =
    if name == "coding"
    then "code" ∷ "source" ∷ "repository" ∷ "repo" ∷ "file" ∷ "module" ∷ "function" ∷ "class"
      ∷ "test" ∷ "tests" ∷ "workspace" ∷ []
    else if name == "infrastructure"
    then "infrastructure" ∷ "vm" ∷ "vms" ∷ "container" ∷ "containers" ∷ "host" ∷ "hosts" ∷ "cluster"
      ∷ "service" ∷ "services" ∷ "deployment" ∷ "server" ∷ []
    else if name == "operational"
    then "cleanup" ∷ "delete" ∷ "remove" ∷ "prune" ∷ "notification" ∷ "thread" ∷ "threads"
      ∷ "discord" ∷ "account" ∷ "configuration" ∷ []
    else if name == "research"
    then "research" ∷ "investigate" ∷ "compare" ∷ "evaluate" ∷ "evidence" ∷ "sources" ∷ "paper"
      ∷ "papers" ∷ "study" ∷ "studies" ∷ []
    else "project" ∷ "milestone" ∷ "milestones" ∷ "workflow" ∷ "release" ∷ "roadmap" ∷ "end-to-end"
      ∷ []

abbrev count_if : Bool → ℕ
count_if b = if b then 1 else 0

abbrev pub structural_project : List String → Bool
structural_project tokens =
    let planning = meets tokens ("plan" ∷ "planning" ∷ "roadmap" ∷ []) in
    let lifecycle_count =
      count_if (
        meets tokens (
          "upgrade" ∷ "upgrading" ∷ "migration" ∷ "migrate" ∷ "migrating" ∷ "implementation"
          ∷ "implement" ∷ []))
      + count_if (meets tokens ("backup" ∷ "backups" ∷ "restore" ∷ "recovery" ∷ []))
      + count_if (
          meets tokens
            ("validation" ∷ "validate" ∷ "verification" ∷ "verify" ∷ "testing" ∷ "tests" ∷ []))
      + count_if (
          meets tokens
            ("rollback" ∷ "revert" ∷ "backout" ∷ "cutover" ∷ "deployment" ∷ "deploy" ∷ [])) in
    let investigation =
      meets tokens
        ("investigate" ∷ "investigation" ∷ "inspect" ∷ "analyze" ∷ "diagnose" ∷ "diagnosis" ∷ []) in
    let remediation =
      meets tokens ("fix" ∷ "repair" ∷ "remediate" ∷ "remediation" ∷ "patch" ∷ []) in
    let implementation =
      meets tokens ("implement" ∷ "implementation" ∷ "build" ∷ "develop" ∷ "development" ∷ []) in
    let verification =
      meets tokens (
        "validation" ∷ "validate" ∷ "verification" ∷ "verify" ∷ "testing" ∷ "test" ∷ "tests"
        ∷ []) in
    (planning && leb 2 lifecycle_count)
    || (investigation && remediation && verification)
    || (implementation && verification)

-- the tier that a prefix names, and the text after it
abbrev pub tiered : Language → String → String × String
tiered l raw =
    if starts "/local " (l.lower raw)
    then ("local", match_some (l.after_word raw) "" (λ s. s))
    else if starts "/cloud " (l.lower raw)
    then ("cloud", match_some (l.after_word raw) "" (λ s. s))
    else ("automatic", raw)

-- the intent that a prefix names, and the text after it
abbrev pub explicit_intent : Language → String → Option String × String
explicit_intent l raw =
    if starts "/project " (l.lower raw)
    then (some "project", l.from_index 9 raw)
    else if starts "/coding " (l.lower raw)
    then (some "coding", l.from_index 8 raw)
    else (none, raw)

-- sorted by `(-scores[name], name)`
abbrev pub by_score : List String → Order String
by_score tokens =
    lex
      (record {
        le = λ a b. leb (overlap tokens (vocabulary b)) (overlap tokens (vocabulary a));
        total =
            λ a b. nat_order.total (overlap tokens (vocabulary b)) (overlap tokens (vocabulary a));
        trans = λ a b c h k.
            nat_order.trans (overlap tokens (vocabulary c)) (overlap tokens (vocabulary b))
              (overlap tokens (vocabulary a)) k h;
      })
      text_order

abbrev pub scored_intent : List String → Option String → String
scored_intent tokens none = "conversation"
scored_intent tokens (some name) =
    if nat_eq (overlap tokens (vocabulary name)) 0 then "conversation" else name

abbrev pub ranked_intent : List String → String
ranked_intent tokens = scored_intent tokens (head_or_none (sort (by_score tokens) domains))

abbrev pub has_restart : List String → Bool
has_restart tokens = meets tokens ("restart" ∷ "start" ∷ "stop" ∷ "reboot" ∷ [])

abbrev pub is_educational : List String → Bool
is_educational tokens =
    meets tokens
      ("explain" ∷ "teach" ∷ "learn" ∷ "education" ∷ "tutorial" ∷ "meaning" ∷ "concept" ∷ [])

abbrev pub is_configured : List String → Bool
is_configured tokens =
    meets tokens ("my" ∷ "our" ∷ "configured" ∷ "recorded" ∷ "persisted" ∷ "documented" ∷ [])

abbrev pub has_pronoun : List String → Bool
has_pronoun tokens = meets tokens ("it" ∷ "that" ∷ "this" ∷ [])

abbrev pub is_question : List String → Bool
is_question tokens =
    meets tokens ("what" ∷ "which" ∷ "where" ∷ "who" ∷ "show" ∷ "list" ∷ "tell" ∷ [])

abbrev pub asks_facts : Bool → List String → Bool
asks_facts relational tokens =
    is_question tokens && (is_configured tokens || relational || has_pronoun tokens)

abbrev pub is_project : List String → Bool
is_project tokens =
    ltb 0 (overlap tokens (vocabulary "project"))
    || structural_project tokens
    || (leb 2 (length (where_ (λ d. ltb 0 (overlap tokens (vocabulary d))) domains))
        && leb 2 (overlap tokens actions))

-- the intent of the words, where no prefix names one: the last rule that applies
unfoldable pub worded_intent : Bool → List String → String
worded_intent relational tokens =
    if has_restart tokens && (is_configured tokens || has_pronoun tokens)
    then "infrastructure"
    else if asks_facts relational tokens
        && not (is_educational tokens)
        && not (has_restart tokens)
        && not (meets tokens (vocabulary "research"))
    then "homelab_lookup"
    else if is_project tokens
    then "project"
    else ranked_intent tokens

abbrev pub is_mutating : List String → Bool
is_mutating tokens =
    any_of (λ w. mem w tokens && mem w actions)
      ("create" ∷ "change" ∷ "edit" ∷ "fix" ∷ "implement" ∷ "build" ∷ "refactor" ∷ "deploy"
        ∷ "restart" ∷ "start" ∷ "stop" ∷ "delete" ∷ "remove" ∷ "prune" ∷ [])

abbrev tools_of : String → List String
tools_of intent =
    if intent == "coding"
    then "workspace" ∷ []
    else if intent == "research"
    then "search" ∷ []
    else if intent == "infrastructure"
    then "infrastructure" ∷ []
    else if intent == "operational"
    then "typed_operation" ∷ []
    else if intent == "project"
    then "planning" ∷ []
    else if intent == "homelab_lookup"
    then "homelab_lookup" ∷ []
    else []

abbrev pub intake_of : Language → String → String → Bool → String → List String → WorkIntake
intake_of l tier intent explicit raw tokens = record {
  intent = intent;
  complexity =
      if intent == "project"
      then "high"
      else if mem intent ("coding" ∷ "research" ∷ "infrastructure" ∷ [])
      then "medium"
      else "low";
  needs_pm = intent == "project";
  tier = tier;
  risk =
      if is_mutating tokens && mem intent ("infrastructure" ∷ "operational" ∷ [])
      then "high"
      else if is_mutating tokens
      then "medium"
      else "low";
  tools = tools_of intent;
  followup = l.strip raw == "" || (not (intent == "conversation") && not (meets tokens actions));
  explicit = explicit;
}

unfoldable pub classify : Language → String → WorkIntake
unfolding worded_intent
classify l content =
    let (tier, untiered) = tiered l (l.strip content) in
    let (explicit, raw) = explicit_intent l untiered in
    let tokens = l.tokens raw in
    intake_of l tier
      (match_some explicit (worded_intent (l.is_relational (l.lower raw)) tokens) (λ i. i))
      (is_some explicit) raw tokens
