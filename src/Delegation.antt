-- ===== src/Delegation.antt =====
-- virtizai_core/delegation_policy.py: `DelegationPolicyEngine`, which decides whether a request goes to a specialist.
-- The regular expressions and the comparisons of a confidence, which are floats, are parameters, and so
-- is the answer of the provider. Any exception of the classification is the answer none.
pub mod Bounded
use virtiz_ai.Common.{
  ℕ, zero, suc, String, ◌≡◌, Bool, true, false, not, ◌&&◌, ◌||◌, Option, none, some, List, [], ◌∷◌,
  if◌then◌else◌, any_of, mem, nat_eq, length, is_some, match_some, ◌==◌,
}
use virtiz_ai.Common.Json.{Value, null, str, obj, Members, end, field, get_field, get_value}
use virtiz_ai.Intake.{Language, WorkIntake, starts, classify}

-- the confidence of a decision: 1.0, or the number that a model gives
pub data Confidence : Type 0 where
  certain : Confidence
  given : Value → Confidence

pub record Decision : Type 0 where
  pub decision : String
  pub role_id : Option String
  pub confidence : Option Confidence
  pub reason_code : String
  pub source : String
  pub objective : String
  pub execution_tier : Option String

-- the searches of `deterministic`
pub data Search : Type 0 where
  vm_mutation infrastructure_target educational read_command state_word state_of : Search
  how_many owned existence multi_step engineering delivery validation : Search
  coding test_run inspecting source_file : Search

pub record Engine : Type 0 where
  pub language : Language
  pub finds : Search → String → Bool
  -- `isinstance(c, (int, float)) and 0 <= c <= 1`, and `c < self.high_confidence`
  pub is_confidence : Value → Bool
  pub is_low : Value → Bool
  -- `json.loads`
  pub loads : String → Option Value
  -- `SELECT id FROM roles WHERE id=? AND enabled=1`
  pub is_enabled : String → Bool

abbrev pub delegated : String → String → String → String → Decision
delegated role reason source objective = record {
  decision = "delegate";
  role_id = some role;
  confidence = some certain;
  reason_code = reason;
  source = source;
  objective = objective;
  execution_tier = none;
}

abbrev pub direct : Option Confidence → String → String → String → Option String → Decision
direct confidence reason source objective tier = record {
  decision = "direct";
  role_id = none;
  confidence = confidence;
  reason_code = reason;
  source = source;
  objective = objective;
  execution_tier = tier;
}

abbrev is_infrastructure_read : Engine → String → Bool
is_infrastructure_read g text =
    g.finds infrastructure_target text
    && not (g.finds educational text)
    && (g.finds read_command text
        || (g.finds state_word text && g.finds state_of text)
        || (g.finds how_many text && g.finds owned text)
        || g.finds existence text)

abbrev is_bounded_project : Engine → String → Bool
is_bounded_project g text =
    (g.finds multi_step text && g.finds engineering text)
    || (g.finds delivery text && g.finds validation text)

abbrev managed : Engine → String → Bool
managed g text = let i = classify g.language text in i.needs_pm && not i.followup

-- the first rule whose test holds: the code's tests with their early returns, in their order
abbrev pub first_rule : List (Bool × Decision) → Option Decision
first_rule [] = none
first_rule ((test, d) ∷ rules) = let rest = first_rule rules in if test then some d else rest

-- the tests and decisions after the prefixes of a tier
abbrev pub rules : Engine → String → List (Bool × Decision)
rules g text =
    let l = g.language in
    let lowered = l.lower text in
    let project = l.strip (l.from_index 9 text) in
    let code = l.strip (l.from_index 8 text) in
    (
      starts "/project " text && not (project == ""),
      delegated "role-project-lead" "explicit_project" "explicit-user" project,
    )
    ∷ (
      starts "/coding " text && not (code == ""),
      delegated "role-coding" "explicit_coding" "explicit-user" code,
    )
    ∷ (
      g.finds vm_mutation lowered,
      delegated "role-infrastructure" "bounded_infrastructure_mutation" "deterministic" text,
    )
    ∷ (
      is_infrastructure_read g lowered,
      delegated "role-infrastructure" "bounded_infrastructure_read" "deterministic" text,
    )
    ∷ (
      managed g text,
      record (delegated "role-project-lead" "automatic_project_management" "work-intake" text) {
        execution_tier = some "cloud";
      },
    )
    ∷ (
      is_bounded_project g lowered,
      delegated "role-project-lead" "bounded_project_request" "deterministic" text,
    )
    ∷ (
      g.finds coding lowered || g.finds test_run lowered,
      delegated "role-coding" "bounded_coding_request" "deterministic" text,
    )
    ∷ (
      g.finds inspecting lowered && g.finds source_file lowered,
      delegated "role-coding" "bounded_source_inspection" "deterministic" text,
    )
    ∷ []

abbrev pub tier_of : Engine → String → Option String
tier_of g text =
    if starts "/local " (g.language.lower text)
    then some "local"
    else if starts "/cloud " (g.language.lower text)
    then some "cloud"
    else none

abbrev pub objective_of : Engine → String → String
objective_of g text = match_some (g.language.after_word text) "" (λ rest. g.language.strip rest)

abbrev pub with_tier : String → String → Option Decision → Decision
with_tier tier objective none =
    direct none "execution_tier_override" "explicit-user" objective (some tier)
with_tier tier objective (some d) = record d { execution_tier = some tier }

abbrev pub override : String → String → Option (Option Decision) → Option (Option Decision)
override tier objective none = none
override tier objective (some nested) = some (some (with_tier tier objective nested))

-- `deterministic`, none where the fuel runs out
unfoldable pub deterministic : ℕ → Engine → String → Option (Option Decision)
deterministic zero g content = none
deterministic (suc fuel) g content = elim (tier_of g (g.language.strip content)) [
  | none ↦ some (first_rule (rules g (g.language.strip content)))
  | some tier ↦ elim (objective_of g (g.language.strip content) == "") [
    | true ↦
        some (some (direct none "empty_execution_tier_override" "explicit-user" "" (some tier)))
    | false ↦
        override tier (objective_of g (g.language.strip content))
          (deterministic fuel g (objective_of g (g.language.strip content)))
  ]
]

-- the arguments of a call, from a text where they are one
abbrev pub arguments_of : Engine → Option Value → Option Members
arguments_of g (some (str s)) = elim (g.loads s) [ some (obj fs) ↦ some fs | _ ↦ none ]
arguments_of g (some (obj fs)) = some fs
arguments_of g _ = none

abbrev keys : Members → List String
keys end = []
keys (field k v fs) = k ∷ keys fs

-- `set(args) == {...}`, for distinct keys
abbrev pub has_four : Members → Bool
has_four fs = nat_eq (length (keys fs)) 4

abbrev pub text_in : Option Value → List String → Option String
text_in (some (str s)) ss = if mem s ss then some s else none
text_in _ ss = none

abbrev pub reasons : List String
reasons =
    "coding_request" ∷ "project_request" ∷ "ordinary_conversation" ∷ "technical_explanation"
    ∷ "ambiguous" ∷ []

abbrev pub roles : List String
roles = "role-coding" ∷ "role-project-lead" ∷ "role-infrastructure" ∷ []

abbrev pub low : Value → Decision
low c = direct (some (given c)) "classifier_below_threshold" "model" "" none

-- a choice to delegate: a role that cannot be hashed raises
abbrev pub delegation : Engine → String → Value → String → Value → Option Decision
delegation g content c reason (str role) =
    if not (mem role roles) || g.is_low c
    then some (low c)
    else if g.is_enabled role
    then some (record (delegated role reason "model" content) { confidence = some (given c) })
    else none
delegation g content c reason (virtiz_ai.Common.Json.arr es) = none
delegation g content c reason (obj fs) = none
delegation g content c reason role = some (low c)

abbrev pub chosen : Engine → String → String → Value → Value → String → Option Decision
chosen g content choice role c reason =
    if not (g.is_confidence c)
    then none
    else if choice == "direct"
    then elim role [ null ↦ some (direct (some (given c)) reason "model" "" none) | _ ↦ none ]
    else delegation g content c reason role

abbrev pub validated : Engine → String → Members → Option Decision
validated g content fs =
    match_some (text_in (get_field fs "decision") ("direct" ∷ "delegate" ∷ [])) none (λ choice.
      match_some (get_field fs "role_id") none (λ role.
        match_some (get_field fs "confidence") none (λ c.
          match_some (text_in (get_field fs "reason_code") reasons) none
            (λ reason. if has_four fs then chosen g content choice role c reason else none))))

abbrev pub is_named : Value → Bool
is_named function =
    match_some (get_value function "name") false
      (λ v. virtiz_ai.Common.Json.is_text v "delegation_decision")

-- the tool calls of the response, none where there is no response
abbrev pub classified : Engine → String → Option (List Value) → Option Decision
classified g content (some (call ∷ [])) = match_some (get_value call "function") none (λ function.
    if is_named function
    then match_some (arguments_of g (get_value function "arguments")) none
        (λ fs. validated g content fs)
    else none)
classified g content _ = none

abbrev pub settled : Option Decision → Decision
settled none = direct none "classifier_unavailable_or_invalid" "model" "" none
settled (some d) = d

-- none where the fuel runs out
unfoldable pub decide : ℕ → Engine → String → Option (List Value) → Option Decision
unfolding deterministic
decide fuel g content calls = elim (deterministic fuel g content) [
  | none ↦ none
  | some (some d) ↦ some d
  | some none ↦ some (settled (classified g content calls))
]
