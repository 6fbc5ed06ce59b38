-- ===== src/Tests/Intake.antt =====
-- Texts that the intake classifies and that are delegated, at concrete inputs.
use virtiz_ai.Common.{
  ℕ, zero, suc, String, ◌≡◌, refl, Bool, true, false, none, some, List, [], ◌∷◌, ◌≤◌, ◌<◌, arith,
  if◌then◌else◌, ◌==◌, leb, length,
}
use virtiz_ai.Common.Sort.{sort, insert}
use virtiz_ai.Common.Orders.{codes}
use virtiz_ai.Common.Json.{Value, int, pos, str, obj, end, field}
use virtiz_ai.Intake.{Language, classify, worded_intent, explicit_intent}
use virtiz_ai.Intake.Lookups.{IsLookup, untiered, words_of, classify-IsLookup}
use virtiz_ai.Delegation.{Engine, Decision, tier_of, decide}
use virtiz_ai.Delegation.Bounded.{IsAllowed, decide-IsAllowed}

abbrev from_index : ℕ → String → String
from_index zero s = s
from_index (suc n) String.[] = ""
from_index (suc n) (String.◌∷◌ c s) = from_index n s

-- the words of two texts
abbrev tokens : String → List String
tokens s =
    if s == "which os for nas"
    then "which" ∷ "os" ∷ "for" ∷ "nas" ∷ []
    else if s == "delete threads"
    then "delete" ∷ "threads" ∷ []
    else []

abbrev language : Language
language = record {
  strip = λ s. s;
  lower = λ s. s;
  from_index = from_index;
  after_word = λ s. some (from_index 7 s);
  tokens = tokens;
  is_relational = λ s. s == "which os for nas";
}

asks_for_a_fact : (classify language "which os for nas").intent ≡ "homelab_lookup"
unfolding classify worded_intent
asks_for_a_fact = refl

-- a deletion is an operation of low risk, since no action of the list deletes
deletion_of_low_risk : (classify language "delete threads").risk ≡ "low"
unfolding classify worded_intent
deletion_of_low_risk = refl

deletion_is_operational : (classify language "delete threads").intent ≡ "operational"
unfolding classify worded_intent sort insert
deletion_is_operational = refl

classify-IsLookup_example :
    ((explicit_intent language (untiered language "which os for nas")).0 ≡ none)
    × IsLookup true (words_of language "which os for nas")
classify-IsLookup_example = classify-IsLookup language "which os for nas" asks_for_a_fact

abbrev is_whole : Value → Bool
is_whole (int (pos n)) = leb n 1
is_whole v = false

abbrev engine : Engine
engine = record {
  language = language;
  finds = λ r s. false;
  is_confidence = is_whole;
  is_low = λ v. false;
  loads = λ s. none;
  is_enabled = λ role. role == "role-coding";
}

from_index-le : (n : ℕ) (s : String) → length (codes (from_index n s)) ≤ length (codes s)
from_index-le zero s = omega arith
from_index-le (suc n) String.[] = omega arith
from_index-le (suc n) (String.◌∷◌ c s) = omega (arith, from_index-le n s)

from_index-Shortens :
    (s tier : String)
    → tier_of engine s ≡ some tier
    → length (codes (from_index 7 s)) < length (codes s)
from_index-Shortens String.[] tier h = absurd (cc)
from_index-Shortens (String.◌∷◌ c s) tier h = omega (arith, from_index-le 6 s)

-- a model's call that delegates
abbrev call : Value
call = obj (
    field "function"
      (obj (
        field "name" (str "delegation_decision") (
          field "arguments"
            (obj (
              field "decision" (str "delegate") (
                field "role_id" (str "role-coding") (
                  field "confidence" (int (pos 1))
                    (field "reason_code" (str "coding_request") end)))))
            end)))
      end)

decide-IsAllowed_example :
    (d : Decision) × (decide 14 engine "/local /local" (some (call ∷ [])) ≡ some d)
    × IsAllowed engine d
decide-IsAllowed_example =
    decide-IsAllowed engine "/local /local" (some (call ∷ [])) from_index-Shortens
