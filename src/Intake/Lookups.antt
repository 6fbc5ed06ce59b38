-- ===== src/Intake/Lookups.antt =====
-- Which texts are taken for read-only lookups of facts, and which never are.
use virtiz_ai.Common.{
  String, ◌≡◌, ◌≢◌, refl, ◌∙◌, inl, inr, Bool, true, false, not, ◌&&◌, &&-left, &&-right, ◌||◌,
  Option, none, some, List, [], ◌∷◌, arith, Bool-cases, Option-cases, All, Among, Among-All,
  head_or_none, nat_eq, eq_iff,
}
use mathlib.Core.Option.{some-injective}
use virtiz_ai.Common.Sort.{sort, Among-sort-back}
use virtiz_ai.Intake.{
  Language, meets, overlap, domains, vocabulary, tiered, explicit_intent, by_score, scored_intent,
  ranked_intent, has_restart, is_educational, is_configured, has_pronoun, is_question, asks_facts,
  is_project, worded_intent, classify, starts,
}

abbrev lookup : String
lookup = "homelab_lookup"

no_lookup_domain : All (λ d. d ≢ lookup) domains
no_lookup_domain = (
  (λ e. ground (arith, eq_iff "coding" lookup)),
  (
    (λ e. ground (arith, eq_iff "infrastructure" lookup)),
    (
      (λ e. ground (arith, eq_iff "operational" lookup)),
      (
        (λ e. ground (arith, eq_iff "research" lookup)),
        ((λ e. ground (arith, eq_iff "project" lookup)), tt),
      ),
    ),
  ),
)

scored_no_lookup :
    (tokens : List String) (o : Option String)
    → ((d : String) → o ≡ some d → d ≢ lookup)
    → scored_intent tokens o ≢ lookup
scored_no_lookup tokens none h e = ground (arith, eq_iff "conversation" lookup)
scored_no_lookup tokens (some d) h e =
    elim (Bool-cases (nat_eq (overlap tokens (vocabulary d)) 0)) [
      | inl f ↦
          let k : "conversation" ≡ lookup = rw f at e in
          ground (arith, eq_iff "conversation" lookup)
      | inr f ↦ h d refl (rw f at e)
    ]

head-Among : (xs : List String) (d : String) → head_or_none xs ≡ some d → Among d xs
head-Among [] d h = absurd (cc)
head-Among (x ∷ xs) d h = inl (some-injective x d h)

ranked_no_lookup : (tokens : List String) → ranked_intent tokens ≢ lookup
ranked_no_lookup tokens =
    scored_no_lookup tokens (head_or_none (sort (by_score tokens) domains)) (λ d e.
      Among-All (λ x. x ≢ lookup) d domains no_lookup_domain
        (Among-sort-back (by_score tokens) d domains
          (head-Among (sort (by_score tokens) domains) d e)))

-- the words of a lookup: a question on something owned, on a relation or with a pronoun, and no more than that
pub record IsLookup (relational : Bool) (tokens : List String) : Type 0 where
  pub question : is_question tokens ≡ true
  pub subject : (is_configured tokens || relational || has_pronoun tokens) ≡ true
  pub no_lesson : is_educational tokens ≡ false
  pub no_restart : has_restart tokens ≡ false
  pub no_research : meets tokens (vocabulary "research") ≡ false

not-true : (b : Bool) → not b ≡ true → b ≡ false
not-true true h = absurd (cc)
not-true false h = refl

worded-IsLookup :
    (relational : Bool) (tokens : List String)
    → worded_intent relational tokens ≡ lookup
    → IsLookup relational tokens
unfolding worded_intent
worded-IsLookup relational tokens h =
    elim (Bool-cases (has_restart tokens && (is_configured tokens || has_pronoun tokens))) [
      | inl e ↦
          let k : "infrastructure" ≡ lookup = rw (worded_intent, e) at h in
          absurd (ground (arith, eq_iff "infrastructure" lookup))
      | inr e ↦
          let asks = asks_facts relational tokens in
          let a = not (is_educational tokens) in
          let b = not (has_restart tokens) in
          let c = not (meets tokens (vocabulary "research")) in
          elim (Bool-cases (asks && a && b && c)) [
            | inl f ↦ record {
              question =
                  &&-left (is_question tokens) _
                    (&&-left asks a (&&-left (asks && a) b (&&-left (asks && a && b) c f)));
              subject =
                  &&-right (is_question tokens) _
                    (&&-left asks a (&&-left (asks && a) b (&&-left (asks && a && b) c f)));
              no_lesson =
                  not-true (is_educational tokens)
                    (&&-right asks a (&&-left (asks && a) b (&&-left (asks && a && b) c f)));
              no_restart =
                  not-true (has_restart tokens)
                    (&&-right (asks && a) b (&&-left (asks && a && b) c f));
              no_research =
                  not-true (meets tokens (vocabulary "research")) (&&-right (asks && a && b) c f);
            }
            | inr f ↦ elim (Bool-cases (is_project tokens)) [
              | inl g ↦
                  let k : "project" ≡ lookup = rw (worded_intent, e, f, g) at h in
                  absurd (ground (arith, eq_iff "project" lookup))
              | inr g ↦ absurd (ranked_no_lookup tokens (rw (worded_intent, e, f, g) at h))
            ]
          ]
    ]

explicit_no_lookup :
    (l : Language) (raw : String) (i : String) → (explicit_intent l raw).0 ≡ some i → i ≢ lookup
explicit_no_lookup l raw i h e = elim (Bool-cases (starts "/project " (l.lower raw))) [
  | inl f ↦
      let k = some-injective "project" i (rw (explicit_intent, f) at h) ∙ e in
      ground (arith, eq_iff "project" lookup)
  | inr f ↦ elim (Bool-cases (starts "/coding " (l.lower raw))) [
    | inl g ↦
        let k = some-injective "coding" i (rw (explicit_intent, f, g) at h) ∙ e in
        ground (arith, eq_iff "coding" lookup)
    | inr g ↦ absurd (cc (rw (explicit_intent, f, g) at h))
  ]
]

-- the text after the prefix of a tier
abbrev pub untiered : Language → String → String
untiered l content = (tiered l (l.strip content)).1

abbrev pub words_of : Language → String → List String
words_of l content = l.tokens (explicit_intent l (untiered l content)).1

-- A text whose intent is a lookup of facts has no prefix that names an intent, and its words are those of a lookup:
-- a question on something owned, on a relation or with a pronoun, and no word of a lesson, of a restart or
-- of research.
pub classify-IsLookup :
    (l : Language) (content : String)
    → (classify l content).intent ≡ lookup
    → ((explicit_intent l (untiered l content)).0 ≡ none)
      × IsLookup
          (l.is_relational (l.lower (explicit_intent l (untiered l content)).1))
          (words_of l content)
unfolding classify
classify-IsLookup l content h = elim (Option-cases (explicit_intent l (untiered l content)).0) [
  | inl e ↦ (e, worded-IsLookup _ (words_of l content) (rw (classify, e) at h))
  | inr (i, e) ↦ absurd (explicit_no_lookup l (untiered l content) i e (rw (classify, e) at h))
]
