-- ===== src/Homelab/Safe.antt =====
-- No record that `import_text` collects is a secret.
use virtiz_ai.Common.{
  ℕ, suc, String, ◌≡◌, inl, inr, false, ◌||◌, Option, none, some, List, [], ◌∷◌, Bool-cases,
  Option-cases, All, All-append, ◌==◌,
}
use virtiz_ai.Homelab.{Grammar, Fact, current_state_facts}
use virtiz_ai.Homelab.Collect.{
  Paragraph, Collected, add_field, add_fields, add_paragraphs, is_active, add_pair, is_table_head,
  add_row, add_fact, add_line, add_lines, collect, truthy_text, active_state_paragraphs,
}

module _ (g : Grammar) where
  -- the name is not that of a secret, and the value assigns none
  abbrev pub IsSafe : Fact → Type 0
  IsSafe f = (g.is_secret f.name ≡ false) × (g.is_assignment f.value ≡ false)

  abbrev AllSafe : Collected → Type 0
  AllSafe c = All IsSafe c.records

  add_field-AllSafe :
      (h : String) (n : ℕ) (name value : String) (c : Collected)
      → AllSafe c
      → AllSafe (add_field g h n name value c)
  add_field-AllSafe h n name value c s = elim (Bool-cases (g.is_secret name)) [
    | inl e ↦ rw e s
    | inr e ↦ elim (Bool-cases (g.is_assignment value)) [
      | inl f ↦ rw (e, f) s
      | inr f ↦ rw (e, f) (All-append IsSafe c.records _ s ((e, f), tt))
    ]
  ]

  add_fields-AllSafe :
      (h : String) (n : ℕ) (fields : List (String × String)) (c : Collected)
      → AllSafe c
      → AllSafe (add_fields g h n fields c)
  unfolding add_fields
  add_fields-AllSafe h n [] c s = s
  add_fields-AllSafe h n ((name, value) ∷ fields) c s =
      add_fields-AllSafe h n fields _ (add_field-AllSafe h n name value c s)

  add_paragraphs-AllSafe :
      (ps : List Paragraph) (c : Collected) → AllSafe c → AllSafe (add_paragraphs g ps c)
  unfolding add_paragraphs
  add_paragraphs-AllSafe [] c s = s
  add_paragraphs-AllSafe (p ∷ ps) c s =
      add_paragraphs-AllSafe ps _
        (add_fields-AllSafe p.heading p.first_line (current_state_facts g p.text) c s)

  add_pair-AllSafe :
      (h : String) (n : ℕ) (pair : String × String) (c : Collected)
      → AllSafe c
      → AllSafe (add_pair g h n pair c)
  add_pair-AllSafe h n (name, value) c s =
      elim (Bool-cases (g.clean name == "" || g.clean value == "")) [
        | inl e ↦ rw e s
        | inr e ↦ rw e (add_field-AllSafe h n (g.clean name) (g.clean value) c s)
      ]

  add_row-AllSafe :
      (h : String) (n : ℕ) (row : Option (String × String)) (c : Collected)
      → AllSafe c
      → AllSafe (add_row g h n row c)
  add_row-AllSafe h n none c s = s
  add_row-AllSafe h n (some row) c s = elim (Bool-cases (is_table_head g row)) [
    | inl e ↦ rw e s
    | inr e ↦ rw e (add_pair-AllSafe h n row c s)
  ]

  add_fact-AllSafe :
      (h : String) (n : ℕ) (line : String) (c : Collected)
      → AllSafe c
      → AllSafe (add_fact g h n line c)
  add_fact-AllSafe h n line c s = elim (Option-cases (g.fact line)) [
    | inl e ↦ rw (add_fact, e) (add_row-AllSafe h n (g.table_row line) c s)
    | inr (pair, e) ↦ rw (add_fact, e) (add_pair-AllSafe h n pair c s)
  ]

  add_line-AllSafe :
      (ps : List Paragraph) (n : ℕ) (line : String) (c : Collected)
      → AllSafe c
      → AllSafe (add_line g ps n line c)
  add_line-AllSafe ps n line c s = elim (Bool-cases (is_active g ps n)) [
    | inl e ↦ rw (add_line, e) s
    | inr e ↦ elim (Option-cases (g.heading line)) [
      | inr (h, f) ↦ rw (add_line, e, f) s
      | inl f ↦ elim (Option-cases (truthy_text c.current)) [
        | inl k ↦ rw (add_line, e, f, k) s
        | inr (h, k) ↦ rw (add_line, e, f, k) (add_fact-AllSafe h n line c s)
      ]
    ]
  ]

  add_lines-AllSafe :
      (ps : List Paragraph) (n : ℕ) (lines : List String) (c : Collected)
      → AllSafe c
      → AllSafe (add_lines g ps n lines c)
  unfolding add_lines
  add_lines-AllSafe ps n [] c s = s
  add_lines-AllSafe ps n (line ∷ lines) c s =
      add_lines-AllSafe ps (suc n) lines _ (add_line-AllSafe ps n line c s)

  -- Of whatever lines a file has, no record that is collected has the name of a secret or a value that assigns one.
  pub collect-AllSafe : (lines : List String) → All IsSafe (collect g lines).records
  unfolding collect
  collect-AllSafe lines =
      add_lines-AllSafe (active_state_paragraphs g lines) 1 lines _
        (add_paragraphs-AllSafe (active_state_paragraphs g lines) _ tt)
