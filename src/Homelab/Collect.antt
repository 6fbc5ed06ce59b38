-- ===== src/Homelab/Collect.antt =====
-- virtizai_core/homelab.py: `_active_state_paragraphs` and the part of `import_text` that collects the records of a
-- text, given as its lines. The records are in the order of the list that the code appends to.
use Prim.Native.String
use virtiz_ai.Common.{
  ℕ, suc, String, Bool, true, false, not, ◌&&◌, ◌||◌, Option, none, some, List, [], ◌∷◌, ◌++◌,
  if◌then◌else◌, leb, nat_eq, any_of, map, is_empty, ◌==◌,
}
use virtiz_ai.Common.Orders.{codes}
use virtiz_ai.Homelab.{Grammar, Fact, is_safe_field, current_state_facts}

-- a paragraph of plain prose below a heading
pub record Paragraph : Type 0 where
  pub heading : String
  pub text : String
  pub first_line : ℕ
  pub last_line : ℕ

-- the variables of the loop
pub record Reading : Type 0 where
  pub current : Option String
  pub paragraph : List String
  pub first_line : ℕ
  pub last_line : ℕ
  pub paragraphs : List Paragraph
  pub in_code_fence : Bool

-- `" ".join(parts)`
abbrev pub spaced : List String → String
spaced [] = ""
spaced (x ∷ []) = x
spaced (x ∷ y ∷ ys) = Prim.Native.String.◌++◌ x (Prim.Native.String.◌++◌ " " (spaced (y ∷ ys)))

-- a heading that is not empty
abbrev pub truthy_text : Option String → Option String
truthy_text none = none
truthy_text (some s) = if s == "" then none else some s

abbrev kept_paragraph : Grammar → Reading → List Paragraph
kept_paragraph g r =
    let joined = spaced (map g.strip r.paragraph) in
    elim (truthy_text r.current) [
      | none ↦ []
      | some heading ↦
          if not (is_empty r.paragraph) && leb (Prim.Native.String.count joined) 700
          then record {
            heading = heading;
            text = joined;
            first_line = r.first_line;
            last_line = r.last_line;
          }
            ∷ []
          else []
    ]

-- `flush`
abbrev pub flush : Grammar → Reading → Reading
flush g r = record r {
  paragraphs = r.paragraphs ++ kept_paragraph g r;
  paragraph = [];
  first_line = 0;
  last_line = 0;
}

abbrev has_bar : String → Bool
has_bar line = any_of (nat_eq 124) (codes line)

abbrev continued : ℕ → String → Reading → Reading
continued n line r = elim (truthy_text r.current) [
  | none ↦ r
  | some heading ↦ record r {
    first_line = if is_empty r.paragraph then n else r.first_line;
    paragraph = r.paragraph ++ (line ∷ []);
    last_line = n;
  }
]

abbrev cleaned : Grammar → Option String → Option String
cleaned g none = none
cleaned g (some s) = some (g.clean s)

-- the body of the loop of `_active_state_paragraphs`
abbrev pub read_line : Grammar → ℕ → String → Reading → Reading
read_line g n line r =
    if g.is_fence line
    then record (flush g r) { in_code_fence = not r.in_code_fence }
    else if r.in_code_fence
    then r
    else if g.is_markdown_heading line
    then record (flush g r) { current = cleaned g (g.heading line) }
    else if g.strip line == "" || has_bar line || g.is_list_item line
    then flush g r
    else continued n line r

unfoldable pub read_lines : Grammar → ℕ → List String → Reading → Reading
read_lines g n [] r = flush g r
read_lines g n (line ∷ lines) r = read_lines g (suc n) lines (read_line g n line r)

abbrev pub active_state_paragraphs : Grammar → List String → List Paragraph
active_state_paragraphs g lines =
    (read_lines g 1 lines (record {
      current = none;
      paragraph = [];
      first_line = 0;
      last_line = 0;
      paragraphs = [];
      in_code_fence = false;
    })).paragraphs

-- the records so far, how many fields are excluded, and the current heading
pub record Collected : Type 0 where
  pub records : List Fact
  pub excluded : ℕ
  pub current : Option String

-- one field: excluded, or appended
abbrev pub add_field : Grammar → String → ℕ → String → String → Collected → Collected
add_field g heading n name value c =
    if is_safe_field g name value
    then record c {
      records =
          c.records ++ (record { heading = heading; name = name; value = value; line = n } ∷ []);
    }
    else record c { excluded = suc c.excluded }

unfoldable pub add_fields : Grammar → String → ℕ → List (String × String) → Collected → Collected
add_fields g heading n [] c = c
add_fields g heading n ((name, value) ∷ fields) c =
    add_fields g heading n fields (add_field g heading n name value c)

-- the loop over the paragraphs
unfoldable pub add_paragraphs : Grammar → List Paragraph → Collected → Collected
unfolding add_fields
add_paragraphs g [] c = c
add_paragraphs g (p ∷ ps) c =
    add_paragraphs g ps (add_fields g p.heading p.first_line (current_state_facts g p.text) c)

-- `line_number in active_state_lines`
abbrev pub is_active : Grammar → List Paragraph → ℕ → Bool
is_active g ps n =
    any_of
      (λ p.
        not (is_empty (current_state_facts g p.text)) && leb p.first_line n && leb n p.last_line)
      ps

-- a field whose name and value are not empty
abbrev pub add_pair : Grammar → String → ℕ → String × String → Collected → Collected
add_pair g heading n (name, value) c =
    if g.clean name == "" || g.clean value == ""
    then c
    else add_field g heading n (g.clean name) (g.clean value) c

-- the head of a table, or the rule below it
abbrev pub is_table_head : Grammar → String × String → Bool
is_table_head g (name, value) =
    g.casefold (g.clean name) == "field" && g.casefold (g.clean value) == "value"
    || g.is_rule (g.clean name) && g.is_rule (g.clean value)

abbrev pub add_row : Grammar → String → ℕ → Option (String × String) → Collected → Collected
add_row g heading n none c = c
add_row g heading n (some row) c = if is_table_head g row then c else add_pair g heading n row c

abbrev pub add_fact : Grammar → String → ℕ → String → Collected → Collected
add_fact g heading n line c = elim (g.fact line) [
  | some pair ↦ add_pair g heading n pair c
  | none ↦ add_row g heading n (g.table_row line) c
]

-- the body of the loop over the lines
abbrev pub add_line : Grammar → List Paragraph → ℕ → String → Collected → Collected
add_line g ps n line c = elim (is_active g ps n) [
  | true ↦ c
  | false ↦ elim (g.heading line) [
    | some h ↦ record c { current = some (g.clean h) }
    | none ↦ elim (truthy_text c.current) [ none ↦ c | some heading ↦ add_fact g heading n line c ]
  ]
]

unfoldable pub add_lines : Grammar → List Paragraph → ℕ → List String → Collected → Collected
add_lines g ps n [] c = c
add_lines g ps n (line ∷ lines) c = add_lines g ps (suc n) lines (add_line g ps n line c)

-- the records and the count of `import_text`
unfoldable pub collect : Grammar → List String → Collected
unfolding add_lines add_paragraphs read_lines
collect g lines =
    let ps = active_state_paragraphs g lines in
    add_lines g ps 1 lines
      (add_paragraphs g ps (record { records = []; excluded = 0; current = none }))
