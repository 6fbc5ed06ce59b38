-- ===== src/Homelab.antt =====
-- virtizai_core/homelab.py: the facts of a homelab file. This file: what a line can be, and the fields that are
-- refused. The regular expressions and the case mapping are a parameter, `Grammar`.
pub mod Collect
pub mod Canonical
pub mod Partition
pub mod Union
pub mod Forest
pub mod Coalesce
pub mod Roots
pub mod Facts
pub mod Evidence
pub mod Lookup
pub mod Safe
use virtiz_ai.Common.{
  ℕ, String, Bool, true, false, not, ◌&&◌, Option, none, some, List, [], ◌∷◌, if◌then◌else◌, leb,
  ◌==◌,
}
use Prim.Native.String.{count}

-- the groups of a sentence on the active state
pub record State : Type 0 where
  pub platform : String
  pub endpoint : String
  pub os : String
  pub version : String

-- `_clean`, `str.strip` and `str.casefold`; `_SECRET_FIELD.search` and the search for an assignment of a secret; the
-- kinds of lines; `_HEADING`, `_FACT` and `_TABLE_ROW` with their groups; `_TABLE_RULE`; the first sentence of a
-- text matched with `_CURRENT_STATE` or `_UNLABELLED_ACTIVE_STATE`; `_normalize_property`
pub record Grammar : Type 0 where
  pub clean : String → String
  pub strip : String → String
  pub casefold : String → String
  pub is_secret : String → Bool
  pub is_assignment : String → Bool
  pub is_fence : String → Bool
  pub is_markdown_heading : String → Bool
  pub is_list_item : String → Bool
  pub is_rule : String → Bool
  pub heading : String → Option String
  pub fact : String → Option (String × String)
  pub table_row : String → Option (String × String)
  pub state : String → Option State
  pub normalize : String → String

-- `_safe_field`
abbrev pub is_safe_field : Grammar → String → String → Bool
is_safe_field g name value = if g.is_secret name then false else not (g.is_assignment value)

abbrev named_state : Grammar → Option State → List (String × String)
named_state g none = []
named_state g (some s) =
    ("Product / platform", g.clean s.platform)
    ∷ ("Hostname / IP", g.clean s.endpoint)
    ∷ ("Underlying OS", g.clean s.os)
    ∷ ("Product version", g.clean s.version)
    ∷ []

-- `_current_state_facts`
abbrev pub current_state_facts : Grammar → String → List (String × String)
current_state_facts g line = if leb (count line) 700 then named_state g (g.state line) else []

-- a fact with its heading and the number of its line
pub record Fact : Type 0 where
  pub heading : String
  pub name : String
  pub value : String
  pub line : ℕ
