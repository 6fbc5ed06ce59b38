-- ===== src/DevTools/Replace.antt =====
-- virtizai_core/dev_tools.py: `_replace_text`, which replaces one occurrence of a text in a file whose revision is
-- known. What each call to the operating system does is an argument.
use virtiz_ai.Common.{
  ℕ, zero, suc, String, Bool, true, false, not, ◌&&◌, ◌||◌, Option, none, some, List, [], ◌∷◌, ◌++◌,
  ◌-◌, ◌+◌, if◌then◌else◌, nat_eq, ltb, leb, length, map, all_of, is_empty, ok, raised, ensure,
  ensure_some, ◌==◌,
}
use virtiz_ai.Common.Json.{Value, str, Members, get_field}
use virtiz_ai.Common.Orders.{codes, is_prefix}
use virtiz_ai.DevTools.{
  FilePath, Text, Bytes, Host, Failure, failure, stale_inspection, Outcome, workspace_of,
  allowed_roots, relative_path, same, is_parent, resolved,
}
use virtiz_ai.DevTools.Inspect.{Files, unavailable, invalid_path, invalid_roots, readable, drop}

-- the files, and the temporary files left beside them
pub record Store : Type 0 where
  pub files : Files
  pub temporaries : List FilePath

-- which of the calls succeed: `mkstemp`; `fchmod` and the writing; `os.replace`; `os.unlink`
pub record System : Type 0 where
  pub makes : Bool
  pub writes : Bool
  pub replaces : Bool
  pub unlinks : Bool

abbrev pub put_file : FilePath → Bytes → Files → Files
put_file p content files q = if same q p then some content else files q

-- the file swap, and whether it succeeded
abbrev pub swap : Host → System → FilePath → Text → Store → Store × Bool
swap host os target text s =
    if not os.makes
    then (s, false)
    else if os.writes && os.replaces
    then (record s { files = put_file target (host.encode text) s.files }, true)
    else if os.unlinks
    then (s, false)
    else (record s { temporaries = target ∷ s.temporaries }, false)

-- the bytes of a code point in UTF-8
abbrev width : ℕ → ℕ
width c = if ltb c 128 then 1 else if ltb c 2048 then 2 else if ltb c 65536 then 3 else 4

abbrev pub byte_length : Text → ℕ
byte_length [] = 0
byte_length (c ∷ cs) = width c + byte_length cs

-- `content.count(old)` for an `old` that is not empty: the first argument is what is left of a match to be passed
unfoldable pub matches_after : ℕ → Text → Text → ℕ
matches_after n old [] = 0
matches_after (suc n) old (c ∷ cs) = matches_after n old cs
matches_after zero old (c ∷ cs) =
    let rest = matches_after (if is_prefix old (c ∷ cs) then length old - 1 else 0) old cs in
    if is_prefix old (c ∷ cs) then suc rest else rest

abbrev pub count_matches : Text → Text → ℕ
count_matches old content = matches_after 0 old content

-- `content.replace(old, new, 1)`
unfoldable pub replace_first : Text → Text → Text → Text
replace_first old new [] = []
replace_first old new (c ∷ cs) =
    let rest = replace_first old new cs in
    if is_prefix old (c ∷ cs) then new ++ drop (length old) (c ∷ cs) else c ∷ rest

abbrev pub text_of : Option Value → Option String
text_of (some (str s)) = some s
text_of _ = none

-- every root lies below the workspace
abbrev pub inner_roots : FilePath → List FilePath → Bool
inner_roots workspace roots = all_of (λ root. is_parent workspace root || same root workspace) roots

pub record Replacement : Type 0 where
  pub path : String
  pub current_revision : String
  pub result_revision : String

-- what is to be written where
pub record Edit : Type 0 where
  pub target : FilePath
  pub updated : Text
  pub report : Replacement

abbrev pub missing_fields : Failure
missing_fields = failure "Missing required fields"

abbrev pub edit_of : Host → String → FilePath → Text → Text → Text → Edit
edit_of host path target old new content =
    let updated = replace_first old new content in
    record {
      target = target;
      updated = updated;
      report = record {
        path = path;
        current_revision = host.digest content;
        result_revision = host.digest updated;
      };
    }

-- the tests on the texts and on the content of the file
abbrev pub checked_edit : Host → String → FilePath → Text → Text → String → Text → Outcome Edit
checked_edit host path target old new expected content =
    ensure (not (is_empty old)) (failure "old_text_missing") (
      ensure (leb (byte_length old) 4000 && leb (byte_length new) 4000)
        (failure "mutation_text_too_large")
        (ensure (host.digest content == expected) (stale_inspection path (host.digest content)) (
          ensure (not (nat_eq (count_matches old content) 0)) (failure "old_text_missing") (
            ensure (nat_eq (count_matches old content) 1) (failure "old_text_ambiguous")
              (ok (edit_of host path target old new content))))))

abbrev pub fields_edit : Host → Members → String → FilePath → Text → Outcome Edit
fields_edit host payload path target content =
    ensure_some (text_of (get_field payload "old_text")) missing_fields (λ old.
      ensure_some (text_of (get_field payload "new_text")) missing_fields (λ new.
        ensure_some (text_of (get_field payload "expected_revision")) missing_fields
          (λ expected. checked_edit host path target (codes old) (codes new) expected content)))

-- everything before the file swap
unfoldable pub planned_edit : Host → Files → Members → Members → Outcome Edit
planned_edit host files payload config =
    ensure_some (workspace_of host config) unavailable (λ workspace.
      ensure_some (relative_path (get_field payload "path")) invalid_path (λ path.
        ensure_some (allowed_roots config) invalid_roots (λ allowed.
          ensure (inner_roots workspace (map (resolved host workspace) allowed)) invalid_roots (
            readable host files workspace (map (resolved host workspace) allowed)
              (resolved host workspace path)
              (fields_edit host payload path (resolved host workspace path))))))

abbrev pub swapped : Replacement → Store × Bool → Store × Outcome Replacement
swapped report (s, true) = (s, ok report)
swapped report (s, false) = (s, raised (failure "replace_text_failed"))

abbrev pub carried_out : Host → System → Store → Outcome Edit → Store × Outcome Replacement
carried_out host os s (raised e) = (s, raised e)
carried_out host os s (ok edit) = swapped edit.report (swap host os edit.target edit.updated s)

unfoldable pub replace_text :
    Host → System → Members → Members → Store → Store × Outcome Replacement
unfolding planned_edit
replace_text host os payload config s =
    carried_out host os s (planned_edit host s.files payload config)
