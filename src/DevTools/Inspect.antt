-- ===== src/DevTools/Inspect.antt =====
-- virtizai_core/dev_tools.py: `_inspect_file`, which returns some lines of a file and the revision of the file.
use virtiz_ai.Common.{
  ℕ, zero, suc, String, Bool, true, false, ◌&&◌, ◌||◌, Option, none, some, List, [], ◌∷◌, ◌++◌, ◌-◌,
  ◌+◌, if◌then◌else◌, nat_eq, ltb, min, take, length, map, any_of, ok, ensure, ensure_some,
}
use virtiz_ai.Common.Json.{Value, null, bool, int, pos, Members, get_field}
use virtiz_ai.DevTools.{
  FilePath, Text, Bytes, Host, Failure, failure, Outcome, workspace_of, allowed_roots,
  relative_path, same, is_parent, resolved, in_roots,
}

-- the files that there are, with their contents
abbrev pub Files : Type 0
Files = FilePath → Option Bytes

abbrev pub unavailable : Failure
unavailable = failure "Environment workspace is unavailable"

abbrev pub invalid_path : Failure
invalid_path = failure "Invalid file path"

abbrev pub invalid_roots : Failure
invalid_roots = failure "Environment allowed roots are invalid"

abbrev pub outside : Failure
outside = failure "File path is outside allowed roots"

-- the characters at which `str.splitlines` ends a line
abbrev line_breaks : List ℕ
line_breaks = 10 ∷ 11 ∷ 12 ∷ 13 ∷ 28 ∷ 29 ∷ 30 ∷ 133 ∷ 8232 ∷ 8233 ∷ []

abbrev pub is_break : ℕ → Bool
is_break c = any_of (nat_eq c) line_breaks

abbrev pub put_char : ℕ → List Text → List Text
put_char c [] = (c ∷ []) ∷ []
put_char c (l ∷ ls) = (c ∷ l) ∷ ls

-- the lines from here on, where the flag says that the character before is a carriage return
unfoldable pub lines_after : Bool → Text → List Text
lines_after cr [] = []
lines_after cr (c ∷ cs) =
    let rest = lines_after (nat_eq c 13) cs in
    if cr && nat_eq c 10 then rest else if is_break c then [] ∷ rest else put_char c rest

-- `content.splitlines()`
abbrev pub split_lines : Text → List Text
split_lines cs = lines_after false cs

-- `"\n".join(lines)`
abbrev pub join_lines : List Text → Text
join_lines [] = []
join_lines (l ∷ []) = l
join_lines (l ∷ m ∷ ms) = l ++ (10 ∷ join_lines (m ∷ ms))

abbrev pub drop : {A : Type 0} → ℕ → List A → List A
drop zero xs = xs
drop (suc n) [] = []
drop (suc n) (x ∷ xs) = drop n xs

-- an `int` that is positive, where `True` is 1
abbrev pub positive : Value → Option ℕ
positive (int (pos n)) = if ltb 0 n then some n else none
positive (bool true) = some 1
positive _ = none

abbrev pub default_positive : Option Value → ℕ → Option ℕ
default_positive none n = some n
default_positive (some v) n = positive v

-- `end_line`: absent or `None`, or an `int` that is not before the start
abbrev end_of : ℕ → Option Value → Option (Option ℕ)
end_of start none = some none
end_of start (some null) = some none
end_of start (some v) = elim (positive v) [
  | none ↦ none
  | some n ↦ if ltb n start then none else some (some n)
]

pub record Bounds : Type 0 where
  pub start : ℕ
  pub last : Option ℕ
  pub maximum : ℕ

abbrev pub max_lines : ℕ
max_lines = 200

abbrev pub bounds_from : Option ℕ → Option ℕ → (ℕ → Option (Option ℕ)) → Option Bounds
bounds_from (some start) (some maximum) last_from = elim (last_from start) [
  | none ↦ none
  | some last ↦ some (record { start = start; last = last; maximum = min maximum max_lines })
]
bounds_from _ _ last_from = none

-- the bounds of the payload, none where they are invalid, with the maximum capped
abbrev pub bounds_of : Members → Option Bounds
bounds_of payload =
    bounds_from (default_positive (get_field payload "start_line") 1)
      (default_positive (get_field payload "max_lines") max_lines)
      (λ start. end_of start (get_field payload "end_line"))

abbrev pub stop_of : Bounds → ℕ
stop_of b = elim b.last [ none ↦ b.start - 1 + b.maximum | some n ↦ n ]

-- `lines[start - 1:stop][:maximum]`
abbrev pub selected : Bounds → List Text → List Text
selected b lines = take b.maximum (take (stop_of b - (b.start - 1)) (drop (b.start - 1) lines))

pub record Inspection : Type 0 where
  pub path : String
  pub start_line : ℕ
  pub lines : List Text
  pub content : Text
  pub truncated : Bool
  pub revision : String

abbrev pub inspection_of : Host → String → Bounds → Text → Inspection
inspection_of host path b text =
    let lines = selected b (split_lines text) in
    record {
      path = path;
      start_line = b.start;
      lines = lines;
      content = join_lines lines;
      truncated = nat_eq (length lines) b.maximum;
      revision = host.digest text;
    }

-- the tests on the path that is resolved, and the file there
abbrev pub readable :
    {A : Type 0}
    → Host
    → Files
    → FilePath
    → List FilePath
    → FilePath
    → (Text → Outcome A)
    → Outcome A
readable host files workspace roots target rest =
    ensure (is_parent workspace target || same target workspace) invalid_path (
      ensure (in_roots roots target) outside (
        ensure_some (files target) (failure "File not found")
          (λ content. rest (host.decode content))))

unfoldable pub inspect_file : Host → Files → Members → Members → Outcome Inspection
inspect_file host files payload config =
    ensure_some (workspace_of host config) unavailable (λ workspace.
      ensure_some (relative_path (get_field payload "path")) invalid_path (λ path.
        ensure_some (allowed_roots config) invalid_roots (λ allowed.
          readable host files workspace (map (resolved host workspace) allowed)
            (resolved host workspace path)
            (λ text.
              ensure_some (bounds_of payload) (failure "Invalid line bounds")
                (λ b. ok (inspection_of host path b text))))))
