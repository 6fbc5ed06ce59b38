-- ===== src/DevTools/Patch.antt =====
-- virtizai_core/dev_tools.py: `_patch_target` and the planning of `_apply_patch`, which reads a unified diff and
-- checks every hunk against the files. The source from the cursor on stands for the source and the
-- cursor, and the lines from the position on for the lines and the position.
use virtiz_ai.Common.{
  ℕ, zero, suc, String, Bool, true, false, ◌&&◌, ◌||◌, Option, none, some, List, [], ◌∷◌, ◌++◌, ◌-◌,
  ◌+◌, ◌*◌, if◌then◌else◌, nat_eq, leb, length, take, match_some, is_empty, ok, raised, ensure,
  ensure_some, ◌>>=◌,
}
use virtiz_ai.Common.Orders.{codes, is_prefix}
use virtiz_ai.DevTools.{
  FilePath, Text, Host, Failure, failure, Outcome, same, is_parent, in_roots, is_absolute, climbs,
}
use virtiz_ai.DevTools.Inspect.{Files, drop, split_lines, join_lines}

abbrev pub malformed : Failure
malformed = failure "Malformed patch"

abbrev pub malformed_hunk : Failure
malformed_hunk = failure "Malformed patch hunk"

abbrev pub starts : String → Text → Bool
starts s line = is_prefix (codes s) line

abbrev pub texts_eq : Text → Text → Bool
texts_eq [] [] = true
texts_eq [] (y ∷ ys) = false
texts_eq (x ∷ xs) [] = false
texts_eq (x ∷ xs) (y ∷ ys) = nat_eq x y && texts_eq xs ys

-- `raw.split("\t", 1)[0]`
abbrev pub up_to_tab : Text → Text
up_to_tab [] = []
up_to_tab (c ∷ cs) = let rest = up_to_tab cs in if nat_eq c 9 then [] else c ∷ rest

abbrev pub without_side : Text → Text
without_side name = if starts "a/" name || starts "b/" name then drop 2 name else name

abbrev pub patch_target : Host → FilePath → List FilePath → Text → Option FilePath
patch_target host workspace roots raw =
    let name = without_side (up_to_tab raw) in
    let target = host.resolve workspace name in
    if is_empty name || texts_eq name (codes "/dev/null") || is_absolute name || climbs name
    then none
    else if (is_parent workspace target || same target workspace) && in_roots roots target
    then some target
    else none

-- the numbers of a hunk's header that are used
pub record Header : Type 0 where
  pub old_start : ℕ
  pub old_count : ℕ
  pub new_count : ℕ

module _ (decimal : ℕ → Option ℕ) where
  abbrev digits : ℕ → Text → ℕ × Text
  digits n [] = (n, [])
  digits n (c ∷ cs) = elim (decimal c) [ none ↦ (n, c ∷ cs) | some d ↦ digits (n * 10 + d) cs ]

  abbrev number : Text → Option (ℕ × Text)
  number [] = none
  number (c ∷ cs) = elim (decimal c) [ none ↦ none | some d ↦ some (digits d cs) ]

  -- `(?:,(\d+))?`, 1 where it is absent
  abbrev count_of : Text → Option (ℕ × Text)
  count_of [] = some (1, [])
  count_of (c ∷ cs) = if nat_eq c 44 then number cs else some (1, c ∷ cs)

  abbrev past : String → Text → Option Text
  past s cs = if starts s cs then some (drop (length (codes s)) cs) else none

  -- `^@@ -(\d+)(?:,(\d+))? \+(\d+)(?:,(\d+))? @@$`
  abbrev pub header_of : Text → Option Header
  header_of line = match_some (past "@@ -" line) none (λ a.
      match_some (number a) none (λ (old_start, b). match_some (count_of b) none (λ (old_count, c).
        match_some (past " +" c) none (λ d. match_some (number d) none (λ (new_start, e).
          match_some (count_of e) none (λ (new_count, f).
            if texts_eq f (codes " @@")
            then some
                (record { old_start = old_start; old_count = old_count; new_count = new_count })
            else none))))))

-- `source_lines[cursor:]`, the cursor, and what has been put out and seen
pub record Walk : Type 0 where
  pub ahead : List Text
  pub cursor : ℕ
  pub output : List Text
  pub old_seen : ℕ
  pub new_seen : ℕ

-- from a hunk's header to its first line
abbrev pub opened : Header → Walk → Outcome Walk
opened h w =
    ensure (leb 1 h.old_start && leb w.cursor (h.old_start - 1)) (failure "Invalid patch hunk") (
      ok (record {
        ahead = drop (h.old_start - 1 - w.cursor) w.ahead;
        cursor = h.old_start - 1;
        output = w.output ++ take (h.old_start - 1 - w.cursor) w.ahead;
        old_seen = 0;
        new_seen = 0;
      }))

-- the next line of the source is the content of a line ` ` or `-`
abbrev pub matched : Text → Walk → Outcome Walk
matched content w = elim w.ahead [
  | [] ↦ raised (failure "Patch check failed")
  | l ∷ ls ↦
      ensure (texts_eq l content) (failure "Patch check failed")
        (ok (record w { ahead = ls; cursor = suc w.cursor; old_seen = suc w.old_seen }))
]

abbrev pub emitted : Text → Walk → Walk
emitted content w = record w { output = w.output ++ (content ∷ []); new_seen = suc w.new_seen }

-- one line of a hunk
abbrev pub line_step : Text → Walk → Outcome Walk
line_step [] w = raised malformed_hunk
line_step (c ∷ content) w =
    if nat_eq c 32
    then (matched content w >>= λ v. ok (emitted content v))
    else if nat_eq c 45
    then matched content w
    else if nat_eq c 43
    then ok (emitted content w)
    else raised malformed_hunk

abbrev pub ends_hunk : Text → Bool
ends_hunk line = starts "@@ " line || starts "--- " line

-- the lines of a hunk, and the lines after it
unfoldable pub hunk_lines : List Text → Walk → Outcome (Walk × List Text)
hunk_lines [] w = ok (w, [])
hunk_lines (l ∷ ls) w = elim (ends_hunk l) [
  | true ↦ ok (w, l ∷ ls)
  | false ↦ elim (line_step l w) [ raised e ↦ raised e | ok v ↦ hunk_lines ls v ]
]

-- a hunk after its header
abbrev pub hunk : Header → List Text → Walk → Outcome (Walk × List Text)
hunk h ls w = opened h w >>= λ v. hunk_lines ls v >>= λ (u, rest).
    ensure (nat_eq u.old_seen h.old_count && nat_eq u.new_seen h.new_count) malformed_hunk
      (ok (u, rest))

abbrev pub header_and_hunk : (ℕ → Option ℕ) → Text → List Text → Walk → Outcome (Walk × List Text)
header_and_hunk decimal l ls w = ensure_some (header_of decimal l) malformed_hunk (λ h. hunk h ls w)

-- the hunks of a file and their number, none where the fuel runs out
unfoldable pub hunks :
    (ℕ → Option ℕ) → ℕ → List Text → Walk → ℕ → Option (Outcome ((Walk × ℕ) × List Text))
unfolding hunk_lines
hunks decimal zero ls w n = none
hunks decimal (suc fuel) [] w n = some (ok ((w, n), []))
hunks decimal (suc fuel) (l ∷ ls) w n = elim (starts "--- " l) [
  | true ↦ some (ok ((w, n), l ∷ ls))
  | false ↦ elim (header_and_hunk decimal l ls w) [
    | raised e ↦ some (raised e)
    | ok (v, rest) ↦ hunks decimal fuel rest v (suc n)
  ]
]

-- `planned`, a dict in the order of insertion
abbrev pub Plan : Type 0
Plan = List (FilePath × Text)

abbrev pub planned_text : Plan → FilePath → Option Text
planned_text [] p = none
planned_text ((q, t) ∷ plan) p = if same q p then some t else planned_text plan p

abbrev pub put_plan : FilePath → Text → Plan → Plan
put_plan p t [] = (p, t) ∷ []
put_plan p t ((q, u) ∷ plan) =
    let rest = put_plan p t plan in if same q p then (q, t) ∷ plan else (q, u) ∷ rest

abbrev ends_line : Text → Bool
ends_line [] = false
ends_line (c ∷ []) = nat_eq c 10
ends_line (c ∷ d ∷ ds) = ends_line (d ∷ ds)

abbrev pub begun : Text → Walk
begun source = record {
  ahead = split_lines source;
  cursor = 0;
  output = [];
  old_seen = 0;
  new_seen = 0;
}

-- the new content of a file after its hunks
abbrev pub patched : Text → Walk → Text
patched source w = join_lines (w.output ++ w.ahead) ++ (if ends_line source then 10 ∷ [] else [])

module _ (host : Host) (files : Files) (workspace : FilePath) (roots : List FilePath) where
  -- the target that both header lines name, and its content so far
  abbrev pub target_of : Text → Text → Plan → Outcome (FilePath × Text)
  target_of old new plan = ensure (starts "--- " old && starts "+++ " new) malformed (
      ensure_some (patch_target host workspace roots (drop 4 old)) (failure "Invalid patch target")
        (λ target.
          ensure_some (patch_target host workspace roots (drop 4 new))
            (failure "Invalid patch target")
            (λ other. ensure (same target other) (failure "Invalid patch target") (
              ensure_some (files target) (failure "Invalid patch target") (λ content.
                ok (
                  target,
                  match_some (planned_text plan target) (host.decode content) (λ t. t),
                ))))))

  -- the sections of a patch, one for each pair of header lines, none where the fuel runs out
  unfoldable pub sections : ℕ → List Text → Plan → Option (Outcome Plan)
  unfolding hunks
  sections zero ls plan = none
  sections (suc fuel) [] plan = some (ok plan)
  sections (suc fuel) (old ∷ []) plan = some (raised malformed)
  sections (suc fuel) (old ∷ new ∷ []) plan = some (raised malformed)
  sections (suc fuel) (old ∷ new ∷ l ∷ ls) plan = elim (target_of old new plan) [
    | raised e ↦ some (raised e)
    | ok (target, source) ↦ elim (hunks host.decimal fuel (l ∷ ls) (begun source) 0) [
      | none ↦ none
      | some (raised e) ↦ some (raised e)
      | some (ok ((w, zero), rest)) ↦ some (raised malformed)
      | some (ok ((w, suc n), rest)) ↦ sections fuel rest (put_plan target (patched source w) plan)
    ]
  ]

  -- the new contents of the files that a patch changes
  abbrev pub plan_of : Text → Option (Outcome Plan)
  plan_of patch = let ls = split_lines patch in sections (suc (length ls)) ls []
