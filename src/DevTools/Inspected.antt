-- ===== src/DevTools/Inspected.antt =====
-- What `_inspect_file` returns: lines of a file below an allowed root.
use virtiz_ai.Common.{
  ℕ, zero, suc, String, ◌≡◌, refl, sym, ap, ◌∙◌, ◌||◌, ◌≢◌, true, none, some, List, [], ◌∷◌, ◌++◌,
  ◌-◌, ◌≤◌, ◌<◌, arith, take, length, map, Among, ok, ensure_some, ensure-ok, ensure_some-ok,
  ok-injective, min, inl, inr, length-take-le, Option, Option-cases, false,
}
use mathlib.Core.Option.{some-injective}
use mathlib.Core.Path.{subst}
use mathlib.Core.List.{append_assoc}
use virtiz_ai.Common.Json.{
  Value, null, bool, int, float, str, arr, obj, pos, negsuc, Members, get_field,
}
use virtiz_ai.DevTools.{
  Bytes, resolved, FilePath, Text, Host, Below, workspace_of, allowed_roots, relative_path,
  in_roots-Below, confined-Below, in_roots, is_parent, same, failure,
}
use virtiz_ai.DevTools.Inspect.{
  Files, Inspection, Bounds, inspect_file, inspection_of, bounds_of, split_lines, selected, drop,
  readable, invalid_path, outside, max_lines, positive, default_positive, bounds_from, stop_of,
  unavailable, invalid_roots, join_lines,
}

-- the file that a request names: below the workspace, and below an allowed root
pub record Reaches (host : Host) (files : Files) (payload config : Members)
    (workspace target : FilePath) (text : Text) : Type 0 where
  pub configured : workspace_of host config ≡ some workspace
  pub path : String
  pub named : relative_path (get_field payload "path") ≡ some path
  pub located : resolved host workspace path ≡ target
  pub inside : Below workspace target
  pub allowed : List String
  pub roots : allowed_roots config ≡ some allowed
  pub root : FilePath
  pub granted : Among root (map (resolved host workspace) allowed)
  pub under : Below root target
  pub raw : Bytes
  pub stored : files target ≡ some raw
  pub reads : host.decode raw ≡ text

pub parent_or_same-Below :
    (root p : FilePath) → (is_parent root p || same p root) ≡ true → Below root p
parent_or_same-Below root p h = confined-Below root p (ground (arith))

pub readable-ok :
    {A : Type 0} (host : Host) (files : Files) (workspace : FilePath) (roots : List FilePath)
    (target : FilePath) (rest : Text → virtiz_ai.DevTools.Outcome A) (a : A)
    → readable host files workspace roots target rest ≡ ok a
    → Below workspace target
      × ((root : FilePath) × Among root roots × Below root target)
      × ((text : Text) × (raw : Bytes) × (files target ≡ some raw)
          × (host.decode raw ≡ text)
          × (rest text ≡ ok a))
readable-ok host files workspace roots target rest a h =
    let (e, h1) =
      ensure-ok (is_parent workspace target || same target workspace) invalid_path _ a h in
    let (f, h2) = ensure-ok (in_roots roots target) outside _ a h1 in
    let (raw, g, h3) =
      ensure_some-ok (files target) _ (λ content. rest (host.decode content)) a h2 in
    (
      parent_or_same-Below workspace target e,
      in_roots-Below roots target f,
      (host.decode raw, raw, g, refl, h3),
    )

pub take-drop : {A : Type 0} (n : ℕ) (xs : List A) → xs ≡ take n xs ++ drop n xs
take-drop zero xs = refl
take-drop (suc n) [] = refl
take-drop (suc n) (x ∷ xs) = ap (λ z. x ∷ z) (take-drop n xs)

length-before : {A : Type 0} (n : ℕ) (xs : List A) → drop n xs ≢ [] → length (take n xs) ≡ n
length-before zero xs h = refl
length-before (suc n) [] h = absurd (h refl)
length-before (suc n) (x ∷ xs) h = ap suc (length-before n xs h)

length-take-shorter : {A : Type 0} (n : ℕ) (xs : List A) → length (take n xs) ≤ length xs
length-take-shorter zero xs = omega arith
length-take-shorter (suc n) [] = omega arith
length-take-shorter (suc n) (x ∷ xs) = omega (arith, length-take-shorter n xs)

take-nil : {A : Type 0} (n : ℕ) → take {A = A} n [] ≡ []
take-nil zero = refl
take-nil (suc n) = refl

positive_lem : (v : Value) (n : ℕ) → positive v ≡ some n → 0 < n
positive_lem null n h = absurd (cc)
positive_lem (bool true) n h = let e = some-injective 1 n h in omega arith
positive_lem (bool false) n h = absurd (cc)
positive_lem (int (pos m)) n h = ground arith
positive_lem (int (negsuc m)) n h = absurd (cc)
positive_lem (float m e) n h = absurd (cc)
positive_lem (str t) n h = absurd (cc)
positive_lem (arr es) n h = absurd (cc)
positive_lem (obj fs) n h = absurd (cc)

default_positive_lem : (v : Option Value) (d n : ℕ) → 0 < d → default_positive v d ≡ some n → 0 < n
default_positive_lem none d n p h = let e = some-injective d n h in omega arith
default_positive_lem (some v) d n p h = positive_lem v n h

bounds_from_lem :
    (start maximum : Option ℕ) (f : ℕ → Option (Option ℕ)) (b : Bounds)
    → ((n : ℕ) → start ≡ some n → 0 < n)
    → bounds_from start maximum f ≡ some b
    → (0 < b.start) × (b.maximum ≤ max_lines)
bounds_from_lem none m f b p h = absurd (cc)
bounds_from_lem (some s) none f b p h = absurd (cc)
bounds_from_lem (some s) (some m) f b p h = elim (Option-cases (f s)) [
  | inl e ↦ absurd (cc (rw (bounds_from, e) at h))
  | inr (last, e) ↦
      let q =
        some-injective (record { start = s; last = last; maximum = min m max_lines }) b
          (rw (bounds_from, e) at h) in
      subst (λ c. (0 < c.start) × (c.maximum ≤ max_lines)) q (p s refl, omega arith)
]

bounds_of_lem :
    (payload : Members) (b : Bounds)
    → bounds_of payload ≡ some b
    → (0 < b.start) × (b.maximum ≤ max_lines)
bounds_of_lem payload b h =
    bounds_from_lem _ _ _ b
      (λ n e. default_positive_lem (get_field payload "start_line") 1 n (omega arith) e) h

-- the lines that a request asks for
pub record IsSlice (b : Bounds) (lines slice : List Text) : Type 0 where
  pub few : length slice ≤ max_lines
  pub before : List Text
  pub after : List Text
  pub contiguous : lines ≡ before ++ (slice ++ after)
  pub position : slice ≢ [] → suc (length before) ≡ b.start
  pub to_end : (n : ℕ) → b.last ≡ some n → length slice ≤ n - (b.start - 1)

selected-IsSlice :
    (b : Bounds) (lines : List Text)
    → 0 < b.start
    → b.maximum ≤ max_lines
    → IsSlice b lines (selected b lines)
selected-IsSlice b lines s m =
    let n = b.start - 1 in
    let window = take (stop_of b - n) (drop n lines) in
    record {
      few = let l = length-take-le b.maximum window in omega arith;
      before = take n lines;
      after = drop b.maximum window ++ drop (stop_of b - n) (drop n lines);
      contiguous =
          take-drop n lines
          ∙ ap (λ z. take n lines ++ z)
              (take-drop (stop_of b - n) (drop n lines)
                ∙ ap (λ z. z ++ drop (stop_of b - n) (drop n lines)) (take-drop b.maximum window)
                ∙ append_assoc (take b.maximum window) (drop b.maximum window) _);
      position = λ h.
          let l = length-before n lines (λ e. h (
            ap (λ z. take b.maximum (take (stop_of b - n) z)) e
            ∙ ap (take b.maximum) (take-nil (stop_of b - n))
            ∙ take-nil b.maximum)) in
          omega arith;
      to_end = λ k e.
          let stop : stop_of b ≡ k = rw e refl in
          let l = length-take-shorter b.maximum window in
          let m = length-take-le (stop_of b - n) (drop n lines) in omega arith;
    }

-- An inspection that returns has read the file that the request names, which lies below the workspace and
-- below an allowed root; its lines are consecutive lines of that file from the start line on, at most 200
-- and none after the end line, its content is these lines joined, and its revision is the file's.
pub inspect_file-IsSlice :
    (host : Host) (files : Files) (payload config : Members) (r : Inspection)
    → inspect_file host files payload config ≡ ok r
    → (workspace : FilePath) × (target : FilePath) × (text : Text) × (b : Bounds) × Reaches host
        files payload config workspace target text
      × (bounds_of payload ≡ some b)
      × IsSlice b (split_lines text) r.lines
      × (r.start_line ≡ b.start)
      × (r.content ≡ join_lines r.lines)
      × (r.revision ≡ host.digest text)
unfolding inspect_file
inspect_file-IsSlice host files payload config r h =
    let (workspace, w, h1) = ensure_some-ok (workspace_of host config) unavailable _ r h in
    let (path, p, h2) =
      ensure_some-ok (relative_path (get_field payload "path")) invalid_path _ r h1 in
    let (allowed, a, h3) = ensure_some-ok (allowed_roots config) invalid_roots _ r h2 in
    let target = resolved host workspace path in
    let read_lines : String → Text → virtiz_ai.DevTools.Outcome Inspection = λ path text.
      ensure_some (bounds_of payload) (failure "Invalid line bounds")
        (λ b. ok (inspection_of host path b text)) in
    let (inside, (root, granted, under), (text, raw, stored, reads, h4)) =
      readable-ok host files workspace (map (resolved host workspace) allowed) target
        (read_lines path) r h3 in
    let (b, e, h5) =
      ensure_some-ok (bounds_of payload) (failure "Invalid line bounds")
        (λ b. ok (inspection_of host path b text)) r h4 in
    let q = ok-injective (inspection_of host path b text) r h5 in
    let (s, m) = bounds_of_lem payload b e in
    (
      workspace,
      target,
      text,
      b,
      record {
        configured = w;
        path = path;
        named = p;
        located = refl;
        inside = inside;
        allowed = allowed;
        roots = a;
        root = root;
        granted = granted;
        under = under;
        raw = raw;
        stored = stored;
        reads = reads;
      },
      e,
      subst (λ z. IsSlice b (split_lines text) z.lines) q
          (selected-IsSlice b (split_lines text) s m),
      sym (ap (λ z. z.start_line) q),
      subst (λ z. z.content ≡ join_lines z.lines) q refl,
      sym (ap (λ z. z.revision) q),
    )
