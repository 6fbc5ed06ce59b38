-- ===== src/DevTools/Replaced.antt =====
-- What `_replace_text` changes: one file at most, at the one occurrence of the text.
use virtiz_ai.Common.{
  String, ◌≡◌, refl, sym, ap, ◌∙◌, true, false, not, ◌&&◌, none, some, [], ◌∷◌, ◌++◌, ◌≤◌, ◌<◌,
  arith, nat_eq, length, map, ok, raised, ensure-ok, ensure_some-ok, ok-injective, ◌⊎◌, inl, inr,
  Bool-cases, Result-cases, Option, ◌==◌, eq_iff, is_empty, leb,
}
use mathlib.Core.Option.{some-injective}
use virtiz_ai.Common.Json.{Value, null, bool, int, float, str, arr, obj, Members, get_field}
use virtiz_ai.Common.Orders.{codes, is_prefix}
use virtiz_ai.DevTools.{
  resolved, FilePath, Text, Host, Failure, failure, stale_inspection, workspace_of, allowed_roots,
  relative_path,
}
use virtiz_ai.DevTools.Inspect.{Files, unavailable, invalid_path, invalid_roots, drop}
use virtiz_ai.DevTools.Inspected.{Reaches, readable-ok}
use virtiz_ai.DevTools.Replace.{
  Store, System, Replacement, Edit, put_file, swap, byte_length, matches_after, count_matches,
  replace_first, text_of, inner_roots, missing_fields, edit_of, fields_edit, planned_edit, swapped,
  replace_text,
}

is_prefix_sound : (p xs : Text) → is_prefix p xs ≡ true → xs ≡ p ++ drop (length p) xs
is_prefix_sound [] xs h = refl
is_prefix_sound (p ∷ ps) [] h = absurd (cc)
is_prefix_sound (p ∷ ps) (x ∷ xs) h =
    let e = is_prefix_sound ps xs (ground arith) in let f : x ≡ p = ground arith in cc

-- a text in which `old` can be counted has it, and `replace_first` replaces it there
pub replaced_at :
    (old new text : Text)
    → 0 < count_matches old text
    → (before after : Text) × (text ≡ before ++ (old ++ after))
      × (replace_first old new text ≡ before ++ (new ++ after))
unfolding matches_after replace_first
replaced_at old new [] h = absurd (omega arith)
replaced_at old new (c ∷ cs) h = elim (Bool-cases (is_prefix old (c ∷ cs))) [
  | inl e ↦
      ([], drop (length old) (c ∷ cs), is_prefix_sound old (c ∷ cs) e, rw (replace_first, e) refl)
  | inr e ↦
      let (before, after, p, r) = replaced_at old new cs (rw (matches_after, e) at h) in
      (c ∷ before, after, ap (λ z. c ∷ z) p, rw (replace_first, e) (ap (λ z. c ∷ z) r))
]

text_of-some : (v : Option Value) (t : String) → text_of v ≡ some t → v ≡ some (str t)
text_of-some none t h = absurd (cc)
text_of-some (some null) t h = absurd (cc)
text_of-some (some (bool b)) t h = absurd (cc)
text_of-some (some (int n)) t h = absurd (cc)
text_of-some (some (float m e)) t h = absurd (cc)
text_of-some (some (str u)) t h = ap (λ z. some (str z)) (some-injective u t h)
text_of-some (some (arr es)) t h = absurd (cc)
text_of-some (some (obj fs)) t h = absurd (cc)

-- an edit that the payload asks for, of the content of a file
record Planned (host : Host) (payload : Members) (path : String) (target : FilePath)
    (content : Text) (edit : Edit) : Type 0 where
  old : String
  new : String
  revision : String
  old_text : get_field payload "old_text" ≡ some (str old)
  new_text : get_field payload "new_text" ≡ some (str new)
  expected : get_field payload "expected_revision" ≡ some (str revision)
  current : host.digest content ≡ revision
  once : count_matches (codes old) content ≡ 1
  small : (byte_length (codes old) ≤ 4000) × (byte_length (codes new) ≤ 4000)
  whole : edit ≡ edit_of host path target (codes old) (codes new) content

fields_edit-Planned :
    (host : Host) (payload : Members) (path : String) (target : FilePath) (content : Text)
    (edit : Edit)
    → fields_edit host payload path target content ≡ ok edit
    → Planned host payload path target content edit
fields_edit-Planned host payload path target content edit h =
    let (old, o, h1) =
      ensure_some-ok (text_of (get_field payload "old_text")) missing_fields _ edit h in
    let (new, n, h2) =
      ensure_some-ok (text_of (get_field payload "new_text")) missing_fields _ edit h1 in
    let (revision, r, h3) =
      ensure_some-ok (text_of (get_field payload "expected_revision")) missing_fields _ edit h2 in
    let (_, h4) = ensure-ok (not (is_empty (codes old))) (failure "old_text_missing") _ edit h3 in
    let (small, h5) =
      ensure-ok (leb (byte_length (codes old)) 4000 && leb (byte_length (codes new)) 4000)
        (failure "mutation_text_too_large") _ edit h4 in
    let (same_revision, h6) =
      ensure-ok (host.digest content == revision) (stale_inspection path (host.digest content)) _
        edit h5 in
    let (_, h7) =
      ensure-ok (not (nat_eq (count_matches (codes old) content) 0)) (failure "old_text_missing") _
        edit h6 in
    let (once, h8) =
      ensure-ok (nat_eq (count_matches (codes old) content) 1) (failure "old_text_ambiguous") _ edit
        h7 in
    record {
      old = old;
      new = new;
      revision = revision;
      old_text = text_of-some _ old o;
      new_text = text_of-some _ new n;
      expected = text_of-some _ revision r;
      current = ground (eq_iff (host.digest content) revision, arith);
      once = ground arith;
      small = (ground arith, ground arith);
      whole = sym (ok-injective (edit_of host path target (codes old) (codes new) content) edit h8);
    }

-- a successful replacement
pub record Replaces (host : Host) (payload config : Members) (s t : Store) (r : Replacement)
    : Type 0 where
  pub workspace : FilePath
  pub target : FilePath
  pub content : Text
  pub reached : Reaches host s.files payload config workspace target content
  pub old : String
  pub new : String
  pub before : Text
  pub after : Text
  pub old_text : get_field payload "old_text" ≡ some (str old)
  pub new_text : get_field payload "new_text" ≡ some (str new)
  pub expected : get_field payload "expected_revision" ≡ some (str (host.digest content))
  pub once : count_matches (codes old) content ≡ 1
  pub small : (byte_length (codes old) ≤ 4000) × (byte_length (codes new) ≤ 4000)
  pub place : content ≡ before ++ (codes old ++ after)
  pub written : t.files ≡ put_file target (host.encode (before ++ (codes new ++ after))) s.files
  pub result : r.result_revision ≡ host.digest (before ++ (codes new ++ after))

module _ (host : Host) (payload config : Members) where
  planned_edit-Planned :
      (files : Files) (edit : Edit)
      → planned_edit host files payload config ≡ ok edit
      → (workspace : FilePath) × (target : FilePath) × (content : Text) × (path : String) × Reaches
          host files payload config workspace target content
        × Planned host payload path target content edit
  unfolding planned_edit
  planned_edit-Planned files edit h =
      let (workspace, w, h1) = ensure_some-ok (workspace_of host config) unavailable _ edit h in
      let (path, p, h2) =
        ensure_some-ok (relative_path (get_field payload "path")) invalid_path _ edit h1 in
      let (allowed, a, h3) = ensure_some-ok (allowed_roots config) invalid_roots _ edit h2 in
      let roots = map (resolved host workspace) allowed in
      let target = resolved host workspace path in
      let (_, h4) = ensure-ok (inner_roots workspace roots) invalid_roots _ edit h3 in
      let (inside, (root, granted, under), (content, raw, stored, reads, h5)) =
        readable-ok host files workspace roots target (fields_edit host payload path target) edit
          h4 in
      (
        workspace,
        target,
        content,
        path,
        record {
          configured = w;
          path = path;
          named = p;
          located = refl;
          inside = inside;
          allowed = allowed;
          roots = a;
          root = root;
          granted = granted;
          under = under;
          raw = raw;
          stored = stored;
          reads = reads;
        },
        fields_edit-Planned host payload path target content edit h5,
      )

  module _ (os : System) (s : Store) where
    swap_cases :
        (target : FilePath) (text : Text)
        → ((t : Store) × (swap host os target text s ≡ (t, false)) × (t.files ≡ s.files))
          ⊎ ((t : Store) × (swap host os target text s ≡ (t, true))
              × (t.files ≡ put_file target (host.encode text) s.files))
    swap_cases target text = elim (Bool-cases os.makes) [
      | inr e ↦ inl (s, rw e refl, refl)
      | inl e ↦ elim (Bool-cases (os.writes && os.replaces)) [
        | inl f ↦
            inr (
              record s { files = put_file target (host.encode text) s.files },
              rw (e, f) refl,
              refl,
            )
        | inr f ↦ elim (Bool-cases os.unlinks) [
          | inl g ↦ inl (s, rw (e, f, g) refl, refl)
          | inr g ↦ inl (record s { temporaries = target ∷ s.temporaries }, rw (e, f, g) refl, refl)
        ]
      ]
    ]

    edit_cases :
        (edit : Edit)
        → planned_edit host s.files payload config ≡ ok edit
        → (let (t, r) = swapped edit.report (swap host os edit.target edit.updated s) in
            ((f : Failure) × (r ≡ raised f) × (t.files ≡ s.files))
            ⊎ ((report : Replacement) × (r ≡ ok report) × Replaces host payload config s t report))
    edit_cases edit h = elim (swap_cases edit.target edit.updated) [
      | inl (t, e, f) ↦ rw e (inl (failure "replace_text_failed", refl, f))
      | inr (t, e, f) ↦
          let (workspace, target, content, path, reached, p) =
            planned_edit-Planned s.files edit h in
          let (before, after, place, r) =
            replaced_at (codes p.old) (codes p.new) content (let o = p.once in omega arith) in
          rw e (
            inr (
              edit.report,
              refl,
              record {
                workspace = workspace;
                target = target;
                content = content;
                reached = reached;
                old = p.old;
                new = p.new;
                before = before;
                after = after;
                old_text = p.old_text;
                new_text = p.new_text;
                expected = p.expected ∙ ap (λ z. some (str z)) (sym p.current);
                once = p.once;
                small = p.small;
                place = place;
                written =
                    f
                    ∙ ap (λ z. put_file z.target (host.encode z.updated) s.files) p.whole
                    ∙ ap (λ z. put_file target (host.encode z) s.files) r;
                result = ap (λ z. z.report.result_revision) p.whole ∙ ap host.digest r;
              },
            ))
    ]

  -- A replacement either fails, and then every file is as before, or replaces one file, the one that the request
  -- names, which lies below the workspace and below an allowed root: the text read from it had the
  -- expected revision and counted the old text once; its content becomes what writing leaves of that
  -- text with the new one where the old one stood; and the revision that is returned is the one of the
  -- text written, before the writing turns it into a content.
  pub replace_text-Replaces :
      (os : System) (s : Store)
      → (let (t, r) = replace_text host os payload config s in
          ((f : Failure) × (r ≡ raised f) × (t.files ≡ s.files))
          ⊎ ((report : Replacement) × (r ≡ ok report) × Replaces host payload config s t report))
  unfolding replace_text
  replace_text-Replaces os s = elim (Result-cases (planned_edit host s.files payload config)) [
    | inl (edit, e) ↦ rw (replace_text, e) (edit_cases os s edit e)
    | inr (f, e) ↦ rw (replace_text, e) (inl (f, refl, refl))
  ]
