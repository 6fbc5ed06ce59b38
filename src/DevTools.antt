-- ===== src/DevTools.antt =====
-- virtizai_core/dev_tools.py: `DevelopmentToolsExecutor`, the worker that lists, reads and changes the files of a
-- workspace and runs its tests. This file: the workspace, the allowed roots and the test that confines a path.
-- The file system is a parameter, `Host`: what resolving a path, listing a folder and hashing a text give.
pub mod Discover
pub mod TestRuns
pub mod Execute
pub mod Confined
pub mod Targets
pub mod Applied
pub mod Apply
pub mod Planned
pub mod HunkLines
pub mod Patched
pub mod Patch
pub mod Replace
pub mod Replaced
pub mod Inspect
pub mod Inspected
pub mod Listed
pub mod Sample
use virtiz_ai.Common.{
  ℕ, zero, suc, String, ◌≡◌, refl, Bool, true, false, not, ◌&&◌, ◌||◌, Option, none, some, List, [],
  ◌∷◌, ◌++◌, ◌+◌, ap, if◌then◌else◌, nat_eq, ltb, any_of, Result, ok, raised, ◌==◌, eq_iff, sym,
  ◌∙◌, arith, ◌⊎◌, inl, inr, Bool-cases, Among,
}
use virtiz_ai.Common.Json.{
  Value, str, arr, obj, Members, end, Elements, no_more, element, get_field,
}
use virtiz_ai.Common.Orders.{codes}

-- the parts of an absolute path, without the anchor
abbrev pub FilePath : Type 0
FilePath = List String

-- a text as the sequence of its code points
abbrev pub Text : Type 0
Text = List ℕ

-- the content of a file
abbrev pub Bytes : Type 0
Bytes = List ℕ

-- the operating system: `Path(x).resolve()`, which may raise OSError; `(workspace / x).resolve()`; `is_dir`;
-- `rglob("*")`; SHA-256 in hexadecimal; what
-- `read_text(encoding="utf-8", errors="replace")` gives for a content, and the content that writing a text in
-- text mode leaves, where neither need undo the other; the digit that a code point is for `\d` and `int`
pub record Host : Type 0 where
  pub home : String → Option FilePath
  pub resolve : FilePath → Text → FilePath
  pub decimal : ℕ → Option ℕ
  pub is_dir : FilePath → Bool
  pub listing : FilePath → List FilePath
  pub digest : Text → String
  pub decode : Bytes → Text
  pub encode : Text → Bytes

-- why an operation failed: its `error_summary`, and for a stale inspection the path and the current revision
pub data Failure : Type 0 where
  failure : String → Failure
  stale_inspection : String → String → Failure
  -- the TypeError of a value that cannot be hashed or iterated, which is not caught
  type_error : Failure
  -- an OSError of the operating system that is not caught
  os_error : Failure

abbrev pub Outcome : Type 0 → Type 0
Outcome A = Result Failure A

-- `(workspace / x).resolve()`
abbrev pub resolved : Host → FilePath → String → FilePath
resolved host workspace x = host.resolve workspace (codes x)

-- `_config`, where the argument is what `json.loads` gives, none where it raises JSONDecodeError
abbrev pub config_of : Option Value → Members
config_of (some (obj fs)) = fs
config_of _ = end

abbrev pub nonempty_text : Option Value → Option String
nonempty_text (some (str s)) = if s == "" then none else some s
nonempty_text _ = none

abbrev is_directory : Host → Option FilePath → Option FilePath
is_directory host none = none
is_directory host (some p) = if host.is_dir p then some p else none

-- `_workspace`, and the test that it is a directory
abbrev pub workspace_of : Host → Members → Option FilePath
workspace_of host config = elim (nonempty_text (get_field config "workspace_path")) [
  | none ↦ none
  | some s ↦ is_directory host (host.home s)
]

-- `all(isinstance(root, str) for root in allowed_roots)`, with the texts
abbrev pub texts_of : Elements → Option (List String)
texts_of no_more = some []
texts_of (element (str s) vs) = elim (texts_of vs) [ none ↦ none | some ss ↦ some (s ∷ ss) ]
texts_of (element _ vs) = none

-- `config.get("allowed_roots", ["."])`, if it is a list of texts
abbrev pub allowed_roots : Members → Option (List String)
allowed_roots config = elim (get_field config "allowed_roots") [
  | none ↦ some ("." ∷ [])
  | some (arr es) ↦ texts_of es
  | some _ ↦ none
]

abbrev pub same : FilePath → FilePath → Bool
same [] [] = true
same [] (y ∷ ys) = false
same (x ∷ xs) [] = false
same (x ∷ xs) (y ∷ ys) = x == y && same xs ys

-- `x in y.parents`
abbrev pub is_parent : FilePath → FilePath → Bool
is_parent [] [] = false
is_parent [] (y ∷ ys) = true
is_parent (x ∷ xs) [] = false
is_parent (x ∷ xs) (y ∷ ys) = x == y && is_parent xs ys

-- `candidate == root or root in candidate.parents`
abbrev pub confined : FilePath → FilePath → Bool
confined root p = same p root || is_parent root p

-- `any(candidate == root or root in candidate.parents for root in roots)`
abbrev pub in_roots : List FilePath → FilePath → Bool
in_roots roots p = any_of (λ root. confined root p) roots

-- `Path(x).is_absolute()`
abbrev pub is_absolute : Text → Bool
is_absolute [] = false
is_absolute (c ∷ cs) = nat_eq c 47

-- `".." in Path(x).parts`: dots counted in the part that is being read, 3 for a part that is something else
abbrev pub has_dots : ℕ → Text → Bool
has_dots n [] = nat_eq n 2
has_dots n (c ∷ cs) =
    let rest =
      has_dots (if nat_eq c 47 then 0 else if nat_eq c 46 && ltb n 2 then suc n else 3) cs in
    if nat_eq c 47 then nat_eq n 2 || rest else rest

abbrev pub climbs : Text → Bool
climbs cs = has_dots 0 cs

-- the text of a payload that names a file below the workspace
abbrev pub relative_path : Option Value → Option String
relative_path v = elim (nonempty_text v) [
  | none ↦ none
  | some s ↦ if is_absolute (codes s) || climbs (codes s) then none else some s
]

-- the path is the root or lies below it
abbrev pub Below : FilePath → FilePath → Type 0
Below root p = (rest : FilePath) × (p ≡ root ++ rest)

same-Below : (root p : FilePath) → same p root ≡ true → Below root p
same-Below [] [] h = ([], refl)
same-Below [] (y ∷ ys) h = absurd (cc)
same-Below (x ∷ xs) [] h = absurd (cc)
same-Below (x ∷ xs) (y ∷ ys) h =
    let (rest, e) = same-Below xs ys (ground (arith)) in (rest, ground (arith, eq_iff y x))

pub is_parent-Below : (root p : FilePath) → is_parent root p ≡ true → Below root p
is_parent-Below [] [] h = absurd (cc)
is_parent-Below [] (y ∷ ys) h = (y ∷ ys, refl)
is_parent-Below (x ∷ xs) [] h = absurd (cc)
is_parent-Below (x ∷ xs) (y ∷ ys) h =
    let (rest, e) = is_parent-Below xs ys (ground (arith)) in (rest, ground (arith, eq_iff x y))

pub confined-Below : (root p : FilePath) → confined root p ≡ true → Below root p
confined-Below root p h = elim (Bool-cases (same p root)) [
  | inl e ↦ same-Below root p e
  | inr e ↦ is_parent-Below root p (rw e at h)
]

pub in_roots-Below :
    (roots : List FilePath) (p : FilePath)
    → in_roots roots p ≡ true
    → (root : FilePath) × Among root roots × Below root p
in_roots-Below [] p h = absurd (cc)
in_roots-Below (r ∷ rs) p h = elim (Bool-cases (confined r p)) [
  | inl e ↦ (r, inl refl, confined-Below r p e)
  | inr e ↦ let (root, i, b) = in_roots-Below rs p (rw e at h) in (root, inr i, b)
]
