-- ===== src/DevTools/Discover.antt =====
-- virtizai_core/dev_tools.py: `_list_files` and `_discover_files`, which samples the files below the allowed roots.
-- A list of candidates from its position on stands for the list and the position; `seen` is the set of the
-- elements of the result.
use Prim.Native.String
use virtiz_ai.Common.{
  ℕ, zero, suc, String, Bool, true, false, not, ◌&&◌, ◌||◌, Option, none, some, List, [], ◌∷◌, ◌++◌,
  if◌then◌else◌, nat_eq, ltb, leb, any_of, take, length, mem, ok, raised, ensure, ensure_some,
  ◌>>=◌, ◌==◌, map, ◌+◌,
}
use virtiz_ai.Common.Sort.{sort}
use virtiz_ai.Common.Json.{Members, end, field}
use virtiz_ai.Common.Orders.{codes, text_order}
use virtiz_ai.DevTools.{
  FilePath, Text, Host, Failure, failure, Outcome, workspace_of, allowed_roots, same, is_parent,
  resolved,
}

abbrev pub excluded_dirs : List String
excluded_dirs = "__pycache__" ∷ ".git" ∷ ".svn" ∷ ".hg" ∷ []

-- `candidate.relative_to(workspace)`, none where it raises ValueError
abbrev pub relative_to : FilePath → FilePath → Option FilePath
relative_to [] p = some p
relative_to (x ∷ xs) [] = none
relative_to (x ∷ xs) (y ∷ ys) = if x == y then relative_to xs ys else none

abbrev pub name_of : FilePath → String
name_of [] = ""
name_of (x ∷ []) = x
name_of (x ∷ y ∷ ys) = name_of (y ∷ ys)

abbrev lower : ℕ → ℕ
lower c = if leb 65 c && leb c 90 then c + 32 else c

-- the text from the last dot on, if there is one
abbrev from_dot : Text → Option Text
from_dot [] = none
from_dot (c ∷ cs) = elim (from_dot cs) [
  | some s ↦ some s
  | none ↦ if nat_eq c 46 then some (c ∷ cs) else none
]

-- `candidate.suffix.lower()`: neither a name's first dot nor its last character begins a suffix
abbrev pub suffix_of : Text → Text
suffix_of [] = []
suffix_of (c ∷ cs) = elim (from_dot cs) [ none ↦ [] | some (d ∷ []) ↦ [] | some s ↦ map lower s ]

abbrev texts_eq : Text → Text → Bool
texts_eq [] [] = true
texts_eq [] (y ∷ ys) = false
texts_eq (x ∷ xs) [] = false
texts_eq (x ∷ xs) (y ∷ ys) = nat_eq x y && texts_eq xs ys

abbrev pub has_excluded_suffix : String → Bool
has_excluded_suffix name =
    texts_eq (suffix_of (codes name)) (codes ".pyc")
    || texts_eq (suffix_of (codes name)) (codes ".pyo")

abbrev is_hidden : Text → Bool
is_hidden [] = false
is_hidden (c ∷ cs) = nat_eq c 46

-- the tests on one candidate that is a file
abbrev pub is_listed : FilePath → Bool
is_listed relative =
    not (any_of (λ part. mem part excluded_dirs) relative)
    && not (has_excluded_suffix (name_of relative))
    && not (is_hidden (codes (name_of relative)))

abbrev slashed : String → FilePath → String
slashed x [] = x
slashed x (y ∷ ys) = slashed (Prim.Native.String.◌++◌ x (Prim.Native.String.◌++◌ "/" y)) ys

-- `str(relative)`
abbrev pub shown : FilePath → String
shown [] = "."
shown (x ∷ xs) = slashed x xs

-- `sorted(set(xs))` before it is sorted
unfoldable pub distinct : List String → List String
distinct [] = []
distinct (x ∷ xs) = let rest = distinct xs in if mem x xs then rest else x ∷ rest

abbrev pub escapes : Failure
escapes = failure "Environment allowed roots are invalid"

module _ (host : Host) (is_file : FilePath → Bool) (workspace : FilePath) where
  -- the loop over `raw_candidates`
  abbrev pub listed : List FilePath → Outcome (List String)
  listed [] = ok []
  listed (p ∷ ps) =
      let rest = listed ps in
      if is_file p
      then ensure_some (relative_to workspace p) escapes (λ relative.
        rest >>= λ names. ok (if is_listed relative then shown relative ∷ names else names))
      else rest

  abbrev pub raw_candidates : FilePath → List FilePath
  raw_candidates root =
      if is_file root then root ∷ [] else if host.is_dir root then host.listing root else []

  -- the candidates of one root
  abbrev pub candidates : String → Outcome (List String)
  candidates raw_root =
      let root = resolved host workspace raw_root in
      ensure (is_parent workspace root || same root workspace) escapes
        (listed (raw_candidates root) >>= λ names. ok (sort text_order (distinct names)))

  -- the loop over the roots
  abbrev pub per_root : List String → Outcome (List (List String))
  per_root [] = ok []
  per_root (r ∷ rs) = candidates r >>= λ names. per_root rs >>= λ others. ok (names ∷ others)

-- `while position < len(candidates) and candidates[position] in seen: position += 1`
unfoldable pub skip : List String → List String → List String
skip seen [] = []
skip seen (c ∷ cs) = let rest = skip seen cs in if mem c seen then rest else c ∷ cs

-- where a pass over the roots leaves the positions and the result, and whether it has added a file
pub record Pass : Type 0 where
  pub queues : List (List String)
  pub result : List String
  pub added : Bool

abbrev pub passed : List String → Bool → Pass → Pass
passed queue added p = record {
  queues = queue ∷ p.queues;
  result = p.result;
  added = added || p.added;
}

-- the body of the `while` loop: the `for` loop over the roots, with its break
unfoldable pub round : ℕ → List (List String) → List String → Pass
unfolding skip
round limit [] result = record { queues = []; result = result; added = false }
round limit (queue ∷ queues) result = elim (skip result queue) [
  | [] ↦ passed [] false (round limit queues result)
  | c ∷ cs ↦ elim (leb limit (length (result ++ (c ∷ [])))) [
    | true ↦ record { queues = cs ∷ queues; result = result ++ (c ∷ []); added = true }
    | false ↦ passed cs true (round limit queues (result ++ (c ∷ [])))
  ]
]

-- `while len(result) < limit`, none where the fuel runs out
unfoldable pub sampled : ℕ → ℕ → List (List String) → List String → Option (List String)
unfolding round
sampled zero limit queues result = none
sampled (suc fuel) limit queues result = elim (ltb (length result) limit) [
  | false ↦ some result
  | true ↦
      let p = round limit queues result in
      elim p.added [ false ↦ some p.result | true ↦ sampled fuel limit p.queues p.result ]
]

abbrev pub joined : List (List String) → List String
joined [] = []
joined (xs ∷ xss) = xs ++ joined xss

-- `total_unique`
abbrev pub total : List (List String) → List String
total queues = distinct (joined queues)

-- the files, and whether some candidate is left out
unfoldable pub fair : ℕ → List (List String) → Option (List String × Bool)
unfolding sampled distinct
fair limit queues = elim (sampled (suc limit) limit queues []) [
  | none ↦ none
  | some files ↦ some (files, ltb (length files) (length (total queues)))
]

-- an endless loop has no outcome
abbrev pub returned : {A : Type 0} → Option A → Option (Outcome A)
returned none = none
returned (some a) = some (ok a)

unfoldable pub discover_files :
    Host → (FilePath → Bool) → FilePath → List String → ℕ → Option (Outcome (List String × Bool))
unfolding fair
discover_files host is_file workspace roots limit =
    elim (per_root host is_file workspace (take 8 roots)) [
      | raised e ↦ some (raised e)
      | ok queues ↦ returned (fair limit queues)
    ]

-- `_list_files` for a payload, a configuration and the files that there are
unfoldable pub list_files :
    Host → (FilePath → Bool) → Members → Members → Option (Outcome (List String × Bool))
unfolding discover_files
list_files host is_file payload config = elim payload [
  | field k v fs ↦ some (raised (failure "list_files does not accept arguments"))
  | end ↦ elim (workspace_of host config) [
    | none ↦ some (raised (failure "Environment workspace is unavailable"))
    | some workspace ↦ elim (allowed_roots config) [
      | none ↦ some (raised escapes)
      | some roots ↦ discover_files host is_file workspace roots 80
    ]
  ]
]
