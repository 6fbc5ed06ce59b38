-- ===== src/Releases.antt =====
-- virtizai_core/registries.py: `UpdateManager`, which keeps the release manifests and the update policy and plans
-- an update. `json.dumps` with SHA-256 and the conversion that SQLite makes of a value bound to a TEXT column
-- are parameters; a `manifest_json` column is the object that reading it gives.
pub mod Planned
pub mod Sound
use Prim.Native.String.{count}
use virtiz_ai.Common.{
  ℕ, zero, suc, String, Bool, true, false, not, ◌&&◌, ◌||◌, Option, none, some, List, [], ◌∷◌, ◌++◌,
  if◌then◌else◌, nat_eq, first, where_, all_of, length, mem, is_some, is_empty, match_some, opt_is,
  ◌>>=◌, Result, ok, raised, ensure, ◌==◌,
}
use virtiz_ai.Common.Sort.{Order, by_key, sort}
use virtiz_ai.Common.Orders.{text_order, codes, is_prefix}
use virtiz_ai.Common.Json.{
  Value, null, str, arr, obj, Members, end, field, elements, Elements, get_field, is_text,
}

-- a row of `release_manifests`
pub record Release : Type 0 where
  pub version : String
  pub channel : String
  pub release_url : String
  pub manifest : Members
  pub manifest_sha256 : String
  pub published_at : Option String

-- the row of `update_policies`
pub record Policy : Type 0 where
  pub channel : String
  pub version_policy : String
  pub pinned_version : Option String
  pub skipped_versions : List String

pub record Updates : Type 0 where
  pub releases : List Release
  pub policy : Policy

-- the exceptions: the last three are those of Python and SQLite at values of another type
pub data UpdateError : Type 0 where
  manifest_missing : List String → UpdateError
  unsupported_channel no_artifact bad_artifact unsupported_policy pin_required : UpdateError
  attribute_error type_error binding_error : UpdateError

abbrev pub channels : List String
channels = "stable" ∷ "beta" ∷ "nightly" ∷ []

abbrev pub version_policies : List String
version_policies = "follow_channel" ∷ "stay_minor" ∷ "pin_exact" ∷ []

-- the required keys, sorted
abbrev pub required : List String
required =
    "artifacts" ∷ "channel" ∷ "release_url" ∷ "rollback_compatibility" ∷ "schema_compatibility"
    ∷ "version" ∷ []

abbrev pub has_key : Members → String → Bool
has_key fs k = is_some (get_field fs k)

abbrev pub missing : Members → List String
missing manifest = where_ (λ k. not (has_key manifest k)) required

-- `x in {...}`, which raises for a list and a dict
abbrev checked_channel : Option Value → Result UpdateError String
checked_channel (some (str s)) = if mem s channels then ok s else raised unsupported_channel
checked_channel (some (arr es)) = raised type_error
checked_channel (some (obj fs)) = raised type_error
checked_channel _ = raised unsupported_channel

abbrev count_members : Members → ℕ
count_members end = 0
count_members (field k v fs) = suc (count_members fs)

-- `len(x) != 64`, which raises for what has no length
abbrev has_sha_length : Option Value → Result UpdateError Bool
has_sha_length (some (str s)) = ok (nat_eq (count s) 64)
has_sha_length (some (arr es)) = ok (nat_eq (length (elements es)) 64)
has_sha_length (some (obj fs)) = ok (nat_eq (count_members fs) 64)
has_sha_length _ = raised type_error

abbrev require :
    Result UpdateError Bool → Result UpdateError (Unit {0}) → Result UpdateError (Unit {0})
require (ok true) rest = rest
require (ok false) rest = raised bad_artifact
require (raised e) rest = raised e

abbrev pub has_artifact_keys : Members → Bool
has_artifact_keys fs = has_key fs "platform" && has_key fs "url" && has_key fs "sha256"

-- the loop over the artifacts
unfoldable pub check_artifacts : List Value → Result UpdateError (Unit {0})
check_artifacts [] = ok tt
check_artifacts (obj fs ∷ vs) =
    let rest = check_artifacts vs in
    if has_artifact_keys fs
    then require (has_sha_length (get_field fs "sha256")) rest
    else raised bad_artifact
check_artifacts (_ ∷ vs) = raised attribute_error

abbrev pub artifacts_of : Members → List Value
artifacts_of manifest = elim (get_field manifest "artifacts") [
  | some (arr es) ↦ elements es
  | _ ↦ []
]

-- ON CONFLICT(version) DO UPDATE
abbrev pub upsert : Release → List Release → List Release
upsert r rs = r ∷ where_ (λ q. not (q.version == r.version)) rs

abbrev field_of : Members → String → Value
field_of manifest k = match_some (get_field manifest k) null (λ v. v)

module _ (column : Value → Result UpdateError String) (digest : Members → String) where
  -- a nullable column
  abbrev nullable : Option Value → Result UpdateError (Option String)
  nullable none = ok none
  nullable (some null) = ok none
  nullable (some v) = column v >>= λ s. ok (some s)

  -- the row that the INSERT binds
  abbrev pub release_of : Members → String → Result UpdateError Release
  release_of manifest channel = column (field_of manifest "version") >>= λ version.
      column (field_of manifest "release_url") >>= λ url.
      nullable (get_field manifest "published_at") >>= λ published. ok (record {
        version = version;
        channel = channel;
        release_url = url;
        manifest = manifest;
        manifest_sha256 = digest manifest;
        published_at = published;
      })

  -- the tests and the row, before the INSERT
  unfoldable pub checked_release : Members → Result UpdateError Release
  unfolding check_artifacts
  checked_release manifest =
      ensure (is_empty (missing manifest)) (manifest_missing (missing manifest)) (
        checked_channel (get_field manifest "channel") >>= λ channel.
        ensure (not (is_empty (artifacts_of manifest))) no_artifact
          (check_artifacts (artifacts_of manifest) >>= λ _. release_of manifest channel))

  abbrev imported : Updates → Result UpdateError Release → Updates × Result UpdateError Release
  imported s (ok r) = (record s { releases = upsert r s.releases }, ok r)
  imported s (raised e) = (s, raised e)

  unfoldable pub import_manifest : Members → Updates → Updates × Result UpdateError Release
  unfolding checked_release
  import_manifest manifest s = imported s (checked_release manifest)

-- `set(xs)`
abbrev pub distinct : List String → List String
distinct [] = []
distinct (x ∷ xs) = let rest = distinct xs in if mem x xs then rest else x ∷ rest

abbrev pub is_pinned : Option String → Bool
is_pinned none = false
is_pinned (some v) = if v == "" then false else true

abbrev pub policy_of : String → String → Option String → List String → Policy
policy_of channel version_policy pinned skipped = record {
  channel = channel;
  version_policy = version_policy;
  pinned_version = pinned;
  skipped_versions = sort text_order (distinct skipped);
}

unfoldable pub set_policy :
    String → String → Option String → List String → Updates → Updates × Result UpdateError Policy
set_policy channel version_policy pinned skipped s =
    if not (mem channel channels)
    then (s, raised unsupported_channel)
    else if not (mem version_policy version_policies)
    then (s, raised unsupported_policy)
    else if version_policy == "pin_exact" && not (is_pinned pinned)
    then (s, raised pin_required)
    else (
      record s { policy = policy_of channel version_policy pinned skipped },
      ok (policy_of channel version_policy pinned skipped),
    )

-- ORDER BY version DESC
abbrev pub newest_first : Order Release
newest_first = record {
  le = λ a b. text_order.le b.version a.version;
  total = λ a b. text_order.total b.version a.version;
  trans = λ a b c h k. text_order.trans c.version b.version a.version k h;
}

-- the code points up to the second dot, and a dot
abbrev up_to_dot : ℕ → List ℕ → List ℕ
up_to_dot n [] = []
up_to_dot n (c ∷ cs) =
    if nat_eq c 46 then elim n [ zero ↦ [] | suc k ↦ c ∷ up_to_dot k cs ] else c ∷ up_to_dot n cs

-- `".".join(current_version.split(".")[:2]) + "."`
abbrev pub minor_prefix : String → List ℕ
minor_prefix current = up_to_dot 1 (codes current) ++ (46 ∷ [])

abbrev pub on_channel : Policy → Release → Bool
on_channel p r = r.channel == p.channel && not (mem r.version p.skipped_versions)

abbrev pub fits_policy : Policy → String → Release → Bool
fits_policy p current r =
    if p.version_policy == "pin_exact"
    then opt_is p.pinned_version r.version
    else if p.version_policy == "stay_minor"
    then is_prefix (minor_prefix current) (codes r.version)
    else true

abbrev for_platform : String → Value → Bool
for_platform platform (obj fs) =
    match_some (get_field fs "platform") false (λ v. is_text v platform)
for_platform platform _ = false

abbrev pub artifact_for : String → Release → Option Value
artifact_for platform r = first (for_platform platform) (artifacts_of r.manifest)

abbrev pub offers : String → Release → Bool
offers platform r = is_some (artifact_for platform r)

unfoldable pub candidates : Updates → String → List Release
candidates s current =
    where_ (fits_policy s.policy current)
      (where_ (on_channel s.policy) (sort newest_first s.releases))

pub record Plan : Type 0 where
  pub available : Bool
  pub release : Option Release
  pub artifact : Option Value

abbrev pub plan_of : String → String → Option Release → Plan
plan_of current platform none = record { available = false; release = none; artifact = none }
plan_of current platform (some r) = record {
  available = not (r.version == current);
  release = some r;
  artifact = artifact_for platform r;
}

unfoldable pub plan : String → String → Updates → Plan
unfolding candidates
plan current platform s = plan_of current platform (first (offers platform) (candidates s current))
