-- ===== src/Releases/Sound.antt =====
-- What every stored release and the stored policy satisfy.
use mathlib.Core.Path.{subst}
use virtiz_ai.Common.{
  String, ◌≡◌, refl, sym, ap, ◌⊎◌, inl, inr, Bool, true, false, not, Option, some, List, [], ◌∷◌,
  arith, where_, is_empty, All-weaken, All-where, mem, All, Bool-cases, Result, ok, raised, bind-ok,
  ok-injective, ensure-ok, ◌==◌, if_ind, ◌&&◌,
}
use virtiz_ai.Common.Sort.{IsSorted, sort-IsSorted}
use virtiz_ai.Common.Orders.{text_order}
use virtiz_ai.Common.Json.{Value, obj, str, arr, Members, get_field}
use virtiz_ai.Releases.{
  Release, Policy, Updates, UpdateError, channels, version_policies, missing, has_artifact_keys,
  has_sha_length, checked_channel, check_artifacts, artifacts_of, upsert, release_of, field_of,
  nullable, checked_release, imported, import_manifest, require, is_pinned, policy_of, set_policy,
  distinct,
}

-- an object with the three keys, whose digest has the length of a SHA-256 in hexadecimal
abbrev pub IsArtifact : Value → Type 0
IsArtifact (obj fs) =
    (has_artifact_keys fs ≡ true) × (has_sha_length (get_field fs "sha256") ≡ ok true)
IsArtifact _ = ⊥

abbrev pub IsCompleteAs : String → Members → Type 0
IsCompleteAs channel manifest =
    (mem channel channels ≡ true)
    × (is_empty (missing manifest) ≡ true)
    × (is_empty (artifacts_of manifest) ≡ false)
    × All IsArtifact (artifacts_of manifest)

abbrev pub IsComplete : Release → Type 0
IsComplete r = IsCompleteAs r.channel r.manifest

-- no two releases have the same version
abbrev pub IsUnique : List Release → Type 0
IsUnique [] = Unit
IsUnique (r ∷ rs) = All (λ q. (q.version == r.version) ≡ false) rs × IsUnique rs

abbrev pub IsSoundPolicy : Policy → Type 0
IsSoundPolicy p =
    (mem p.channel channels ≡ true)
    × (mem p.version_policy version_policies ≡ true)
    × (((p.version_policy == "pin_exact") ≡ false) ⊎ (is_pinned p.pinned_version ≡ true))
    × IsSorted text_order p.skipped_versions

abbrev pub IsSound : Updates → Type 0
IsSound s = All IsComplete s.releases × IsUnique s.releases × IsSoundPolicy s.policy

require-ok :
    (b : Result UpdateError Bool) (rest : Result UpdateError (Unit {0})) (u : Unit {0})
    → require b rest ≡ ok u
    → (b ≡ ok true) × (rest ≡ ok u)
require-ok (ok true) rest u h = (refl, h)
require-ok (ok false) rest u h = absurd (cc)
require-ok (raised e) rest u h = absurd (cc)

checked-IsArtifact :
    (vs : List Value) (u : Unit {0}) → check_artifacts vs ≡ ok u → All IsArtifact vs
unfolding check_artifacts
checked-IsArtifact [] u h = tt
checked-IsArtifact (obj fs ∷ vs) u h = elim (Bool-cases (has_artifact_keys fs)) [
  | inl e ↦
      let (sha, rest) = require-ok _ _ u (rw e at h) in ((e, sha), checked-IsArtifact vs u rest)
  | inr e ↦ absurd (cc (rw e at h))
]
checked-IsArtifact (_ ∷ vs) u h = absurd (cc)

checked_channel-mem :
    (v : Option Value) (c : String) → checked_channel v ≡ ok c → mem c channels ≡ true
checked_channel-mem (some (str s)) c h = elim (Bool-cases (mem s channels)) [
  | inl e ↦ subst (λ k. mem k channels ≡ true) (ok-injective s c (rw e at h)) e
  | inr e ↦ absurd (cc (rw e at h))
]
checked_channel-mem (some (arr es)) c h = absurd (cc)
checked_channel-mem (some (obj fs)) c h = absurd (cc)
checked_channel-mem _ c h = absurd (cc)

module _ (column : Value → Result UpdateError String) (digest : Members → String) where
  release_of-echo :
      (manifest : Members) (channel : String) (r : Release)
      → release_of column digest manifest channel ≡ ok r
      → (r.channel ≡ channel) × (r.manifest ≡ manifest)
  release_of-echo manifest channel r h =
      let (version, _, h1) = bind-ok (column (field_of manifest "version")) _ r h in
      let (url, _, h2) = bind-ok (column (field_of manifest "release_url")) _ r h1 in
      let (published, _, h3) =
        bind-ok (nullable column digest (get_field manifest "published_at")) _ r h2 in
      let same = ok-injective _ r h3 in
      (ap (λ (q : Release). q.channel) (sym same), ap (λ (q : Release). q.manifest) (sym same))

  checked_release-IsComplete :
      (manifest : Members) (r : Release)
      → checked_release column digest manifest ≡ ok r
      → IsComplete r
  unfolding checked_release
  checked_release-IsComplete manifest r h =
      let (all_there, h1) = ensure-ok _ _ _ r h in
      let (channel, c, h2) = bind-ok (checked_channel (get_field manifest "channel")) _ r h1 in
      let (some_artifact, h3) = ensure-ok _ _ _ r h2 in
      let (u, artifacts, h4) = bind-ok (check_artifacts (artifacts_of manifest)) _ r h3 in
      let (same_channel, same_manifest) = release_of-echo manifest channel r h4 in
      let on : mem channel channels ≡ true =
        checked_channel-mem (get_field manifest "channel") channel c in
      let all : All IsArtifact (artifacts_of manifest) =
        checked-IsArtifact (artifacts_of manifest) u artifacts in
      subst (λ k. IsCompleteAs k r.manifest) (sym same_channel)
        (subst (IsCompleteAs channel) (sym same_manifest)
          (on, all_there, ground (arith, some_artifact), all))

kept-All :
    (P : Release → Type 0) (p : Release → Bool) (rs : List Release) → All P rs → All P (where_ p rs)
kept-All P p [] h = tt
kept-All P p (r ∷ rs) h = elim (Bool-cases (p r)) [
  | inl e ↦ rw e (h.0, kept-All P p rs h.1)
  | inr e ↦ rw e (kept-All P p rs h.1)
]

where-IsUnique : (p : Release → Bool) (rs : List Release) → IsUnique rs → IsUnique (where_ p rs)
where-IsUnique p [] h = tt
where-IsUnique p (r ∷ rs) h = elim (Bool-cases (p r)) [
  | inl e ↦
      rw e (kept-All (λ q. (q.version == r.version) ≡ false) p rs h.0, where-IsUnique p rs h.1)
  | inr e ↦ rw e (where-IsUnique p rs h.1)
]

upsert-IsUnique : (r : Release) (rs : List Release) → IsUnique rs → IsUnique (upsert r rs)
upsert-IsUnique r rs h = (
  All-weaken (λ q. not (q.version == r.version) ≡ true) (λ q. (q.version == r.version) ≡ false) _
      (λ q e. ground arith) (All-where (λ (q : Release). not (q.version == r.version)) rs),
  where-IsUnique (λ (q : Release). not (q.version == r.version)) rs h,
)

policy_of-IsSoundPolicy :
    (channel version_policy : String) (pinned : Option String) (skipped : List String)
    → mem channel channels ≡ true
    → mem version_policy version_policies ≡ true
    → (version_policy == "pin_exact" && not (is_pinned pinned)) ≡ false
    → IsSoundPolicy (policy_of channel version_policy pinned skipped)
policy_of-IsSoundPolicy channel version_policy pinned skipped c v n = (
  c,
  v,
  pinned_or (version_policy == "pin_exact") (is_pinned pinned) n,
  sort-IsSorted text_order (distinct skipped),
)
  where
    pinned_or : (a b : Bool) → (a && not b) ≡ false → (a ≡ false) ⊎ (b ≡ true)
    pinned_or false b h = inl refl
    pinned_or true true h = inr refl
    pinned_or true false h = absurd (cc)

set_policy-IsSound :
    (channel version_policy : String) (pinned : Option String) (skipped : List String) (s : Updates)
    → IsSound s
    → IsSound (set_policy channel version_policy pinned skipped s).0
unfolding set_policy
set_policy-IsSound channel version_policy pinned skipped s h =
    let P : Updates × Result UpdateError Policy → Type 0 = λ q. IsSound q.0 in
    if_ind P (not (mem channel channels)) _ _ (λ _. h)
      (λ c.
        if_ind P (not (mem version_policy version_policies)) _ _ (λ _. h)
          (λ v.
            if_ind P (version_policy == "pin_exact" && not (is_pinned pinned)) _ _ (λ _. h)
              (λ n. (
                h.0,
                h.1,
                policy_of-IsSoundPolicy channel version_policy pinned skipped (not_false _ c)
                    (not_false _ v) n,
              ))))
  where
    not_false : (b : Bool) → not b ≡ false → b ≡ true
    not_false true e = refl
    not_false false e = absurd (cc)

-- a call of one of the two operations that write
pub data Request : Type 0 where
  importing : Members → Request
  choosing : String → String → Option String → List String → Request

module _ (column : Value → Result UpdateError String) (digest : Members → String) where
  abbrev pub requested : Request → Updates → Updates
  requested (importing manifest) s = (import_manifest column digest manifest s).0
  requested (choosing channel version_policy pinned skipped) s =
      (set_policy channel version_policy pinned skipped s).0

  abbrev pub all_requested : List Request → Updates → Updates
  all_requested [] s = s
  all_requested (q ∷ qs) s = all_requested qs (requested q s)

  imported-IsSound :
      (manifest : Members) (c : Result UpdateError Release) (s : Updates)
      → checked_release column digest manifest ≡ c
      → IsSound s
      → IsSound (imported column digest s c).0
  imported-IsSound manifest (raised e) s q h = h
  imported-IsSound manifest (ok r) s q h = (
    (
      checked_release-IsComplete column digest manifest r q,
      kept-All IsComplete (λ (p : Release). not (p.version == r.version)) s.releases h.0,
    ),
    upsert-IsUnique r s.releases h.1,
    h.2,
  )

  import_manifest-IsSound :
      (manifest : Members) (s : Updates)
      → IsSound s
      → IsSound (import_manifest column digest manifest s).0
  unfolding import_manifest
  import_manifest-IsSound manifest s h =
      imported-IsSound manifest (checked_release column digest manifest) s refl h

  -- Whatever manifests are imported and policies set, in whatever order and whether the calls return or raise:
  -- stored releases keep distinct versions, a known channel, all required fields and artifacts with a
  -- platform, an address and a digest of 64, and the policy keeps a known channel and kind, a pinned
  -- version where it pins one, and its skipped versions sorted.
  pub all_requested-IsSound :
      (qs : List Request) (s : Updates) → IsSound s → IsSound (all_requested qs s)
  all_requested-IsSound [] s h = h
  all_requested-IsSound (importing manifest ∷ qs) s h =
      all_requested-IsSound qs _ (import_manifest-IsSound manifest s h)
  all_requested-IsSound (choosing channel version_policy pinned skipped ∷ qs) s h =
      all_requested-IsSound qs _ (set_policy-IsSound channel version_policy pinned skipped s h)
