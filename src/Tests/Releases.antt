-- ===== src/Tests/Releases.antt =====
-- Releases, the policy and a plan at concrete inputs.
use virtiz_ai.Common.{
  String, ◌≡◌, refl, ◌⊎◌, inl, true, none, some, List, [], ◌∷◌, Result, ok, raised,
}
use virtiz_ai.Common.Sort.{sort, insert}
use virtiz_ai.Common.Json.{Value, str, arr, obj, Members, end, field, no_more, element}
use virtiz_ai.Releases.{
  Release, Updates, UpdateError, newest_first, plan, plan_of, import_manifest, checked_release,
  check_artifacts, candidates,
}
use virtiz_ai.Releases.Planned.{Admitted, plan-Admitted}
use virtiz_ai.Releases.Sound.{
  Request, importing, choosing, IsSound, all_requested, all_requested-IsSound,
}

abbrev sha : String
sha = "0123456789abcdef0123456789abcdef0123456789abcdef0123456789abcdef"

abbrev artifact : Value
artifact =
    obj (field "platform" (str "linux") (field "url" (str "u") (field "sha256" (str sha) end)))

abbrev manifest : String → Members
manifest version = field "version" (str version) (
    field "channel" (str "stable") (
      field "release_url" (str "r") (
        field "artifacts" (arr (element artifact no_more))
          (field "schema_compatibility" (str "1") (field "rollback_compatibility" (str "1") end)))))

-- a column that stores texts only
abbrev text_column : Value → Result UpdateError String
text_column (str s) = ok s
text_column _ = raised UpdateError.binding_error

abbrev digest : Members → String
digest m = sha

abbrev installed : Updates
installed = record {
  releases = [];
  policy = record {
    channel = "stable";
    version_policy = "stay_minor";
    pinned_version = none;
    skipped_versions = [];
  };
}

abbrev requests : List Request
requests =
    importing (manifest "1.2.0")
    ∷ importing (manifest "1.2.1")
    ∷ importing (manifest "1.3.0")
    ∷ importing end
    ∷ choosing "stable" "stay_minor" none ("9" ∷ "1" ∷ "9" ∷ [])
    ∷ []

abbrev later : Updates
later = all_requested text_column digest requests installed

planned :
    (plan "1.2.0" "linux" (
      all_requested text_column digest
        (importing (manifest "1.2.0")
          ∷ importing (manifest "1.2.1")
          ∷ importing (manifest "1.3.0")
          ∷ [])
        installed)).artifact
    ≡ some artifact
unfolding plan candidates import_manifest checked_release check_artifacts sort insert
planned = refl

all_requested-IsSound_example : IsSound (all_requested text_column digest requests installed)
all_requested-IsSound_example =
    all_requested-IsSound text_column digest requests installed (tt, tt, (refl, refl, inl refl, tt))

plan-Admitted_example :
    ((r : Release) × Admitted later "1.2.0" "linux" r
      × (plan "1.2.0" "linux" later ≡ plan_of "1.2.0" "linux" (some r))
      × ((q : Release) → Admitted later "1.2.0" "linux" q → newest_first.le r q ≡ true))
    ⊎ ((plan "1.2.0" "linux" later ≡ plan_of "1.2.0" "linux" none)
        × ((q : Release) → ¬ Admitted later "1.2.0" "linux" q))
plan-Admitted_example = plan-Admitted "1.2.0" "linux" later
