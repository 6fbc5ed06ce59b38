-- ===== src/Releases/Planned.antt =====
-- What a plan offers.
use virtiz_ai.Common.{
  String, ◌≡◌, ◌⊎◌, inl, inr, Bool, true, none, some, List, [], ◌∷◌, arith, where_, first, All,
  Among, Among-where, first-Among, All-weaken, Among-All, Option-cases, Bool-cases, ap, Among-kept,
  first-none,
}
use mathlib.Core.Option.{some-injective}
use mathlib.Core.Path.{subst}
use virtiz_ai.Common.Sort.{Order, sort, IsSorted, sort-IsSorted, Among-sort, Among-sort-back}
use virtiz_ai.Releases.{
  Release, Updates, newest_first, on_channel, fits_policy, offers, candidates, plan_of, plan,
}

module _ {A : Type 0} (o : Order A) where
  where-IsSorted : (p : A → Bool) (xs : List A) → IsSorted o xs → IsSorted o (where_ p xs)
  where-IsSorted p [] h = tt
  where-IsSorted p (x ∷ xs) h = elim (Bool-cases (p x)) [
    | inl e ↦ rw e (All-kept xs h.0, where-IsSorted p xs h.1)
    | inr e ↦ rw e (where-IsSorted p xs h.1)
  ]
    where
      All-kept :
          (ys : List A) → All (λ y. o.le x y ≡ true) ys → All (λ y. o.le x y ≡ true) (where_ p ys)
      All-kept [] k = tt
      All-kept (y ∷ ys) k = elim (Bool-cases (p y)) [
        | inl e ↦ rw e (k.0, All-kept ys k.1)
        | inr e ↦ rw e (All-kept ys k.1)
      ]

  -- the first element that passes a test comes before every other that does
  first-least :
      (p : A → Bool) (xs : List A) (a : A)
      → IsSorted o xs
      → first p xs ≡ some a
      → All (λ x. p x ≡ true → o.le a x ≡ true) xs
  first-least p [] a s h = tt
  first-least p (x ∷ xs) a s h = elim (Bool-cases (p x)) [
    | inl e ↦
        let q : x ≡ a = some-injective x a (rw e at h) in
        subst (λ z. All (λ y. p y ≡ true → o.le z y ≡ true) (x ∷ xs)) q
          (
            λ _. ground (arith, o.total x x),
            All-weaken (λ y. o.le x y ≡ true) (λ y. p y ≡ true → o.le x y ≡ true) xs (λ y k _. k)
                s.0,
          )
    | inr e ↦ (λ k. absurd (cc (k, e)), first-least p xs a s.1 (rw e at h))
  ]

-- a release that the policy admits for the current version and that has an artifact for the platform
pub record Admitted (s : Updates) (current platform : String) (r : Release) : Type 0 where
  pub imported : Among r s.releases
  pub channel : on_channel s.policy r ≡ true
  pub policy : fits_policy s.policy current r ≡ true
  pub artifact : offers platform r ≡ true

module _ (current platform : String) (s : Updates) where
  candidate-Admitted :
      (r : Release)
      → Among r (candidates s current)
      → offers platform r ≡ true
      → Admitted s current platform r
  unfolding candidates
  candidate-Admitted r i h =
      let sorted = sort newest_first s.releases in
      let (j, fits) =
        Among-where (fits_policy s.policy current) r (where_ (on_channel s.policy) sorted) i in
      let (k, on) = Among-where (on_channel s.policy) r sorted j in
      record {
        imported = Among-sort-back newest_first r s.releases k;
        channel = on;
        policy = fits;
        artifact = h;
      }

  Admitted-candidate :
      (r : Release) → Admitted s current platform r → Among r (candidates s current)
  unfolding candidates
  Admitted-candidate r a =
      let sorted = sort newest_first s.releases in
      Among-kept (fits_policy s.policy current) r (where_ (on_channel s.policy) sorted)
        (Among-kept (on_channel s.policy) r sorted (Among-sort newest_first r s.releases a.imported)
          a.channel)
        a.policy

  candidates-IsSorted : IsSorted newest_first (candidates s current)
  unfolding candidates
  candidates-IsSorted =
      let o = newest_first in
      where-IsSorted o (fits_policy s.policy current) _
        (where-IsSorted o (on_channel s.policy) _ (sort-IsSorted o s.releases))

-- Either the plan names a release that is admitted, with an artifact for the platform, whose version is the
-- greatest in the order of texts among the admitted ones, and says that it is available exactly if
-- its version differs from the current one; or no imported release is admitted and the plan names none.
pub plan-Admitted :
    (current platform : String) (s : Updates)
    → ((r : Release) × Admitted s current platform r
        × (plan current platform s ≡ plan_of current platform (some r))
        × ((q : Release) → Admitted s current platform q → newest_first.le r q ≡ true))
      ⊎ ((plan current platform s ≡ plan_of current platform none)
          × ((q : Release) → ¬ Admitted s current platform q))
unfolding plan
plan-Admitted current platform s =
    let rows = candidates s current in
    elim (Option-cases (first (offers platform) rows)) [
      | inl e ↦ inr (
        ap (plan_of current platform) e,
        λ q a.
            first-none (offers platform) q rows e (Admitted-candidate current platform s q a)
              a.artifact,
      )
      | inr (r, e) ↦
          let (i, h) = first-Among (offers platform) r rows e in
          inl (
            r,
            candidate-Admitted current platform s r i h,
            ap (plan_of current platform) e,
            λ q a.
                Among-All (λ x. offers platform x ≡ true → newest_first.le r x ≡ true) q rows
                  (first-least newest_first (offers platform) rows r
                    (candidates-IsSorted current platform s) e)
                  (Admitted-candidate current platform s q a) a.artifact,
          )
    ]
