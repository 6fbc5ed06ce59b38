-- ===== src/Routing/Selected.antt =====
-- What `capability_selection` guarantees of the targets that it calls eligible, and of the one it selects.
use virtiz_ai.Common.{
  ◌+◌, String, ◌≡◌, refl, ◌⊎◌, inl, inr, true, Option, none, some, List, [], ◌∷◌, arith, length,
  All, Among, All-weaken, ok-injective, bind-ok, both_ok, ok, head_or_none,
}
use mathlib.Core.Path.{subst}
use virtiz_ai.Common.Sort.{Order, sort, IsSorted, sort-IsSorted, All-sort, length-sort}
use virtiz_ai.Capability.{TaskRequirements}
use virtiz_ai.Routing.{Floats, Row}
use virtiz_ai.Routing.Selection.{
  Tier, Reason, Entry, Answer, Excluded, for_tier, reason_for, entry_of, sort_out, sorted_out,
  ranking, candidates, capability_selection, answer_of,
}
use virtiz_ai.Routing.Qualified.{Qualifies, reason_for-Qualifies}

module _ (floats : Floats) (tier : Tier) (q : TaskRequirements) where
  -- an entry of one of the rows, which qualifies
  abbrev pub IsEligible : List (Row floats.Float) → Entry floats.Float → Type 0
  IsEligible rows e =
      (r : Row floats.Float) × Among r rows × (entry_of floats r ≡ e) × Qualifies tier q r

  abbrev Lists : Type 0
  Lists = List (Entry floats.Float) × List (Excluded floats)

  abbrev IsSortedOut : List (Row floats.Float) → Lists → Type 0
  IsSortedOut rows l = All (IsEligible rows) l.0 × (length l.0 + length l.1 ≡ length rows)

  later :
      (r : Row floats.Float) (rows : List (Row floats.Float)) (es : List (Entry floats.Float))
      → All (IsEligible rows) es
      → All (IsEligible (r ∷ rows)) es
  later r rows es =
      All-weaken (IsEligible rows) (IsEligible (r ∷ rows)) es
        (λ e (s, among, same, fits). (s, inr among, same, fits))

  sorted_out-IsSortedOut :
      (r : Row floats.Float) (rows : List (Row floats.Float)) (reason : Option Reason) (l : Lists)
      → reason_for tier q r ≡ ok reason
      → IsSortedOut rows l
      → IsSortedOut (r ∷ rows) (sorted_out floats (entry_of floats r) reason l)
  sorted_out-IsSortedOut r rows none l e h = (
    ((r, inl refl, refl, reason_for-Qualifies tier q r e), later r rows l.0 h.0),
    omega (arith, h.1),
  )
  sorted_out-IsSortedOut r rows (some x) l e h = (later r rows l.0 h.0, omega (arith, h.1))

  sort_out-IsSortedOut :
      (rows : List (Row floats.Float)) (l : Lists)
      → sort_out floats tier q rows ≡ ok l
      → IsSortedOut rows l
  unfolding sort_out
  sort_out-IsSortedOut [] l h = subst (IsSortedOut []) (ok-injective ([], []) l h) (tt, omega arith)
  sort_out-IsSortedOut (r ∷ rs) l h =
      let (reason, rest, e, k, p) =
        both_ok (sorted_out floats (entry_of floats r)) (reason_for tier q r)
          (sort_out floats tier q rs) l h in
      subst (IsSortedOut (r ∷ rs)) p
        (sorted_out-IsSortedOut r rs reason rest e (sort_out-IsSortedOut rs rest k))

module _ (floats : Floats) (table : List (Row floats.Float)) (role_id : String)
    (requirements : TaskRequirements) (tier : Tier) where
  -- what is selected from the lists that the loop leaves
  from_lists :
      (a : Answer floats)
      → capability_selection floats table role_id requirements tier ≡ ok a
      → let q = for_tier tier requirements in
        (l : Lists floats tier q) × IsSortedOut floats tier q (candidates floats table role_id) l
        × (answer_of floats (sort (ranking floats q) l.0) l.1 ≡ a)
  unfolding capability_selection
  from_lists a h =
      let q = for_tier tier requirements in
      let (l, e, k) =
        bind-ok (sort_out floats tier q (candidates floats table role_id))
          (λ (l : Lists floats tier q). ok (answer_of floats (sort (ranking floats q) l.0) l.1)) a
          h in
      (
        l,
        sort_out-IsSortedOut floats tier q (candidates floats table role_id) l e,
        ok-injective (answer_of floats (sort (ranking floats q) l.0) l.1) a k,
      )

  -- When a selection returns, its eligible targets are in the order of the ranking, each of them is a target
  -- of one of the first 32 rows of the role and qualifies under the tier and the requirements as the tier
  -- changes them, and together with the excluded targets they are as many as those rows.
  pub capability_selection_sound :
      (a : Answer floats)
      → capability_selection floats table role_id requirements tier ≡ ok a
      → let q = for_tier tier requirements in
        IsSorted (ranking floats q) a.eligible
        × All (IsEligible floats tier q (candidates floats table role_id)) a.eligible
        × (length a.eligible + length a.excluded ≡ length (candidates floats table role_id))
  capability_selection_sound a h =
      let q = for_tier tier requirements in
      let o = ranking floats q in
      let (l, (fit, count), p) = from_lists a h in
      subst
        (λ (b : Answer floats).
          IsSorted o b.eligible
          × All (IsEligible floats tier q (candidates floats table role_id)) b.eligible
          × (length b.eligible + length b.excluded ≡ length (candidates floats table role_id)))
        p
        (
          sort-IsSorted o l.0,
          All-sort o (IsEligible floats tier q (candidates floats table role_id)) l.0 fit,
          omega (arith, length-sort o l.0, count),
        )

  best_of :
      (o : Order (Entry floats.Float)) (es : List (Entry floats.Float))
      → IsSorted o es
      → ((head_or_none es ≡ none) × (es ≡ []))
        ⊎ ((e : Entry floats.Float) × (head_or_none es ≡ some e) × All (λ x. o.le e x ≡ true) es)
  best_of o [] s = inl (refl, refl)
  best_of o (e ∷ es) s = inr (e, refl, (ground (arith, o.total e e), s.0))

  -- The target that a selection answers ranks at least as high as every eligible one, and it answers none
  -- only where no target is eligible.
  pub selected_best :
      (a : Answer floats)
      → capability_selection floats table role_id requirements tier ≡ ok a
      → ((a.selected ≡ none) × (a.eligible ≡ []))
        ⊎ ((e : Entry floats.Float) × (a.selected ≡ some e)
            × All (λ x. (ranking floats (for_tier tier requirements)).le e x ≡ true) a.eligible)
  selected_best a h =
      let q = for_tier tier requirements in
      let o = ranking floats q in
      let (l, fit, p) = from_lists a h in
      subst
        (λ (b : Answer floats).
          ((b.selected ≡ none) × (b.eligible ≡ []))
          ⊎ ((e : Entry floats.Float) × (b.selected ≡ some e)
              × All (λ x. o.le e x ≡ true) b.eligible))
        p (best_of o (sort o l.0) (sort-IsSorted o l.0))
