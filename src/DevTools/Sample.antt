-- ===== src/DevTools/Sample.antt =====
-- The files that `_discover_files` returns: without duplicates, no more than the limit, and all of the
-- candidates if the listing is not truncated.
use virtiz_ai.Common.{
  ℕ, zero, suc, String, ◌≡◌, refl, sym, ◌⊎◌, inl, inr, Bool, true, false, ◌||◌, some, List, [], ◌∷◌,
  ◌++◌, ◌+◌, ◌≤◌, ◌<◌, arith, length, mem, eq_iff, Bool-cases, List-cases, ap, ◌∙◌, leb, ltb,
  length-append,
}
use mathlib.Core.Path.{subst}
use virtiz_ai.Common.Distinct.{
  Distinct, Subset, mem-append, Distinct-snoc, length-Subset, Subset-back,
}
use virtiz_ai.DevTools.Discover.{skip, Pass, passed, round, sampled, joined, total, fair, distinct}

distinct-mem : (k : String) (xs : List String) → mem k (distinct xs) ≡ mem k xs
unfolding distinct
distinct-mem k [] = refl
distinct-mem k (x ∷ xs) = ground (arith, distinct-mem k xs, eq_iff x k)

distinct-Distinct : (xs : List String) → Distinct (distinct xs)
unfolding distinct
distinct-Distinct [] = tt
distinct-Distinct (x ∷ xs) = elim (Bool-cases (mem x xs)) [
  | inl e ↦ rw e (distinct-Distinct xs)
  | inr e ↦ rw e (distinct-mem x xs ∙ e, distinct-Distinct xs)
]

-- an element of the list from its position on has been seen, or is in what is left after the skipping
skip-mem :
    (seen queue : List String) (k : String)
    → (mem k seen || mem k (skip seen queue)) ≡ (mem k seen || mem k queue)
unfolding skip
skip-mem seen [] k = refl
skip-mem seen (c ∷ cs) k = ground (arith, skip-mem seen cs k, eq_iff c k)

skip-head :
    (seen queue : List String) (c : String) (cs : List String)
    → skip seen queue ≡ c ∷ cs
    → mem c seen ≡ false
unfolding skip
skip-head seen [] c cs h = absurd (cc)
skip-head seen (q ∷ qs) c cs h = elim (Bool-cases (mem q seen)) [
  | inl e ↦ skip-head seen qs c cs (rw e at h)
  | inr e ↦
      let k = rw e at h in let same_head : q ≡ c = cc in sym (ap (λ z. mem z seen) same_head) ∙ e
]

-- a file of the result or of the lists
abbrev either : String → List String → List (List String) → Bool
either k result queues = mem k result || mem k (joined queues)

-- what a pass does
record Advances (limit : ℕ) (queues : List (List String)) (result : List String) (p : Pass)
    : Type 0 where
  once : Distinct result → Distinct p.result
  few : length result < limit → length p.result ≤ limit
  longer : length result ≤ length p.result
  more : p.added ≡ true → length result < length p.result
  same_files : (k : String) → either k p.result p.queues ≡ either k result queues
  idle : p.added ≡ false → (joined p.queues ≡ []) × (p.result ≡ result)

-- how a pass goes, by what is left of the first list and whether the limit is reached
module _ (limit : ℕ) (queue : List String) (queues : List (List String))
    (result : List String) where
  round-over :
      skip result queue ≡ []
      → round limit (queue ∷ queues) result ≡ passed [] false (round limit queues result)
  unfolding round
  round-over e = rw (round, e) refl

  module _ (c : String) (cs : List String) (e : skip result queue ≡ c ∷ cs) where
    abbrev longer : List String
    longer = result ++ (c ∷ [])

    round-full :
        leb limit (length longer) ≡ true
        → round limit (queue ∷ queues) result
          ≡ record { queues = cs ∷ queues; result = longer; added = true }
    unfolding round
    round-full h = rw (round, e, h) refl

    round-more :
        leb limit (length longer) ≡ false
        → round limit (queue ∷ queues) result ≡ passed cs true (round limit queues longer)
    unfolding round
    round-more h = rw (round, e, h) refl

round-Advances :
    (limit : ℕ) (queues : List (List String)) (result : List String)
    → Advances limit queues result (round limit queues result)
unfolding round
round-Advances limit [] result = record {
  once = λ d. d;
  few = λ h. omega arith;
  longer = omega arith;
  more = λ h. absurd (cc);
  same_files = λ k. refl;
  idle = λ h. (refl, refl);
}
round-Advances limit (queue ∷ queues) result = elim (List-cases (skip result queue)) [
  | inl e ↦
      let rest = round-Advances limit queues result in
      subst (Advances limit (queue ∷ queues) result) (sym (round-over limit queue queues result e))
        (record {
          once = rest.once;
          few = rest.few;
          longer = rest.longer;
          more = rest.more;
          same_files = λ k.
              let s = skip-mem result queue k in
              let t = rw e at s in
              let u = rest.same_files k in ground (arith, mem-append k queue (joined queues));
          idle = rest.idle;
        })
  | inr (c, cs, e) ↦ elim (Bool-cases (leb limit (length (result ++ (c ∷ []))))) [
    | inl h ↦
        subst (Advances limit (queue ∷ queues) result)
          (sym (round-full limit queue queues result c cs e h))
          (record {
            once = λ d. Distinct-snoc result c d (skip-head result queue c cs e);
            few = λ l. let grown = length-append result (c ∷ []) in omega arith;
            longer = let grown = length-append result (c ∷ []) in omega arith;
            more = λ _. let grown = length-append result (c ∷ []) in omega arith;
            same_files = λ k.
                let s = skip-mem result queue k in
                let t = rw e at s in
                ground (
                  arith,
                  mem-append k queue (joined queues),
                  mem-append k cs (joined queues),
                  mem-append k result (c ∷ []),
                );
            idle = λ x. absurd (cc);
          })
    | inr h ↦
        let rest = round-Advances limit queues (result ++ (c ∷ [])) in
        subst (Advances limit (queue ∷ queues) result)
          (sym (round-more limit queue queues result c cs e h))
          (record {
            once = λ d. rest.once (Distinct-snoc result c d (skip-head result queue c cs e));
            few = λ l. rest.few (ground arith);
            longer =
                let grown = length-append result (c ∷ []) in let more = rest.longer in omega arith;
            more = λ _.
                let grown = length-append result (c ∷ []) in let more = rest.longer in omega arith;
            same_files = λ k.
                let s = skip-mem result queue k in
                let t = rw e at s in
                let u = rest.same_files k in
                ground (
                  arith,
                  mem-append k queue (joined queues),
                  mem-append k cs (joined (round limit queues (result ++ (c ∷ []))).queues),
                  mem-append k result (c ∷ []),
                );
            idle = λ x. absurd (cc);
          })
  ]
]

-- What the listing returns for the candidates `all`: no file twice, at most `limit`, candidates only; every one
-- of them if it is not truncated; and if it is, exactly `limit` files, with a candidate left out.
pub record IsSample (limit : ℕ) (all files : List String) (truncated : Bool) : Type 0 where
  pub once : Distinct files
  pub few : length files ≤ limit
  pub taken : Subset files all
  pub whole : truncated ≡ false → Subset all files
  pub full : truncated ≡ true → limit ≤ length files
  pub cut : truncated ≡ true → length files < length (distinct all)

-- a result to which nothing can be added any more: the limit is reached, or the lists hold nothing else
record IsDone (limit : ℕ) (all files : List String) : Type 0 where
  once : Distinct files
  few : length files ≤ limit
  taken : Subset files all
  stop : (limit ≤ length files) ⊎ Subset all files

module _ (fuel limit : ℕ) (queues : List (List String)) (result : List String) where
  sampled-full :
      ltb (length result) limit ≡ false → sampled (suc fuel) limit queues result ≡ some result
  unfolding sampled
  sampled-full e = rw (sampled, e) refl

  sampled-idle :
      ltb (length result) limit ≡ true
      → (round limit queues result).added ≡ false
      → sampled (suc fuel) limit queues result ≡ some (round limit queues result).result
  unfolding sampled
  sampled-idle e f = rw (sampled, e, f) refl

  sampled-on :
      ltb (length result) limit ≡ true
      → (round limit queues result).added ≡ true
      → sampled (suc fuel) limit queues result
        ≡ sampled fuel limit (round limit queues result).queues (round limit queues result).result
  unfolding sampled
  sampled-on e f = rw (sampled, e, f) refl

sampled-IsDone :
    (fuel limit : ℕ) (all : List String) (queues : List (List String)) (result : List String)
    → limit < fuel + length result
    → Distinct result
    → length result ≤ limit
    → ((k : String) → either k result queues ≡ mem k all)
    → (files : List String) × (sampled fuel limit queues result ≡ some files)
      × IsDone limit all files
sampled-IsDone zero limit all queues result h d l s = absurd (omega arith)
sampled-IsDone (suc fuel) limit all queues result h d l s =
    elim (Bool-cases (ltb (length result) limit)) [
      | inr e ↦ (
        result,
        sampled-full fuel limit queues result e,
        record {
          once = d;
          few = l;
          taken = λ k i. sym (s k) ∙ ground (arith);
          stop = inl (ground (arith));
        },
      )
      | inl e ↦
          let p = round limit queues result in
          let a = round-Advances limit queues result in
          elim (Bool-cases p.added) [
            | inl f ↦
                let more = a.more f in
                let (files, r, done) =
                  sampled-IsDone fuel limit all p.queues p.result (omega arith) (a.once d)
                    (a.few (ground (arith))) (λ k. a.same_files k ∙ s k) in
                (files, sampled-on fuel limit queues result e f ∙ r, done)
            | inr f ↦ (
              p.result,
              sampled-idle fuel limit queues result e f,
              record {
                once = a.once d;
                few = a.few (ground (arith));
                taken = λ k i. sym (s k) ∙ sym (a.same_files k) ∙ ground (arith);
                stop = inr (λ k i.
                    let t = a.same_files k ∙ s k ∙ i in
                    let nothing_left = ap (mem k) (a.idle f).0 in ground (arith));
              },
            )
          ]
    ]

fair-some :
    (limit : ℕ) (queues : List (List String)) (files : List String)
    → sampled (suc limit) limit queues [] ≡ some files
    → fair limit queues ≡ some (files, ltb (length files) (length (total queues)))
unfolding fair
fair-some limit queues files e = rw (fair, e) refl

-- the sampling of the lists of candidates always ends, and what it returns is a sample of them
pub fair-IsSample :
    (limit : ℕ) (queues : List (List String))
    → (files : List String) × (truncated : Bool) × (fair limit queues ≡ some (files, truncated))
      × IsSample limit (joined queues) files truncated
fair-IsSample limit queues =
    let all = joined queues in
    let (files, e, done) =
      sampled-IsDone (suc limit) limit all queues [] (omega arith) tt (omega arith) (λ k. refl) in
    let within : Subset files (distinct all) = λ k i. distinct-mem k all ∙ done.taken k i in
    (
      files,
      ltb (length files) (length (total queues)),
      fair-some limit queues files e,
      record {
        once = done.once;
        few = done.few;
        taken = done.taken;
        whole = λ h k i.
            Subset-back files (distinct all) done.once within (ground (arith)) k
              (distinct-mem k all ∙ i);
        full = λ h. elim done.stop [
          | inl l ↦ l
          | inr u ↦
              let short =
                length-Subset (distinct all) files (distinct-Distinct all)
                  (λ k i. u k (sym (distinct-mem k all) ∙ i)) in
              absurd (ground (arith))
        ];
        cut = λ h. ground (arith);
      },
    )
