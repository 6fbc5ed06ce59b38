-- ===== src/DevTools/Listed.antt =====
-- virtizai_core/dev_tools.py: what `_discover_files` returns, and when it fails.
use virtiz_ai.Common.{
  ℕ, String, ◌≡◌, sym, ◌⊎◌, inl, inr, Bool, some, List, [], ◌∷◌, if◌then◌else◌, Bool-cases, ap,
  take, ok, raised, ◌>>=◌, ◌||◌, Option-cases, Result-cases, raised-injective, bind-raised, bind-ok,
  ensure-ok, ensure_some-ok, some, true, false, Among, arith, refl, ◌∙◌, eq_refl, ◌==◌, ◌++◌,
  eq_iff,
}
use virtiz_ai.Common.Sort.{sort}
use virtiz_ai.Common.Orders.{text_order}
use virtiz_ai.DevTools.{Below, resolved, FilePath, Host, Failure, is_parent, same}
use virtiz_ai.DevTools.Discover.{
  listed, raw_candidates, candidates, per_root, escapes, discover_files, relative_to, joined,
  is_listed, shown, distinct, returned,
}
use virtiz_ai.DevTools.Inspected.{parent_or_same-Below}
use mathlib.Core.Path.{subst}
use virtiz_ai.DevTools.Sample.{IsSample, fair-IsSample}

same_refl : (p : FilePath) → same p p ≡ true
same_refl [] = refl
same_refl (x ∷ xs) = ground (arith, eq_refl x, same_refl xs)

Below-is_parent :
    (root rest : FilePath) → (is_parent root (root ++ rest) || same (root ++ rest) root) ≡ true
Below-is_parent [] [] = refl
Below-is_parent [] (y ∷ ys) = refl
Below-is_parent (x ∷ xs) rest = ground (arith, eq_refl x, Below-is_parent xs rest)

-- the test of the code fails for what lies outside only
outside_root : (root p : FilePath) → (is_parent root p || same p root) ≡ false → Below root p → ⊥
outside_root root p h (rest, e) =
    absurd (cc (sym h ∙ ap (λ z. is_parent root z || same z root) e ∙ Below-is_parent root rest))

relative_to-append : (root rest : FilePath) → relative_to root (root ++ rest) ≡ some rest
relative_to-append [] rest = refl
relative_to-append (x ∷ xs) rest = ground (arith, eq_refl x, relative_to-append xs rest)

relative_to-Below : (root p rest : FilePath) → relative_to root p ≡ some rest → Below root p
relative_to-Below [] p rest h = (p, refl)
relative_to-Below (x ∷ xs) [] rest h = absurd (cc)
relative_to-Below (x ∷ xs) (y ∷ ys) rest h = elim (Bool-cases (x == y)) [
  | inr e ↦ absurd (cc (rw e at h))
  | inl e ↦ let (r, q) = relative_to-Below xs ys rest (rw e at h) in (r, ground (arith, eq_iff x y))
]

module _ (host : Host) (is_file : FilePath → Bool) (workspace : FilePath) where
  -- a file outside of the workspace
  abbrev IsStray : FilePath → Type 0
  IsStray p = (is_file p ≡ true) × (Below workspace p → ⊥)

  -- a root that lies outside of the workspace, or below which a file does, and the contrary
  abbrev pub IsEscaping : String → Type 0
  IsEscaping raw =
      (Below workspace (resolved host workspace raw) → ⊥)
      ⊎ ((p : FilePath) × Among p
            (raw_candidates host is_file workspace (resolved host workspace raw))
          × IsStray p)

  pub record IsInside (raw : String) : Type 0 where
    pub root : Below workspace (resolved host workspace raw)
    pub all_files :
        (p : FilePath)
        → Among p (raw_candidates host is_file workspace (resolved host workspace raw))
        → is_file p ≡ true
        → Below workspace p

  listed_raised :
      (ps : List FilePath) (e : Failure)
      → listed host is_file workspace ps ≡ raised e
      → (e ≡ escapes) × ((p : FilePath) × Among p ps × IsStray p)
  listed_raised [] e h = absurd (cc)
  listed_raised (p ∷ ps) e h = elim (Bool-cases (is_file p)) [
    | inr f ↦ let (q, (x, i, k)) = listed_raised ps e (rw f at h) in (q, (x, inr i, k))
    | inl f ↦ elim (Option-cases (relative_to workspace p)) [
      | inl n ↦ (
        sym (raised-injective {A = List String} escapes e (rw (f, n) at h)),
        (
          p,
          inl refl,
          (
            f,
            λ b.
                absurd
                  (cc (sym n ∙ ap (relative_to workspace) b.1 ∙ relative_to-append workspace b.0)),
          ),
        ),
      )
      | inr (r, n) ↦
          elim (bind-raised (listed host is_file workspace ps)
            (λ names. ok (if is_listed r then shown r ∷ names else names)) e (rw (f, n) at h)) [
              | inl k ↦ let (q, (x, i, s)) = listed_raised ps e k in (q, (x, inr i, s))
              | inr (names, i, k) ↦ absurd (cc)
            ]
    ]
  ]

  listed_ok :
      (ps : List FilePath) (names : List String)
      → listed host is_file workspace ps ≡ ok names
      → (p : FilePath) → Among p ps
      → is_file p ≡ true
      → Below workspace p
  listed_ok [] names h p i k = absurd i
  listed_ok (x ∷ xs) names h p i k = elim (Bool-cases (is_file x)) [
    | inr f ↦ elim i [
      | inl e ↦ absurd (cc (sym f ∙ ap is_file e ∙ k))
      | inr j ↦ listed_ok xs names (rw f at h) p j k
    ]
    | inl f ↦
        let (r, n, h1) = ensure_some-ok (relative_to workspace x) escapes _ names (rw f at h) in
        let (rest, l, _) = bind-ok (listed host is_file workspace xs) _ names h1 in
        elim i [
          | inl e ↦ relative_to-Below workspace p r (ap (relative_to workspace) (sym e) ∙ n)
          | inr j ↦ listed_ok xs rest l p j k
        ]
  ]

  candidates_raised :
      (raw : String) (e : Failure)
      → candidates host is_file workspace raw ≡ raised e
      → (e ≡ escapes) × IsEscaping raw
  candidates_raised raw e h =
      let root = resolved host workspace raw in
      elim (Bool-cases (is_parent workspace root || same root workspace)) [
        | inr f ↦ (
          sym (raised-injective {A = List String} escapes e (rw f at h)),
          inl (outside_root workspace root f),
        )
        | inl f ↦
            elim (bind-raised
              (listed host is_file workspace (raw_candidates host is_file workspace root))
              (λ names. ok (sort text_order (distinct names))) e (rw f at h)) [
                | inl k ↦
                    let (q, s) = listed_raised (raw_candidates host is_file workspace root) e k in
                    (q, inr s)
                | inr (names, i, k) ↦ absurd (cc)
              ]
      ]

  candidates-IsInside :
      (raw : String) (names : List String)
      → candidates host is_file workspace raw ≡ ok names
      → IsInside raw
  candidates-IsInside raw names h =
      let root = resolved host workspace raw in
      let (f, h1) =
        ensure-ok (is_parent workspace root || same root workspace) escapes
          (listed host is_file workspace (raw_candidates host is_file workspace root) >>= λ names.
            ok (sort text_order (distinct names)))
          names h in
      let (all, l, _) =
        bind-ok (listed host is_file workspace (raw_candidates host is_file workspace root))
          (λ names. ok (sort text_order (distinct names))) names h1 in
      record {
        root = parent_or_same-Below workspace root f;
        all_files = listed_ok (raw_candidates host is_file workspace root) all l;
      }

  per_root_raised :
      (rs : List String) (e : Failure)
      → per_root host is_file workspace rs ≡ raised e
      → (e ≡ escapes) × ((raw : String) × Among raw rs × IsEscaping raw)
  per_root_raised [] e h = absurd (cc)
  per_root_raised (r ∷ rs) e h =
      elim (bind-raised (candidates host is_file workspace r)
        (λ names. per_root host is_file workspace rs >>= λ others. ok (names ∷ others)) e h) [
          | inl k ↦ let (q, s) = candidates_raised r e k in (q, (r, inl refl, s))
          | inr (names, i, k) ↦
              elim (bind-raised (per_root host is_file workspace rs) (λ others. ok (names ∷ others))
                e k) [
                  | inl l ↦ let (q, (x, j, s)) = per_root_raised rs e l in (q, (x, inr j, s))
                  | inr (others, j, l) ↦ absurd (cc)
                ]
        ]

  per_root-IsInside :
      (rs : List String) (queues : List (List String))
      → per_root host is_file workspace rs ≡ ok queues
      → (raw : String) → Among raw rs
      → IsInside raw
  per_root-IsInside [] queues h raw i = absurd i
  per_root-IsInside (r ∷ rs) queues h raw i =
      let (names, c, h1) =
        bind-ok (candidates host is_file workspace r)
          (λ names. per_root host is_file workspace rs >>= λ others. ok (names ∷ others)) queues
          h in
      let (others, o, _) =
        bind-ok (per_root host is_file workspace rs) (λ others. ok (names ∷ others)) queues h1 in
      elim i [
        | inl e ↦ subst IsInside e (candidates-IsInside r names c)
        | inr j ↦ per_root-IsInside rs others o raw j
      ]

  pub discover_files-IsSample :
      (roots : List String) (limit : ℕ)
      → ((discover_files host is_file workspace roots limit ≡ some (raised escapes))
          × ((raw : String) × Among raw (take 8 roots) × IsEscaping raw))
        ⊎ (((raw : String) → Among raw (take 8 roots) → IsInside raw)
            × ((queues : List (List String)) × (files : List String) × (truncated : Bool)
                × (per_root host is_file workspace (take 8 roots) ≡ ok queues)
                × (discover_files host is_file workspace roots limit ≡ some (ok (files, truncated)))
                × IsSample limit (joined queues) files truncated))
  unfolding discover_files
  discover_files-IsSample roots limit =
      elim (Result-cases (per_root host is_file workspace (take 8 roots))) [
        | inl (queues, e) ↦
            let (files, truncated, r, i) = fair-IsSample limit queues in
            inr (
              per_root-IsInside (take 8 roots) queues e,
              (queues, files, truncated, e, rw (discover_files, e) (ap returned r), i),
            )
        | inr (f, e) ↦
            let (q, s) = per_root_raised (take 8 roots) f e in
            inl (rw (discover_files, e) (ap (λ z. some (raised z)) q), s)
      ]
