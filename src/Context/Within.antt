-- ===== src/Context/Within.antt =====
-- A bundle stays within its budget.
use virtiz_ai.Common.{
  ℕ, String, ◌≡◌, refl, ap, inl, inr, ◌&&◌, Option, some, List, [], ◌∷◌, ◌++◌, ◌+◌, ◌-◌, ◌≤◌, arith,
  Bool-cases, Option-cases, leb, ltb,
}
use mathlib.Core.Path.{subst}
use mathlib.Core.Option.{some-injective}
use virtiz_ai.Common.Json.{Members}
use virtiz_ai.Context.{
  Budget, MemoryItem, Memory, Tables, Library, budget, selected, tokens_of, mentions, memory_rows,
  sum_of, trim, Message, Row,
}
use virtiz_ai.Context.Retrieve.{
  Package, Bundle, Request, package_cost, message_cost, memory_cost, row_cost, tool_cost, trimmed,
  gathered, retrieve, usage_of, total_of, bundle_of, build_of, recorded,
}

module _ {A : Type 0} (cost : A → ℕ) where
  -- what the trimming of a category gives: its last items, as many as fit
  pub record Trims (remaining : ℕ) (xs ys : List A) : Type 0 where
    pub dropped : List A
    pub kept : xs ≡ dropped ++ ys
    pub fits : sum_of cost ys ≤ remaining

  trim-Trims : (remaining : ℕ) (xs : List A) → Trims remaining xs (trim cost remaining xs).0
  unfolding trim
  trim-Trims remaining [] = record { dropped = []; kept = refl; fits = omega arith }
  trim-Trims remaining (x ∷ xs) = elim (Bool-cases (ltb remaining (sum_of cost (x ∷ xs)))) [
    | inl e ↦
        let t = trim-Trims remaining xs in
        rw (trim, e)
          (record { dropped = x ∷ t.dropped; kept = ap (λ z. x ∷ z) t.kept; fits = t.fits })
    | inr e ↦ rw (trim, e) (record { dropped = []; kept = refl; fits = ground arith })
  ]

selected-fits :
    (l : Library) (limit : ℕ) (query : Option String) (used : ℕ) (ms : List MemoryItem)
    → used ≤ limit
    → used + sum_of (λ m. m.tokens) (selected l limit query used ms) ≤ limit
unfolding selected
selected-fits l limit query used [] h = omega arith
selected-fits l limit query used (m ∷ ms) h =
    elim (Bool-cases (mentions l query m.content && leb (used + tokens_of m) limit)) [
      | inr e ↦ rw (selected, e) (selected-fits l limit query used ms h)
      | inl e ↦
          let k : used + tokens_of m ≤ limit = ground arith in
          let r = selected-fits l limit query (used + tokens_of m) ms k in
          rw (selected, e) (omega arith)
    ]

sum_of-suffix :
    {A : Type 0} (cost : A → ℕ) (xs ys : List A) → sum_of cost ys ≤ sum_of cost (xs ++ ys)
sum_of-suffix cost [] ys = omega arith
sum_of-suffix cost (x ∷ xs) ys = omega (arith, sum_of-suffix cost xs ys)

module _ (l : Library) where
  -- a package cut down to a number of tokens
  pub record Cuts (limit : ℕ) (p q : Package) : Type 0 where
    pub conversation : (dropped : List Message) × (p.conversation ≡ dropped ++ q.conversation)
    pub memory : (dropped : List Memory) × (p.memory ≡ dropped ++ q.memory)
    pub projects : (dropped : List Row) × (p.projects ≡ dropped ++ q.projects)
    pub environments : (dropped : List Row) × (p.environments ≡ dropped ++ q.environments)
    pub tools : (dropped : List Members) × (p.tools ≡ dropped ++ q.tools)
    pub fits : package_cost l q ≤ limit

  trimmed-Cuts : (limit : ℕ) (p : Package) → Cuts limit p (trimmed l limit p).0
  unfolding trimmed
  trimmed-Cuts limit p =
      let a = trim-Trims (message_cost l) limit p.conversation in
      let limit_1 =
        limit - sum_of (message_cost l) (trim (message_cost l) limit p.conversation).0 in
      let b = trim-Trims (memory_cost l) limit_1 p.memory in
      let limit_2 = limit_1 - sum_of (memory_cost l) (trim (memory_cost l) limit_1 p.memory).0 in
      let c = trim-Trims (row_cost l) limit_2 p.projects in
      let limit_3 = limit_2 - sum_of (row_cost l) (trim (row_cost l) limit_2 p.projects).0 in
      let d = trim-Trims (row_cost l) limit_3 p.environments in
      let limit_4 = limit_3 - sum_of (row_cost l) (trim (row_cost l) limit_3 p.environments).0 in
      let e = trim-Trims (tool_cost l) limit_4 p.tools in
      record {
        conversation = (a.dropped, a.kept);
        memory = (b.dropped, b.kept);
        projects = (c.dropped, c.kept);
        environments = (d.dropped, d.kept);
        tools = (e.dropped, e.kept);
        fits =
            let f1 = a.fits in
            let f2 = b.fits in let f3 = c.fits in let f4 = d.fits in let f5 = e.fits in omega arith;
      }

  -- a bundle that keeps to the budget of its request
  pub record IsWithin (t after : Tables) (r : Request) (b : Bundle) : Type 0 where
    pub limits : Budget
    pub found : budget t r.budget_name ≡ some limits
    pub cuts : Cuts limits.max_tokens (gathered l t r limits) b.contents
    pub memory : b.category_tokens.memory ≤ limits.memory_tokens
    pub counted : b.used_tokens ≡ total_of (usage_of l b.contents)
    pub persisted : after ≡ record t { builds = build_of r b ∷ t.builds }

  bundle-IsWithin :
      (t : Tables) (r : Request) (limits : Budget)
      → budget t r.budget_name ≡ some limits
      → (let b = bundle_of l r limits (trimmed l limits.max_tokens (gathered l t r limits)) in
          IsWithin t (recorded r t b).0 r b)
  bundle-IsWithin t r limits e =
      let g = gathered l t r limits in
      let c = trimmed-Cuts limits.max_tokens g in
      let m =
        selected-fits l limits.memory_tokens r.query 0 (memory_rows l t r.user_id r.project_id)
          (omega arith) in
      let (dropped, q) = c.memory in
      let s = sum_of-suffix (λ z. z.tokens) dropped (trimmed l limits.max_tokens g).0.memory in
      record {
        limits = limits;
        found = e;
        cuts = c;
        memory = let k = ap (sum_of (λ z. z.tokens)) q in omega arith;
        counted = refl;
        persisted = refl;
      }

  -- A bundle that is returned keeps of each category of what was gathered the last items, and all that it keeps takes
  -- at most the tokens of the budget, as it is dumped; its memory counts at most the tokens that the
  -- budget has for memory; the tokens that it reports are the sum of its categories, and the call only
  -- adds the record of this bundle to the tables.
  pub retrieve-IsWithin :
      (r : Request) (t : Tables) (b : Bundle)
      → (retrieve l r t).1 ≡ some b
      → IsWithin t (retrieve l r t).0 r b
  unfolding retrieve
  retrieve-IsWithin r t b h = elim (Option-cases (budget t r.budget_name)) [
    | inl e ↦ absurd (cc (rw (retrieve, e) at h))
    | inr (limits, e) ↦
        let q = some-injective _ b (rw (retrieve, e) at h) in
        rw (retrieve, e)
          (subst
            (IsWithin t
              (recorded r t
                (bundle_of l r limits (trimmed l limits.max_tokens (gathered l t r limits)))).0
              r)
            q (bundle-IsWithin t r limits e))
  ]
