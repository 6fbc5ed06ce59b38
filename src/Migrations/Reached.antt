-- ===== src/Migrations/Reached.antt =====
-- Which migrations have run once an upgrade ends.
use virtiz_ai.Common.{
  ℕ, ◌≤◌, ◌<◌, ◌≡◌, refl, true, List, [], ◌∷◌, arith, if_ind, ltb, leb, leb→le, ltb→lt, All,
  All-weaken, max, if◌then◌else◌, sym, ◌∙◌,
}
use virtiz_ai.Migrations.{
  Migration, Connection, max_version, migrated, migrate_from, apply_migrations,
}
use virtiz_ai.Migrations.Staged.{migrate_from-le}

-- the versions of the migrations grow along the list
abbrev pub IsIncreasing : {S : Type 0} → List (Migration S) → Type 0
IsIncreasing [] = Unit
IsIncreasing (m ∷ ms) = All (λ n. m.version < n.version) ms × IsIncreasing ms

-- the changes of the migrations above `current` up to `ceiling`, one after the other
abbrev pub changed : {S : Type 0} → ℕ → ℕ → List (Migration S) → S → S
changed ceiling current [] s = s
changed ceiling current (m ∷ ms) s =
    changed ceiling current ms
      (if ltb current m.version then (if leb m.version ceiling then m.change s else s) else s)

module _ {S : Type 0} (ceiling : ℕ) where
  abbrev Within : ℕ → List (Migration S) → Type 0
  Within version ms = All (λ m. m.version ≤ ceiling → m.version ≤ version) ms

  above_ceiling :
      (m : Migration S) (ms : List (Migration S)) (version : ℕ)
      → ceiling < m.version
      → All (λ (n : Migration S). m.version < n.version) ms
      → Within version (m ∷ ms)
  above_ceiling m ms version h above = (
    λ k. absurd (omega (arith, h, k)),
    All-weaken (λ (n : Migration S). m.version < n.version)
        (λ (n : Migration S). n.version ≤ ceiling → n.version ≤ version) ms
        (λ n f k. absurd (omega (arith, h, f, k))) above,
  )

  migrate_from-Within :
      (ms : List (Migration S)) (current : ℕ) (c : Connection S)
      → IsIncreasing ms
      → Within (migrate_from ceiling ms current c).1 ms
  unfolding migrate_from
  migrate_from-Within [] current c h = tt
  migrate_from-Within (m ∷ ms) current c h =
      let P : Connection S × ℕ → Type 0 = λ s. Within s.1 (m ∷ ms) in
      if_ind P (ltb ceiling m.version) _ _
        (λ over. above_ceiling m ms current (ltb→lt _ _ over) h.0)
        (λ _.
          if_ind P (leb m.version current) _ _
            (λ old. (
              λ _. omega (arith, leb→le _ _ old, migrate_from-le ceiling ms current c),
              migrate_from-Within ms current c h.1,
            ))
            (λ _. (
              λ _. migrate_from-le ceiling ms m.version (migrated m c),
              migrate_from-Within ms m.version (migrated m c) h.1,
            )))

  migrate_from-bound :
      (ms : List (Migration S)) (current : ℕ) (c : Connection S)
      → (migrate_from ceiling ms current c).1 ≤ max current ceiling
  unfolding migrate_from
  migrate_from-bound [] current c = omega arith
  migrate_from-bound (m ∷ ms) current c =
      ground
        (arith, migrate_from-bound ms current c, migrate_from-bound ms m.version (migrated m c))

  -- An upgrade reaches every version that the ceiling admits, and none beyond the ceiling that the database did
  -- not have, and never goes back.
  pub apply_migrations_reaches :
      (ms : List (Migration S)) (c : Connection S)
      → IsIncreasing ms
      → let version = (apply_migrations ceiling ms c).1 in
        All (λ m. m.version ≤ ceiling → m.version ≤ version) ms
        × (max_version c.versions ≤ version)
        × (version ≤ max (max_version c.versions) ceiling)
  unfolding apply_migrations
  apply_migrations_reaches ms c h = (
    migrate_from-Within ms (max_version c.versions) c h,
    migrate_from-le ceiling ms (max_version c.versions) c,
    migrate_from-bound ms (max_version c.versions) c,
  )

  -- nothing more runs beyond the ceiling
  changed-above :
      (ms : List (Migration S)) (current : ℕ) (s : S)
      → All (λ (n : Migration S). ceiling < n.version) ms
      → changed ceiling current ms s ≡ s
  changed-above [] current s h = refl
  changed-above (m ∷ ms) current s h = ground (arith, h.0, changed-above ms current s h.1)

  -- with larger versions only, a version that is passed makes no difference
  changed-from :
      (ms : List (Migration S)) (current v : ℕ) (s : S)
      → current ≤ v
      → All (λ (n : Migration S). v < n.version) ms
      → changed ceiling v ms s ≡ changed ceiling current ms s
  changed-from [] current v s k h = refl
  changed-from (m ∷ ms) current v s k h =
      ground (
        arith,
        h.0,
        changed-from ms current v s k h.1,
        changed-from ms current v (m.change s) k h.1,
      )

  all_above :
      (m : Migration S) (ms : List (Migration S))
      → ltb ceiling m.version ≡ true
      → All (λ (n : Migration S). m.version < n.version) ms
      → All (λ (n : Migration S). ceiling < n.version) (m ∷ ms)
  all_above m ms over h = (
    ltb→lt _ _ over,
    All-weaken (λ (n : Migration S). m.version < n.version)
        (λ (n : Migration S). ceiling < n.version) ms (λ n k. ground (arith, over, k)) h,
  )

  schema-migrate :
      (ms : List (Migration S)) (current : ℕ) (c : Connection S)
      → IsIncreasing ms
      → (migrate_from ceiling ms current c).0.schema ≡ changed ceiling current ms c.schema
  unfolding migrate_from
  schema-migrate [] current c h = refl
  schema-migrate (m ∷ ms) current c h =
      let P : Connection S × ℕ → Type 0 =
        λ s. s.0.schema ≡ changed ceiling current (m ∷ ms) c.schema in
      if_ind P (ltb ceiling m.version) _ _
        (λ over. sym (changed-above (m ∷ ms) current c.schema (all_above m ms over h.0)))
        (λ under.
          if_ind P (leb m.version current) _ _
            (λ old. schema-migrate ms current c h.1 ∙ ground arith)
            (λ new.
              schema-migrate ms m.version (migrated m c) h.1
              ∙ changed-from ms current m.version (m.change c.schema) (ground arith) h.0
              ∙ ground arith))

  -- An upgrade changes the schema by the migrations whose versions lie above the recorded one and up to the
  -- ceiling, each once and in their order.
  pub schema-apply_migrations :
      (ms : List (Migration S)) (c : Connection S)
      → IsIncreasing ms
      → (apply_migrations ceiling ms c).0.schema
        ≡ changed ceiling (max_version c.versions) ms c.schema
  unfolding apply_migrations
  schema-apply_migrations ms c h = schema-migrate ms (max_version c.versions) c h
