-- ===== src/Migrations/Staged.antt =====
-- An upgrade in stages does what one upgrade does.
use virtiz_ai.Common.{
  ℕ, ◌≤◌, ◌≡◌, refl, sym, ap, ◌∙◌, inl, inr, true, false, List, [], ◌∷◌, arith, if_ind, ltb, leb,
  leb→le, Bool-cases, nat_eq, any_of, max,
}
use mathlib.Core.Path.{subst}
use virtiz_ai.Migrations.{
  Migration, Connection, max_version, insert_version, migrated, migrate_from, apply_migrations,
}

listed-le : (v : ℕ) (vs : List ℕ) → any_of (nat_eq v) vs ≡ true → v ≤ max_version vs
listed-le v [] h = cc
listed-le v (w ∷ vs) h = ground (arith, listed-le v vs)

max_version-insert :
    (v : ℕ) (vs : List ℕ) → max_version (insert_version v vs) ≡ max v (max_version vs)
max_version-insert v vs = ground (arith, listed-le v vs)

module _ {S : Type 0} (ceiling : ℕ) where
  -- the version never falls
  pub migrate_from-le :
      (ms : List (Migration S)) (current : ℕ) (c : Connection S)
      → current ≤ (migrate_from ceiling ms current c).1
  unfolding migrate_from
  migrate_from-le [] current c = omega arith
  migrate_from-le (m ∷ ms) current c =
      ground (arith, migrate_from-le ms current c, migrate_from-le ms m.version (migrated m c))

  -- the version reached is the one that a later call reads
  pub migrate_from-max_version :
      (ms : List (Migration S)) (current : ℕ) (c : Connection S)
      → max_version c.versions ≡ current
      → max_version (migrate_from ceiling ms current c).0.versions
        ≡ (migrate_from ceiling ms current c).1
  unfolding migrate_from
  migrate_from-max_version [] current c h = h
  migrate_from-max_version (m ∷ ms) current c h =
      let P : Connection S × ℕ → Type 0 = λ s. max_version s.0.versions ≡ s.1 in
      if_ind P (ltb ceiling m.version) _ _ (λ _. h)
        (λ _.
          if_ind P (leb m.version current) _ _ (λ _. migrate_from-max_version ms current c h)
            (λ above.
              migrate_from-max_version ms m.version (migrated m c)
                (max_version-insert m.version c.versions ∙ ground (arith, above, h))))

  skipped :
      (m : Migration S) (ms : List (Migration S)) (current : ℕ) (c : Connection S)
      → ltb ceiling m.version ≡ false
      → m.version ≤ current
      → migrate_from ceiling (m ∷ ms) current c ≡ migrate_from ceiling ms current c
  unfolding migrate_from
  skipped m ms current c h k = ground arith

  carried_out :
      (m : Migration S) (ms : List (Migration S)) (current : ℕ) (c : Connection S)
      → ltb ceiling m.version ≡ false
      → leb m.version current ≡ false
      → migrate_from ceiling (m ∷ ms) current c ≡ migrate_from ceiling ms m.version (migrated m c)
  unfolding migrate_from
  carried_out m ms current c h k = ground arith

  stopped :
      (m : Migration S) (ms : List (Migration S)) (current : ℕ) (c : Connection S)
      → ltb ceiling m.version ≡ true
      → migrate_from ceiling (m ∷ ms) current c ≡ (c, current)
  unfolding migrate_from
  stopped m ms current c h = rw h refl

still_below : (low high : ℕ) → low ≤ high → (v : ℕ) → ltb low v ≡ false → ltb high v ≡ false
still_below low high below v h = ground arith

no_migrations :
    {S : Type 0} (high low current : ℕ) (c : Connection S)
    → migrate_from high [] (migrate_from low [] current c).1 (migrate_from low [] current c).0
      ≡ migrate_from high [] current c
unfolding migrate_from
no_migrations high low current c = refl

module _ {S : Type 0} (low high : ℕ) (below : low ≤ high) where
  -- the second pass over a migration, by what the first did with it
  second_pass :
      (ms : List (Migration S)) (current : ℕ) (c : Connection S)
      → migrate_from high ms (migrate_from low ms current c).1 (migrate_from low ms current c).0
        ≡ migrate_from high ms current c
  second_pass [] current c = no_migrations high low current c
  second_pass (m ∷ ms) current c = elim (Bool-cases (ltb low m.version)) [
    | inl over ↦ subst P (sym (stopped low m ms current c over)) refl
    | inr under ↦ elim (Bool-cases (leb m.version current)) [
      | inl old ↦
          let k = leb→le _ _ old in
          let first_pass = skipped low m ms current c under k in
          subst P (sym first_pass) (
            skipped high m ms _ _ (still_below low high below m.version under)
              (omega (arith, k, migrate_from-le low ms current c))
            ∙ second_pass ms current c
            ∙ sym (skipped high m ms current c (still_below low high below m.version under) k))
      | inr new ↦
          let first_pass = carried_out low m ms current c under new in
          subst P (sym first_pass) (
            skipped high m ms _ _ (still_below low high below m.version under)
              (migrate_from-le low ms m.version (migrated m c))
            ∙ second_pass ms m.version (migrated m c)
            ∙ sym
                (carried_out high m ms current c (still_below low high below m.version under) new))
    ]
  ]
    where
      P : Connection S × ℕ → Type 0
      P s = migrate_from high (m ∷ ms) s.1 s.0 ≡ migrate_from high (m ∷ ms) current c

  -- Upgrading to a ceiling and then to a higher one gives the schema, the recorded versions and the version that
  -- one upgrade to the higher ceiling gives; with equal ceilings, a second upgrade changes nothing.
  pub apply_migrations_staged :
      (ms : List (Migration S)) (c : Connection S)
      → apply_migrations high ms (apply_migrations low ms c).0 ≡ apply_migrations high ms c
  unfolding apply_migrations
  apply_migrations_staged ms c =
      ap (λ v. migrate_from high ms v (migrate_from low ms (max_version c.versions) c).0)
        (migrate_from-max_version low ms (max_version c.versions) c refl)
      ∙ second_pass ms (max_version c.versions) c
