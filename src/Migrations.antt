-- ===== src/Migrations.antt =====
-- virtizai_core/migrations.py: `apply_migrations`. The migrations are SQL and stay a parameter: a migration is a
-- function on the schema, and `MIGRATIONS` an argument. A negative ceiling, below which no version lies,
-- acts as 0.
pub mod Staged
pub mod Reached
use virtiz_ai.Common.{
  ℕ, Bool, true, false, List, [], ◌∷◌, if◌then◌else◌, ltb, leb, nat_eq, max, any_of,
}

pub record Migration (S : Type 0) : Type 0 where
  pub version : ℕ
  pub change : S → S

-- the schema, and the rows of `schema_migrations`
pub record Connection (S : Type 0) : Type 0 where
  pub schema : S
  pub versions : List ℕ

-- SELECT COALESCE(MAX(version), 0)
abbrev pub max_version : List ℕ → ℕ
max_version [] = 0
max_version (v ∷ vs) = max v (max_version vs)

-- INSERT OR IGNORE
abbrev pub insert_version : ℕ → List ℕ → List ℕ
insert_version v vs = if any_of (nat_eq v) vs then vs else v ∷ vs

module _ {S : Type 0} where
  abbrev pub migrated : Migration S → Connection S → Connection S
  migrated m c = record {
    schema = m.change c.schema;
    versions = insert_version m.version c.versions;
  }

  -- the loop, with the version reached
  unfoldable pub migrate_from : ℕ → List (Migration S) → ℕ → Connection S → Connection S × ℕ
  migrate_from ceiling [] current c = (c, current)
  migrate_from ceiling (m ∷ ms) current c =
      if ltb ceiling m.version
      then (c, current)
      else if leb m.version current
      then migrate_from ceiling ms current c
      else migrate_from ceiling ms m.version (migrated m c)

  unfoldable pub apply_migrations : ℕ → List (Migration S) → Connection S → Connection S × ℕ
  unfolding migrate_from
  apply_migrations ceiling ms c = migrate_from ceiling ms (max_version c.versions) c
