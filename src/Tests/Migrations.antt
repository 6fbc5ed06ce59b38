-- ===== src/Tests/Migrations.antt =====
-- The runner of the migrations at a list of three, whose schema is the list of those that ran.
use virtiz_ai.Common.{ℕ, ◌≤◌, ◌<◌, ◌≡◌, refl, List, [], ◌∷◌, arith, All, max}
use virtiz_ai.Migrations.{Migration, Connection, max_version, migrate_from, apply_migrations}
use virtiz_ai.Migrations.Staged.{apply_migrations_staged}
use virtiz_ai.Migrations.Reached.{changed, apply_migrations_reaches, schema-apply_migrations}

abbrev adds : ℕ → Migration (List ℕ)
adds v = record { version = v; change = λ s. v ∷ s }

abbrev three : List (Migration (List ℕ))
three = adds 1 ∷ adds 2 ∷ adds 3 ∷ []

abbrev fresh : Connection (List ℕ)
fresh = record { schema = []; versions = [] }

up_to_two : (apply_migrations 2 three fresh).0.schema ≡ 2 ∷ 1 ∷ []
unfolding apply_migrations migrate_from
up_to_two = refl

apply_migrations_staged_example :
    apply_migrations 9 three (apply_migrations 2 three fresh).0 ≡ apply_migrations 9 three fresh
apply_migrations_staged_example = apply_migrations_staged 2 9 (omega arith) three fresh

abbrev growing : All (λ (n : Migration (List ℕ)). 1 < n.version) (adds 2 ∷ adds 3 ∷ [])
growing = (omega arith, (omega arith, tt))

apply_migrations_reaches_instance :
    let version = (apply_migrations 2 three fresh).1 in
    All (λ m. m.version ≤ 2 → m.version ≤ version) three
    × (max_version fresh.versions ≤ version)
    × (version ≤ max (max_version fresh.versions) 2)
apply_migrations_reaches_instance =
    apply_migrations_reaches 2 three fresh (growing, ((omega arith, tt), (tt, tt)))

schema-apply_migrations_instance : (apply_migrations 2 three fresh).0.schema ≡ changed 2 0 three []
schema-apply_migrations_instance =
    schema-apply_migrations 2 three fresh (growing, ((omega arith, tt), (tt, tt)))
